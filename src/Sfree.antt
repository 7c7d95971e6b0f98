-- ===== src/Sfree.antt =====
-- `src/sfree/`: gates that map each basis state to one basis state (superposition-free gates), the
-- queue that collects them and the compiler that turns the queue into a program over elements.
pub mod Gates
pub mod Meaning
pub mod Ops
pub mod Split
pub mod Emit
pub mod Compile
