-- ===== src/Lib.antt =====
-- Verification library of qblaze, a simulator of quantum circuits that keeps a sparse state vector: a
-- sorted list of elements, each a basis state (its bits) with an amplitude. Gates that map each basis
-- state to one basis state are queued and compiled together before they run over the elements.
--
-- The parts of the program that are modelled, and where:
--   Angle          src/angle.rs: angles as 64-bit fractions of a turn. Angle/Group has the laws of
--                  the arithmetic and the comparisons, Angle/Round those of `Angle::round`, Angle/Mid
--                  those of `Angle::mid`.
--   QubitSet       src/qubit_set.rs: growable bit sets. QubitSet/Iter has `QubitSetIter`,
--                  QubitSet/Laws and QubitSet/Algebra the meaning of the operations through
--                  `contains`, QubitSet/Traversal that of the iterator and of `len`.
--   Control        src/qubit.rs: packed control items and sorted controls. Control/Items is about one
--                  item, Control/Meaning about what a control asks of a register, Control/Collect
--                  about `from_iter`, Control/Lookup about `with_qubit` and `without_qubit`.
--   Sfree          src/sfree/: Sfree/Gates has the gates and the compiled programs, Sfree/Ops the
--                  `Queue`, Sfree/Split the functions up to `try_partition`, Sfree/Emit the `push_*`
--                  functions and `Stat`, Sfree/Compile `compile_seq` and `Queue::compile`.
--                  Sfree/Meaning says what queued operations and compiled programs do to an element.
--   Bitset         src/bitset.rs: bit sets of a fixed number of words, Bitset/Laws their bits, and
--                  Bitset/Gates the gates of src/sfree/gates.rs on them.
--   Util           src/util.rs: Util/Merge has the laws of the merges, Util/Boundaries those of
--                  `merge_boundaries`, Util/Chunks those of `merge_chunk_pairs`.
--   Statevector    src/statevector.rs and src/u4.rs: the state as two sorted lists, and the passes over
--                  them. Statevector/Steps has the methods that change the state, Statevector/Plan the
--                  sizes of the chunks. Statevector/Key is about the order of the elements,
--                  Statevector/Sync about counting passes, Statevector/Valid states the invariant,
--                  Statevector/Apart, Dense, Gate, Preserve and Invariant are about it,
--                  Statevector/Amplitude and Lookup about amplitudes, Statevector/Chunks about sizes.
--   U3             src/u3.rs: single-qubit gates. U3/Normal is about their normal form, U3/Compose
--                  about their composition.
--   Simulator      src/simulator.rs: the queued gates. Simulator/Preflush has `_preflush` and its
--                  trait, Simulator/Gates the controlled gates and `flush`, Simulator/Measure the
--                  measurements; Simulator/Account is about the calls that `_flush` makes, pass by
--                  pass in Simulator/Account/Passes, Finish and Flush.
--   Sort           src/shamelessly_stolen_from_libstd.rs: its insertion sort, with Sort/Laws.
--   Config         src/config.rs: the configuration and its default.
--   Complex        src/complex.rs over an interface to its scalars, Complex/Laws its operators.
--   Arena          src/arena.rs: the addresses of the bump allocator, Arena/Laws their bounds.
-- Base holds what the modules share: Boolean tests, lists under native indices, 64-bit words bit by
-- bit, and `Run`, the results of code that may panic. Examples runs the theorems on small inputs.
--
-- How the parts interact: the queue collects operations under controls and the qubits that they read
-- and write. `compile` walks the operations with a set of toggled qubits and a global phase that it
-- has not emitted yet; it splits the operations on a control qubit where that pays, compiles the two
-- branches and joins them. The correspondence is one definition per function, with the same name
-- where it is free (`queue_x`, `queue_len` and `clear_queue` are `Queue::x`, `len` and `clear`), and
-- the `&mut` arguments returned: `Out` is the vector of compiled operations with `Stat`, `Acc` the
-- local variables of `compile_seq`.
--
-- The simulator keeps a queued gate per qubit beside that queue. Before an operation `_preflush` says
-- what it can make of the gate of each qubit that it uses, and `_flush` applies the gates that stand in
-- its way to the state vector, the queue first where they do not commute with it. The simulator sees the
-- state vector through an interface, `Backend`; the state vector is modelled by itself, its numbers
-- through the interface `Numbers`. A hash map is the list of its entries, in any order.
--
-- Choices of the model: a w-bit integer is a natural number with its wrap-around written out, as
-- in a build without overflow checks. A union
-- of inline and heap storage is the list that its accessor reads. The bits of an element are the
-- function that its bit set stands for. A compiled closure is the data that it closes over, run on one
-- element at a time. Amplitudes are an interface, `Amplitude`, and `IsExact` states exact arithmetic:
-- phases act as the group of angles, and the closed forms of the eighths of a turn are phases. The
-- scores of `eval_control` are kept plus two. The sort and the binary search of the standard library
-- are written out for what is used of them.
--
-- Fuel: `compile_seq` takes one more than the weight of its operations, the number of operations and
-- of control items in them. A partition takes an item from its first operation, so that both branches
-- and the rest weigh less; `Sfree.Compile.Loop` shows that this is enough. The iterator of a set takes
-- one step per bit and one more, and skips at most as many words as there are. The loop of
-- `merge_boundaries` takes one more than the distance of its bounds, which shrinks in every round. The
-- loop of `for_chunks` takes as many rounds as its first divisor, which it lowers down to one at most.
--
-- Not modelled: floating-point code (conversions of angles, polar forms, the general case of
-- `U3::from_yzy`, the matrix of a gate), `perform_sfree`, `export` and `import` of the state vector,
-- `import_dense` and the iterator of the simulator, threads, memory from the operating system, the C
-- interface, and the implementations of clone, drop, hash and formatting. The chunks that threads work
-- on are run as one pass, and whether memory is there is an argument.
pub mod Angle
pub mod Arena
pub mod Base
pub mod Bitset
pub mod Complex
pub mod Config
pub mod Control
mod Examples
pub mod QubitSet
pub mod Sfree
pub mod Simulator
pub mod Sort
pub mod Statevector
pub mod U3
pub mod Util
