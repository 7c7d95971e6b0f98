-- ===== src/Base/Sets.antt =====
-- Sets of numbers as Boolean functions: the abstract view of the bit sets of the program.
use Prim.Native.Nat.{ℕ}
use mathlib.Core.Bool.{Bool, true, false, not, ◌||◌}
use mathlib.Core.List.{List, [], ◌∷◌}
use qblaze.Base.Tests.{◌==◌}

-- A register or a set of qubits: which bits are one.
abbrev pub Bits : Type 0
Bits = ℕ → Bool

-- Exclusive or in the shape that the tactics split on.
abbrev pub xorb : Bool → Bool → Bool
xorb true b = not b
xorb false b = b

abbrev pub flip : ℕ → Bits → Bits
flip q b r = xorb (q == r) (b r)

abbrev pub flip_all : Bits → Bits → Bits
flip_all t b r = xorb (t r) (b r)

abbrev pub member : ℕ → List ℕ → Bool
member q [] = false
member q (x ∷ xs) = x == q || member q xs
