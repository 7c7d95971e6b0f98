-- ===== src/Control.antt =====
-- `src/qubit.rs`: qubit indices, packed control items and sorted controls. The union of inline and
-- heap storage is the list that `Control::get` reads; `clone`, `drop`, `hash` and `fmt` are not
-- modelled. The standard library's sort and binary search are written out for what is used of them.
pub mod Items
pub mod Lookup
pub mod Collect
pub mod Meaning
use qblaze.Base.{
  ℕ, suc, zero, ◌+◌, ◌-◌, ◌*◌, ◌/◌, ◌%◌, ◌^◌, bit_and, bit_or, bit_xor, Bool, true, false, not,
  ◌&&◌, ◌||◌, Option, none, some, List, [], ◌∷◌, ◌++◌, length, get_or, take, drop, ltb, leb, ◌==◌,
  if◌then◌else◌, Run, ok, panic, out_of_fuel, ◌>>=◌,
}
use Prim.Native.Nat.{compare, Ordering}

abbrev pub Qubit : Type 0
Qubit = ℕ

-- `Qubit::MAX`.
abbrev pub max_index : ℕ
max_index = 62 * 64 - 1

unfoldable pub try_from_index : ℕ → Option Qubit
try_from_index i = if ltb max_index i then none else some i

-- The assertion of `Qubit::from_index`.
unfoldable pub from_index : ℕ → Run Qubit
from_index i = if leb i max_index then ok i else panic

abbrev pub bool_to_u32 : Bool → ℕ
bool_to_u32 true = 1
bool_to_u32 false = 0

abbrev pub ControlItem : Type 0
ControlItem = ℕ

unfoldable pub item : Qubit → Bool → ControlItem
item q v = bit_or (q * 2 ^ 1) (bool_to_u32 v)

unfoldable pub qubit : ControlItem → Qubit
qubit c = c / 2 ^ 1

unfoldable pub value : ControlItem → Bool
value c = not (bit_and c 1 == 0)

unfoldable pub invert : ControlItem → ControlItem
invert c = bit_xor c 1

abbrev pub Control : Type 0
Control = List ControlItem

abbrev pub always : Control
always = []

unfoldable pub single : Qubit → Bool → Control
single q v = item q v ∷ []

-- `two`: the smaller item first.
unfoldable pub two : ControlItem → ControlItem → Control
two a b = if ltb b a then b ∷ a ∷ [] else a ∷ b ∷ []

unfoldable pub is_always : Control → Bool
is_always [] = true
is_always (c ∷ cs) = false

unfoldable pub uses : Control → Qubit → Bool
uses [] q = false
uses (c ∷ cs) q = qubit c == q || uses cs q

-- The result of `slice::binary_search_by`, which on distinct ascending keys has one answer.
pub data Search : Type 0 where
  found : ℕ → Search
  missing : ℕ → Search

abbrev pub later : Search → Search
later (found i) = found (suc i)
later (missing i) = missing (suc i)

unfoldable pub binary_search : Control → Qubit → Search
binary_search [] q = missing 0
binary_search (c ∷ cs) q =
    let rest = later (binary_search cs q) in
    elim (compare (qubit c) q) [
      | Ordering.lt ↦ rest
      | Ordering.eq ↦ found 0
      | Ordering.gt ↦ missing 0
    ]

-- `slice::sort`.
unfoldable pub insert_sorted : ControlItem → List ControlItem → List ControlItem
insert_sorted c [] = c ∷ []
insert_sorted c (d ∷ ds) = if ltb d c then d ∷ insert_sorted c ds else c ∷ d ∷ ds

unfoldable pub sort : List ControlItem → List ControlItem
unfolding insert_sorted
sort [] = []
sort (c ∷ cs) = insert_sorted c (sort cs)

-- The loop over `windows(2)`.
unfoldable pub has_alias : List ControlItem → Bool
has_alias (a ∷ b ∷ cs) = qubit a == qubit b || has_alias (b ∷ cs)
has_alias _ = false

-- `FromIterator for Control`.
unfoldable pub from_iter : List ControlItem → Run Control
unfolding two sort has_alias qubit
from_iter [] = ok always
from_iter (a ∷ []) = ok (a ∷ [])
from_iter (a ∷ b ∷ []) = if qubit a == qubit b then panic else ok (two a b)
from_iter (a ∷ b ∷ c ∷ cs) = let v = sort (a ∷ b ∷ c ∷ cs) in if has_alias v then panic else ok v

unfoldable pub with_qubit : Control → Qubit → Bool → Run Control
unfolding two binary_search item qubit
with_qubit [] q v = ok (item q v ∷ [])
with_qubit (c ∷ []) q v = if qubit c == q then panic else ok (two c (item q v))
with_qubit (c ∷ d ∷ cs) q v = elim (binary_search (c ∷ d ∷ cs) q) [
  | found i ↦ panic
  | missing i ↦ ok (take i (c ∷ d ∷ cs) ++ (item q v ∷ drop i (c ∷ d ∷ cs)))
]

unfoldable pub inplace_toggle_if : (Qubit → Bool) → Control → Control
unfolding invert qubit
inplace_toggle_if f [] = []
inplace_toggle_if f (c ∷ cs) = (if f (qubit c) then invert c else c) ∷ inplace_toggle_if f cs

unfoldable pub without_qubit : Control → Qubit → Run (Option (Bool × Control))
unfolding binary_search from_iter value qubit
without_qubit [] q = ok none
without_qubit (c ∷ []) q = if qubit c == q then ok (some (value c, always)) else ok none
without_qubit (c ∷ d ∷ cs) q = elim (binary_search (c ∷ d ∷ cs) q) [
  | missing i ↦ ok none
  | found i ↦ (do
    r ← from_iter (take i (c ∷ d ∷ cs) ++ drop (suc i) (c ∷ d ∷ cs))
    ok (some (value (get_or (c ∷ d ∷ cs) i 0), r)))
]

-- The result of an iterator that may fail.
pub data Fallible (E : Type 0) (A : Type 0) : Type 0 where
  value_of : A → Fallible E A
  error : E → Fallible E A

-- `?`.
abbrev pub try_then : {E A B : Type 0} → Fallible E A → (A → Fallible E B) → Fallible E B
try_then (value_of a) f = f a
try_then (error e) f = error e

-- `for c in iter { v.push(c?); }`
unfoldable pub push_all :
    {E : Type 0} → List ControlItem → List (Fallible E ControlItem) → Fallible E (List ControlItem)
push_all v [] = value_of v
push_all v (c ∷ cs) = try_then c (λ c'. push_all (v ++ (c' ∷ [])) cs)

unfoldable pub try_from_iter :
    {E : Type 0} → List (Fallible E ControlItem) → Fallible E (Option Control)
unfolding two sort has_alias qubit push_all
try_from_iter [] = value_of (some always)
try_from_iter (a ∷ []) = try_then a (λ a'. value_of (some (a' ∷ [])))
try_from_iter (a ∷ b ∷ []) = try_then a λ a'.
    try_then b λ b'. if qubit a' == qubit b' then value_of none else value_of (some (two a' b'))
try_from_iter (a ∷ b ∷ c ∷ cs) = try_then a λ a'. try_then b λ b'. try_then c λ c'.
    try_then (push_all (a' ∷ b' ∷ c' ∷ []) cs)
      λ v. let w = sort v in if has_alias w then value_of none else value_of (some w)
