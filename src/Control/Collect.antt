-- ===== src/Control/Collect.antt =====
-- `from_iter` and `try_from_iter`: collected items are sorted, keep their meaning, and two items
-- on one qubit are found.
use qblaze.Base.{
  ℕ, ◌+◌, ◌≤◌, ◌≡◌, refl, arith, Bool, true, false, not, ◌&&◌, List, [], ◌∷◌, ltb, if◌then◌else◌,
  Bits, Bool-cases, inl, inr, ok, panic,
}
use qblaze.Control.{
  Control, ControlItem, Qubit, qubit, uses, sort, insert_sorted, has_alias, from_iter,
}
use qblaze.Control.Items.{qubit_mono, item_order}
use qblaze.Control.Meaning.{satisfied, IsControl, IsSortedFrom, uses_below}

-- The items ascend as numbers, so their qubits ascend, not always strictly.
abbrev Ascends : ℕ → List ControlItem → Type 0
Ascends lo [] = Unit
Ascends lo (c ∷ cs) = (lo ≤ c) × Ascends c cs

insert_sorted-Ascends :
    (lo c : ℕ) (cs : List ControlItem) → lo ≤ c → Ascends lo cs → Ascends lo (insert_sorted c cs)
unfolding insert_sorted
insert_sorted-Ascends lo c [] h a = (h, tt)
insert_sorted-Ascends lo c (d ∷ ds) h a = elim (Bool-cases (ltb d c)) [
  | inl less ↦ rw less (a.0, insert_sorted-Ascends d c ds (ground arith) a.1)
  | inr more ↦ rw more (h, (ground arith, a.1))
]

sort-Ascends : (cs : List ControlItem) → Ascends 0 (sort cs)
unfolding sort
sort-Ascends [] = tt
sort-Ascends (c ∷ cs) = insert_sorted-Ascends 0 c (sort cs) (omega arith) (sort-Ascends cs)

satisfied-insert_sorted :
    (c : ℕ) (cs : List ControlItem) (b : Bits)
    → satisfied (insert_sorted c cs) b ≡ satisfied (c ∷ cs) b
unfolding insert_sorted satisfied
satisfied-insert_sorted c [] b = refl
satisfied-insert_sorted c (d ∷ ds) b = ground (arith, satisfied-insert_sorted c ds b)

satisfied-sort : (cs : List ControlItem) (b : Bits) → satisfied (sort cs) b ≡ satisfied cs b
unfolding sort satisfied
satisfied-sort [] b = refl
satisfied-sort (c ∷ cs) b =
    rw (satisfied-insert_sorted c (sort cs) b, satisfied) (ground (arith, satisfied-sort cs b))

uses-insert_sorted :
    (c : ℕ) (cs : List ControlItem) (q : Qubit) → uses (insert_sorted c cs) q ≡ uses (c ∷ cs) q
unfolding insert_sorted uses
uses-insert_sorted c [] q = refl
uses-insert_sorted c (d ∷ ds) q = ground (arith, uses-insert_sorted c ds q)

uses-sort : (cs : List ControlItem) (q : Qubit) → uses (sort cs) q ≡ uses cs q
unfolding sort uses
uses-sort [] q = refl
uses-sort (c ∷ cs) q = rw (uses-insert_sorted c (sort cs) q, uses) (ground (arith, uses-sort cs q))

-- With no alias among neighbours, ascending items have strictly ascending qubits.
strict :
    (c : ControlItem) (cs : List ControlItem)
    → Ascends c cs
    → has_alias (c ∷ cs) ≡ false
    → IsSortedFrom (qubit c + 1) cs
unfolding has_alias
strict c [] a h = tt
strict c (d ∷ ds) a h = (ground (arith, qubit_mono c d), strict d ds a.1 (ground arith))

-- No two items are on one qubit.
unfoldable pub distinct : List ControlItem → Bool
distinct [] = true
distinct (c ∷ cs) = not (uses cs (qubit c)) && distinct cs

distinct-insert_sorted :
    (c : ControlItem) (cs : List ControlItem) → distinct (insert_sorted c cs) ≡ distinct (c ∷ cs)
unfolding insert_sorted distinct uses
distinct-insert_sorted c [] = refl
distinct-insert_sorted c (d ∷ ds) =
    ground (arith, distinct-insert_sorted c ds, uses-insert_sorted c ds (qubit d))

distinct-sort : (cs : List ControlItem) → distinct (sort cs) ≡ distinct cs
unfolding sort distinct
distinct-sort [] = refl
distinct-sort (c ∷ cs) =
    rw (distinct-insert_sorted c (sort cs), distinct)
      (ground (arith, distinct-sort cs, uses-sort cs (qubit c)))

has_alias-distinct :
    (lo : ℕ) (cs : List ControlItem) → Ascends lo cs → has_alias cs ≡ not (distinct cs)
unfolding has_alias distinct uses
has_alias-distinct lo [] a = refl
has_alias-distinct lo (c ∷ []) a = refl
has_alias-distinct lo (c ∷ d ∷ ds) a = elim (Bool-cases (has_alias (c ∷ d ∷ ds))) [
  | inl alias ↦ ground (arith, has_alias-distinct c (d ∷ ds) a.1)
  | inr none_found ↦
      let apart = strict c (d ∷ ds) a.1 none_found in
      let unused = uses_below (qubit c + 1) (qubit c) (d ∷ ds) apart (omega arith) in
      ground (arith, has_alias-distinct c (d ∷ ds) a.1)
]

-- Three items or more go through the sort.
from_iter_long :
    (a b c : ControlItem) (cs : List ControlItem)
    → from_iter (a ∷ b ∷ c ∷ cs)
      ≡ (if has_alias (sort (a ∷ b ∷ c ∷ cs)) then panic else ok (sort (a ∷ b ∷ c ∷ cs)))
unfolding from_iter
from_iter_long a b c cs = refl

if_not {ℓ} : {A : Type ℓ} (b : Bool) (x y : A) → (if not b then x else y) ≡ (if b then y else x)
if_not true x y = refl
if_not false x y = refl

from_iter_long_lem :
    (a b c : ControlItem) (cs : List ControlItem)
    → from_iter (a ∷ b ∷ c ∷ cs)
      ≡ (if distinct (a ∷ b ∷ c ∷ cs) then ok (sort (a ∷ b ∷ c ∷ cs)) else panic)
from_iter_long_lem a b c cs =
    let v = a ∷ b ∷ c ∷ cs in
    rw (from_iter_long a b c cs, has_alias-distinct 0 (sort v) (sort-Ascends v), distinct-sort v)
      (if_not (distinct v) panic (ok (sort v)))

-- Collecting control items sorts them, and panics exactly if two of them are on one qubit.
pub from_iter-sort :
    (cs : List ControlItem) → from_iter cs ≡ (if distinct cs then ok (sort cs) else panic)
unfolding from_iter distinct uses
from_iter-sort [] = refl
from_iter-sort (a ∷ []) = refl
from_iter-sort (a ∷ b ∷ []) = ground arith
from_iter-sort (a ∷ b ∷ c ∷ cs) = from_iter_long_lem a b c cs

sort-IsControl : (cs : List ControlItem) → distinct cs ≡ true → IsControl (sort cs)
sort-IsControl cs h =
    start (sort cs) (sort-Ascends cs)
      (rw (has_alias-distinct 0 (sort cs) (sort-Ascends cs), distinct-sort cs, h))
  where
    start : (ds : List ControlItem) → Ascends 0 ds → has_alias ds ≡ false → IsControl ds
    start [] a none_found = tt
    start (d ∷ ds) a none_found = (omega arith, strict d ds a.1 none_found)

-- Items on distinct qubits make a control: `from_iter` returns one whose items ascend, that uses
-- the same qubits and asks of a register exactly what the items ask; items that share a qubit
-- panic.
pub from_iter_lem :
    (cs : List ControlItem)
    → (distinct cs ≡ true
        → (r : Control) × (from_iter cs ≡ ok r)
          × IsControl r
          × ((q : Qubit) → uses r q ≡ uses cs q)
          × ((b : Bits) → satisfied r b ≡ satisfied cs b))
      × (distinct cs ≡ false → from_iter cs ≡ panic)
from_iter_lem cs = (
  λ apart. (
    sort cs,
    rw (from_iter-sort cs, apart),
    sort-IsControl cs apart,
    uses-sort cs,
    satisfied-sort cs,
  ),
  λ aliased. rw (from_iter-sort cs, aliased),
)

insert_first :
    (c : ControlItem) (cs : Control) → IsSortedFrom (qubit c + 1) cs → insert_sorted c cs ≡ c ∷ cs
unfolding insert_sorted
insert_first c [] s = refl
insert_first c (d ∷ ds) s = ground (arith, item_order c d (omega arith))

-- A sorted control is collected as it is.
sort_sorted : (lo : ℕ) (cs : Control) → IsSortedFrom lo cs → (sort cs ≡ cs) × (distinct cs ≡ true)
unfolding sort distinct
sort_sorted lo [] s = (refl, refl)
sort_sorted lo (c ∷ cs) s =
    let (same, apart) = sort_sorted (qubit c + 1) cs s.1 in
    (
      rw same (insert_first c cs s.1),
      rw (apart, uses_below (qubit c + 1) (qubit c) cs s.1 (omega arith)),
    )

pub from_iter_sorted : (lo : ℕ) (cs : Control) → IsSortedFrom lo cs → from_iter cs ≡ ok cs
from_iter_sorted lo cs s =
    let (same, apart) = sort_sorted lo cs s in rw (from_iter-sort cs, apart, same)
