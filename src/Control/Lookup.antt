-- ===== src/Control/Lookup.antt =====
-- `with_qubit` and `without_qubit`: adding and removing the condition on one qubit.
use qblaze.Base.{
  ℕ, suc, ◌+◌, ◌≤◌, ◌<◌, ◌≡◌, refl, arith, Bool, true, false, ◌&&◌, ◌||◌, Option, none, some, [],
  ◌∷◌, ◌++◌, ◌==◌, ltb, Bits, Bool-cases, inl, inr, Run, ok, panic, ◌>>=◌, length, take, drop,
  get_or, ltb→lt, ==_iff, ◌⊎◌,
}
use qblaze.Control.{
  Control, ControlItem, Qubit, Search, found, missing, later, qubit, value, uses, item, two,
  binary_search, from_iter, with_qubit, without_qubit,
}
use qblaze.Control.Items.{qubit_mono, qubit-item, value-item}
use qblaze.Control.Meaning.{satisfied, IsControl, IsSortedFrom, IsSortedFrom-mono, uses_below, same}
use qblaze.Control.Collect.{from_iter_sorted}

-- What the search in a sorted control finds: the control around the qubit.
data Found (cs : Control) (q : Qubit) (lo : ℕ) : Search → Type 0 where
  here :
      (i : ℕ)
      → uses cs q ≡ true
      → IsSortedFrom lo (take i cs ++ drop (suc i) cs)
      → ((b : Bits)
          → satisfied cs b
            ≡ (same (b q) (value (get_or cs i 0)) && satisfied (take i cs ++ drop (suc i) cs) b))
      → ((r : Qubit) → uses cs r ≡ (q == r || uses (take i cs ++ drop (suc i) cs) r))
      → uses (take i cs ++ drop (suc i) cs) q ≡ false
      → suc (length (take i cs ++ drop (suc i) cs)) ≡ length cs
      → Found cs q lo (found i)
  nowhere :
      (i : ℕ)
      → uses cs q ≡ false
      → ((v : Bool) → lo ≤ q → IsSortedFrom lo (take i cs ++ (item q v ∷ drop i cs)))
      → ((v : Bool) (b : Bits)
          → satisfied (take i cs ++ (item q v ∷ drop i cs)) b ≡ (same (b q) v && satisfied cs b))
      → Found cs q lo (missing i)

module _ (c : ControlItem) (cs : Control) (q : Qubit) where
  search_past : qubit c < q → binary_search (c ∷ cs) q ≡ later (binary_search cs q)
  unfolding binary_search
  search_past h = ground arith

  search_at : qubit c ≡ q → binary_search (c ∷ cs) q ≡ found 0
  unfolding binary_search
  search_at h = ground arith

  search_before : q < qubit c → binary_search (c ∷ cs) q ≡ missing 0
  unfolding binary_search
  search_before h = ground arith

Found-later :
    (c : ControlItem) (cs : Control) (q : Qubit) (lo : ℕ) (s : Search)
    → lo ≤ qubit c
    → qubit c < q
    → Found cs q (qubit c + 1) s
    → Found (c ∷ cs) q lo (later s)
unfolding uses satisfied
Found-later c cs q lo s h past (here i used sorted means others gone shorter) =
    here (suc i) (ground arith) (h, sorted) (λ b. ground (arith, means b))
      (λ r. ground (arith, others r)) (ground arith) (omega arith)
Found-later c cs q lo s h past (nowhere i unused sorted means) =
    nowhere (suc i) (ground arith) (λ v le. (h, sorted v (omega arith)))
      (λ v b. ground (arith, means v b))

search_lem :
    (lo : ℕ) (cs : Control) (q : Qubit) → IsSortedFrom lo cs → Found cs q lo (binary_search cs q)
unfolding uses satisfied
search_lem lo [] q s =
    unfold binary_search in
    nowhere 0 refl (λ v le. (rw (qubit-item q v) le, tt))
      (λ v b. ground (arith, qubit-item q v, value-item q v))
search_lem lo (c ∷ cs) q s = elim (Bool-cases (ltb (qubit c) q)) [
  | inl past ↦ rw (search_past c cs q (ltb→lt _ _ past)) (
      Found-later c cs q lo (binary_search cs q) s.0 (ltb→lt _ _ past)
        (search_lem (qubit c + 1) cs q s.1))
  | inr not_past ↦ elim (Bool-cases (qubit c == q)) [
    | inl at ↦
        let e : qubit c ≡ q = (==_iff _ _).0 at in
        rw (search_at c cs q e) (
          here 0 (ground arith) (IsSortedFrom-mono (qubit c + 1) lo cs (omega arith) s.1)
            (λ b. rw e) (λ r. rw e)
            (rw (← e) (uses_below (qubit c + 1) (qubit c) cs s.1 (omega arith))) refl)
    | inr not_at ↦
        let before : q < qubit c = ground arith in
        rw (search_before c cs q before) (
          nowhere 0 (ground (arith, uses_below (qubit c + 1) q cs s.1))
            (λ v le. (rw (qubit-item q v) le, (rw (qubit-item q v) (omega arith), s.1)))
            (λ v b. rw (qubit-item q v, value-item q v)))
  ]
]

-- The two operations on a control of two items or more, after the search.
abbrev without_at : Control → Search → Run (Option (Bool × Control))
without_at cs (missing i) = ok none
without_at cs (found i) = do
  r ← from_iter (take i cs ++ drop (suc i) cs)
  ok (some (value (get_or cs i 0), r))

abbrev with_at : Control → Qubit → Bool → Search → Run Control
with_at cs q v (found i) = panic
with_at cs q v (missing i) = ok (take i cs ++ (item q v ∷ drop i cs))

module _ (c d : ControlItem) (cs : Control) (q : Qubit) where
  without_long :
      without_qubit (c ∷ d ∷ cs) q ≡ without_at (c ∷ d ∷ cs) (binary_search (c ∷ d ∷ cs) q)
  unfolding without_qubit
  without_long = ground arith

  with_long :
      (v : Bool)
      → with_qubit (c ∷ d ∷ cs) q v ≡ with_at (c ∷ d ∷ cs) q v (binary_search (c ∷ d ∷ cs) q)
  unfolding with_qubit
  with_long v = ground arith

without_hit :
    (cs : Control) (q : Qubit) (s : Search)
    → Found cs q 0 s
    → ((without_at cs s ≡ ok none) × (uses cs q ≡ false))
      ⊎ ((v : Bool) × (r : Control) × (without_at cs s ≡ ok (some (v, r)))
          × (uses cs q ≡ true)
          × IsControl r
          × (uses r q ≡ false)
          × (suc (length r) ≡ length cs)
          × ((p : Qubit) → uses cs p ≡ (q == p || uses r p))
          × ((b : Bits) → satisfied cs b ≡ (same (b q) v && satisfied r b)))
without_hit cs q s (here i used sorted means others gone shorter) =
    let r = take i cs ++ drop (suc i) cs in
    inr (
      value (get_or cs i 0),
      r,
      rw (from_iter_sorted 0 r sorted),
      used,
      sorted,
      gone,
      shorter,
      others,
      means,
    )
without_hit cs q s (nowhere i unused sorted means) = inl (refl, unused)

with_hit :
    (cs : Control) (q : Qubit) (v : Bool) (s : Search)
    → Found cs q 0 s
    → ((with_at cs q v s ≡ panic) × (uses cs q ≡ true))
      ⊎ ((r : Control) × (with_at cs q v s ≡ ok r)
          × (uses cs q ≡ false)
          × IsControl r
          × ((b : Bits) → satisfied r b ≡ (same (b q) v && satisfied cs b)))
with_hit cs q v s (here i used sorted means others gone shorter) = inl (refl, used)
with_hit cs q v s (nowhere i unused sorted means) =
    inr (take i cs ++ (item q v ∷ drop i cs), refl, unused, sorted v (omega arith), means v)

two_lem :
    (c : ControlItem) (q : Qubit) (v : Bool)
    → (qubit c == q) ≡ false
    → IsControl (two c (item q v))
      × ((b : Bits) → satisfied (two c (item q v)) b ≡ (same (b q) v && satisfied (c ∷ []) b))
unfolding two
two_lem c q v h = elim (Bool-cases (ltb (item q v) c)) [
  | inl first ↦
      let order : q < qubit c = ground (arith, qubit_mono (item q v) c, qubit-item q v) in
      rw first (
        (omega arith, (rw (qubit-item q v) (omega arith), tt)),
        unfold satisfied in λ b. rw (qubit-item q v, value-item q v),
      )
  | inr second ↦
      let order : qubit c < q = ground (arith, qubit_mono c (item q v), qubit-item q v) in
      rw second (
        (omega arith, (rw (qubit-item q v) (omega arith), tt)),
        unfold satisfied in λ b. rw (qubit-item q v, value-item q v) (ground arith),
      )
]

-- Removing the condition on a qubit from a sorted control never panics: it returns nothing exactly
-- if the control does not use the qubit, else the value asked for and a shorter control, sorted
-- and free of the qubit, which with that value asks of a register what the whole control asks.
pub without_qubit_lem :
    (cs : Control) (q : Qubit)
    → IsControl cs
    → ((without_qubit cs q ≡ ok none) × (uses cs q ≡ false))
      ⊎ ((v : Bool) × (r : Control) × (without_qubit cs q ≡ ok (some (v, r)))
          × (uses cs q ≡ true)
          × IsControl r
          × (uses r q ≡ false)
          × (suc (length r) ≡ length cs)
          × ((p : Qubit) → uses cs p ≡ (q == p || uses r p))
          × ((b : Bits) → satisfied cs b ≡ (same (b q) v && satisfied r b)))
unfolding without_qubit
without_qubit_lem [] q s = inl (refl, unfold uses in refl)
without_qubit_lem (c ∷ []) q s = elim (Bool-cases (qubit c == q)) [
  | inl at ↦
      let e : qubit c ≡ q = (==_iff _ _).0 at in
      inr (
        value c,
        [],
        rw at,
        unfold uses in rw at,
        tt,
        unfold uses in refl,
        refl,
        unfold uses in λ p. rw e,
        unfold satisfied in λ b. rw e,
      )
  | inr not_at ↦ inl (rw not_at, unfold uses in rw not_at)
]
without_qubit_lem (c ∷ d ∷ cs) q s =
    rw (without_long c d cs q)
      (without_hit (c ∷ d ∷ cs) q (binary_search (c ∷ d ∷ cs) q) (search_lem 0 (c ∷ d ∷ cs) q s))

-- `with_qubit` adds the condition on a qubit that a sorted control does not use, keeping the
-- order, and panics on a qubit that it uses.
pub with_qubit_lem :
    (cs : Control) (q : Qubit) (v : Bool)
    → IsControl cs
    → ((with_qubit cs q v ≡ panic) × (uses cs q ≡ true))
      ⊎ ((r : Control) × (with_qubit cs q v ≡ ok r)
          × (uses cs q ≡ false)
          × IsControl r
          × ((b : Bits) → satisfied r b ≡ (same (b q) v && satisfied cs b)))
unfolding with_qubit
with_qubit_lem [] q v s = inr (
  item q v ∷ [],
  refl,
  unfold uses in refl,
  (omega arith, tt),
  unfold satisfied in λ b. rw (qubit-item q v, value-item q v),
)
with_qubit_lem (c ∷ []) q v s = elim (Bool-cases (qubit c == q)) [
  | inl at ↦ inl (rw at, unfold uses in rw at)
  | inr not_at ↦
      let (sorted, means) = two_lem c q v not_at in
      inr (two c (item q v), rw not_at, unfold uses in rw not_at, sorted, means)
]
with_qubit_lem (c ∷ d ∷ cs) q v s =
    rw (with_long c d cs q v)
      (with_hit (c ∷ d ∷ cs) q v (binary_search (c ∷ d ∷ cs) q) (search_lem 0 (c ∷ d ∷ cs) q s))
