-- ===== src/Util/Merge.antt =====
-- The merges lose nothing, add nothing and keep the order.
use qblaze.Base.{
  ℕ, ◌+◌, ◌≤◌, ◌≡◌, refl, ap, arith, Bool, List, [], ◌∷◌, map, ltb, leb, leb→le, ==_iff, ◌==◌,
  if◌then◌else◌, Bool-cases, inl, inr,
}
use qblaze.Util.{merge_distinct, merge_eq, MergeEq, lhs, rhs, both}

module _ {T : Type 0} (f : T → ℕ) where
  -- Keys that do not descend, from a lower bound on.
  abbrev pub IsAscending : ℕ → List T → Type 0
  IsAscending lo [] = Unit
  IsAscending lo (x ∷ xs) = (lo ≤ f x) × IsAscending (f x) xs

  -- Keys that ascend strictly.
  abbrev pub IsStrict : ℕ → List T → Type 0
  IsStrict lo [] = Unit
  IsStrict lo (x ∷ xs) = (lo ≤ f x) × IsStrict (f x + 1) xs

  abbrev pub count : (T → Bool) → List T → ℕ
  count p [] = 0
  count p (x ∷ xs) = (if p x then 1 else 0) + count p xs

  merge_distinct-IsAscending :
      (lo : ℕ) (v1 v2 : List T)
      → IsAscending lo v1
      → IsAscending lo v2
      → IsAscending lo (merge_distinct f v1 v2)
  unfolding merge_distinct
  merge_distinct-IsAscending lo [] v2 s1 s2 = s2
  merge_distinct-IsAscending lo (h1 ∷ t1) [] s1 s2 = s1
  merge_distinct-IsAscending lo (h1 ∷ t1) (h2 ∷ t2) s1 s2 = elim (Bool-cases (leb (f h1) (f h2))) [
    | inl first ↦
        rw first
          (s1.0, merge_distinct-IsAscending (f h1) t1 (h2 ∷ t2) s1.1 (leb→le _ _ first, s2.1))
    | inr second ↦
        rw second (s2.0, merge_distinct-IsAscending (f h2) (h1 ∷ t1) t2 (ground arith, s1.1) s2.1)
  ]

  pub count-merge_distinct :
      (p : T → Bool) (v1 v2 : List T) → count p (merge_distinct f v1 v2) ≡ count p v1 + count p v2
  unfolding merge_distinct
  count-merge_distinct p [] v2 = omega arith
  count-merge_distinct p (h1 ∷ t1) [] = omega arith
  count-merge_distinct p (h1 ∷ t1) (h2 ∷ t2) = elim (Bool-cases (leb (f h1) (f h2))) [
    | inl first ↦ rw first (omega (arith, count-merge_distinct p t1 (h2 ∷ t2)))
    | inr second ↦ rw second (omega (arith, count-merge_distinct p (h1 ∷ t1) t2))
  ]

  -- `merge_distinct` of slices that ascend by the key ascends, and has every item as often as the
  -- two slices together.
  pub merge_distinct_lem :
      (v1 v2 : List T)
      → IsAscending 0 v1
      → IsAscending 0 v2
      → IsAscending 0 (merge_distinct f v1 v2)
        × ((p : T → Bool) → count p (merge_distinct f v1 v2) ≡ count p v1 + count p v2)
  merge_distinct_lem v1 v2 s1 s2 =
      (merge_distinct-IsAscending 0 v1 v2 s1 s2, λ p. count-merge_distinct p v1 v2)

  -- The items that a merge takes from each side.
  abbrev pub lefts : List (MergeEq T) → List T
  lefts [] = []
  lefts (lhs a ∷ ms) = a ∷ lefts ms
  lefts (rhs b ∷ ms) = lefts ms
  lefts (both a b ∷ ms) = a ∷ lefts ms

  abbrev pub rights : List (MergeEq T) → List T
  rights [] = []
  rights (lhs a ∷ ms) = rights ms
  rights (rhs b ∷ ms) = b ∷ rights ms
  rights (both a b ∷ ms) = b ∷ rights ms

  -- The keys of the output ascend strictly, and items that meet have equal keys.
  abbrev pub IsMerged : ℕ → List (MergeEq T) → Type 0
  IsMerged lo [] = Unit
  IsMerged lo (lhs a ∷ ms) = (lo ≤ f a) × IsMerged (f a + 1) ms
  IsMerged lo (rhs b ∷ ms) = (lo ≤ f b) × IsMerged (f b + 1) ms
  IsMerged lo (both a b ∷ ms) = (lo ≤ f a) × (f a ≡ f b) × IsMerged (f a + 1) ms

  pub record Merges (lo : ℕ) (v1 v2 : List T) (ms : List (MergeEq T)) : Type 0 where
    pub merged : IsMerged lo ms
    pub from_left : lefts ms ≡ v1
    pub from_right : rights ms ≡ v2

  only_lhs : (lo : ℕ) (v : List T) → IsStrict lo v → Merges lo v [] (map lhs v)
  only_lhs lo [] s = record { merged = tt; from_left = refl; from_right = refl }
  only_lhs lo (a ∷ v) s =
      let rest = only_lhs (f a + 1) v s.1 in
      record {
        merged = (s.0, rest.merged);
        from_left = ap (◌∷◌ a) rest.from_left;
        from_right = rest.from_right;
      }

  only_rhs : (lo : ℕ) (v : List T) → IsStrict lo v → Merges lo [] v (map rhs v)
  only_rhs lo [] s = record { merged = tt; from_left = refl; from_right = refl }
  only_rhs lo (b ∷ v) s =
      let rest = only_rhs (f b + 1) v s.1 in
      record {
        merged = (s.0, rest.merged);
        from_left = rest.from_left;
        from_right = ap (◌∷◌ b) rest.from_right;
      }

  merge_eq-Merges :
      (lo : ℕ) (v1 v2 : List T)
      → IsStrict lo v1
      → IsStrict lo v2
      → Merges lo v1 v2 (merge_eq f v1 v2)
  unfolding merge_eq
  merge_eq-Merges lo [] v2 s1 s2 = only_rhs lo v2 s2
  merge_eq-Merges lo (e1 ∷ t1) [] s1 s2 = only_lhs lo (e1 ∷ t1) s1
  merge_eq-Merges lo (e1 ∷ t1) (e2 ∷ t2) s1 s2 = elim (Bool-cases (f e1 == f e2)) [
    | inl meet ↦
        let e : f e1 ≡ f e2 = (==_iff _ _).0 meet in
        let rest = merge_eq-Merges (f e1 + 1) t1 t2 s1.1 (rw e s2.1) in
        rw meet (record {
          merged = (s1.0, e, rest.merged);
          from_left = ap (◌∷◌ e1) rest.from_left;
          from_right = ap (◌∷◌ e2) rest.from_right;
        })
    | inr apart ↦ elim (Bool-cases (ltb (f e1) (f e2))) [
      | inl first ↦
          let rest = merge_eq-Merges (f e1 + 1) t1 (e2 ∷ t2) s1.1 (ground arith, s2.1) in
          rw (apart, first)
            (record {
              merged = (s1.0, rest.merged);
              from_left = ap (◌∷◌ e1) rest.from_left;
              from_right = rest.from_right;
            })
      | inr second ↦
          let rest = merge_eq-Merges (f e2 + 1) (e1 ∷ t1) t2 (ground arith, s1.1) s2.1 in
          rw (apart, second)
            (record {
              merged = (s2.0, rest.merged);
              from_left = rest.from_left;
              from_right = ap (◌∷◌ e2) rest.from_right;
            })
    ]
  ]

  -- `merge_eq` of slices with strictly ascending keys yields strictly ascending keys; two items
  -- meet only if their keys are equal, and the items of each side are the slice of that side, in
  -- order.
  pub merge_eq_lem :
      (v1 v2 : List T) → IsStrict 0 v1 → IsStrict 0 v2 → Merges 0 v1 v2 (merge_eq f v1 v2)
  merge_eq_lem v1 v2 s1 s2 = merge_eq-Merges 0 v1 v2 s1 s2
