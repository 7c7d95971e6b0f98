-- ===== src/Util/Boundaries.antt =====
-- `merge_boundaries`: the assertions of its loop hold, and it returns a cut of the merge.
use qblaze.Base.{
  ℕ, suc, zero, ◌+◌, ◌-◌, ◌/◌, ◌≤◌, ◌<◌, ◌≡◌, ◌⊎◌, inl, inr, min, arith, true, ◌&&◌, List, length,
  get_or, ltb, leb, ◌==◌, Bool-cases, ==_iff, Run, ok,
}
use qblaze.QubitSet.Laws.{get_elem?-cases}
use qblaze.Util.{
  less, equal, greater, cmp, index, check0, check1, boundaries_loop, merge_boundaries,
}

-- Keys at different places of a slice ascend strictly.
abbrev pub IsSortedKeys : List ℕ → Type 0
IsSortedKeys c = (i : ℕ) → i + 1 < length c → get_or c i 0 < get_or c (i + 1) 0

index-lt : (c : List ℕ) (i : ℕ) → i < length c → index c i ≡ ok (get_or c i 0)
unfolding index
index-lt c i h =
    let inside : ltb i (length c) ≡ true = ground arith in rw (index, get_elem?-cases c i, inside)

cmp_cases :
    (a b : ℕ)
    → ((cmp a b ≡ equal) × (a ≡ b)) ⊎ ((cmp a b ≡ less) × (a < b)) ⊎ ((cmp a b ≡ greater) × (b < a))
cmp_cases a b = ground arith

-- A cut of the merge: what is taken from each side comes before what is left of the other side.
pub record IsCut (c0 c1 : List ℕ) (n0 n1 : ℕ) : Type 0 where
  pub in0 : n0 ≤ length c0
  pub in1 : n1 ≤ length c1
  pub before1 : 0 < n0 → n1 < length c1 → get_or c0 (n0 - 1) 0 < get_or c1 n1 0
  pub before0 : 0 < n1 → n0 < length c0 → get_or c1 (n1 - 1) 0 < get_or c0 n0 0

module _ (c0 c1 : List ℕ) (n0 n1 : ℕ) (h0 : n0 ≤ length c0) (h1 : n1 ≤ length c1) where
  check0_cases :
      ((check0 c0 c1 n0 n1 ≡ ok less)
        × (0 < n0 → n1 < length c1 → get_or c0 (n0 - 1) 0 < get_or c1 n1 0))
      ⊎ ((check0 c0 c1 n0 n1 ≡ ok equal)
          × (0 < n0)
          × (n1 < length c1)
          × (get_or c0 (n0 - 1) 0 ≡ get_or c1 n1 0))
      ⊎ ((check0 c0 c1 n0 n1 ≡ ok greater)
          × (0 < n0)
          × (n1 < length c1)
          × (get_or c1 n1 0 < get_or c0 (n0 - 1) 0))
  unfolding check0
  check0_cases = elim (Bool-cases (ltb 0 n0 && ltb n1 (length c1))) [
    | inl both ↦
        let a = index-lt c0 (n0 - 1) (ground arith) in
        let b = index-lt c1 n1 (ground arith) in
        elim (cmp_cases (get_or c0 (n0 - 1) 0) (get_or c1 n1 0)) [
          | inl (c, e) ↦ inr (inl (rw (check0, both, a, b, c), ground arith, ground arith, e))
          | inr (inl (c, e)) ↦ inl (rw (check0, both, a, b, c), λ p q. e)
          | inr (inr (c, e)) ↦ inr (inr (rw (check0, both, a, b, c), ground arith, ground arith, e))
        ]
    | inr fails ↦ inl (rw (check0, fails), λ p q. ground arith)
  ]

  check1_cases :
      ((check1 c0 c1 n0 n1 ≡ ok greater)
        × (0 < n1 → n0 < length c0 → get_or c1 (n1 - 1) 0 < get_or c0 n0 0))
      ⊎ ((check1 c0 c1 n0 n1 ≡ ok equal)
          × (0 < n1)
          × (n0 < length c0)
          × (get_or c0 n0 0 ≡ get_or c1 (n1 - 1) 0))
      ⊎ ((check1 c0 c1 n0 n1 ≡ ok less)
          × (0 < n1)
          × (n0 < length c0)
          × (get_or c0 n0 0 < get_or c1 (n1 - 1) 0))
  unfolding check1
  check1_cases = elim (Bool-cases (ltb 0 n1 && ltb n0 (length c0))) [
    | inl both ↦
        let a = index-lt c0 n0 (ground arith) in
        let b = index-lt c1 (n1 - 1) (ground arith) in
        elim (cmp_cases (get_or c0 n0 0) (get_or c1 (n1 - 1) 0)) [
          | inl (c, e) ↦ inr (inl (rw (check1, both, a, b, c), ground arith, ground arith, e))
          | inr (inl (c, e)) ↦ inr (inr (rw (check1, both, a, b, c), ground arith, ground arith, e))
          | inr (inr (c, e)) ↦ inl (rw (check1, both, a, b, c), λ p q. e)
        ]
    | inr fails ↦ inl (rw (check1, fails), λ p q. ground arith)
  ]

module _ (c0 c1 : List ℕ) (target : ℕ) where
  -- What the loop keeps true of its two bounds.
  record Bounds (lo hi : ℕ) : Type 0 where
    ordered : lo ≤ hi
    within0 : hi ≤ length c0
    within : hi ≤ target
    within1 : target ≤ lo + length c1
    low : 0 < lo → target - lo < length c1 → get_or c0 (lo - 1) 0 < get_or c1 (target - lo) 0
    high : 0 < target - hi → hi < length c0 → get_or c1 (target - hi - 1) 0 < get_or c0 hi 0

  pub record Cuts (r : Run (ℕ × ℕ)) : Type 0 where
    pub at0 : ℕ
    pub at1 : ℕ
    pub returns : r ≡ ok (at0, at1)
    pub cut : IsCut c0 c1 at0 at1
    pub total :
        (at0 + at1 ≡ target)
        ⊎ ((at0 + at1 + 1 ≡ target)
            × (at0 < length c0)
            × (at1 < length c1)
            × (get_or c0 at0 0 ≡ get_or c1 at1 0))

  module _ (lo hi : ℕ) (b : Bounds lo hi) where
    abbrev n0 : ℕ
    n0 = (lo + hi) / 2

    abbrev n1 : ℕ
    n1 = target - n0

    fewer :
        0 < n0
        → n1 < length c1
        → get_or c1 n1 0 < get_or c0 (n0 - 1) 0
        → (leb lo (n0 - 1) ≡ true) × Bounds lo (n0 - 1)
    fewer pos inside h =
        let apart : lo < n0 = elim (Bool-cases (lo == n0)) [
          | inl same ↦
              let e : lo ≡ n0 = (==_iff _ _).0 same in
              let wrong : get_or c0 (n0 - 1) 0 < get_or c1 n1 0 =
                rw e at (b.low (rw e pos) (rw e inside)) in
              absurd (omega arith)
          | inr other ↦ ground (arith, b.ordered)
        ] in
        let place : target - (n0 - 1) - 1 ≡ n1 = omega (arith, b.ordered, b.within) in
        (
          ground arith,
          record {
            ordered = omega arith;
            within0 = omega (arith, b.ordered, b.within0);
            within = omega (arith, b.ordered, b.within);
            within1 = b.within1;
            low = b.low;
            high = λ p q. rw place h;
          },
        )

    more :
        0 < n1
        → n0 < length c0
        → get_or c0 n0 0 < get_or c1 (n1 - 1) 0
        → (leb (n0 + 1) hi ≡ true) × Bounds (n0 + 1) hi
    more pos inside h =
        let apart : n0 < hi = elim (Bool-cases (hi == n0)) [
          | inl same ↦
              let e : hi ≡ n0 = (==_iff _ _).0 same in
              let wrong : get_or c1 (n1 - 1) 0 < get_or c0 n0 0 =
                rw e at (b.high (rw e pos) (rw e inside)) in
              absurd (omega arith)
          | inr other ↦ ground (arith, b.ordered)
        ] in
        let place : target - (n0 + 1) ≡ n1 - 1 = omega arith in
        let back : n0 + 1 - 1 ≡ n0 = omega arith in
        (
          ground arith,
          record {
            ordered = omega arith;
            within0 = b.within0;
            within = b.within;
            within1 = omega (arith, b.ordered, b.within1);
            low = λ p q. rw (place, back) h;
            high = b.high;
          },
        )

  -- A key that is in both slices is left for the next chunk.
  module _ (s0 : IsSortedKeys c0) (s1 : IsSortedKeys c1) (a0 a1 : ℕ) (h0 : a0 ≤ length c0)
      (h1 : a1 ≤ length c1) where
    skip_left :
        0 < a0 → a1 < length c1 → get_or c0 (a0 - 1) 0 ≡ get_or c1 a1 0 → IsCut c0 c1 (a0 - 1) a1
    skip_left pos inside e = record {
      in0 = omega arith;
      in1 = h1;
      before1 = λ p q.
          let next : a0 - 1 - 1 + 1 ≡ a0 - 1 = omega arith in
          let up = s0 (a0 - 1 - 1) (omega arith) in rw (next, e) at up;
      before0 = λ p q.
          let next : a1 - 1 + 1 ≡ a1 = omega arith in
          let up = s1 (a1 - 1) (omega arith) in rw (next, ← e) at up;
    }

    skip_right :
        0 < a1 → a0 < length c0 → get_or c0 a0 0 ≡ get_or c1 (a1 - 1) 0 → IsCut c0 c1 a0 (a1 - 1)
    skip_right pos inside e = record {
      in0 = h0;
      in1 = omega arith;
      before1 = λ p q.
          let next : a0 - 1 + 1 ≡ a0 = omega arith in
          let up = s0 (a0 - 1) (omega arith) in rw (next, e) at up;
      before0 = λ p q.
          let next : a1 - 1 - 1 + 1 ≡ a1 - 1 = omega arith in
          let up = s1 (a1 - 1 - 1) (omega arith) in rw (next, ← e) at up;
    }

  boundaries_loop_lem :
      (fuel lo hi : ℕ)
      → IsSortedKeys c0
      → IsSortedKeys c1
      → Bounds lo hi
      → hi - lo < fuel
      → Cuts (boundaries_loop c0 c1 target fuel lo hi)
  unfolding boundaries_loop
  boundaries_loop_lem zero lo hi s0 s1 b enough = absurd (omega arith)
  boundaries_loop_lem (suc fuel) lo hi s0 s1 b enough =
      let a0 : ℕ = (lo + hi) / 2 in
      let a1 : ℕ = target - a0 in
      let h0 : a0 ≤ length c0 = omega (arith, b.ordered, b.within0) in
      let h1 : a1 ≤ length c1 = omega (arith, b.ordered, b.within1) in
      let sum : a0 + a1 ≡ target = omega (arith, b.ordered, b.within) in
      elim (check0_cases c0 c1 a0 a1 h0 h1) [
        | inr (inl (found, pos, inside, e)) ↦ record {
          at0 = a0 - 1;
          at1 = a1;
          returns = rw (boundaries_loop, found);
          cut = skip_left s0 s1 a0 a1 h0 h1 pos inside e;
          total = inr (omega arith, omega arith, inside, e);
        }
        | inr (inr (found, pos, inside, e)) ↦
            let (order, b') = fewer lo hi b pos inside e in
            let rest = boundaries_loop_lem fuel lo (a0 - 1) s0 s1 b' (omega (arith, b.ordered)) in
            record {
              at0 = rest.at0;
              at1 = rest.at1;
              returns = rw (boundaries_loop, found, order) rest.returns;
              cut = rest.cut;
              total = rest.total;
            }
        | inl (found, before1) ↦ elim (check1_cases c0 c1 a0 a1 h0 h1) [
          | inr (inl (next, pos, inside, e)) ↦ record {
            at0 = a0;
            at1 = a1 - 1;
            returns = rw (boundaries_loop, found, next);
            cut = skip_right s0 s1 a0 a1 h0 h1 pos inside e;
            total = inr (omega arith, inside, omega arith, e);
          }
          | inr (inr (next, pos, inside, e)) ↦
              let (order, b') = more lo hi b pos inside e in
              let rest = boundaries_loop_lem fuel (a0 + 1) hi s0 s1 b' (omega (arith, b.ordered)) in
              record {
                at0 = rest.at0;
                at1 = rest.at1;
                returns = rw (boundaries_loop, found, next, order) rest.returns;
                cut = rest.cut;
                total = rest.total;
              }
          | inl (next, before0) ↦ record {
            at0 = a0;
            at1 = a1;
            returns = rw (boundaries_loop, found, next);
            cut = record { in0 = h0; in1 = h1; before1 = before1; before0 = before0 };
            total = inl sum;
          }
        ]
      ]

  -- For strictly ascending keys and a target within their number `merge_boundaries` returns: no
  -- assertion fails and no access is out of bounds. What it returns is a cut of the merge that
  -- takes the number of items of the target, or one less where the next item of both slices has
  -- the same key.
  pub merge_boundaries_lem :
      IsSortedKeys c0
      → IsSortedKeys c1
      → target ≤ length c0 + length c1
      → Cuts (merge_boundaries c0 c1 target)
  unfolding merge_boundaries
  merge_boundaries_lem s0 s1 fits =
      let lo = target - length c1 in
      let hi = min (length c0) target in
      boundaries_loop_lem (hi - lo + 1) lo hi s0 s1
        (record {
          ordered = omega arith;
          within0 = omega arith;
          within = omega arith;
          within1 = omega arith;
          low = λ p q. absurd (omega arith);
          high = λ p q. absurd (omega arith);
        })
        (omega arith)
