-- ===== src/Util.antt =====
-- `src/util.rs`: merges of two slices that are sorted by a key, and the boundaries at which such a
-- merge is cut into chunks. Keys are numbers; the callback `w` appends to the output.
pub mod Merge
pub mod Boundaries
pub mod Chunks
use qblaze.Base.{
  ℕ, suc, zero, ◌+◌, ◌-◌, ◌*◌, ◌/◌, min, Bool, true, false, ◌&&◌, Option, none, some, List, [], ◌∷◌,
  map, length, get_elem?, ltb, leb, ◌==◌, if◌then◌else◌, Run, ok, panic, out_of_fuel, ◌>>=◌, ◌||◌,
  take, drop,
}

-- `cmp::Ordering`, and `cmp` of two keys.
pub data Ordering : Type 0 where
  less equal greater : Ordering

abbrev pub cmp : ℕ → ℕ → Ordering
cmp a b = if a == b then equal else if ltb a b then less else greater

-- `merge_distinct`.
unfoldable pub merge_distinct : {T : Type 0} → (T → ℕ) → List T → List T → List T
merge_distinct f [] v2 = v2
merge_distinct f (h1 ∷ t1) [] = h1 ∷ t1
merge_distinct f (h1 ∷ t1) (h2 ∷ t2) =
    let first = merge_distinct f t1 (h2 ∷ t2) in
    let second = merge_distinct f (h1 ∷ t1) t2 in
    if leb (f h1) (f h2) then h1 ∷ first else h2 ∷ second

pub data MergeEq (T : Type 0) : Type 0 where
  lhs : T → MergeEq T
  rhs : T → MergeEq T
  both : T → T → MergeEq T

-- `merge_eq`: the items with equal keys meet.
unfoldable pub merge_eq : {T : Type 0} → (T → ℕ) → List T → List T → List (MergeEq T)
merge_eq f [] v2 = map rhs v2
merge_eq f (e1 ∷ t1) [] = lhs e1 ∷ map lhs t1
merge_eq f (e1 ∷ t1) (e2 ∷ t2) =
    let meet = both e1 e2 ∷ merge_eq f t1 t2 in
    let first = lhs e1 ∷ merge_eq f t1 (e2 ∷ t2) in
    let second = rhs e2 ∷ merge_eq f (e1 ∷ t1) t2 in
    if f e1 == f e2 then meet else if ltb (f e1) (f e2) then first else second

-- `c[i]`.
unfoldable pub index : List ℕ → ℕ → Run ℕ
index c i = elim (get_elem? c i) [ none ↦ panic | some v ↦ ok v ]

-- The two comparisons of a round; a guard that fails lets the round go on.
unfoldable pub check0 : List ℕ → List ℕ → ℕ → ℕ → Run Ordering
unfolding index
check0 c0 c1 n0 n1 = elim (ltb 0 n0 && ltb n1 (length c1)) [
  | true ↦ (do a ← index c0 (n0 - 1); b ← index c1 n1; ok (cmp a b))
  | false ↦ ok less
]

unfoldable pub check1 : List ℕ → List ℕ → ℕ → ℕ → Run Ordering
unfolding index
check1 c0 c1 n0 n1 = elim (ltb 0 n1 && ltb n0 (length c0)) [
  | true ↦ (do a ← index c0 n0; b ← index c1 (n1 - 1); ok (cmp a b))
  | false ↦ ok greater
]

-- The loop of `merge_boundaries` on the keys of the two slices, on fuel.
unfoldable pub boundaries_loop : List ℕ → List ℕ → ℕ → ℕ → ℕ → ℕ → Run (ℕ × ℕ)
boundaries_loop c0 c1 target zero lo hi = out_of_fuel
boundaries_loop c0 c1 target (suc fuel) lo hi =
    let n0 = (lo + hi) / 2 in
    let n1 = target - n0 in
    elim (check0 c0 c1 n0 n1) [
      | panic ↦ panic
      | out_of_fuel ↦ out_of_fuel
      | ok equal ↦ ok (n0 - 1, n1)
      | ok greater ↦ elim (leb lo (n0 - 1)) [
        | true ↦ boundaries_loop c0 c1 target fuel lo (n0 - 1)
        | false ↦ panic
      ]
      | ok less ↦ elim (check1 c0 c1 n0 n1) [
        | panic ↦ panic
        | out_of_fuel ↦ out_of_fuel
        | ok equal ↦ ok (n0, n1 - 1)
        | ok less ↦ elim (leb (n0 + 1) hi) [
          | true ↦ boundaries_loop c0 c1 target fuel (n0 + 1) hi
          | false ↦ panic
        ]
        | ok greater ↦ ok (n0, n1)
      ]
    ]

-- The distance of the two bounds shrinks in every round.
unfoldable pub merge_boundaries : List ℕ → List ℕ → ℕ → Run (ℕ × ℕ)
unfolding boundaries_loop
merge_boundaries c0 c1 target =
    let lo = target - length c1 in
    let hi = min (length c0) target in boundaries_loop c0 c1 target (hi - lo + 1) lo hi

-- The loop of `merge_chunk_pairs` from round `i` on: `at` keys are in the chunks so far, `r0` and `r1`
-- are left of the two slices.
unfoldable pub chunks_loop : ℕ → ℕ → ℕ → ℕ → ℕ → List ℕ → List ℕ → Run (List (List ℕ × List ℕ))
chunks_loop zero i n count at r0 r1 =
    ok (if ltb 0 (length r0) || ltb 0 (length r1) then (r0, r1) ∷ [] else [])
chunks_loop (suc left) i n count at r0 r1 =
    let target = n * i / count - at in
    elim (target == 0) [
      | true ↦ chunks_loop left (i + 1) n count at r0 r1
      | false ↦ elim (merge_boundaries r0 r1 target) [
        | panic ↦ panic
        | out_of_fuel ↦ out_of_fuel
        | ok (n0, n1) ↦
            chunks_loop left (i + 1) n count (at + n0 + n1) (drop n0 r0) (drop n1 r1) >>= λ rest.
            ok ((take n0 r0, take n1 r1) ∷ rest)
      ]
    ]

unfoldable pub merge_chunk_pairs : List ℕ → List ℕ → ℕ → Run (List (List ℕ × List ℕ))
unfolding chunks_loop
merge_chunk_pairs c0 c1 count = chunks_loop (count - 1) 1 (length c0 + length c1) count 0 c0 c1
