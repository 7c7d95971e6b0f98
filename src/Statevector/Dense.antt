-- ===== src/Statevector/Dense.antt =====
-- `import_dense` of `src/statevector.rs`, and the order of its elements.
use native.Mathlib.Nat.{suc-mul}
use qblaze.Base.{
  ℕ, suc, zero, ◌+◌, ◌*◌, ◌^◌, ◌≤◌, ◌<◌, ◌≡◌, refl, ap, ◌∙◌, arith, List, [], ◌∷◌, length,
  replicate, Bool-cases, inl, inr, length-replicate,
}
use qblaze.QubitSet.Laws.{AreWords-replicate}
use qblaze.Bitset.{IsBitSet, from_small}
use qblaze.Statevector.{Numbers, dense_entries, key, rank, span}
use qblaze.Statevector.Key.{one-le-span}
use qblaze.Statevector.Valid.{IsSorted}
use qblaze.Statevector.Apart.{weaken}

rank-replicate : (m : ℕ) → rank (replicate m 0) ≡ 0
unfolding rank
rank-replicate zero = refl
rank-replicate (suc m) = omega (arith, rank-replicate m)

-- The set of a small index, and its place in the order.
from_small_lem :
    (m i : ℕ)
    → i < 2 ^ 64
    → IsBitSet (suc m) (from_small (suc m) i) × (rank (from_small (suc m) i).words ≡ i * span m)
unfolding from_small rank
from_small_lem m i h = (
  record {
    has_words = omega (arith, length-replicate {A = ℕ} m 0);
    are_words = (h, AreWords-replicate m);
  },
  omega (arith, rank-replicate m, ap (λ (k : ℕ). i * span k) (length-replicate {A = ℕ} m 0)),
)

module _ (num : Numbers) (m : ℕ) where
  pub dense_entries-IsSorted :
      (start : ℕ) (vs : List num.Value)
      → start + length vs ≤ 2 ^ 64
      → IsSorted num (suc m) (start * span m) (dense_entries num (suc m) start vs)
  unfolding dense_entries key
  dense_entries-IsSorted start [] h = tt
  dense_entries-IsSorted start (v ∷ vs) h =
      let rest = dense_entries-IsSorted (start + 1) vs (omega arith) in
      let place = one-le-span m in
      let next : suc start * span m ≡ start * span m + span m = suc-mul start (span m) in
      let e : (start + 1) * span m ≡ start * span m + span m =
        ap (λ (k : ℕ). k * span m) (omega arith) ∙ next in
      let (valid, at) = from_small_lem m start (omega arith) in
      elim (Bool-cases (num.is_large v)) [
        | inl kept ↦ rw kept (
          valid,
          omega (arith, at),
          weaken num (suc m) ((start + 1) * span m) _ _ (omega (arith, at, place)) rest,
        )
        | inr dropped ↦
            rw dropped
              (weaken num (suc m) ((start + 1) * span m) (start * span m) _ (omega arith) rest)
      ]
