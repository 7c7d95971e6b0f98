-- ===== src/Statevector/Sync.antt =====
-- The unchecked pushes of `src/statevector.rs`: each pass reserves the elements that a counting pass
-- promised and then pushes without a test.
use qblaze.Base.{ℕ, ◌+◌, ◌-◌, ◌≡◌, refl, arith, Bool, true, false, List, [], ◌∷◌, length}
use qblaze.Bitset.{get}
use qblaze.Util.{merge_distinct, merge_eq, MergeEq, lhs, rhs, both}
use qblaze.Util.Merge.{count, count-merge_distinct}
use qblaze.Statevector.{
  Numbers, Entry, Entries, with_bit, count_bit, repartition_count, repartition_write,
  repartition_fixup, U4, u4_counts, u4_count, u4_writes, u4_write, measure_count, measure_copy,
  dense_count, key, masked_key, dense_entries,
}

module _ (num : Numbers) where
  count-length : (es : Entries num) → count (key num) (λ e. true) es ≡ length es
  count-length [] = refl
  count-length (e ∷ es) = omega (arith, count-length es)

  count-count_bit :
      (qi : ℕ) (es : Entries num) → count (key num) (λ e. get e.bits qi) es ≡ count_bit num qi es
  unfolding count_bit
  count-count_bit qi [] = refl
  count-count_bit qi (e ∷ es) = omega (arith, count-count_bit qi es)

  length-with_bit :
      (qi : ℕ) (es : Entries num)
      → (length (with_bit num qi true es) ≡ count_bit num qi es)
        × (length (with_bit num qi false es) + count_bit num qi es ≡ length es)
  unfolding with_bit count_bit
  length-with_bit qi [] = (refl, refl)
  length-with_bit qi (e ∷ es) = ground (arith, length-with_bit qi es)

  module _ (f : Entry num → ℕ) (qi : ℕ) (c0 c1 : Entries num) where
    -- The outputs that a merge is cut into by a bit have the counts of the slices.
    merged_lem :
        let merged = merge_distinct f c0 c1 in
        let ones = count_bit num qi c0 + count_bit num qi c1 in
        (length (with_bit num qi true merged) ≡ ones)
        × (length (with_bit num qi false merged) ≡ length c0 + length c1 - ones)
    merged_lem =
        let merged = merge_distinct f c0 c1 in
        let (set_bits, unset_bits) = length-with_bit qi merged in
        let bits = count-merge_distinct f (λ e. get e.bits qi) c0 c1 in
        let all_items = count-merge_distinct f (λ e. true) c0 c1 in
        let e0 = count-count_bit qi merged in
        let e1 = count-count_bit qi c0 in
        let e2 = count-count_bit qi c1 in
        let l0 = count-length merged in
        let l1 = count-length c0 in let l2 = count-length c1 in (omega arith, omega arith)

  repartition_lem :
      (n qi : ℕ) (chunk0 chunk1 : Entries num)
      → let (out0, out1) = repartition_write num qi chunk0 chunk1 in
        let (fix0, fix1) = repartition_fixup num n qi chunk0 chunk1 in
        let (n0, n1) = repartition_count num qi chunk0 chunk1 in
        (length out0 ≡ n0) × (length out1 ≡ n1) × (length fix0 ≡ n0) × (length fix1 ≡ n1)
  unfolding repartition_count repartition_write repartition_fixup
  repartition_lem n qi c0 c1 =
      let plain = merged_lem (key num) qi c0 c1 in
      let fixup = merged_lem (masked_key num n qi) qi c0 c1 in (plain.1, plain.0, fixup.1, fixup.0)

  u4_writes_lem :
      (qi : ℕ) (gate : U4 num) (ms : List (MergeEq (Entry num)))
      → (length (u4_writes num qi gate ms).0 ≡ (u4_counts num gate ms).0)
        × (length (u4_writes num qi gate ms).1 ≡ (u4_counts num gate ms).1)
  unfolding u4_writes u4_counts
  u4_writes_lem qi gate [] = (refl, refl)
  u4_writes_lem qi gate (lhs v0 ∷ ms) = ground (arith, u4_writes_lem qi gate ms)
  u4_writes_lem qi gate (rhs v1 ∷ ms) = ground (arith, u4_writes_lem qi gate ms)
  u4_writes_lem qi gate (both v0 v1 ∷ ms) = ground (arith, u4_writes_lem qi gate ms)

  u4_write_lem :
      (n qi : ℕ) (gate : U4 num) (chunk0 chunk1 : Entries num)
      → let (out0, out1) = u4_write num n qi gate chunk0 chunk1 in
        let (n0, n1) = u4_count num n qi gate chunk0 chunk1 in
        (length out0 ≡ n0) × (length out1 ≡ n1)
  unfolding u4_write u4_count
  u4_write_lem n qi gate c0 c1 = u4_writes_lem qi gate (merge_eq (masked_key num n qi) c0 c1)

  length-measure_copy :
      (qi : ℕ) (scale : num.Weight) (es : Entries num)
      → (length (measure_copy num qi true scale es) ≡ count_bit num qi es)
        × (length (measure_copy num qi false scale es) + count_bit num qi es ≡ length es)
  unfolding measure_copy count_bit
  length-measure_copy qi scale [] = (refl, refl)
  length-measure_copy qi scale (e ∷ es) = ground (arith, length-measure_copy qi scale es)

  length-dense_entries :
      (n start : ℕ) (vs : List num.Value)
      → length (dense_entries num n start vs) ≡ dense_count num vs
  unfolding dense_entries dense_count
  length-dense_entries n start [] = refl
  length-dense_entries n start (v ∷ vs) = ground (arith, length-dense_entries n (start + 1) vs)

  filters_lem :
      (n qi start : ℕ) (v : Bool) (scale : num.Weight) (chunk : Entries num) (vs : List num.Value)
      → (length (measure_copy num qi v scale chunk) ≡ measure_count num qi v chunk)
        × (length (dense_entries num n start vs) ≡ dense_count num vs)
  unfolding measure_count
  filters_lem n qi start true scale chunk vs =
      ((length-measure_copy qi scale chunk).0, length-dense_entries n start vs)
  filters_lem n qi start false scale chunk vs =
      (omega (arith, (length-measure_copy qi scale chunk).1), length-dense_entries n start vs)

  -- Every pass that pushes without a test pushes exactly what its counting pass reserved: both
  -- outputs of `do_u4_write`, of `do_repartition_write` and of `do_repartition_fixup` on any two
  -- chunks, `do_measure_copy` on any chunk, and the copy of a dense vector.
  pub counts_lem :
      (n qi start : ℕ) (v : Bool) (scale : num.Weight) (gate : U4 num) (chunk0 chunk1 : Entries num)
      (vs : List num.Value)
      → let (out0, out1) = u4_write num n qi gate chunk0 chunk1 in
        let (n0, n1) = u4_count num n qi gate chunk0 chunk1 in
        let (moved0, moved1) = repartition_write num qi chunk0 chunk1 in
        let (fixed0, fixed1) = repartition_fixup num n qi chunk0 chunk1 in
        let (r0, r1) = repartition_count num qi chunk0 chunk1 in
        (length out0 ≡ n0)
        × (length out1 ≡ n1)
        × (length moved0 ≡ r0)
        × (length moved1 ≡ r1)
        × (length fixed0 ≡ r0)
        × (length fixed1 ≡ r1)
        × (length (measure_copy num qi v scale chunk0) ≡ measure_count num qi v chunk0)
        × (length (dense_entries num n start vs) ≡ dense_count num vs)
  counts_lem n qi start v scale gate chunk0 chunk1 vs =
      let gates = u4_write_lem n qi gate chunk0 chunk1 in
      let moves = repartition_lem n qi chunk0 chunk1 in
      let filters = filters_lem n qi start v scale chunk0 vs in
      (gates.0, gates.1, moves.0, moves.1, moves.2, moves.3, filters.0, filters.1)
