-- ===== src/Statevector.antt =====
-- `src/statevector.rs`: the sparse state vector, two slices of elements, each sorted by its bits. The
-- chunks that threads work on are in Statevector/Chunks and Statevector/Plan; the buffers that the
-- slices live in are the lists that they hold.
pub mod Key
pub mod Sync
pub mod Steps
pub mod Valid
pub mod Apart
pub mod Dense
pub mod Gate
pub mod Amplitude
pub mod Lookup
pub mod Plan
pub mod Chunks
pub mod Preserve
pub mod Invariant
use qblaze.Base.{
  ℕ, suc, zero, ◌+◌, ◌-◌, ◌*◌, ◌%◌, ◌^◌, ◌≡◌, Bool, true, false, not, Option, none, some, List, [],
  ◌∷◌, ◌++◌, length, get_elem?, map, if◌then◌else◌, ltb, ◌==◌, Run, ok, panic,
}
use qblaze.Bitset.{BitSet, get, toggle_bit, not_set, and_set, same_set, from_small, empty}
use qblaze.Util.{merge_distinct, merge_eq, MergeEq, lhs, rhs, both}

-- The arithmetic of amplitudes that the code calls: `Complex` and `f64`. `significant old new` is the
-- test `new.norm_inf() > EPS * old.norm_inf()` of `Complex::accumulate`, `is_large` is the test of
-- `import_dense`.
pub record Numbers : Type 1 where
  pub Value : Type 0
  pub Weight : Type 0
  pub one : Value
  pub add : Value → Value → Value
  pub mul : Value → Value → Value
  pub div : Value → Weight → Value
  pub significant : Value → Value → Bool
  pub is_large : Value → Bool
  pub no_weight : Weight
  pub norm2 : Value → Weight
  pub add_weight : Weight → Weight → Weight

-- The derived order of the word arrays compares the first words first: it is the order of the number
-- with these digits.
unfoldable pub span : ℕ → ℕ
span zero = 1
span (suc n) = 2 ^ 64 * span n

unfoldable pub rank : List ℕ → ℕ
unfolding span
rank [] = 0
rank (w ∷ ws) = w * span (length ws) + rank ws

-- `!BitSet::default()` with the bit of the qubit toggled.
unfoldable pub mask_without : ℕ → ℕ → BitSet
unfolding toggle_bit not_set empty
mask_without n qi = toggle_bit (not_set (empty n)) qi

module _ (num : Numbers) where
  -- `sfree::Element`.
  pub record Entry : Type 0 where
    pub bits : BitSet
    pub val : num.Value

  abbrev pub Entries : Type 0
  Entries = List Entry

  -- `StatevectorImpl`; `state` is the two slices.
  pub record Statevector : Type 0 where
    pub partitioned_by : Option ℕ
    pub part0 : Entries
    pub part1 : Entries

  -- `StatevectorImpl::new` at `n` words; the flag says that the memory was there.
  unfoldable pub new_state : Bool → ℕ → Statevector
  unfolding empty
  new_state reserved n = record {
    partitioned_by = some 0;
    part0 = if reserved then record { bits = empty n; val = num.one } ∷ [] else [];
    part1 = [];
  }

  -- `clear`, after an allocation that failed.
  unfoldable pub clear_state : Statevector → Statevector
  clear_state s = record { partitioned_by = s.partitioned_by; part0 = []; part1 = [] }

  unfoldable pub state_len : Statevector → ℕ
  state_len s = length s.part0 + length s.part1

  unfoldable pub is_error : Statevector → Bool
  unfolding state_len
  is_error s = state_len s == 0

  -- The keys of the merges.
  unfoldable pub key : Entry → ℕ
  key e = rank e.bits.words

  unfoldable pub masked_key : ℕ → ℕ → Entry → ℕ
  masked_key n qi e = rank (and_set e.bits (mask_without n qi)).words

  -- `Complex::accumulate`.
  abbrev pub accumulate : num.Value → num.Value → num.Value × Bool
  accumulate v a = (num.add v a, num.significant v (num.add v a))

  -- `U4`: for each value of the qubit the amplitude that stays and the one that flips.
  pub record U4 : Type 0 where
    pub low : num.Value × num.Value
    pub high : num.Value × num.Value

  -- `U4::apply`.
  unfoldable pub apply : U4 → Bool → num.Value → num.Value × num.Value
  apply gate true a = (num.mul gate.high.0 a, num.mul gate.high.1 a)
  apply gate false a = (num.mul gate.low.0 a, num.mul gate.low.1 a)

  -- `lookup_random`: the `i`-th element, around the end.
  unfoldable pub lookup_random : Statevector → ℕ → Option Entry
  unfolding state_len
  lookup_random s i =
      let j = i % state_len s in
      if state_len s == 0
      then none
      else if ltb j (length s.part0)
      then get_elem? s.part0 j
      else get_elem? s.part1 (j - length s.part0)

  -- `lookup`: the binary searches of sorted slices find the element with the bits.
  unfoldable pub find_bits : Entries → BitSet → Option num.Value
  find_bits [] b = none
  find_bits (e ∷ es) b = let rest = find_bits es b in if same_set e.bits b then some e.val else rest

  unfoldable pub lookup : Statevector → BitSet → Option num.Value
  unfolding find_bits
  lookup s b = elim (find_bits s.part0 b) [ some v ↦ some v | none ↦ find_bits s.part1 b ]

  -- The elements whose bit is set, and the others: the two outputs of a repartition.
  unfoldable pub with_bit : ℕ → Bool → Entries → Entries
  with_bit qi v [] = []
  with_bit qi v (e ∷ es) =
      let rest = with_bit qi v es in
      if get e.bits qi then (if v then e ∷ rest else rest) else (if v then rest else e ∷ rest)

  unfoldable pub count_bit : ℕ → Entries → ℕ
  count_bit qi [] = 0
  count_bit qi (e ∷ es) = (if get e.bits qi then 1 else 0) + count_bit qi es

  -- `do_repartition_count`, `do_repartition_write` and `do_repartition_fixup`.
  unfoldable pub repartition_count : ℕ → Entries → Entries → ℕ × ℕ
  unfolding count_bit
  repartition_count qi chunk0 chunk1 =
      let r = count_bit qi chunk0 + count_bit qi chunk1 in (length chunk0 + length chunk1 - r, r)

  unfoldable pub repartition_write : ℕ → Entries → Entries → Entries × Entries
  unfolding with_bit merge_distinct key
  repartition_write qi chunk0 chunk1 =
      let merged = merge_distinct key chunk0 chunk1 in
      (with_bit qi false merged, with_bit qi true merged)

  unfoldable pub repartition_fixup : ℕ → ℕ → Entries → Entries → Entries × Entries
  unfolding with_bit merge_distinct masked_key
  repartition_fixup n qi chunk0 chunk1 =
      let merged = merge_distinct (masked_key n qi) chunk0 chunk1 in
      (with_bit qi false merged, with_bit qi true merged)

  -- The closure of `do_u4_count`, run over the merge: how many elements each output gets.
  unfoldable pub u4_counts : U4 → List (MergeEq Entry) → ℕ × ℕ
  unfolding apply
  u4_counts gate [] = (0, 0)
  u4_counts gate (lhs v0 ∷ ms) = let (n0, n1) = u4_counts gate ms in (n0 + 1, n1 + 1)
  u4_counts gate (rhs v1 ∷ ms) = let (n0, n1) = u4_counts gate ms in (n0 + 1, n1 + 1)
  u4_counts gate (both v0 v1 ∷ ms) =
      let (n0, n1) = u4_counts gate ms in
      let (r0a, r1a) = apply gate false v0.val in
      let (r1b, r0b) = apply gate true v1.val in
      (
        (if (accumulate r0a r0b).1 then n0 + 1 else n0),
        (if (accumulate r1a r1b).1 then n1 + 1 else n1),
      )

  unfoldable pub u4_count : ℕ → ℕ → U4 → Entries → Entries → ℕ × ℕ
  unfolding u4_counts merge_eq masked_key
  u4_count n qi gate chunk0 chunk1 = u4_counts gate (merge_eq (masked_key n qi) chunk0 chunk1)

  -- The closure of `do_u4_write`, run over the merge.
  unfoldable pub u4_writes : ℕ → U4 → List (MergeEq Entry) → Entries × Entries
  unfolding apply
  u4_writes qi gate [] = ([], [])
  u4_writes qi gate (lhs v0 ∷ ms) =
      let (out0, out1) = u4_writes qi gate ms in
      let (p0, p1) = apply gate false v0.val in
      (
        record { bits = v0.bits; val = p0 } ∷ out0,
        record { bits = toggle_bit v0.bits qi; val = p1 } ∷ out1,
      )
  u4_writes qi gate (rhs v1 ∷ ms) =
      let (out0, out1) = u4_writes qi gate ms in
      let (p1, p0) = apply gate true v1.val in
      (
        record { bits = toggle_bit v1.bits qi; val = p0 } ∷ out0,
        record { bits = v1.bits; val = p1 } ∷ out1,
      )
  u4_writes qi gate (both v0 v1 ∷ ms) =
      let (out0, out1) = u4_writes qi gate ms in
      let (r0a, r1a) = apply gate false v0.val in
      let (r1b, r0b) = apply gate true v1.val in
      let (r0, keep0) = accumulate r0a r0b in
      let (r1, keep1) = accumulate r1a r1b in
      (
        (if keep0 then record { bits = v0.bits; val = r0 } ∷ out0 else out0),
        (if keep1 then record { bits = v1.bits; val = r1 } ∷ out1 else out1),
      )

  unfoldable pub u4_write : ℕ → ℕ → U4 → Entries → Entries → Entries × Entries
  unfolding u4_writes merge_eq masked_key
  u4_write n qi gate chunk0 chunk1 = u4_writes qi gate (merge_eq (masked_key n qi) chunk0 chunk1)

  -- `do_premeasure`, whose sums are then added up: the weight of each value of the qubit.
  unfoldable pub premeasure_chunk : ℕ → Entries → num.Weight × num.Weight → num.Weight × num.Weight
  premeasure_chunk qi [] p = p
  premeasure_chunk qi (e ∷ es) (p0, p1) = premeasure_chunk qi es (
      if get e.bits qi
      then (p0, num.add_weight p1 (num.norm2 e.val))
      else (num.add_weight p0 (num.norm2 e.val), p1))

  -- `do_measure_count` and `do_measure_copy`.
  unfoldable pub measure_count : ℕ → Bool → Entries → ℕ
  unfolding count_bit
  measure_count qi v chunk = let n = count_bit qi chunk in if v then n else length chunk - n

  unfoldable pub measure_copy : ℕ → Bool → num.Weight → Entries → Entries
  measure_copy qi v scale [] = []
  measure_copy qi v scale (e ∷ es) =
      let rest = measure_copy qi v scale es in
      let kept : Entry = record { bits = e.bits; val = num.div e.val scale } in
      if get e.bits qi then (if v then kept ∷ rest else rest) else (if v then rest else kept ∷ rest)

  -- `normalize`, but for the test whether the scale is one, whose result is an argument. The size
  -- that `for_chunks` has for an empty state is zero, at which `chunks_mut` panics.
  unfoldable pub scale_all : num.Weight → Entries → Entries
  scale_all scale [] = []
  scale_all scale (e ∷ es) =
      record { bits = e.bits; val = num.div e.val scale } ∷ scale_all scale es

  unfoldable pub normalize : Bool → num.Weight → Statevector → Run Statevector
  unfolding scale_all state_len
  normalize is_one scale s =
      if is_one
      then ok s
      else if state_len s == 0
      then panic
      else ok (record {
        partitioned_by = s.partitioned_by;
        part0 = scale_all scale s.part0;
        part1 = scale_all scale s.part1;
      })

  -- The passes of `import_dense`: the elements of a dense vector from index `start` on, and how many there are.
  unfoldable pub dense_count : List num.Value → ℕ
  dense_count [] = 0
  dense_count (v ∷ vs) = (if num.is_large v then 1 else 0) + dense_count vs

  unfoldable pub dense_entries : ℕ → ℕ → List num.Value → Entries
  unfolding from_small
  dense_entries n start [] = []
  dense_entries n start (v ∷ vs) =
      let rest = dense_entries n (start + 1) vs in
      if num.is_large v then record { bits = from_small n start; val = v } ∷ rest else rest
