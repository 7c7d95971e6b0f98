-- ===== src/Statevector/Invariant.antt =====
-- The measurements and the import of `src/statevector.rs`, and the invariant of the state.
use qblaze.Base.{
  ℕ, suc, ◌+◌, ◌-◌, ◌*◌, ◌^◌, subst, List, length, ◌≤◌, ◌<◌, ◌≡◌, refl, arith, Bool, true, false,
  Option, none, some, [], ◌∷◌, Bool-cases, inl, inr, if◌then◌else◌, ◌==◌, not, ◌&&◌, Run, ok, panic,
}
use qblaze.Bitset.Laws.{empty-IsBitSet, get-empty}
use qblaze.Statevector.{
  Numbers, Entries, Statevector, U4, key, new_state, clear_state, with_bit, measure_copy,
  measure_count, state_len, scale_all, normalize, dense_entries, span,
}
use qblaze.Statevector.Dense.{dense_entries-IsSorted}
use qblaze.Statevector.Steps.{import_dense, is_partitioned_by, set_partition, perform_u4, measure}
use qblaze.Statevector.Valid.{IsSorted, HasBit, IsPartition, IsValid, count_key}
use qblaze.Statevector.Apart.{count_key-le, weaken, with_bit_lem}
use qblaze.Statevector.Preserve.{
  clear_state-IsValid, halves-IsValid, set_partition-IsValid, perform_u4-IsValid,
}

module _ (num : Numbers) (n : ℕ) where
  scale_all_lem :
      (scale : num.Weight) (lo : ℕ) (es : Entries num)
      → (IsSorted num n lo es → IsSorted num n lo (scale_all num scale es))
        × ((qi : ℕ) (v : Bool) → HasBit num n qi v es → HasBit num n qi v (scale_all num scale es))
        × ((k : ℕ) → count_key num n k (scale_all num scale es) ≡ count_key num n k es)
  unfolding scale_all key
  scale_all_lem scale lo [] = (λ s. s, λ qi v h. h, λ k. refl)
  scale_all_lem scale lo (e ∷ es) =
      let (sorted, bits, counts) = scale_all_lem scale (key num e + 1) es in
      (λ s. (s.0, s.1, sorted s.2), λ qi v h. (h.0, bits qi v h.1), λ k. omega (arith, counts k))

  measure_copy_lem :
      (qi : ℕ) (v : Bool) (scale : num.Weight) (es : Entries num)
      → measure_copy num qi v scale es ≡ scale_all num scale (with_bit num qi v es)
  unfolding measure_copy scale_all with_bit
  measure_copy_lem qi v scale [] = refl
  measure_copy_lem qi v scale (e ∷ es) = ground (arith, measure_copy_lem qi v scale es)

  with_bit-HasBit :
      (qi p : ℕ) (v u : Bool) (es : Entries num)
      → HasBit num n p u es
      → HasBit num n p u (with_bit num qi v es)
  unfolding with_bit
  with_bit-HasBit qi p v u [] h = tt
  with_bit-HasBit qi p v u (e ∷ es) h = ground (arith, with_bit-HasBit qi p v u es h.1)

  count_key-with_bit :
      (k qi : ℕ) (v : Bool) (es : Entries num)
      → count_key num n k (with_bit num qi v es) ≤ count_key num n k es
  unfolding with_bit
  count_key-with_bit k qi v [] = omega arith
  count_key-with_bit k qi v (e ∷ es) = ground (arith, count_key-with_bit k qi v es)

  -- The operation returns a valid state.
  abbrev pub ReturnsValid : Run (Statevector num) → Type 0
  ReturnsValid m = (s' : Statevector num) × (m ≡ ok s') × IsValid num n s'

  -- Where `measure` cuts an empty state into chunks: before it counts, or when it normalizes.
  abbrev pub measure_fails : Bool → ℕ → Bool → Statevector num → Bool
  measure_fails is_one qi v s =
      if is_partitioned_by s.partitioned_by qi
      then not is_one && ((if v then length s.part1 else length s.part0) == 0)
      else length s.part0 + length s.part1 == 0

  abbrev Panics : Bool → Run (Statevector num) → Type 0
  Panics fails m = (fails ≡ true → m ≡ panic) × (fails ≡ false → ReturnsValid m)

  scale_all-IsValid :
      (scale : num.Weight) (s : Statevector num)
      → IsValid num n s
      → IsValid num n
          (record s { part0 = scale_all num scale s.part0; part1 = scale_all num scale s.part1 })
  scale_all-IsValid scale s v =
      let (sorted0, bits0, counts0) = scale_all_lem scale 0 s.part0 in
      let (sorted1, bits1, counts1) = scale_all_lem scale 0 s.part1 in
      record {
        sorted0 = sorted0 v.sorted0;
        sorted1 = sorted1 v.sorted1;
        apart = λ k. omega (arith, counts0 k, counts1 k, v.apart k);
        partition = each_part s.partitioned_by v.partition;
      }
    where
      each_part :
          (p : Option ℕ)
          → IsPartition num n p s.part0 s.part1
          → IsPartition num n p (scale_all num scale s.part0) (scale_all num scale s.part1)
      each_part none h = tt
      each_part (some qi) h = (
        h.0,
        (scale_all_lem scale 0 s.part0).1 qi false h.1,
        (scale_all_lem scale 0 s.part1).1 qi true h.2,
      )

  normalize_lem :
      (is_one : Bool) (scale : num.Weight) (s : Statevector num)
      → IsValid num n s
      → Panics (not is_one && (state_len num s == 0)) (normalize num is_one scale s)
  unfolding normalize
  normalize_lem true scale s v = (λ e. absurd (cc), λ e. (s, refl, v))
  normalize_lem false scale s v = (
    λ empty. rw empty refl,
    λ some_left. (
      record s { part0 = scale_all num scale s.part0; part1 = scale_all num scale s.part1 },
      rw some_left refl,
      scale_all-IsValid scale s v,
    ),
  )

  drop_part :
      (v : Bool) (s : Statevector num)
      → IsValid num n s
      → IsValid num n (if v then record s { part0 = [] } else record s { part1 = [] })
  drop_part true s valid = record {
    sorted0 = tt;
    sorted1 = valid.sorted1;
    apart = λ k. omega (arith, valid.apart k);
    partition = only s.partitioned_by valid.partition;
  }
    where
      only : (p : Option ℕ) → IsPartition num n p s.part0 s.part1 → IsPartition num n p [] s.part1
      only none h = tt
      only (some qi) h = (h.0, tt, h.2)
  drop_part false s valid = record {
    sorted0 = valid.sorted0;
    sorted1 = tt;
    apart = λ k. omega (arith, valid.apart k);
    partition = only s.partitioned_by valid.partition;
  }
    where
      only : (p : Option ℕ) → IsPartition num n p s.part0 s.part1 → IsPartition num n p s.part0 []
      only none h = tt
      only (some qi) h = (h.0, h.1, tt)

  keep_value :
      (qi : ℕ) (v : Bool) (s : Statevector num)
      → IsValid num n s
      → IsValid num n
          (record s { part0 = with_bit num qi v s.part0; part1 = with_bit num qi v s.part1 })
  keep_value qi v s valid = record {
    sorted0 = (with_bit_lem num n qi v 0 s.part0 valid.sorted0).0;
    sorted1 = (with_bit_lem num n qi v 0 s.part1 valid.sorted1).0;
    apart = λ k. omega (
      arith,
      valid.apart k,
      count_key-with_bit k qi v s.part0,
      count_key-with_bit k qi v s.part1,
    );
    partition = each_part s.partitioned_by valid.partition;
  }
    where
      each_part :
          (p : Option ℕ)
          → IsPartition num n p s.part0 s.part1
          → IsPartition num n p (with_bit num qi v s.part0) (with_bit num qi v s.part1)
      each_part none h = tt
      each_part (some p) h =
          (h.0, with_bit-HasBit qi p v false s.part0 h.1, with_bit-HasBit qi p v true s.part1 h.2)

  measure_part :
      (is_one : Bool) (qi : ℕ) (v : Bool) (scale : num.Weight) (s : Statevector num)
      → IsValid num n s
      → Panics (not is_one && ((if v then length s.part1 else length s.part0) == 0)) (
          normalize num is_one scale
            (if v then record s { part0 = [] } else record s { part1 = [] }))
  unfolding state_len
  measure_part is_one qi true scale s valid =
      let half = record s { part0 = [] } in
      let e : 0 + length s.part1 ≡ length s.part1 = omega arith in
      subst (λ k. Panics (not is_one && (k == 0)) (normalize num is_one scale half)) e
        (normalize_lem is_one scale half (drop_part true s valid))
  measure_part is_one qi false scale s valid =
      let half = record s { part1 = [] } in
      let e : length s.part0 + 0 ≡ length s.part0 = omega arith in
      subst (λ k. Panics (not is_one && (k == 0)) (normalize num is_one scale half)) e
        (normalize_lem is_one scale half (drop_part false s valid))

  measure_lem :
      (reserved is_one : Bool) (qi : ℕ) (v : Bool) (scale : num.Weight) (s : Statevector num)
      → IsValid num n s
      → Panics (measure_fails is_one qi v s) (measure num n reserved is_one qi v scale s)
  unfolding measure state_len
  measure_lem reserved is_one qi v scale s valid =
      elim (Bool-cases (is_partitioned_by s.partitioned_by qi)) [
        | inl partitioned ↦ rw partitioned (measure_part is_one qi v scale s valid)
        | inr mixed ↦
            let kept = measure_count num qi v s.part0 + measure_count num qi v s.part1 in
            rw mixed (
              λ empty. rw empty refl,
              λ some_left. elim (Bool-cases (kept == length s.part0 + length s.part1)) [
                | inl every ↦ rw (some_left, every) (all_kept is_one)
                | inr fewer ↦ rw (some_left, fewer) (copied reserved)
              ],
            )
      ]
    where
      all_kept :
          (is_one : Bool)
          → ReturnsValid (
              if is_one
              then ok s
              else ok (record s {
                part0 = scale_all num scale s.part0;
                part1 = scale_all num scale s.part1;
              }))
      all_kept true = (s, refl, valid)
      all_kept false = (_, refl, scale_all-IsValid scale s valid)

      copied :
          (reserved : Bool)
          → ReturnsValid (
              if reserved
              then ok (record s {
                part0 = measure_copy num qi v scale s.part0;
                part1 = measure_copy num qi v scale s.part1;
              })
              else ok (clear_state num s))
      copied true =
          let half = record s {
            part0 = with_bit num qi v s.part0;
            part1 = with_bit num qi v s.part1;
          } in
          rw (measure_copy_lem qi v scale s.part0, measure_copy_lem qi v scale s.part1)
            (_, refl, scale_all-IsValid scale half (keep_value qi v s valid))
      copied false = (clear_state num s, refl, clear_state-IsValid num n s valid.partition)

  new_state-IsValid : (reserved : Bool) → 0 < n → IsValid num n (new_state num reserved n)
  unfolding new_state
  new_state-IsValid true h =
      halves-IsValid num n (new_state num true n) 0 refl (omega arith)
        ((empty-IsBitSet n, omega arith, tt), (get-empty n 0, tt)) (tt, tt)
  new_state-IsValid false h =
      halves-IsValid num n (new_state num false n) 0 refl (omega arith) (tt, tt) (tt, tt)

  import_dense-IsValid :
      (reserved : Bool) (dense : List num.Value) (s : Statevector num)
      → 0 < n
      → length dense ≤ 2 ^ 64
      → IsValid num n s
      → IsValid num n (import_dense num n reserved dense s)
  unfolding import_dense
  import_dense-IsValid true dense s positive fits v =
      let e : suc (n - 1) ≡ n = omega arith in
      let sorted =
        subst (λ w. IsSorted num w 0 (dense_entries num w 0 dense)) e
          (weaken num (suc (n - 1)) (0 * span (n - 1)) 0 (dense_entries num (suc (n - 1)) 0 dense)
            (omega arith) (dense_entries-IsSorted num (n - 1) 0 dense (omega (arith, fits)))) in
      record {
        sorted0 = sorted;
        sorted1 = tt;
        apart = λ k. omega (arith, count_key-le num n k 0 (dense_entries num n 0 dense) sorted);
        partition = tt;
      }
  import_dense-IsValid false dense s positive fits v = clear_state-IsValid num n s v.partition

  -- The methods of the state vector keep its invariant, whether their memory is there or not:
  -- `new` makes a valid state, `set_partition` and `perform_u4` at a qubit within the width leave
  -- a valid state valid, and so does `import_dense` of at most 2^64 amplitudes. `measure` of a
  -- valid state panics if it has an empty state to cut into chunks: one that is not partitioned by
  -- the qubit, or the part that it keeps, unless the scale is one. Else it returns a valid state.
  -- In a valid state both slices ascend strictly by their bits, no bits occur twice, and the
  -- slices are those of the qubit of `partitioned_by`.
  pub methods_lem :
      (s : Statevector num) (qi : ℕ) (dense : List num.Value)
      → qi < n * 64
      → length dense ≤ 2 ^ 64
      → IsValid num n s
      → ((reserved : Bool) → IsValid num n (new_state num reserved n))
        × ((reserved : Bool) → IsValid num n (set_partition num n reserved qi s))
        × ((reserved0 reserved : Bool) (gate : U4 num)
            → IsValid num n (perform_u4 num n reserved0 reserved qi gate s))
        × ((reserved is_one v : Bool) (scale : num.Weight)
            → (measure_fails is_one qi v s ≡ true
                → measure num n reserved is_one qi v scale s ≡ panic)
              × (measure_fails is_one qi v s ≡ false
                  → ReturnsValid (measure num n reserved is_one qi v scale s)))
        × ((reserved : Bool) → IsValid num n (import_dense num n reserved dense s))
  methods_lem s qi dense inside fits valid = (
    λ reserved. new_state-IsValid reserved (omega arith),
    λ reserved. (set_partition-IsValid num n reserved qi s inside valid).0,
    λ reserved0 reserved gate. perform_u4-IsValid num n reserved0 reserved qi gate s inside valid,
    λ reserved is_one v scale. measure_lem reserved is_one qi v scale s valid,
    λ reserved. import_dense-IsValid reserved dense s (omega arith) fits valid,
  )
