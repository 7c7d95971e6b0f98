-- ===== src/Examples/State.antt =====
-- The theorems on the state vector at small states of one word.
use qblaze.Base.{
  ℕ, ◌+◌, ◌*◌, ◌/◌, ◌^◌, ◌≤◌, ◌<◌, ◌≡◌, refl, arith, Bool, true, false, not, ◌==◌, some, [], ◌∷◌,
  length, max, ok, panic,
}
use qblaze.Bitset.{BitSet, IsBitSet, get, toggle_bit}
use qblaze.Statevector.{
  Numbers, Entries, Statevector, U4, lookup, u4_write, u4_count, repartition_write,
  repartition_fixup, repartition_count, measure_copy, measure_count, dense_entries, dense_count,
  new_state, rank, key, span,
}
use qblaze.Statevector.Valid.{IsValid}
use qblaze.Statevector.Steps.{import_dense, set_partition, perform_u4, measure}
use qblaze.Statevector.Preserve.{halves-IsValid}
use qblaze.Statevector.Invariant.{ReturnsValid, measure_fails, methods_lem}
use qblaze.Statevector.Amplitude.{row0, row1}
use qblaze.Statevector.Lookup.{perform_u4_lem}
use qblaze.Statevector.Sync.{counts_lem}
use qblaze.Statevector.Plan.{Context, ceil, wrapping_mul, for_common, for_chunks}
use qblaze.Statevector.Chunks.{for_chunks_lem, for_chunks-empty}

-- Amplitudes that are natural numbers; a sum of zero is dropped.
abbrev plain : Numbers
plain = record {
  Value = ℕ;
  Weight = ℕ;
  one = 1;
  add = λ a b. a + b;
  mul = λ a b. a * b;
  div = λ a b. a / b;
  significant = λ a b. not (b == 0);
  is_large = λ a. not (a == 0);
  no_weight = 0;
  norm2 = λ a. a * a;
  add_weight = λ a b. a + b;
}

abbrev bits_of : ℕ → BitSet
bits_of w = record { words = w ∷ [] }

-- Three elements, partitioned by the qubit 0.
abbrev low_half : Entries plain
low_half = record { bits = bits_of 0; val = 3 } ∷ record { bits = bits_of 2; val = 7 } ∷ []

abbrev high_half : Entries plain
high_half = record { bits = bits_of 1; val = 5 } ∷ []

abbrev three_elements : Statevector plain
three_elements = record { partitioned_by = some 0; part0 = low_half; part1 = high_half }

abbrev mixing : U4 plain
mixing = record { low = (1, 2); high = (3, 4) }

bits_of-IsBitSet : (w : ℕ) → w < 2 ^ 64 → IsBitSet 1 (bits_of w)
bits_of-IsBitSet w h = record { has_words = refl; are_words = (h, tt) }

three_elements-IsValid : IsValid plain 1 three_elements
unfolding get key rank span
three_elements-IsValid =
    halves-IsValid plain 1 three_elements 0 refl (omega arith)
      (
        (
          bits_of-IsBitSet 0 (omega arith),
          omega arith,
          (bits_of-IsBitSet 2 (omega arith), omega arith, tt),
        ),
        (refl, (refl, tt)),
      )
      ((bits_of-IsBitSet 1 (omega arith), omega arith, tt), (refl, tt))

low_bit : get (bits_of 0) 0 ≡ false
unfolding get
low_bit = refl

perform_u4_lem_example :
    let s' = perform_u4 plain 1 true true 0 mixing three_elements in
    let amplitude0 = lookup plain three_elements (bits_of 0) in
    let amplitude1 = lookup plain three_elements (toggle_bit (bits_of 0) 0) in
    (lookup plain s' (bits_of 0) ≡ row0 plain mixing amplitude0 amplitude1)
    × (lookup plain s' (toggle_bit (bits_of 0) 0) ≡ row1 plain mixing amplitude0 amplitude1)
perform_u4_lem_example =
    perform_u4_lem plain 1 three_elements 0 mixing (bits_of 0) (omega arith) three_elements-IsValid
      (bits_of-IsBitSet 0 (omega arith)) low_bit

methods_lem_example :
    ((reserved : Bool) → IsValid plain 1 (new_state plain reserved 1))
    × ((reserved : Bool) → IsValid plain 1 (set_partition plain 1 reserved 1 three_elements))
    × ((reserved0 reserved : Bool) (gate : U4 plain)
        → IsValid plain 1 (perform_u4 plain 1 reserved0 reserved 1 gate three_elements))
    × ((reserved is_one v : Bool) (scale : ℕ)
        → (measure_fails plain 1 is_one 1 v three_elements ≡ true
            → measure plain 1 reserved is_one 1 v scale three_elements ≡ panic)
          × (measure_fails plain 1 is_one 1 v three_elements ≡ false
              → ReturnsValid plain 1 (measure plain 1 reserved is_one 1 v scale three_elements)))
    × ((reserved : Bool)
        → IsValid plain 1 (import_dense plain 1 reserved (4 ∷ 0 ∷ 9 ∷ []) three_elements))
methods_lem_example =
    methods_lem plain 1 three_elements 1 (4 ∷ 0 ∷ 9 ∷ []) (omega arith) (omega arith)
      three_elements-IsValid

counts_lem_example :
    let (out0, out1) = u4_write plain 1 0 mixing low_half high_half in
    let (n0, n1) = u4_count plain 1 0 mixing low_half high_half in
    let (moved0, moved1) = repartition_write plain 0 low_half high_half in
    let (fixed0, fixed1) = repartition_fixup plain 1 0 low_half high_half in
    let (r0, r1) = repartition_count plain 0 low_half high_half in
    (length out0 ≡ n0)
    × (length out1 ≡ n1)
    × (length moved0 ≡ r0)
    × (length moved1 ≡ r1)
    × (length fixed0 ≡ r0)
    × (length fixed1 ≡ r1)
    × (length (measure_copy plain 0 true 2 low_half) ≡ measure_count plain 0 true low_half)
    × (length (dense_entries plain 1 0 (4 ∷ 0 ∷ 9 ∷ [])) ≡ dense_count plain (4 ∷ 0 ∷ 9 ∷ []))
counts_lem_example = counts_lem plain 1 0 0 true 2 mixing low_half high_half (4 ∷ 0 ∷ 9 ∷ [])

abbrev four_threads : Context
four_threads = record {
  num_threads = 4;
  chunk_size = 65536;
  multithreading_threshold = 128;
  work_item_min_size = 64;
  work_item_max_size = 1024;
}

for_chunks_lem_example :
    (pool0 pool : Bool) × (num_chunks c0 c1 : ℕ) × (for_common four_threads
        (wrapping_mul (30 + 12) 32)
        1024
      ≡ ok (pool0, num_chunks))
    × (for_chunks four_threads 32 1024 30 12 ≡ ok (pool, c0, c1))
    × (0 < c0)
    × (0 < c1)
    × (ceil 30 c0 + ceil 12 c1 ≤ max num_chunks 2)
for_chunks_lem_example =
    for_chunks_lem four_threads 1024 (omega arith) (omega arith) (omega arith) 32 30 12
      (omega arith)

for_chunks-empty_example : for_chunks four_threads 32 1024 0 0 ≡ ok (false, 0, 0)
for_chunks-empty_example =
    for_chunks-empty four_threads 1024 (omega arith) (omega arith) (omega arith) 32
