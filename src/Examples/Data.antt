-- ===== src/Examples/Data.antt =====
-- The theorems on bit sets, merges, complex numbers and the arena at concrete inputs.
use mathlib.Core.Int.{
  ℤ, pos, negsuc, ◌+ℤ◌, ◌-ℤ◌, ◌*ℤ◌, neg_ℤ, one, +ℤ_comm, +ℤ_invr, neg_ℤ-neg_ℤ, neg_ℤ-+ℤ, *ℤ_comm,
  zero-*ℤ, *ℤ-one, *ℤ-negsuc,
}
use mathlib.Core.Nat as N
use qblaze.Sort.{insertion_sort}
use qblaze.Sort.Laws.{insertion_sort_lem}
use qblaze.Base.{ltb}
use qblaze.Base.{
  ℕ, suc, zero, ◌+◌, ◌*◌, ◌<◌, ◌≡◌, refl, sym, ap, ◌∙◌, arith, Bool, ◌&&◌, ◌||◌, xorb, List, [],
  ◌∷◌, All, flip, flip_all, if◌then◌else◌,
}
use qblaze.QubitSet
use qblaze.QubitSet.{QubitSet, contains}
use qblaze.QubitSet.Iter.{qubits_of_words, collect, next, skip, trailing_zeros}
use qblaze.Control.{Control, qubit}
use qblaze.Control.Meaning.{satisfied, same}
use qblaze.Bitset.{BitSet, IsBitSet, get, and_set, or_set, xor_set}
use qblaze.Bitset.Laws.{operators_lem}
use qblaze.Bitset.Gates.{
  perform_x, perform_swap, perform_multi_x, prepare_multi_x, prepare_control, asked, asked_lem,
  perform_bits_lem,
}
use qblaze.Util.{merge_distinct, merge_eq, merge_boundaries}
use qblaze.Util.Merge.{IsAscending, count, Merges, merge_distinct_lem, merge_eq_lem}
use qblaze.Util.Boundaries.{IsSortedKeys, Cuts, merge_boundaries_lem}
use qblaze.Complex.{
  Scalar, IsExactScalar, Complex, cartesian, conj, norm2, mul_i, div_i, from_real, neg_complex,
  add_complex, sub_complex, mul_complex,
}
use qblaze.Complex.Laws.{product_laws}
use qblaze.Arena.{Chunk, alloc_bytes}
use qblaze.Arena.Laws.{Allocates, alloc_bytes_lem}

-- Bits 0, 2 and 67 of two words.
abbrev bits : BitSet
bits = record { words = 5 ∷ 8 ∷ [] }

abbrev mask : BitSet
mask = record { words = 4 ∷ 1 ∷ [] }

bits-IsBitSet : IsBitSet 2 bits
bits-IsBitSet = record { has_words = refl; are_words = (omega arith, (omega arith, tt)) }

mask-IsBitSet : IsBitSet 2 mask
mask-IsBitSet = record { has_words = refl; are_words = (omega arith, (omega arith, tt)) }

operators_lem_example :
    (IsBitSet 2 (and_set bits mask)
      × ((i : ℕ) → get (and_set bits mask) i ≡ (get bits i && get mask i)))
    × (IsBitSet 2 (or_set bits mask)
        × ((i : ℕ) → get (or_set bits mask) i ≡ (get bits i || get mask i)))
    × (IsBitSet 2 (xor_set bits mask)
        × ((i : ℕ) → get (xor_set bits mask) i ≡ xorb (get bits i) (get mask i)))
operators_lem_example = operators_lem 2 bits mask bits-IsBitSet mask-IsBitSet

-- A control on qubits 0 and 1.
abbrev two_items : Control
two_items = 1 ∷ 2 ∷ []

asked_lem_example : asked (prepare_control 2 two_items) bits ≡ satisfied two_items (get bits)
unfolding qubit
asked_lem_example =
    asked_lem 2 two_items bits (omega arith, (omega arith, tt)) (omega arith, (omega arith, tt))
      bits-IsBitSet

-- Qubits 0 and 2.
abbrev low_set : QubitSet
low_set = record { words = 5 ∷ [] }

low_set-IsValid : QubitSet.IsValid low_set
low_set-IsValid = record { has_word = omega arith; are_words = (omega arith, tt) }

low_set_inside : All (λ i. i < 2 * 64) (qubits_of_words (5 ∷ []))
unfolding qubits_of_words collect next skip trailing_zeros
low_set_inside = (omega arith, (omega arith, tt))

perform_bits_lem_example :
    ((j : ℕ) → get (perform_x 1 bits) j ≡ flip 1 (get bits) j)
    × ((j : ℕ)
        → get (perform_swap 1 67 bits) j
          ≡ (if same (get bits 1) (get bits 67) then get bits j else flip 67 (flip 1 (get bits)) j))
    × ((j : ℕ)
        → get (perform_multi_x (prepare_multi_x 2 low_set) bits) j
          ≡ flip_all (contains low_set) (get bits) j)
perform_bits_lem_example =
    perform_bits_lem 2 1 67 low_set bits (omega arith) (omega arith) low_set-IsValid low_set_inside
      bits-IsBitSet

-- Keys of two slices that share 5.
abbrev left_keys : List ℕ
left_keys = 1 ∷ 5 ∷ 9 ∷ []

abbrev right_keys : List ℕ
right_keys = 2 ∷ 5 ∷ []

abbrev key : ℕ → ℕ
key n = n

merge_distinct_lem_example :
    IsAscending key 0 (merge_distinct key left_keys right_keys)
    × ((p : ℕ → Bool)
        → count key p (merge_distinct key left_keys right_keys)
          ≡ count key p left_keys + count key p right_keys)
merge_distinct_lem_example =
    merge_distinct_lem key left_keys right_keys (omega arith, (omega arith, (omega arith, tt)))
      (omega arith, (omega arith, tt))

merge_eq_lem_example : Merges key 0 left_keys right_keys (merge_eq key left_keys right_keys)
merge_eq_lem_example =
    merge_eq_lem key left_keys right_keys (omega arith, (omega arith, (omega arith, tt)))
      (omega arith, (omega arith, tt))

left_keys-IsSortedKeys : IsSortedKeys left_keys
left_keys-IsSortedKeys zero h = omega arith
left_keys-IsSortedKeys (suc zero) h = omega arith
left_keys-IsSortedKeys (suc (suc i)) h = absurd (omega arith)

right_keys-IsSortedKeys : IsSortedKeys right_keys
right_keys-IsSortedKeys zero h = omega arith
right_keys-IsSortedKeys (suc i) h = absurd (omega arith)

merge_boundaries_lem_example : Cuts left_keys right_keys 3 (merge_boundaries left_keys right_keys 3)
merge_boundaries_lem_example =
    merge_boundaries_lem left_keys right_keys 3 left_keys-IsSortedKeys right_keys-IsSortedKeys
      (omega arith)

-- Gaussian integers; no division.
abbrev integers : Scalar
integers = record {
  Value = ℤ;
  zero = pos N.zero;
  one = one;
  add = ◌+ℤ◌;
  sub = ◌-ℤ◌;
  mul = ◌*ℤ◌;
  div = λ a b. a;
  neg = neg_ℤ;
}

neg_product : (a b : ℤ) → a *ℤ neg_ℤ b ≡ neg_ℤ (a *ℤ b)
neg_product a (pos N.zero) =
    *ℤ_comm a (pos N.zero) ∙ zero-*ℤ a ∙ ap neg_ℤ (sym (*ℤ_comm a (pos N.zero) ∙ zero-*ℤ a))
neg_product a (pos (N.suc n)) = *ℤ-negsuc a n
neg_product a (negsuc n) = sym (neg_ℤ-neg_ℤ (a *ℤ pos (N.suc n))) ∙ ap neg_ℤ (sym (*ℤ-negsuc a n))

integers_exact : IsExactScalar integers
integers_exact = record {
  add_comm = +ℤ_comm;
  add_zero = λ a. refl;
  add_neg = +ℤ_invr;
  sub_neg = λ a b. refl;
  neg_neg = neg_ℤ-neg_ℤ;
  neg_add = neg_ℤ-+ℤ;
  mul_comm = *ℤ_comm;
  mul_zero = λ a. *ℤ_comm a (pos N.zero) ∙ zero-*ℤ a;
  mul_one = *ℤ-one;
  mul_neg = neg_product;
}

abbrev gauss : Complex integers
gauss = cartesian integers (pos 3) (negsuc 1)

abbrev unit_i : Complex integers
unit_i = cartesian integers (pos N.zero) one

product_laws_example :
    (mul_complex integers gauss unit_i ≡ mul_complex integers unit_i gauss)
    × (conj integers (mul_complex integers gauss unit_i)
        ≡ mul_complex integers (conj integers gauss) (conj integers unit_i))
    × (mul_complex integers gauss (conj integers gauss) ≡ from_real integers (norm2 integers gauss))
    × (mul_complex integers gauss (cartesian integers (pos N.zero) one) ≡ mul_i integers gauss)
    × (mul_i integers (mul_i integers gauss) ≡ neg_complex integers gauss)
    × (div_i integers (mul_i integers gauss) ≡ gauss)
    × (sub_complex integers gauss unit_i ≡ add_complex integers gauss (neg_complex integers unit_i))
product_laws_example = product_laws integers integers_exact gauss unit_i

-- A chunk with four bytes left.
abbrev nearly_full : Chunk
nearly_full = record { ptr = 2044; alloc_end = 2048; base = 1024 }

alloc_bytes_lem_example :
    Allocates 4096 (nearly_full ∷ []) 8 24 16 (alloc_bytes 4096 (nearly_full ∷ []) 8 24 16)
alloc_bytes_lem_example =
    alloc_bytes_lem 4096 (nearly_full ∷ []) 8 24 16
      (record { request = omega arith; few_chunks = omega arith })
      (record { from_base = omega arith; to_end = omega arith }, tt) (omega arith)

insertion_sort_lem_example :
    IsAscending key 0 (insertion_sort (λ a b. ltb (key a) (key b)) (4 ∷ 1 ∷ 3 ∷ []))
    × ((p : ℕ → Bool)
        → count key p (insertion_sort (λ a b. ltb (key a) (key b)) (4 ∷ 1 ∷ 3 ∷ []))
          ≡ count key p (4 ∷ 1 ∷ 3 ∷ []))
insertion_sort_lem_example = insertion_sort_lem key (4 ∷ 1 ∷ 3 ∷ [])
