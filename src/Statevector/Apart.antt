-- ===== src/Statevector/Apart.antt =====
-- Bits that occur twice: in a sorted slice of `src/statevector.rs`, in two slices, in their merge.
use qblaze.Base.{
  ℕ, ◌+◌, ◌≤◌, ◌<◌, ◌≡◌, refl, sym, ap, ◌∙◌, arith, Bool, true, false, leb, List, [], ◌∷◌,
  Bool-cases, inl, inr, ◌==◌, ==_iff, All,
}
use qblaze.Bitset.{BitSet, IsBitSet, get}
use qblaze.Util.{merge_distinct}
use qblaze.Util.Merge.{count, IsAscending, merge_distinct_lem}
use qblaze.Statevector.{Numbers, Entry, Entries, key, rank, with_bit}
use qblaze.Statevector.Valid.{IsSorted, HasBit, count_key, rank-injective}

module _ (num : Numbers) (n : ℕ) where
  pub weaken :
      (lo lo' : ℕ) (es : Entries num) → lo' ≤ lo → IsSorted num n lo es → IsSorted num n lo' es
  weaken lo lo' [] h s = tt
  weaken lo lo' (e ∷ es) h s = (s.0, omega (arith, s.1), s.2)

  count_key-below :
      (k lo : ℕ) (es : Entries num) → IsSorted num n lo es → k < lo → count_key num n k es ≡ 0
  count_key-below k lo [] s h = refl
  count_key-below k lo (e ∷ es) s h =
      let rest = count_key-below k (key num e + 1) es s.2 (omega (arith, s.1)) in
      ground (arith, s.1)

  pub count_key-le : (k lo : ℕ) (es : Entries num) → IsSorted num n lo es → count_key num n k es ≤ 1
  count_key-le k lo [] s = omega arith
  count_key-le k lo (e ∷ es) s = elim (Bool-cases (key num e == k)) [
    | inl here ↦
        let e' = (==_iff _ _).0 here in
        let rest = count_key-below k (key num e + 1) es s.2 (omega arith) in rw here (omega arith)
    | inr elsewhere ↦ rw elsewhere (omega (arith, count_key-le k (key num e + 1) es s.2))
  ]

  -- Bits that occur in a slice with one value of a qubit have that value.
  found_bit :
      (qi : ℕ) (v : Bool) (k lo : ℕ) (es : Entries num)
      → IsSorted num n lo es
      → HasBit num n qi v es
      → 1 ≤ count_key num n k es
      → (b : BitSet) × IsBitSet n b × (rank b.words ≡ k) × (get b qi ≡ v)
  unfolding key
  found_bit qi v k lo [] s h c = absurd (omega arith)
  found_bit qi v k lo (e ∷ es) s h c = elim (Bool-cases (rank e.bits.words == k)) [
    | inl here ↦ (e.bits, s.0, (==_iff _ _).0 here, h.0)
    | inr elsewhere ↦ found_bit qi v k (key num e + 1) es s.2 h.1 (omega (arith, rw elsewhere at c))
  ]

  -- Slices with different values of a qubit share no bits.
  pub apart_lem :
      (qi lo0 lo1 : ℕ) (p0 p1 : Entries num)
      → IsSorted num n lo0 p0
      → HasBit num n qi false p0
      → IsSorted num n lo1 p1
      → HasBit num n qi true p1
      → (k : ℕ) → count_key num n k p0 + count_key num n k p1 ≤ 1
  apart_lem qi lo0 lo1 p0 p1 s0 h0 s1 h1 k =
      let at_most0 = count_key-le k lo0 p0 s0 in
      let at_most1 = count_key-le k lo1 p1 s1 in
      elim (Bool-cases (count_key num n k p0 == 0)) [
        | inl none0 ↦ ground arith
        | inr some0 ↦ elim (Bool-cases (count_key num n k p1 == 0)) [
          | inl none1 ↦ ground arith
          | inr some1 ↦
              let (b0, valid0, rank0, bit0) = found_bit qi false k lo0 p0 s0 h0 (ground arith) in
              let (b1, valid1, rank1, bit1) = found_bit qi true k lo1 p1 s1 h1 (ground arith) in
              let same_words : b0.words ≡ b1.words =
                rank-injective b0.words b1.words valid0.are_words valid1.are_words
                  (valid0.has_words ∙ sym valid1.has_words) (rank0 ∙ sym rank1) in
              let same_bits : get b0 qi ≡ get b1 qi =
                ap (λ (ws : List ℕ). get (record { words = ws }) qi) same_words in
              absurd (cc)
        ]
      ]

  step_up :
      (lo : ℕ) (es : Entries num)
      → IsAscending (key num) lo es
      → count_key num n lo es ≡ 0
      → IsAscending (key num) (lo + 1) es
  step_up lo [] a c = tt
  step_up lo (e ∷ es) a c = elim (Bool-cases (key num e == lo)) [
    | inl here ↦ absurd (omega (arith, rw here at c))
    | inr elsewhere ↦ (ground (arith, a.0), a.1)
  ]

  count_key-count :
      (k : ℕ) (es : Entries num) → count_key num n k es ≡ count (key num) (λ e. key num e == k) es
  count_key-count k [] = refl
  count_key-count k (e ∷ es) = omega (arith, count_key-count k es)

  strict_lem :
      (lo : ℕ) (es : Entries num)
      → All (λ e. IsBitSet n e.bits) es
      → IsAscending (key num) lo es
      → ((k : ℕ) → count_key num n k es ≤ 1)
      → IsSorted num n lo es
  strict_lem lo [] valid a once = tt
  strict_lem lo (e ∷ es) valid a once =
      let gone : count_key num n (key num e) es ≡ 0 = ground (arith, once (key num e)) in
      let above = step_up (key num e) es a.1 gone in
      (valid.0, a.0, strict_lem (key num e + 1) es valid.1 above (λ k. omega (arith, once k)))

  entries_lem :
      (lo : ℕ) (es : Entries num)
      → IsSorted num n lo es
      → All (λ e. IsBitSet n e.bits) es × IsAscending (key num) lo es
  entries_lem lo [] s = (tt, tt)
  entries_lem lo (e ∷ es) s =
      let rest = entries_lem (key num e + 1) es s.2 in
      ((s.0, rest.0), (s.1, ascending_from (key num e) es rest.1))
    where
      ascending_from :
          (lo : ℕ) (es : Entries num)
          → IsAscending (key num) (lo + 1) es
          → IsAscending (key num) lo es
      ascending_from lo [] a = tt
      ascending_from lo (e ∷ es) a = (omega (arith, a.0), a.1)

  All-merge_distinct :
      (f : Entry num → ℕ) (P : Entry num → Type 0) (v1 v2 : Entries num)
      → All P v1
      → All P v2
      → All P (merge_distinct f v1 v2)
  unfolding merge_distinct
  All-merge_distinct f P [] v2 a1 a2 = a2
  All-merge_distinct f P (h1 ∷ t1) [] a1 a2 = a1
  All-merge_distinct f P (h1 ∷ t1) (h2 ∷ t2) a1 a2 = elim (Bool-cases (leb (f h1) (f h2))) [
    | inl first ↦ rw first (a1.0, All-merge_distinct f P t1 (h2 ∷ t2) a1.1 a2)
    | inr second ↦ rw second (a2.0, All-merge_distinct f P (h1 ∷ t1) t2 a1 a2.1)
  ]

  -- The merge of two sorted slices that share no bits is sorted.
  pub merge-IsSorted :
      (p0 p1 : Entries num)
      → IsSorted num n 0 p0
      → IsSorted num n 0 p1
      → ((k : ℕ) → count_key num n k p0 + count_key num n k p1 ≤ 1)
      → IsSorted num n 0 (merge_distinct (key num) p0 p1)
  merge-IsSorted p0 p1 s0 s1 once =
      let (valid0, ascending0) = entries_lem 0 p0 s0 in
      let (valid1, ascending1) = entries_lem 0 p1 s1 in
      let (ascending, counts) = merge_distinct_lem (key num) p0 p1 ascending0 ascending1 in
      strict_lem 0 (merge_distinct (key num) p0 p1)
        (All-merge_distinct (key num) (λ e. IsBitSet n e.bits) p0 p1 valid0 valid1) ascending
        λ k. omega (
          arith,
          once k,
          counts (λ e. key num e == k),
          count_key-count k p0,
          count_key-count k p1,
          count_key-count k (merge_distinct (key num) p0 p1),
        )

  pub with_bit_lem :
      (qi : ℕ) (v : Bool) (lo : ℕ) (es : Entries num)
      → IsSorted num n lo es
      → IsSorted num n lo (with_bit num qi v es) × HasBit num n qi v (with_bit num qi v es)
  unfolding with_bit
  with_bit_lem qi v lo [] s = (tt, tt)
  with_bit_lem qi true lo (e ∷ es) s =
      let rest = with_bit_lem qi true (key num e + 1) es s.2 in
      elim (Bool-cases (get e.bits qi)) [
        | inl here ↦ rw here ((s.0, s.1, rest.0), (here, rest.1))
        | inr other ↦ rw other (
          weaken (key num e + 1) lo (with_bit num qi true es) (omega (arith, s.1)) rest.0,
          rest.1,
        )
      ]
  with_bit_lem qi false lo (e ∷ es) s =
      let rest = with_bit_lem qi false (key num e + 1) es s.2 in
      elim (Bool-cases (get e.bits qi)) [
        | inr here ↦ rw here ((s.0, s.1, rest.0), (here, rest.1))
        | inl other ↦ rw other (
          weaken (key num e + 1) lo (with_bit num qi false es) (omega (arith, s.1)) rest.0,
          rest.1,
        )
      ]
