-- ===== src/Statevector/Amplitude.antt =====
-- The amplitudes of the pass of `src/statevector.rs` that applies a single-qubit gate, and the matrix of
-- the gate.
use qblaze.Base.{
  ℕ, ◌+◌, ◌*◌, ◌<◌, ◌≡◌, refl, sym, ap, ap₂, ◌∙◌, subst, arith, Bool, true, false, Option, none,
  some, List, [], ◌∷◌, Bool-cases, inl, inr, if◌then◌else◌, ◌==◌, ==_iff, All,
}
use qblaze.Bitset.{BitSet, IsBitSet, get, toggle_bit, and_set, same_set}
use qblaze.Bitset.Laws.{get-toggle_bit, toggle_bit-IsBitSet, same_set_of_words, words_of_same_set}
use qblaze.Util.{merge_eq, MergeEq, lhs, rhs, both}
use qblaze.Util.Merge.{IsMerged, lefts, rights, merge_eq_lem}
use qblaze.Statevector.{
  Numbers, Entry, Entries, U4, apply, accumulate, masked_key, u4_writes, u4_write, find_bits, rank,
  mask_without,
}
use qblaze.Statevector.Key.{masked-toggle, rank-masked, offset}
use qblaze.Statevector.Valid.{IsPart, rank-injective}
use qblaze.Statevector.Gate.{IsHalf, flipped, flip_lem, halves, u4_writes-IsPart, u4_write-IsPart}

module _ (num : Numbers) where
  -- A sum that is not significant is dropped.
  abbrev pub sum_of : num.Value → num.Value → Option num.Value
  sum_of a b = if num.significant a (num.add a b) then some (num.add a b) else none

  -- The two rows of the matrix, on amplitudes that may be absent.
  abbrev pub row0 : U4 num → Option num.Value → Option num.Value → Option num.Value
  row0 gate none none = none
  row0 gate (some a) none = some (num.mul gate.low.0 a)
  row0 gate none (some b) = some (num.mul gate.high.1 b)
  row0 gate (some a) (some b) = sum_of (num.mul gate.low.0 a) (num.mul gate.high.1 b)

  abbrev pub row1 : U4 num → Option num.Value → Option num.Value → Option num.Value
  row1 gate none none = none
  row1 gate (some a) none = some (num.mul gate.low.1 a)
  row1 gate none (some b) = some (num.mul gate.high.0 b)
  row1 gate (some a) (some b) = sum_of (num.mul gate.low.1 a) (num.mul gate.high.0 b)

  abbrev find_key : (Entry num → ℕ) → ℕ → Entries num → Option num.Value
  find_key f k [] = none
  find_key f k (e ∷ es) = if f e == k then some e.val else find_key f k es

  module _ (n qi : ℕ) (inside : qi < n * 64) where
    masked_of : BitSet → ℕ
    masked_of b = rank (and_set b (mask_without n qi)).words

    same_set_lem :
        (v : Bool) (a b : BitSet)
        → IsBitSet n a
        → IsBitSet n b
        → get a qi ≡ v
        → get b qi ≡ v
        → same_set a b ≡ (masked_of a == masked_of b)
    unfolding masked_of
    same_set_lem v a b valid_a valid_b bit_a bit_b = elim (Bool-cases (same_set a b)) [
      | inl same ↦
          let keys : masked_of a ≡ masked_of b =
            ap (λ (ws : List ℕ). masked_of (record { words = ws })) (words_of_same_set a b same) in
          same ∙ sym ((==_iff _ _).1 keys)
      | inr differ ↦ elim (Bool-cases (masked_of a == masked_of b)) [
        | inr apart ↦ differ ∙ sym apart
        | inl alike ↦
            let keys : masked_of a ≡ masked_of b = (==_iff _ _).0 alike in
            let whole_a = rank-masked n qi a inside valid_a in
            let whole_b = rank-masked n qi b inside valid_b in
            let ranks : rank a.words ≡ rank b.words =
              whole_a
              ∙ ap₂ (λ (k : ℕ) (bit : Bool). k + (if bit then offset n qi else 0)) keys
                  (bit_a ∙ sym bit_b)
              ∙ sym whole_b in
            let words =
              rank-injective a.words b.words valid_a.are_words valid_b.are_words
                (valid_a.has_words ∙ sym valid_b.has_words) ranks in
            let same = same_set_of_words a b words in absurd (cc)
      ]
    ]

    -- In a slice with one value of the qubit, bits are found by what remains without the qubit.
    find_bits-find_key :
        (v : Bool) (lo : ℕ) (es : Entries num) (b : BitSet)
        → IsPart num n qi v lo es
        → IsBitSet n b
        → get b qi ≡ v
        → find_bits num es b ≡ find_key (masked_key num n qi) (masked_of b) es
    unfolding find_bits masked_key masked_of
    find_bits-find_key v lo [] b p valid bit = refl
    find_bits-find_key v lo (e ∷ es) b p valid bit =
        let rest = find_bits-find_key v (masked_key num n qi e + 1) es b p.3 valid bit in
        let test = same_set_lem v e.bits b p.0 valid p.1 bit in rw (test, rest) refl

    absent :
        (v : Bool) (k lo : ℕ) (es : Entries num)
        → IsPart num n qi v lo es
        → k < lo
        → find_key (masked_key num n qi) k es ≡ none
    absent v k lo [] p h = refl
    absent v k lo (e ∷ es) p h =
        let rest = absent v k (masked_key num n qi e + 1) es p.3 (omega (arith, p.2)) in
        ground (arith, p.2)

    module _ (gate : U4 num) where
      abbrev masked : Entry num → ℕ
      masked = masked_key num n qi

      merged_absent :
          (k lo : ℕ) (ms : List (MergeEq (Entry num)))
          → IsMerged masked lo ms
          → k < lo
          → (find_key masked k (lefts masked ms) ≡ none)
            × (find_key masked k (rights masked ms) ≡ none)
      merged_absent k lo [] m h = (refl, refl)
      merged_absent k lo (lhs a ∷ ms) m h =
          let rest = merged_absent k (masked a + 1) ms m.1 (omega (arith, m.0)) in
          ground (arith, m.0)
      merged_absent k lo (rhs b ∷ ms) m h =
          let rest = merged_absent k (masked b + 1) ms m.1 (omega (arith, m.0)) in
          ground (arith, m.0)
      merged_absent k lo (both a b ∷ ms) m h =
          let rest = merged_absent k (masked a + 1) ms m.2 (omega (arith, m.0)) in
          ground (arith, m.0, m.1)

      IsRows : ℕ → List (MergeEq (Entry num)) → Type 0
      IsRows k ms =
          let from0 = find_key masked k (lefts masked ms) in
          let from1 = find_key masked k (rights masked ms) in
          (find_key masked k (u4_writes num qi gate ms).0 ≡ row0 gate from0 from1)
          × (find_key masked k (u4_writes num qi gate ms).1 ≡ row1 gate from0 from1)

      same_bits :
          (e : Entry num) (p : num.Value) → masked (record { bits = e.bits; val = p }) ≡ masked e
      unfolding masked_key
      same_bits e p = refl

      -- An element with the key is found, another is passed over.
      hit :
          (k m : ℕ) (e : Entry num) (es : Entries num)
          → masked e ≡ m
          → m == k ≡ true
          → find_key masked k (e ∷ es) ≡ some e.val
      hit k m e es same here = rw (same, here) refl

      miss :
          (keep : Bool) (k m : ℕ) (e : Entry num) (es : Entries num)
          → masked e ≡ m
          → m == k ≡ false
          → find_key masked k (if keep then e ∷ es else es) ≡ find_key masked k es
      miss true k m e es same other = rw (same, other) refl
      miss false k m e es same other = refl

      hit_sum :
          (keep : Bool) (k m : ℕ) (e : Entry num) (es : Entries num)
          → masked e ≡ m
          → m == k ≡ true
          → find_key masked k es ≡ none
          → find_key masked k (if keep then e ∷ es else es) ≡ (if keep then some e.val else none)
      hit_sum true k m e es same here gone = hit k m e es same here
      hit_sum false k m e es same here gone = gone

      u4_writes-IsRows :
          (k lo : ℕ) (ms : List (MergeEq (Entry num)))
          → IsMerged masked lo ms
          → All (IsHalf num n qi inside false) (lefts masked ms)
          → All (IsHalf num n qi inside true) (rights masked ms)
          → IsRows k ms
      unfolding IsRows u4_writes
      u4_writes-IsRows k lo [] m l r = (refl, refl)
      u4_writes-IsRows k lo (lhs a ∷ ms) m l r =
          let (out0, out1) = u4_writes num qi gate ms in
          let (p0, p1) = apply num gate false a.val in
          let e0 : Entry num = record { bits = a.bits; val = p0 } in
          let same0 = same_bits a p0 in
          let rest = u4_writes-IsRows k (masked a + 1) ms m.1 l.1 r in
          let (half, same) = flip_lem num n qi inside false a p1 l.0 in
          elim (Bool-cases (masked a == k)) [
            | inr other ↦ (
              miss true k (masked a) e0 out0 same0 other ∙ rest.0 ∙ rw other refl,
              miss true k (masked a) (flipped num n qi inside a p1) out1 same other
                  ∙ rest.1
                  ∙ rw other refl,
            )
            | inl here ↦
                let gone =
                  merged_absent k (masked a + 1) ms m.1 (omega (arith, (==_iff _ _).0 here)) in
                (
                  hit k (masked a) e0 out0 same0 here ∙ rw (here, gone.1, apply) refl,
                  hit k (masked a) (flipped num n qi inside a p1) out1 same here
                      ∙ rw (here, gone.1, apply) refl,
                )
          ]
      u4_writes-IsRows k lo (rhs b ∷ ms) m l r =
          let (out0, out1) = u4_writes num qi gate ms in
          let (p1, p0) = apply num gate true b.val in
          let e1 : Entry num = record { bits = b.bits; val = p1 } in
          let same1 = same_bits b p1 in
          let rest = u4_writes-IsRows k (masked b + 1) ms m.1 l r.1 in
          let (half, same) = flip_lem num n qi inside true b p0 r.0 in
          elim (Bool-cases (masked b == k)) [
            | inr other ↦ (
              miss true k (masked b) (flipped num n qi inside b p0) out0 same other
                  ∙ rest.0
                  ∙ rw other refl,
              miss true k (masked b) e1 out1 same1 other ∙ rest.1 ∙ rw other refl,
            )
            | inl here ↦
                let gone =
                  merged_absent k (masked b + 1) ms m.1 (omega (arith, (==_iff _ _).0 here)) in
                (
                  hit k (masked b) (flipped num n qi inside b p0) out0 same here
                      ∙ rw (here, gone.0, apply) refl,
                  hit k (masked b) e1 out1 same1 here ∙ rw (here, gone.0, apply) refl,
                )
          ]
      u4_writes-IsRows k lo (both a b ∷ ms) m l r =
          let (out0, out1) = u4_writes num qi gate ms in
          let (r0a, r1a) = apply num gate false a.val in
          let (r1b, r0b) = apply num gate true b.val in
          let (s0, keep0) = accumulate num r0a r0b in
          let (s1, keep1) = accumulate num r1a r1b in
          let e0 : Entry num = record { bits = a.bits; val = s0 } in
          let e1 : Entry num = record { bits = b.bits; val = s1 } in
          let same0 = same_bits a s0 in
          let same1 = same_bits b s1 ∙ sym m.1 in
          let rest = u4_writes-IsRows k (masked a + 1) ms m.2 l.1 r.1 in
          let parts = u4_writes-IsPart num n qi inside gate (masked a + 1) ms m.2 l.1 r.1 in
          elim (Bool-cases (masked a == k)) [
            | inr other ↦ (
              miss keep0 k (masked a) e0 out0 same0 other ∙ rest.0 ∙ rw (sym m.1, other) refl,
              miss keep1 k (masked a) e1 out1 same1 other ∙ rest.1 ∙ rw (sym m.1, other) refl,
            )
            | inl here ↦
                let below : k < masked a + 1 = omega (arith, (==_iff _ _).0 here) in
                let gone0 = absent false k (masked a + 1) out0 parts.0 below in
                let gone1 = absent true k (masked a + 1) out1 parts.1 below in
                (
                  hit_sum keep0 k (masked a) e0 out0 same0 here gone0
                      ∙ rw (sym m.1, here, apply) refl,
                  hit_sum keep1 k (masked a) e1 out1 same1 here gone1
                      ∙ rw (sym m.1, here, apply) refl,
                )
          ]

      -- On two sorted slices the bits without the qubit are found in the first output as the first row
      -- of the matrix says, and the bits with it in the second output as the second row says.
      pub u4_write_rows :
          (p0 p1 : Entries num) (b : BitSet)
          → IsPart num n qi false 0 p0
          → IsPart num n qi true 0 p1
          → IsBitSet n b
          → get b qi ≡ false
          → let (out0, out1) = u4_write num n qi gate p0 p1 in
            let amplitude0 = find_bits num p0 b in
            let amplitude1 = find_bits num p1 (toggle_bit b qi) in
            (find_bits num out0 b ≡ row0 gate amplitude0 amplitude1)
            × (find_bits num out1 (toggle_bit b qi) ≡ row1 gate amplitude0 amplitude1)
      unfolding u4_write IsRows
      u4_write_rows p0 p1 b s0 s1 valid bit =
          let flipped_b = toggle_bit b qi in
          let flipped_valid = toggle_bit-IsBitSet n b valid qi in
          let flipped_bit : get flipped_b qi ≡ true =
            ground (arith, get-toggle_bit n b valid qi inside qi) in
          let k = masked_of b in
          let same : masked_of flipped_b ≡ k =
            (unfold masked_of in masked-toggle n qi b inside valid) in
          let (half0, strict0) = halves num n qi inside false 0 p0 s0 in
          let (half1, strict1) = halves num n qi inside true 0 p1 s1 in
          let ms = merge_eq masked p0 p1 in
          let merges = merge_eq_lem masked p0 p1 strict0 strict1 in
          let parts = u4_write-IsPart num n qi inside gate p0 p1 s0 s1 in
          let rows =
            u4_writes-IsRows k 0 ms merges.merged
              (subst (All (IsHalf num n qi inside false)) (sym merges.from_left) half0)
              (subst (All (IsHalf num n qi inside true)) (sym merges.from_right) half1) in
          let in0 = find_bits-find_key false 0 p0 b s0 valid bit in
          let in1 = find_bits-find_key true 0 p1 flipped_b s1 flipped_valid flipped_bit in
          let found0 =
            find_bits-find_key false 0 (u4_write num n qi gate p0 p1).0 b parts.0 valid bit in
          let found1 =
            find_bits-find_key true 0 (u4_write num n qi gate p0 p1).1 flipped_b parts.1
              flipped_valid flipped_bit in
          let (out0, out1) = u4_write num n qi gate p0 p1 in
          let left : find_bits num p0 b ≡ find_key masked k (lefts masked ms) =
            in0 ∙ ap (find_key masked k) (sym merges.from_left) in
          let right : find_bits num p1 flipped_b ≡ find_key masked k (rights masked ms) =
            in1
            ∙ ap (λ (j : ℕ). find_key masked j p1) same
            ∙ ap (find_key masked k) (sym merges.from_right) in
          (
            found0 ∙ rows.0 ∙ ap₂ (row0 gate) (sym left) (sym right),
            found1
                ∙ ap (λ (j : ℕ). find_key masked j out1) same
                ∙ rows.1
                ∙ ap₂ (row1 gate) (sym left) (sym right),
          )
