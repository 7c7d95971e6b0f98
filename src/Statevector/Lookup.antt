-- ===== src/Statevector/Lookup.antt =====
-- The amplitudes that `lookup` of `src/statevector.rs` reads after a repartition and after a gate.
use qblaze.Base.{
  ℕ, ◌*◌, ◌<◌, ◌≡◌, refl, sym, ap, ap₂, ◌∙◌, subst, arith, Bool, true, false, not, Option, none,
  some, List, [], ◌∷◌, Bool-cases, inl, inr, ◌⊎◌, ◌==◌, ==_iff, leb,
}
use qblaze.Bitset.{BitSet, IsBitSet, get, toggle_bit, same_set}
use qblaze.Bitset.Laws.{get-toggle_bit, words_of_same_set}
use qblaze.Util.{merge_distinct}
use qblaze.Statevector.{
  Numbers, Entry, Entries, Statevector, U4, find_bits, lookup, with_bit, key, rank, u4_write,
}
use qblaze.Statevector.Steps.{is_partitioned_by, set_partition, force_repartition, perform_u4}
use qblaze.Statevector.Valid.{HasBit, IsValid, count_key, ordered_half}
use qblaze.Statevector.Preserve.{set_partition-IsValid, parts_of}
use qblaze.Statevector.Apart.{merge-IsSorted, with_bit_lem}
use qblaze.Statevector.Gate.{u4_write-IsPart}
use qblaze.Statevector.Amplitude.{row0, row1, u4_write_rows}

module _ (num : Numbers) (n : ℕ) where
  abbrev or_else : Option num.Value → Option num.Value → Option num.Value
  or_else none o = o
  or_else (some a) o = some a

  get_of_words : (a b : BitSet) (qi : ℕ) → a.words ≡ b.words → get a qi ≡ get b qi
  get_of_words a b qi e = ap (λ (ws : List ℕ). get (record { words = ws }) qi) e

  lookup_lem :
      (s : Statevector num) (b : BitSet)
      → lookup num s b ≡ or_else (find_bits num s.part0 b) (find_bits num s.part1 b)
  unfolding lookup
  lookup_lem s b = cases (find_bits num s.part0 b)
    where
      cases :
          (o : Option num.Value)
          → (elim o as (λ _. Option num.Value) [ some v ↦ some v | none ↦ find_bits num s.part1 b ])
            ≡ or_else o (find_bits num s.part1 b)
      cases none = refl
      cases (some v) = refl

  find_bits-none :
      (es : Entries num) (b : BitSet)
      → count_key num n (rank b.words) es ≡ 0
      → find_bits num es b ≡ none
  unfolding find_bits key
  find_bits-none [] b c = refl
  find_bits-none (e ∷ es) b c = elim (Bool-cases (same_set e.bits b)) [
    | inl same ↦
        let keys : rank e.bits.words ≡ rank b.words = ap rank (words_of_same_set e.bits b same) in
        absurd (omega (arith, rw ((==_iff _ _).1 keys) at c))
    | inr differ ↦ rw differ (find_bits-none es b (omega (arith, c)))
  ]

  skip :
      (e : Entry num) (es : Entries num) (b : BitSet)
      → same_set e.bits b ≡ false
      → find_bits num (e ∷ es) b ≡ find_bits num es b
  unfolding find_bits
  skip e es b differ = rw differ refl

  take_it :
      (e : Entry num) (es : Entries num) (b : BitSet)
      → same_set e.bits b ≡ true
      → find_bits num (e ∷ es) b ≡ some e.val
  unfolding find_bits
  take_it e es b same = rw same refl

  -- The merge of slices of which one at most has the bits.
  find_bits-merge_distinct :
      (p0 p1 : Entries num) (b : BitSet)
      → (find_bits num p0 b ≡ none) ⊎ (find_bits num p1 b ≡ none)
      → find_bits num (merge_distinct (key num) p0 p1) b
        ≡ or_else (find_bits num p0 b) (find_bits num p1 b)
  unfolding merge_distinct find_bits
  find_bits-merge_distinct [] p1 b h = refl
  find_bits-merge_distinct (e0 ∷ t0) [] b h = right_none (find_bits num (e0 ∷ t0) b)
    where
      right_none : (o : Option num.Value) → o ≡ or_else o none
      right_none none = refl
      right_none (some a) = refl
  find_bits-merge_distinct (e0 ∷ t0) (e1 ∷ t1) b h =
      elim (Bool-cases (leb (key num e0) (key num e1))) [
        | inl first ↦ elim (Bool-cases (same_set e0.bits b)) [
          | inl same ↦ rw (first, same) refl
          | inr differ ↦
              let h' =
                subst (λ o. (o ≡ none) ⊎ (find_bits num (e1 ∷ t1) b ≡ none)) (skip e0 t0 b differ)
                  h in
              rw (first, differ) (find_bits-merge_distinct t0 (e1 ∷ t1) b h')
        ]
        | inr second ↦ elim (Bool-cases (same_set e1.bits b)) [
          | inr differ ↦
              let h' =
                subst (λ o. (find_bits num (e0 ∷ t0) b ≡ none) ⊎ (o ≡ none)) (skip e1 t1 b differ)
                  h in
              rw (second, differ) (find_bits-merge_distinct (e0 ∷ t0) t1 b h')
          | inl same ↦ elim h [
            | inl gone ↦ rw second (
                take_it e1 (merge_distinct (key num) (e0 ∷ t0) t1) b same
                ∙ sym (ap₂ or_else gone (take_it e1 t1 b same)))
            | inr gone ↦ absurd (clash e1.val (sym (take_it e1 t1 b same) ∙ gone))
          ]
        ]
      ]
    where
      clash : (a : num.Value) → some a ≡ none → ⊥
      clash a c = cc

  differs :
      (e : Entry num) (b : BitSet) (qi : ℕ)
      → get e.bits qi ≡ not (get b qi)
      → same_set e.bits b ≡ false
  differs e b qi h = elim (Bool-cases (same_set e.bits b)) [
    | inr differ ↦ differ
    | inl same ↦
        let bits = get_of_words e.bits b qi (words_of_same_set e.bits b same) in
        absurd (clash (get b qi) (sym bits ∙ h))
  ]
    where
      clash : (v : Bool) → v ≡ not v → ⊥
      clash true c = cc
      clash false c = cc

  find_bits-with_bit :
      (qi : ℕ) (v : Bool) (es : Entries num) (b : BitSet)
      → get b qi ≡ v
      → find_bits num (with_bit num qi v es) b ≡ find_bits num es b
  unfolding find_bits with_bit
  find_bits-with_bit qi v [] b h = refl
  find_bits-with_bit qi true (e ∷ es) b h =
      let rest = find_bits-with_bit qi true es b h in
      elim (Bool-cases (get e.bits qi)) [
        | inl here ↦ rw (here, rest) refl
        | inr other ↦ rw other (rest ∙ sym (skip e es b (differs e b qi (other ∙ sym (ap not h)))))
      ]
  find_bits-with_bit qi false (e ∷ es) b h =
      let rest = find_bits-with_bit qi false es b h in
      elim (Bool-cases (get e.bits qi)) [
        | inr here ↦ rw (here, rest) refl
        | inl other ↦ rw other (rest ∙ sym (skip e es b (differs e b qi (other ∙ sym (ap not h)))))
      ]

  find_bits-HasBit :
      (qi : ℕ) (v : Bool) (es : Entries num) (b : BitSet)
      → HasBit num n qi v es
      → get b qi ≡ not v
      → find_bits num es b ≡ none
  unfolding find_bits
  find_bits-HasBit qi v [] b h e = refl
  find_bits-HasBit qi v (x ∷ es) b h e =
      let differ = differs x b qi (h.0 ∙ sym (not_not v) ∙ sym (ap not e)) in
      rw differ (find_bits-HasBit qi v es b h.1 e)
    where
      not_not : (v : Bool) → not (not v) ≡ v
      not_not true = refl
      not_not false = refl

  lookup_0 :
      (s : Statevector num) (qi : ℕ) (b : BitSet)
      → HasBit num n qi true s.part1
      → get b qi ≡ false
      → lookup num s b ≡ find_bits num s.part0 b
  lookup_0 s qi b h e =
      lookup_lem s b
      ∙ ap (or_else (find_bits num s.part0 b)) (find_bits-HasBit qi true s.part1 b h e)
      ∙ right_none (find_bits num s.part0 b)
    where
      right_none : (o : Option num.Value) → or_else o none ≡ o
      right_none none = refl
      right_none (some a) = refl

  lookup_1 :
      (s : Statevector num) (qi : ℕ) (b : BitSet)
      → HasBit num n qi false s.part0
      → get b qi ≡ true
      → lookup num s b ≡ find_bits num s.part1 b
  lookup_1 s qi b h e =
      lookup_lem s b
      ∙ ap (λ o. or_else o (find_bits num s.part1 b)) (find_bits-HasBit qi false s.part0 b h e)

  one_side :
      (s : Statevector num) (b : BitSet)
      → IsValid num n s
      → (find_bits num s.part0 b ≡ none) ⊎ (find_bits num s.part1 b ≡ none)
  one_side s b v =
      let k = rank b.words in
      elim (Bool-cases (count_key num n k s.part0 == 0)) [
        | inl none0 ↦ inl (find_bits-none s.part0 b ((==_iff _ _).0 none0))
        | inr some0 ↦ inr (find_bits-none s.part1 b (ground (arith, v.apart k)))
      ]

  -- A repartition moves amplitudes and changes none.
  pub lookup-set_partition :
      (s : Statevector num) (qi : ℕ) (b : BitSet)
      → qi < n * 64
      → IsValid num n s
      → lookup num (set_partition num n true qi s) b ≡ lookup num s b
  unfolding set_partition force_repartition
  lookup-set_partition s qi b inside v = elim (Bool-cases (is_partitioned_by s.partitioned_by qi)) [
    | inl already ↦ rw already refl
    | inr needed ↦ rw needed (
        let merged = merge_distinct (key num) s.part0 s.part1 in
        let sorted = merge-IsSorted num n s.part0 s.part1 v.sorted0 v.sorted1 v.apart in
        let s' : Statevector num = record {
          partitioned_by = some qi;
          part0 = with_bit num qi false merged;
          part1 = with_bit num qi true merged;
        } in
        let whole =
          find_bits-merge_distinct s.part0 s.part1 b (one_side s b v) ∙ sym (lookup_lem s b) in
        elim (Bool-cases (get b qi)) [
          | inl high ↦
              lookup_1 s' qi b (with_bit_lem num n qi false 0 merged sorted).1 high
              ∙ find_bits-with_bit qi true merged b high
              ∙ whole
          | inr low ↦
              lookup_0 s' qi b (with_bit_lem num n qi true 0 merged sorted).1 low
              ∙ find_bits-with_bit qi false merged b low
              ∙ whole
        ])
  ]

  -- On a valid state whose memory is there `perform_u4`, the repartition before it included,
  -- multiplies the two amplitudes of each pair of basis states that differ in the qubit by the
  -- matrix of the gate, as `lookup` reads them: the sum of two amplitudes is dropped where it is
  -- not significant, and an amplitude that is absent takes part as none.
  pub perform_u4_lem :
      (s : Statevector num) (qi : ℕ) (gate : U4 num) (b : BitSet)
      → qi < n * 64
      → IsValid num n s
      → IsBitSet n b
      → get b qi ≡ false
      → let s' = perform_u4 num n true true qi gate s in
        let amplitude0 = lookup num s b in
        let amplitude1 = lookup num s (toggle_bit b qi) in
        (lookup num s' b ≡ row0 num gate amplitude0 amplitude1)
        × (lookup num s' (toggle_bit b qi) ≡ row1 num gate amplitude0 amplitude1)
  unfolding perform_u4
  perform_u4_lem s qi gate b inside v valid low =
      let flipped = toggle_bit b qi in
      let high : get flipped qi ≡ true = ground (arith, get-toggle_bit n b valid qi inside qi) in
      let s0 = set_partition num n true qi s in
      let (valid0, partitioned) = set_partition-IsValid num n true qi s inside v in
      let (part0, inside', part1) = parts_of num n s0 qi valid0 partitioned in
      let (out0, out1) = u4_write num n qi gate s0.part0 s0.part1 in
      let s' : Statevector num = record {
        partitioned_by = s0.partitioned_by;
        part0 = out0;
        part1 = out1;
      } in
      let parts = u4_write-IsPart num n qi inside gate s0.part0 s0.part1 part0 part1 in
      let rows = u4_write_rows num n qi inside gate s0.part0 s0.part1 b part0 part1 valid low in
      let bits0 = (ordered_half num n qi inside false 0 s0.part0 part0).1 in
      let bits1 = (ordered_half num n qi inside true 0 s0.part1 part1).1 in
      let amplitude0 : find_bits num s0.part0 b ≡ lookup num s b =
        sym (lookup_0 s0 qi b bits1 low) ∙ lookup-set_partition s qi b inside v in
      let amplitude1 : find_bits num s0.part1 flipped ≡ lookup num s flipped =
        sym (lookup_1 s0 qi flipped bits0 high) ∙ lookup-set_partition s qi flipped inside v in
      (
        lookup_0 s' qi b (ordered_half num n qi inside true 0 out1 parts.1).1 low
            ∙ rows.0
            ∙ ap₂ (row0 num gate) amplitude0 amplitude1,
        lookup_1 s' qi flipped (ordered_half num n qi inside false 0 out0 parts.0).1 high
            ∙ rows.1
            ∙ ap₂ (row1 num gate) amplitude0 amplitude1,
      )
