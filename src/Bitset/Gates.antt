-- ===== src/Bitset/Gates.antt =====
-- `Gate::prepare` and `Gate::perform` of `src/sfree/gates.rs` on the bits of an element as the bit
-- set that they are.
use qblaze.Base.{
  ℕ, ◌+◌, ◌*◌, ◌<◌, ◌≡◌, refl, ap, ◌∙◌, arith, Bool, true, false, ◌&&◌, ◌||◌, xorb, List, [], ◌∷◌,
  map, All, member, Bits, flip, flip_all, ◌==◌, if◌then◌else◌, Bool-cases, inl, inr, ==_iff,
  ==_refl,
}
use qblaze.Control.{Control, Qubit, qubit, value}
use qblaze.Control.Meaning.{satisfied, same, IsControl, IsSortedFrom}
use qblaze.QubitSet
use qblaze.QubitSet.{QubitSet, contains}
use qblaze.QubitSet.Iter.{qubits_of_words}
use qblaze.QubitSet.Traversal.{iter_lem}
use qblaze.Bitset.{BitSet, IsBitSet, get, toggle_bit, and_set, xor_set, same_set, from_indices}
use qblaze.Bitset.Laws.{
  get-toggle_bit, toggle_bit-IsBitSet, operators_lem, bitset_ext, same_set_of_words,
  words_of_same_set, from_indices_lem,
}

-- `X::perform`.
unfoldable pub perform_x : ℕ → BitSet → BitSet
unfolding toggle_bit
perform_x i bits = toggle_bit bits i

-- `Swap::perform`.
unfoldable pub perform_swap : ℕ → ℕ → BitSet → BitSet
unfolding toggle_bit get
perform_swap i0 i1 bits =
    if same (get bits i0) (get bits i1) then bits else toggle_bit (toggle_bit bits i0) i1

-- `MultiX::prepare` at `n` words, and `MultiX::perform`.
unfoldable pub prepare_multi_x : ℕ → QubitSet → BitSet
unfolding from_indices
prepare_multi_x n s = from_indices n (qubits_of_words s.words)

unfoldable pub perform_multi_x : BitSet → BitSet → BitSet
unfolding xor_set
perform_multi_x mask bits = xor_set bits mask

-- The qubits whose value has to be one.
unfoldable pub wanted : Control → List ℕ
wanted [] = []
wanted (c ∷ cs) = if value c then qubit c ∷ wanted cs else wanted cs

-- `MultiControlled::prepare` at `n` words: the mask and the wanted bits.
unfoldable pub prepare_control : ℕ → Control → BitSet × BitSet
unfolding wanted from_indices
prepare_control n ctl = (from_indices n (map qubit ctl), from_indices n (wanted ctl))

-- The test of `MultiControlled::perform`.
unfoldable pub asked : BitSet × BitSet → BitSet → Bool
unfolding and_set same_set
asked (mask, want) bits = same_set (and_set bits mask) want

not_in_qubits :
    (lo q : ℕ) (cs : Control)
    → IsSortedFrom lo cs
    → q < lo
    → (member q (map qubit cs) ≡ false) × (member q (wanted cs) ≡ false)
unfolding wanted
not_in_qubits lo q [] s h = (refl, refl)
not_in_qubits lo q (c ∷ cs) s h =
    let (no_qubit, no_want) = not_in_qubits (qubit c + 1) q cs s.1 (omega arith) in
    (ground arith, ground arith)

-- The masked bits are the wanted bits exactly on the registers that the control asks for.
masked_of_satisfied :
    (lo : ℕ) (cs : Control) (b : Bits) (i : ℕ)
    → IsSortedFrom lo cs
    → satisfied cs b ≡ true
    → (b i && member i (map qubit cs)) ≡ member i (wanted cs)
unfolding satisfied wanted
masked_of_satisfied lo [] b i s h = ground arith
masked_of_satisfied lo (c ∷ cs) b i s h =
    let rest : satisfied cs b ≡ true = ground arith in
    let later = masked_of_satisfied (qubit c + 1) cs b i s.1 rest in
    elim (Bool-cases (qubit c == i)) [
      | inl at ↦
          let e : qubit c ≡ i = (==_iff _ _).0 at in
          let (no_qubit, no_want) = not_in_qubits (qubit c + 1) i cs s.1 (omega arith) in
          let first : same (b (qubit c)) (value c) ≡ true = ground arith in
          let same_value : same (b i) (value c) ≡ true = rw e at first in
          elim (Bool-cases (value c)) [
            | inl one ↦ rw (one, at) (ground arith)
            | inr nought ↦ rw (nought, at) (ground arith)
          ]
      | inr elsewhere ↦ ground arith
    ]

satisfied_of_masked :
    (lo : ℕ) (cs : Control) (b : Bits)
    → IsSortedFrom lo cs
    → ((i : ℕ) → member i (map qubit cs) ≡ true → b i ≡ member i (wanted cs))
    → satisfied cs b ≡ true
unfolding satisfied wanted
satisfied_of_masked lo [] b s h = refl
satisfied_of_masked lo (c ∷ cs) b s h =
    let (no_qubit, no_want) = not_in_qubits (qubit c + 1) (qubit c) cs s.1 (omega arith) in
    let found : (qubit c == qubit c || member (qubit c) (map qubit cs)) ≡ true =
      rw (==_refl (qubit c)) in
    let first = h (qubit c) found in
    let itself : (qubit c == qubit c) ≡ true = ==_refl (qubit c) in
    let later : satisfied cs b ≡ true = satisfied_of_masked (qubit c + 1) cs b s.1 (λ i there.
      let apart : (qubit c == i) ≡ false = elim (Bool-cases (qubit c == i)) [
        | inl at ↦
            let e : qubit c ≡ i = (==_iff _ _).0 at in
            let gone = not_in_qubits (qubit c + 1) i cs s.1 (omega arith) in
            absurd (ground (arith, gone.0))
        | inr elsewhere ↦ elsewhere
      ] in
      let wants = h i (rw (apart) there) in
      elim (Bool-cases (value c)) [
        | inl one ↦ rw (one, apart) at wants
        | inr nought ↦ rw nought at wants
      ]) in
    elim (Bool-cases (value c)) [
      | inl one ↦ let is_set : b (qubit c) ≡ true = rw (one, itself) at first in ground arith
      | inr nought ↦
          let is_clear : b (qubit c) ≡ false = rw (nought, no_want) at first in ground arith
    ]

inside_wanted :
    (n : ℕ) (cs : Control)
    → All (λ i. i < n * 64) (map qubit cs)
    → All (λ i. i < n * 64) (wanted cs)
unfolding wanted
inside_wanted n [] h = tt
inside_wanted n (c ∷ cs) h = elim (Bool-cases (value c)) [
  | inl one ↦ rw one (h.0, inside_wanted n cs h.1)
  | inr nought ↦ rw nought (inside_wanted n cs h.1)
]

get_of_words : (s t : BitSet) (i : ℕ) → s.words ≡ t.words → get s i ≡ get t i
unfolding get
get_of_words s t i h = rw h

-- The prepared test of a sorted control on qubits within the width asks of the bits of an element
-- what the control asks.
pub asked_lem :
    (n : ℕ) (ctl : Control) (bits : BitSet)
    → IsControl ctl
    → All (λ i. i < n * 64) (map qubit ctl)
    → IsBitSet n bits
    → asked (prepare_control n ctl) bits ≡ satisfied ctl (get bits)
unfolding asked prepare_control
asked_lem n ctl bits sorted inside valid =
    let (mask_valid, mask_bits) = from_indices_lem n (map qubit ctl) inside in
    let (want_valid, want_bits) = from_indices_lem n (wanted ctl) (inside_wanted n ctl inside) in
    let mask = from_indices n (map qubit ctl) in
    let want = from_indices n (wanted ctl) in
    let (masked_valid, masked_bits) = (operators_lem n bits mask valid mask_valid).0 in
    elim (Bool-cases (satisfied ctl (get bits))) [
      | inl holds ↦ rw holds (
          same_set_of_words (and_set bits mask) want (
            bitset_ext n (and_set bits mask) want masked_valid want_valid (λ i h.
              rw (masked_bits i, mask_bits i, want_bits i)
                (masked_of_satisfied 0 ctl (get bits) i sorted holds))))
      | inr fails ↦ elim (Bool-cases (same_set (and_set bits mask) want)) [
        | inl equal ↦
            let words = words_of_same_set (and_set bits mask) want equal in
            let holds : satisfied ctl (get bits) ≡ true =
              satisfied_of_masked 0 ctl (get bits) sorted (λ i there. ground (
                arith,
                get_of_words (and_set bits mask) want i words,
                masked_bits i,
                mask_bits i,
                want_bits i,
              )) in
            absurd (cc)
        | inr other ↦ rw (fails, other)
      ]
    ]

-- On the bits of an element of `n` words, at qubits within the width, the prepared gates `X`,
-- `Swap` and `MultiX` do what the gates do to the function that the bits stand for.
pub perform_bits_lem :
    (n : ℕ) (q r : Qubit) (s : QubitSet) (bits : BitSet)
    → q < n * 64
    → r < n * 64
    → QubitSet.IsValid s
    → All (λ i. i < n * 64) (qubits_of_words s.words)
    → IsBitSet n bits
    → ((j : ℕ) → get (perform_x q bits) j ≡ flip q (get bits) j)
      × ((j : ℕ)
          → get (perform_swap q r bits) j
            ≡ (if same (get bits q) (get bits r) then get bits j else flip r (flip q (get bits)) j))
      × ((j : ℕ)
          → get (perform_multi_x (prepare_multi_x n s) bits) j ≡ flip_all (contains s) (get bits) j)
unfolding perform_x perform_swap perform_multi_x prepare_multi_x
perform_bits_lem n q r s bits hq hr vs inside valid = (
  λ j. get-toggle_bit n bits valid q hq j,
  λ j. elim (Bool-cases (same (get bits q) (get bits r))) [
    | inl equal ↦ rw equal
    | inr differ ↦ rw differ (
        get-toggle_bit n (toggle_bit bits q) (toggle_bit-IsBitSet n bits valid q) r hr j
        ∙ ap (xorb (r == j)) (get-toggle_bit n bits valid q hq j))
  ],
  λ j.
      let (mask_valid, mask_bits) = from_indices_lem n (qubits_of_words s.words) inside in
      let mask = from_indices n (qubits_of_words s.words) in
      let xored = (operators_lem n bits mask valid mask_valid).2.1 j in
      xored ∙ ground (arith, mask_bits j, (iter_lem s vs).1 j),
)
