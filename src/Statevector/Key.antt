-- ===== src/Statevector/Key.antt =====
-- The order of the elements by their bits, and by their bits without one qubit.
use native.Mathlib.Nat.{mul-le-mul_right, one-mul, pow-suc, add-mul, suc-mul, mod-eq_of_lt}
use qblaze.Base.{
  ℕ, suc, zero, ◌+◌, ◌-◌, ◌*◌, ◌/◌, ◌%◌, ◌^◌, ◌≤◌, ◌<◌, ◌≡◌, refl, sym, ap, ◌∙◌, arith, bit_and,
  false, not, List, [], ◌∷◌, length, get_or, set, Bool-cases, inl, inr, ◌==◌, ==_iff, length-set,
  if◌then◌else◌, ltb,
}
use qblaze.Base.Words.{bit, bit_and_step, complement, bit_and-low_mask, one-le-two_pow, pow-lt}
use qblaze.QubitSet.Laws.{holds, AreWords, get_or-lt}
use qblaze.Bitset.{BitSet, IsBitSet, get, set_bit, toggle_bit, and_set, not_set, empty}
use qblaze.Bitset.Laws.{
  bitset_ext, operators_lem, get-holds, get-toggle_bit, toggle_bit-IsBitSet, get-set_bit,
  set_bit-IsBitSet, not_set_lem, empty-IsBitSet, get-empty, split_value,
}
use qblaze.Util.{Ordering, less, equal, greater, cmp}
use qblaze.Statevector.{rank, span, mask_without}

pub rank-lt : (ws : List ℕ) → AreWords ws → rank ws < span (length ws)
unfolding rank span
rank-lt [] h = omega arith
rank-lt (w ∷ ws) h =
    let rest = rank-lt ws h.1 in
    let top : suc w * span (length ws) ≤ 2 ^ 64 * span (length ws) =
      mul-le-mul_right (span (length ws)) h.0 in
    let one_more : suc w * span (length ws) ≡ w * span (length ws) + span (length ws) =
      suc-mul w (span (length ws)) in
    omega arith

-- `#[derive(Ord)]` of the word arrays: the first words that differ decide.
unfoldable pub cmp_words : List ℕ → List ℕ → Ordering
cmp_words (v ∷ vs) (w ∷ ws) =
    let rest = cmp_words vs ws in if v == w then rest else if ltb v w then less else greater
cmp_words _ _ = equal

-- On words of one length the derived order of the bit sets is the order of the numbers that have
-- the words as digits, the first word the highest.
pub cmp_words-rank :
    (vs ws : List ℕ)
    → AreWords vs
    → AreWords ws
    → length vs ≡ length ws
    → cmp_words vs ws ≡ cmp (rank vs) (rank ws)
unfolding cmp_words rank
cmp_words-rank [] [] hv hw h = refl
cmp_words-rank [] (w ∷ ws) hv hw h = absurd (omega arith)
cmp_words-rank (v ∷ vs) [] hv hw h = absurd (omega arith)
cmp_words-rank (v ∷ vs) (w ∷ ws) hv hw h =
    let same_length : length vs ≡ length ws = omega arith in
    let below_v = rank-lt vs hv.1 in
    let below_w = rank-lt ws hw.1 in
    let rest = cmp_words-rank vs ws hv.1 hw.1 same_length in
    elim (Bool-cases (v == w)) [
      | inl same ↦
          let e : v ≡ w = (==_iff _ _).0 same in rw (same, rest, e, same_length) (ground arith)
      | inr differ ↦ elim (Bool-cases (ltb v w)) [
        | inl lower ↦
            let step : suc v * span (length ws) ≤ w * span (length ws) =
              mul-le-mul_right (span (length ws)) (ground arith) in
            let one_more = suc-mul v (span (length ws)) in
            rw (differ, lower) (ground (arith, ap span same_length))
        | inr higher ↦
            let step : suc w * span (length ws) ≤ v * span (length ws) =
              mul-le-mul_right (span (length ws)) (ground arith) in
            let one_more = suc-mul w (span (length ws)) in
            rw (differ, higher, same_length) (ground (arith, below_w, rw same_length at below_v))
      ]
    ]

-- Writing a word changes the rank by the difference at the word's place.
rank-set :
    (ws : List ℕ) (i v : ℕ)
    → i < length ws
    → rank (set ws i v) + get_or ws i 0 * span (length ws - i - 1)
      ≡ rank ws + v * span (length ws - i - 1)
unfolding rank
rank-set [] i v h = absurd (omega arith)
rank-set (w ∷ ws) zero v h =
    let e : suc (length ws) - 0 - 1 ≡ length ws = omega arith in rw e (omega arith)
rank-set (w ∷ ws) (suc i) v h =
    let e : suc (length ws) - suc i - 1 ≡ length ws - i - 1 = omega arith in
    let rest = rank-set ws i v (omega arith) in
    let same_length = length-set ws i v in rw (e, same_length) (omega arith)

-- A word without a bit, and the bit.
word_without :
    (w x j : ℕ)
    → x < 2 ^ w
    → j < w
    → bit_and x (complement w (2 ^ j)) + (if bit x j then 2 ^ j else 0) ≡ x
unfolding bit complement
word_without zero x j hx hj = absurd (omega arith)
word_without (suc w) x zero hx hj =
    let high : (2 ^ suc w - 1 - 2 ^ 0) / 2 ≡ 2 ^ w - 1 = omega (arith, pow-suc 2 w) in
    let low : (2 ^ suc w - 1 - 2 ^ 0) % 2 ≡ 0 = omega (arith, pow-suc 2 w, one-le-two_pow w) in
    let kept : bit_and (x / 2) (2 ^ w - 1) ≡ x / 2 =
      bit_and-low_mask w (x / 2) ∙ mod-eq_of_lt (omega (arith, pow-suc 2 w)) in
    rw (bit_and_step x (2 ^ suc w - 1 - 2 ^ 0), high, low, kept) (ground arith)
word_without (suc w) x (suc j) hx hj =
    let smaller = pow-lt w j (omega arith) in
    let high : (2 ^ suc w - 1 - 2 ^ suc j) / 2 ≡ 2 ^ w - 1 - 2 ^ j =
      omega (arith, pow-suc 2 w, pow-suc 2 j) in
    let low : (2 ^ suc w - 1 - 2 ^ suc j) % 2 ≡ 1 = omega (arith, pow-suc 2 w, pow-suc 2 j) in
    let rest = word_without w (x / 2) j (omega (arith, pow-suc 2 w)) (omega arith) in
    rw (bit_and_step x (2 ^ suc w - 1 - 2 ^ suc j), high, low) (ground (arith, pow-suc 2 j))

mask_lem :
    (n qi : ℕ)
    → qi < n * 64
    → IsBitSet n (mask_without n qi)
      × ((i : ℕ) → i < n * 64 → get (mask_without n qi) i ≡ not (qi == i))
unfolding mask_without
mask_lem n qi h =
    let (ones_valid, ones) = not_set_lem n (empty n) (empty-IsBitSet n) in
    let valid = toggle_bit-IsBitSet n (not_set (empty n)) ones_valid qi in
    (
      valid,
      λ i inside.
          get-toggle_bit n (not_set (empty n)) ones_valid qi h i
          ∙ ground (arith, ones i inside, get-empty n i),
    )

-- Masking clears the bit of the qubit.
masked_words :
    (n qi : ℕ) (b : BitSet)
    → qi < n * 64
    → IsBitSet n b
    → (and_set b (mask_without n qi)).words ≡ (set_bit b qi false).words
masked_words n qi b h v =
    let (mask_valid, mask_bits) = mask_lem n qi h in
    let (valid, bits) = (operators_lem n b (mask_without n qi) v mask_valid).0 in
    bitset_ext n _ _ valid (set_bit-IsBitSet n b v qi false)
      (λ i inside. bits i ∙ ground (arith, mask_bits i inside, get-set_bit n b v qi h false i))

pub one-le-span : (n : ℕ) → 1 ≤ span n
unfolding span
one-le-span zero = omega arith
one-le-span (suc n) = omega (arith, one-le-span n)

-- What the bit of a qubit adds to the rank.
pub offset : ℕ → ℕ → ℕ
offset n qi = 2 ^ (qi % 64) * span (n - qi / 64 - 1)

pub offset-pos : (n qi : ℕ) → 0 < offset n qi
unfolding offset
offset-pos n qi =
    let top = one-le-two_pow (qi % 64) in
    let rest = one-le-span (n - qi / 64 - 1) in
    let product = mul-le-mul_right (span (n - qi / 64 - 1)) top in
    omega (arith, one-mul (span (n - qi / 64 - 1)))

-- The rank is the rank without a bit, and the offset of the bit if it is set.
pub rank-masked :
    (n qi : ℕ) (b : BitSet)
    → qi < n * 64
    → IsBitSet n b
    → rank b.words
      ≡ rank (and_set b (mask_without n qi)).words + (if get b qi then offset n qi else 0)
unfolding set_bit offset holds
rank-masked n qi b h v =
    let word = get_or b.words (qi / 64) 0 in
    let low = bit_and word (complement 64 (2 ^ (qi % 64))) in
    let place = span (n - qi / 64 - 1) in
    let inside : qi / 64 < length b.words = omega (arith, v.has_words) in
    let masked : rank (and_set b (mask_without n qi)).words ≡ rank (set b.words (qi / 64) low) =
      ap rank (masked_words n qi b h v) ∙ rw (split_value qi) refl in
    let whole : low + (if get b qi then 2 ^ (qi % 64) else 0) ≡ word =
      rw (get-holds n b qi v)
        (word_without 64 word (qi % 64) (get_or-lt b.words (qi / 64) v.are_words) (omega arith)) in
    let moved : rank (set b.words (qi / 64) low) + word * place ≡ rank b.words + low * place =
      rw (v.has_words) at (rank-set b.words (qi / 64) low inside) in
    let bit_part = if get b qi then 2 ^ (qi % 64) else 0 in
    let spread : word * place ≡ low * place + bit_part * place =
      ap (λ (w : ℕ). w * place) (sym whole) ∙ add-mul low bit_part place in
    let scaled : bit_part * place ≡ (if get b qi then 2 ^ (qi % 64) * place else 0) =
      ground arith in
    omega (arith, masked, moved, spread, scaled)

-- Masking forgets the bit: toggling it changes nothing.
pub masked-toggle :
    (n qi : ℕ) (b : BitSet)
    → qi < n * 64
    → IsBitSet n b
    → rank (and_set (toggle_bit b qi) (mask_without n qi)).words
      ≡ rank (and_set b (mask_without n qi)).words
masked-toggle n qi b h v =
    let toggled = toggle_bit-IsBitSet n b v qi in
    let one = masked_words n qi (toggle_bit b qi) h toggled in
    let other = masked_words n qi b h v in
    let alike : (set_bit (toggle_bit b qi) qi false).words ≡ (set_bit b qi false).words =
      bitset_ext n _ _ (set_bit-IsBitSet n (toggle_bit b qi) toggled qi false)
        (set_bit-IsBitSet n b v qi false)
        (λ i inside. ground (
          arith,
          get-set_bit n (toggle_bit b qi) toggled qi h false i,
          get-set_bit n b v qi h false i,
          get-toggle_bit n b v qi h i,
        )) in
    ap rank (one ∙ alike ∙ sym other)
