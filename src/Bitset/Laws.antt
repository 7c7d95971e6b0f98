-- ===== src/Bitset/Laws.antt =====
-- The operations of `BitSet` bit by bit.
use qblaze.Base.{
  not, ℕ, suc, zero, ◌+◌, ◌-◌, ◌*◌, ◌/◌, ◌%◌, ◌^◌, ◌<◌, ◌≡◌, refl, ap, sym, ◌∙◌, arith, bit_and,
  bit_or, bit_xor, Bool, true, false, ◌&&◌, ◌||◌, xorb, List, [], ◌∷◌, length, get_or, set,
  replicate, All, member, length-set, length-replicate, get_or_ext, get_or_end, ltb, ltb→lt,
  ==_refl, ◌==◌, if◌then◌else◌, Bool-cases, inl, inr,
}
use qblaze.Base.Words.{
  bit, bit-zero, bit-and, bit-or, bit-xor, bit-pow, bit_ext, complement, test-bit, bit_and-lt,
  bit_or-lt, bit_xor-lt, bit_and-low_mask, pow-lt, bit_beyond, complement-lt, bit-complement,
}
use qblaze.QubitSet.Laws.{
  holds, AreWords, AreWords-set, AreWords-replicate, get_or-lt, holds-set, holds-bit_or,
  holds-bit_and,
}
use qblaze.Bitset.{
  BitSet, IsBitSet, split, empty, get, set_bit, toggle_bit, each_pair, and_set, or_set, xor_set,
  set_all, from_indices, same_set, same_words, each_word, not_set,
}

pub get-holds : (n : ℕ) (s : BitSet) (i : ℕ) → IsBitSet n s → get s i ≡ holds s.words i
unfolding get holds
get-holds n s i v =
    test-bit 64 (get_or s.words (i / 64) 0) (i % 64) (get_or-lt s.words (i / 64) v.are_words)

pub split_value : (i : ℕ) → split i ≡ (i / 64, i % 64)
unfolding split
split_value i =
    let shift : bit_and (i % 2 ^ 8) (2 ^ 6 - 1) ≡ i % 64 =
      bit_and-low_mask 6 (i % 2 ^ 8) ∙ omega arith in
    ap (λ (b : ℕ). (i / 64, b)) shift

pub empty-IsBitSet : (n : ℕ) → IsBitSet n (empty n)
unfolding empty
empty-IsBitSet n = record { has_words = length-replicate n 0; are_words = AreWords-replicate n }

pub get-empty : (n i : ℕ) → get (empty n) i ≡ false
unfolding holds empty
get-empty n i =
    get-holds n (empty n) i (empty-IsBitSet n) ∙ rw (nothing n (i / 64)) (bit-zero (i % 64))
  where
    nothing : (n j : ℕ) → get_or {A = ℕ} (replicate n 0) j 0 ≡ 0
    nothing zero j = refl
    nothing (suc n) zero = refl
    nothing (suc n) (suc j) = nothing n j

module _ (n : ℕ) (s : BitSet) (v : IsBitSet n s) (i : ℕ) where
  set_word-IsBitSet : (w : ℕ) → w < 2 ^ 64 → IsBitSet n (record { words = set s.words (i / 64) w })
  set_word-IsBitSet w h = record {
    has_words = length-set s.words (i / 64) w ∙ v.has_words;
    are_words = AreWords-set s.words (i / 64) w v.are_words h;
  }

  abbrev here : ℕ
  here = get_or s.words (i / 64) 0

  here-lt : here < 2 ^ 64
  here-lt = get_or-lt s.words (i / 64) v.are_words

  mask-lt : 2 ^ (i % 64) < 2 ^ 64
  mask-lt = pow-lt 64 (i % 64) (omega arith)

  pub set_bit-IsBitSet : (b : Bool) → IsBitSet n (set_bit s i b)
  unfolding set_bit
  set_bit-IsBitSet true =
      rw (split_value i) (set_word-IsBitSet _ (bit_or-lt 64 here (2 ^ (i % 64)) here-lt mask-lt))
  set_bit-IsBitSet false =
      rw (split_value i)
        (set_word-IsBitSet _ (bit_and-lt 64 here (complement 64 (2 ^ (i % 64))) here-lt))

  pub toggle_bit-IsBitSet : IsBitSet n (toggle_bit s i)
  unfolding toggle_bit
  toggle_bit-IsBitSet =
      rw (split_value i) (set_word-IsBitSet _ (bit_xor-lt 64 here (2 ^ (i % 64)) here-lt mask-lt))

  module _ (inside : i < n * 64) where
    word_inside : i / 64 < length s.words
    word_inside = omega (arith, v.has_words)

    -- On a valid set and an index within the width `set` writes the bit at the index and leaves
    -- the other bits.
    pub get-set_bit : (b : Bool) (j : ℕ) → get (set_bit s i b) j ≡ (if i == j then b else get s j)
    get-set_bit true j =
        let valid = set_bit-IsBitSet true in
        rw (get-holds n (set_bit s i true) j valid, get-holds n s j v)
          (unfold set_bit in
            rw (split_value i) (ground (arith, holds-bit_or s.words i j word_inside)))
    get-set_bit false j =
        let valid = set_bit-IsBitSet false in
        rw (get-holds n (set_bit s i false) j valid, get-holds n s j v)
          (unfold set_bit in
            rw (split_value i) (ground (arith, holds-bit_and s.words i j word_inside)))

    -- `toggle` flips the bit at the index and leaves the other bits.
    pub get-toggle_bit : (j : ℕ) → get (toggle_bit s i) j ≡ xorb (i == j) (get s j)
    get-toggle_bit j =
        let valid = toggle_bit-IsBitSet in
        rw (get-holds n (toggle_bit s i) j valid, get-holds n s j v)
          (unfold toggle_bit holds in
            rw (split_value i) (
              ground (
                arith,
                holds-set s.words (i / 64) (bit_xor here (2 ^ (i % 64))) j word_inside,
                bit-xor here (2 ^ (i % 64)) (j % 64),
                bit-pow (i % 64) (j % 64),
              )))

each_pair-AreWords :
    (f : ℕ → ℕ → ℕ) (vs ws : List ℕ)
    → ((a b : ℕ) → a < 2 ^ 64 → b < 2 ^ 64 → f a b < 2 ^ 64)
    → AreWords vs
    → AreWords ws
    → AreWords (each_pair f vs ws)
unfolding each_pair
each_pair-AreWords f [] ws h hv hw = tt
each_pair-AreWords f (v ∷ vs) [] h hv hw = tt
each_pair-AreWords f (v ∷ vs) (w ∷ ws) h hv hw =
    (h v w hv.0 hw.0, each_pair-AreWords f vs ws h hv.1 hw.1)

length-each_pair :
    (f : ℕ → ℕ → ℕ) (vs ws : List ℕ)
    → length vs ≡ length ws
    → length (each_pair f vs ws) ≡ length vs
unfolding each_pair
length-each_pair f [] [] h = refl
length-each_pair f [] (w ∷ ws) h = refl
length-each_pair f (v ∷ vs) [] h = absurd (omega arith)
length-each_pair f (v ∷ vs) (w ∷ ws) h = ap suc (length-each_pair f vs ws (omega arith))

get_or-each_pair :
    (f : ℕ → ℕ → ℕ) (vs ws : List ℕ) (j : ℕ)
    → length vs ≡ length ws
    → f 0 0 ≡ 0
    → get_or (each_pair f vs ws) j 0 ≡ f (get_or vs j 0) (get_or ws j 0)
unfolding each_pair
get_or-each_pair f [] [] j h z = sym z
get_or-each_pair f [] (w ∷ ws) j h z = absurd (omega arith)
get_or-each_pair f (v ∷ vs) [] j h z = absurd (omega arith)
get_or-each_pair f (v ∷ vs) (w ∷ ws) zero h z = refl
get_or-each_pair f (v ∷ vs) (w ∷ ws) (suc j) h z = get_or-each_pair f vs ws j (omega arith) z

module _ (n : ℕ) (s t : BitSet) (hs : IsBitSet n s) (ht : IsBitSet n t) where
  same_length : length s.words ≡ length t.words
  same_length = hs.has_words ∙ sym ht.has_words

  -- A pairwise operation on the words is the operation on their bits.
  pair_lem :
      (f : ℕ → ℕ → ℕ) (g : Bool → Bool → Bool)
      → ((a b : ℕ) → a < 2 ^ 64 → b < 2 ^ 64 → f a b < 2 ^ 64)
      → f 0 0 ≡ 0
      → ((a b i : ℕ) → bit (f a b) i ≡ g (bit a i) (bit b i))
      → (let r : BitSet = record { words = each_pair f s.words t.words } in
          IsBitSet n r × ((i : ℕ) → get r i ≡ g (get s i) (get t i)))
  unfolding holds
  pair_lem f g small zeros bits =
      let r : BitSet = record { words = each_pair f s.words t.words } in
      let valid : IsBitSet n r = record {
        has_words = length-each_pair f s.words t.words same_length ∙ hs.has_words;
        are_words = each_pair-AreWords f s.words t.words small hs.are_words ht.are_words;
      } in
      (
        valid,
        λ i.
            rw
              (
                get-holds n r i valid,
                get-holds n s i hs,
                get-holds n t i ht,
                get_or-each_pair f s.words t.words (i / 64) same_length zeros,
              )
              (bits (get_or s.words (i / 64) 0) (get_or t.words (i / 64) 0) (i % 64)),
      )

  -- `&`, `|` and `^` of two sets of the same number of words act on each bit.
  pub operators_lem :
      (IsBitSet n (and_set s t) × ((i : ℕ) → get (and_set s t) i ≡ (get s i && get t i)))
      × (IsBitSet n (or_set s t) × ((i : ℕ) → get (or_set s t) i ≡ (get s i || get t i)))
      × (IsBitSet n (xor_set s t) × ((i : ℕ) → get (xor_set s t) i ≡ xorb (get s i) (get t i)))
  unfolding and_set or_set xor_set
  operators_lem = (
    pair_lem bit_and ◌&&◌ (λ a b p q. bit_and-lt 64 a b p) refl bit-and,
    pair_lem bit_or ◌||◌ (λ a b p q. bit_or-lt 64 a b p q) refl bit-or,
    pair_lem bit_xor xorb (λ a b p q. bit_xor-lt 64 a b p q) refl bit-xor,
  )

  same_word :
      ((i : ℕ) → i < n * 64 → get s i ≡ get t i)
      → (j : ℕ) → j < n
      → get_or s.words j 0 ≡ get_or t.words j 0
  unfolding holds
  same_word h j inside =
      bit_ext 64 _ _ (get_or-lt s.words j hs.are_words) (get_or-lt t.words j ht.are_words) (λ i.
        elim (Bool-cases (ltb i 64)) [
          | inl low ↦
              let small : i < 64 = ltb→lt _ _ low in
              let word : (j * 64 + i) / 64 ≡ j = omega arith in
              let shift : (j * 64 + i) % 64 ≡ i = omega arith in
              rw (word, shift) at
                (sym (get-holds n s (j * 64 + i) hs)
                  ∙ h (j * 64 + i) (omega arith)
                  ∙ get-holds n t (j * 64 + i) ht)
          | inr high ↦
              bit_beyond 64 _ i (get_or-lt s.words j hs.are_words) (ground arith)
              ∙ sym (bit_beyond 64 _ i (get_or-lt t.words j ht.are_words) (ground arith))
        ])

  -- Two sets of `n` words with the same bits are the same words.
  pub bitset_ext : ((i : ℕ) → i < n * 64 → get s i ≡ get t i) → s.words ≡ t.words
  bitset_ext h = get_or_ext 0 s.words t.words same_length (λ j. elim (Bool-cases (ltb j n)) [
    | inl inside ↦ same_word h j (ltb→lt _ _ inside)
    | inr outside ↦
        get_or_end s.words j 0 (ground (arith, hs.has_words))
        ∙ sym (get_or_end t.words j 0 (ground (arith, ht.has_words)))
  ])

same_words_refl : (ws : List ℕ) → same_words ws ws ≡ true
unfolding same_words
same_words_refl [] = refl
same_words_refl (w ∷ ws) = rw (==_refl w) (same_words_refl ws)

pub same_set_of_words : (s t : BitSet) → s.words ≡ t.words → same_set s t ≡ true
unfolding same_set
same_set_of_words s t e = rw e (same_words_refl t.words)

same_words→eq : (vs ws : List ℕ) → same_words vs ws ≡ true → vs ≡ ws
unfolding same_words
same_words→eq [] [] h = refl
same_words→eq [] (w ∷ ws) h = absurd (cc)
same_words→eq (v ∷ vs) [] h = absurd (cc)
same_words→eq (v ∷ vs) (w ∷ ws) h =
    let first : v ≡ w = ground arith in
    let rest : same_words vs ws ≡ true = ground arith in
    rw first (ap (◌∷◌ w) (same_words→eq vs ws rest))

pub words_of_same_set : (s t : BitSet) → same_set s t ≡ true → s.words ≡ t.words
unfolding same_set
words_of_same_set s t h = same_words→eq s.words t.words h

set_all_lem :
    (n : ℕ) (s : BitSet) (is : List ℕ)
    → IsBitSet n s
    → All (λ i. i < n * 64) is
    → IsBitSet n (set_all s is) × ((j : ℕ) → get (set_all s is) j ≡ (member j is || get s j))
unfolding set_all
set_all_lem n s [] v inside = (v, λ j. refl)
set_all_lem n s (i ∷ is) v inside =
    let (valid, bits) =
      set_all_lem n (set_bit s i true) is (set_bit-IsBitSet n s v i true) inside.1 in
    (valid, λ j. ground (arith, bits j, get-set_bit n s v i inside.0 true j))

-- A set collected from indices within the width has exactly the bits at the indices.
pub from_indices_lem :
    (n : ℕ) (is : List ℕ)
    → All (λ i. i < n * 64) is
    → IsBitSet n (from_indices n is) × ((j : ℕ) → get (from_indices n is) j ≡ member j is)
unfolding from_indices
from_indices_lem n is inside =
    let (valid, bits) = set_all_lem n (empty n) is (empty-IsBitSet n) inside in
    (valid, λ j. ground (arith, bits j, get-empty n j))

each_word-AreWords :
    (f : ℕ → ℕ) (ws : List ℕ) → ((w : ℕ) → f w < 2 ^ 64) → AreWords (each_word f ws)
unfolding each_word
each_word-AreWords f [] h = tt
each_word-AreWords f (w ∷ ws) h = (h w, each_word-AreWords f ws h)

length-each_word : (f : ℕ → ℕ) (ws : List ℕ) → length (each_word f ws) ≡ length ws
unfolding each_word
length-each_word f [] = refl
length-each_word f (w ∷ ws) = ap suc (length-each_word f ws)

get_or-each_word :
    (f : ℕ → ℕ) (ws : List ℕ) (j : ℕ)
    → j < length ws
    → get_or (each_word f ws) j 0 ≡ f (get_or ws j 0)
unfolding each_word
get_or-each_word f [] j h = absurd (omega arith)
get_or-each_word f (w ∷ ws) zero h = refl
get_or-each_word f (w ∷ ws) (suc j) h = get_or-each_word f ws j (omega arith)

-- `!` flips every bit within the width.
pub not_set_lem :
    (n : ℕ) (s : BitSet)
    → IsBitSet n s
    → IsBitSet n (not_set s) × ((i : ℕ) → i < n * 64 → get (not_set s) i ≡ not (get s i))
unfolding not_set holds
not_set_lem n s v =
    let valid : IsBitSet n (not_set s) = record {
      has_words = length-each_word (complement 64) s.words ∙ v.has_words;
      are_words = each_word-AreWords (complement 64) s.words (complement-lt 64);
    } in
    (
      valid,
      λ i inside.
          rw
            (
              get-holds n (not_set s) i valid,
              get-holds n s i v,
              get_or-each_word (complement 64) s.words (i / 64) (omega (arith, v.has_words)),
            )
            (bit-complement 64 (get_or s.words (i / 64) 0) (i % 64)
              (get_or-lt s.words (i / 64) v.are_words) (omega arith)),
    )
