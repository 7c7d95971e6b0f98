-- ===== src/Bitset.antt =====
-- `src/bitset.rs`: bit sets of a fixed number of words, which hold the bits of an element. An index
-- is a number; `hint::assert_unchecked` and the unchecked accesses are plain accesses.
pub mod Laws
pub mod Gates
use qblaze.Base.{
  ℕ, ◌-◌, ◌*◌, ◌/◌, ◌%◌, ◌^◌, ◌<◌, ◌≡◌, bit_and, bit_or, bit_xor, Bool, true, false, not, ◌&&◌,
  List, [], ◌∷◌, All, length, get_or, set, replicate, ltb, ◌==◌, if◌then◌else◌, Run, ok, panic,
}
use qblaze.Base.Words.{complement}

pub record BitSet : Type 0 where
  pub words : List ℕ

-- `BitIndex::new` and `BitIndex::new_u32` at `n` words.
unfoldable pub index_new : ℕ → ℕ → Run ℕ
index_new n v = if ltb v (n * 2 ^ 6) then ok v else panic

-- `BitIndex::split`: the word and the bit in it, which is cut from the lowest byte.
unfoldable pub split : ℕ → ℕ × ℕ
split i = (i / 2 ^ 6, bit_and (i % 2 ^ 8) (2 ^ 6 - 1))

-- `BitSet::default` at `n` words.
unfoldable pub empty : ℕ → BitSet
empty n = record { words = replicate n 0 }

unfoldable pub from_small : ℕ → ℕ → BitSet
unfolding empty
from_small n i = record { words = set (empty n).words 0 i }

unfoldable pub get : BitSet → ℕ → Bool
get s i = not (bit_and (get_or s.words (i / 64) 0) (2 ^ (i % 64)) == 0)

unfoldable pub set_bit : BitSet → ℕ → Bool → BitSet
set_bit s i v =
    let (at, shift) = split i in
    let w = get_or s.words at 0 in
    record {
      words =
          set s.words at
            (if v then bit_or w (2 ^ shift) else bit_and w (complement 64 (2 ^ shift)));
    }

unfoldable pub toggle_bit : BitSet → ℕ → BitSet
toggle_bit s i =
    let (at, shift) = split i in
    record { words = set s.words at (bit_xor (get_or s.words at 0) (2 ^ shift)) }

-- `for i in 0..N` over the words of one set, and of two sets.
unfoldable pub each_word : (ℕ → ℕ) → List ℕ → List ℕ
each_word f [] = []
each_word f (w ∷ ws) = f w ∷ each_word f ws

unfoldable pub each_pair : (ℕ → ℕ → ℕ) → List ℕ → List ℕ → List ℕ
each_pair f (v ∷ vs) (w ∷ ws) = f v w ∷ each_pair f vs ws
each_pair f _ _ = []

unfoldable pub not_set : BitSet → BitSet
unfolding each_word
not_set s = record { words = each_word (complement 64) s.words }

unfoldable pub and_set : BitSet → BitSet → BitSet
unfolding each_pair
and_set s t = record { words = each_pair bit_and s.words t.words }

unfoldable pub or_set : BitSet → BitSet → BitSet
unfolding each_pair
or_set s t = record { words = each_pair bit_or s.words t.words }

unfoldable pub xor_set : BitSet → BitSet → BitSet
unfolding each_pair
xor_set s t = record { words = each_pair bit_xor s.words t.words }

-- `for i in it { r.set(i, true); }`
unfoldable pub set_all : BitSet → List ℕ → BitSet
unfolding set_bit
set_all s [] = s
set_all s (i ∷ is) = set_all (set_bit s i true) is

-- `FromIterator for BitSet` at `n` words.
unfoldable pub from_indices : ℕ → List ℕ → BitSet
unfolding set_all
from_indices n is = set_all (empty n) is

-- A set of `n` words of 64 bits.
pub record IsBitSet (n : ℕ) (s : BitSet) : Type 0 where
  pub has_words : length s.words ≡ n
  pub are_words : All (λ w. w < 2 ^ 64) s.words

-- The derived equality of the word arrays.
unfoldable pub same_words : List ℕ → List ℕ → Bool
same_words (v ∷ vs) (w ∷ ws) = v == w && same_words vs ws
same_words [] [] = true
same_words _ _ = false

unfoldable pub same_set : BitSet → BitSet → Bool
unfolding same_words
same_set s t = same_words s.words t.words
