-- ===== src/QubitSet.antt =====
-- `src/qubit_set.rs`: a growable bit set of qubit indices. The union of one inline word and a heap
-- array is the list of the words; `clone`, `drop` and `fmt` are not modelled.
pub mod Iter
pub mod Algebra
pub mod Laws
pub mod Traversal
use qblaze.Base.{
  ℕ, suc, zero, ◌+◌, ◌-◌, ◌*◌, ◌/◌, ◌%◌, ◌^◌, ◌≤◌, ◌<◌, min, bit_and, bit_or, Bool, true, false,
  not, Option, none, some, List, [], ◌∷◌, ◌++◌, length, get_elem?, get_or, set, take, replicate,
  All, ltb, leb, ◌==◌, if◌then◌else◌,
}
use qblaze.Base.Words.{complement}

pub record QubitSet : Type 0 where
  pub words : List ℕ

-- `q >> 6` and `q & 63`.
abbrev pub word_index : ℕ → ℕ
word_index q = q / 64

abbrev pub bit_index : ℕ → ℕ
bit_index q = q % 64

unfoldable pub new : QubitSet
new = record { words = 0 ∷ [] }

-- `Vec::resize(n, 0)`.
abbrev pub resize : List ℕ → ℕ → List ℕ
resize ws n = take n ws ++ replicate (n - length ws) 0

-- One inline word moves into a fresh array, a heap array is resized.
unfoldable pub grow : List ℕ → ℕ → List ℕ
grow (v ∷ []) n = set (replicate n 0) 0 v
grow ws n = resize ws n

abbrev pub test : ℕ → ℕ → Bool
test v j = not (bit_and v (2 ^ j) == 0)

unfoldable pub contains : QubitSet → ℕ → Bool
contains s q = elim (get_elem? s.words (word_index q)) [
  | none ↦ false
  | some v ↦ test v (bit_index q)
]

-- The new set, and whether the qubit was there.
unfoldable pub remove : QubitSet → ℕ → QubitSet × Bool
remove s q = elim (get_elem? s.words (word_index q)) [
  | none ↦ (s, false)
  | some v ↦ (
    record { words = set s.words (word_index q) (bit_and v (complement 64 (2 ^ bit_index q))) },
    test v (bit_index q),
  )
]

abbrev pub zero_words : List ℕ → List ℕ
zero_words [] = []
zero_words (w ∷ ws) = 0 ∷ zero_words ws

unfoldable pub clear : QubitSet → QubitSet
clear s = record { words = zero_words s.words }

unfoldable pub insert : QubitSet → ℕ → QubitSet
unfolding grow
insert s q =
    let i = word_index q in
    let ws = if leb (length s.words) i then grow s.words (i + 1) else s.words in
    record { words = set ws i (bit_or (get_or ws i 0) (2 ^ bit_index q)) }

unfoldable pub extend : QubitSet → List ℕ → QubitSet
unfolding insert
extend s [] = s
extend s (q ∷ qs) = extend (insert s q) qs

-- `for i in 0..n { w[i] = w0[i] & w1[i]; }` from index `i`, with `left` rounds to go.
unfoldable pub and_loop : ℕ → ℕ → List ℕ → List ℕ → List ℕ → List ℕ
and_loop zero i w0 w1 w = w
and_loop (suc left) i w0 w1 w =
    and_loop left (i + 1) w0 w1 (set w i (bit_and (get_or w0 i 0) (get_or w1 i 0)))

unfoldable pub intersection : QubitSet → QubitSet → QubitSet
unfolding and_loop grow new
intersection a b =
    let n = min (length a.words) (length b.words) in
    let r = if ltb (length new.words) n then grow new.words n else new.words in
    record { words = and_loop n 0 a.words b.words r }

-- `u64::count_ones`.
unfoldable pub count_ones : ℕ → ℕ → ℕ
count_ones zero v = 0
count_ones (suc w) v = v % 2 + count_ones w (v / 2)

unfoldable pub sum_ones : List ℕ → ℕ
sum_ones [] = 0
sum_ones (v ∷ ws) = count_ones 64 v + sum_ones ws

unfoldable pub len : QubitSet → ℕ
unfolding sum_ones count_ones
len s = sum_ones s.words

-- What the code keeps true of every set: at least one word, each of 64 bits.
pub record IsValid (s : QubitSet) : Type 0 where
  pub has_word : 1 ≤ length s.words
  pub are_words : All (λ w. w < 2 ^ 64) s.words
