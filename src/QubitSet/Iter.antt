-- ===== src/QubitSet/Iter.antt =====
-- `QubitSet::iter` and `QubitSetIter::next`: the qubits of a set, one by one.
use qblaze.Base.{
  ℕ, suc, zero, ◌+◌, ◌-◌, ◌*◌, ◌/◌, ◌%◌, ◌^◌, bit_and, bit_or, true, false, Option, none, some,
  List, [], ◌∷◌, get_or, length, get_elem?, ◌==◌,
}

-- The slice of words, the index of the current word, and its bits that are left.
pub record QubitSetIter : Type 0 where
  pub words : List ℕ
  pub at : ℕ
  pub left : ℕ

-- `u64::trailing_zeros`; the width bounds the digits that are read.
unfoldable pub trailing_zeros : ℕ → ℕ → ℕ
trailing_zeros zero v = 0
trailing_zeros (suc w) v = elim (v % 2 == 1) [ true ↦ 0 | false ↦ suc (trailing_zeros w (v / 2)) ]

-- `while v == 0 { i += 1; v = *words.get(i)?; }`: the index of a word that is not zero, and the word.
unfoldable pub skip : ℕ → List ℕ → ℕ → ℕ → Option (ℕ × ℕ)
skip zero ws i v = none
skip (suc fuel) ws i v = elim (v == 0) [
  | true ↦ elim (get_elem? ws (i + 1)) [ none ↦ none | some w ↦ skip fuel ws (i + 1) w ]
  | false ↦ some (i, v)
]

unfoldable pub next : QubitSetIter → Option (ℕ × QubitSetIter)
unfolding skip trailing_zeros
next it = elim (skip (length it.words + 1) it.words it.at it.left) [
  | none ↦ none
  | some (i, v) ↦ some (
    bit_or (i * 2 ^ 6) (trailing_zeros 64 v),
    record { words = it.words; at = i; left = bit_and v (v - 1) },
  )
]

-- A `for` loop over the iterator reads this list.
unfoldable pub collect : ℕ → QubitSetIter → List ℕ
collect zero it = []
collect (suc fuel) it = elim (next it) [ none ↦ [] | some (q, it') ↦ q ∷ collect fuel it' ]

-- `iter`, run to its end: a set of `n` words has at most `64 * n` qubits.
unfoldable pub qubits_of_words : List ℕ → List ℕ
unfolding collect next
qubits_of_words ws =
    collect (64 * length ws + 1) (record { words = ws; at = 0; left = get_or ws 0 0 })
