-- ===== src/QubitSet/Traversal.antt =====
-- The iterator visits the qubits of a set in ascending order, each once.
use native.Mathlib.Nat.{pow-suc}
use mathlib.Core.List.{append_assoc}
use qblaze.Base.{
  ℕ, suc, zero, ◌+◌, ◌-◌, ◌*◌, ◌/◌, ◌%◌, ◌^◌, ◌≤◌, ◌<◌, ◌≡◌, refl, ap, sym, ◌∙◌, arith, bit_and,
  bit_or, true, false, ◌&&◌, ◌||◌, none, some, List, [], ◌∷◌, ◌++◌, length, get_elem?, get_or, All,
  subst, ==_iff, length-append, ◌==◌, if◌then◌else◌, ltb, leb, Bool-cases, inl, inr, member, ◌⊎◌,
}
use qblaze.Base.Words.{
  bit, bit-zero, bit_and_step, bit_or-shift, bit_and-lt, bit_and_self, lt-two_pow, bit_beyond,
}
use qblaze.QubitSet.{QubitSet, IsValid, contains, len, count_ones, sum_ones}
use qblaze.QubitSet.Iter.{QubitSetIter, next, skip, trailing_zeros, collect, qubits_of_words}
use qblaze.QubitSet.Laws.{holds, holds_end, contains-holds, get_elem?-cases}

-- The positions of the ones of a word of `w` bits, counted from `base`.
ones : ℕ → ℕ → ℕ → List ℕ
ones zero base v = []
ones (suc w) base v =
    if v % 2 == 1 then base ∷ ones w (base + 1) (v / 2) else ones w (base + 1) (v / 2)

ones-zero : (w base : ℕ) → ones w base 0 ≡ []
unfolding ones
ones-zero zero base = refl
ones-zero (suc w) base = ones-zero w (base + 1)

length-ones : (w base v : ℕ) → length (ones w base v) ≤ w
unfolding ones
length-ones zero base v = omega arith
length-ones (suc w) base v = ground (arith, length-ones w (base + 1) (v / 2))

-- `trailing_zeros` finds the first one, and `v & (v - 1)` takes it out.
ones_step :
    (w base v : ℕ)
    → 0 < v
    → v < 2 ^ w
    → ones w base v ≡ (base + trailing_zeros w v) ∷ ones w base (bit_and v (v - 1))
unfolding ones trailing_zeros
ones_step zero base v pos small = absurd (omega arith)
ones_step (suc w) base v pos small = elim (Bool-cases (v % 2 == 1)) [
  | inl odd ↦
      let low : bit_and v (v - 1) % 2 ≡ 0 = ground (arith, bit_and_step v (v - 1)) in
      let high : bit_and v (v - 1) / 2 ≡ v / 2 =
        ground
          (arith, bit_and_step v (v - 1), bit_and_self w (v / 2) (omega (arith, pow-suc 2 w))) in
      let clear : (bit_and v (v - 1) % 2 == 1) ≡ false = ground arith in
      rw (odd, trailing_zeros, clear, high) (ground arith)
  | inr even ↦
      let low : bit_and v (v - 1) % 2 ≡ 0 = ground (arith, bit_and_step v (v - 1)) in
      let shrunk : (v - 1) / 2 ≡ v / 2 - 1 = ground arith in
      let high : bit_and v (v - 1) / 2 ≡ bit_and (v / 2) (v / 2 - 1) =
        rw (← shrunk) (omega (arith, bit_and_step v (v - 1))) in
      let clear : (bit_and v (v - 1) % 2 == 1) ≡ false = ground arith in
      rw (even, trailing_zeros, clear, high)
        (ones_step w (base + 1) (v / 2) (ground arith) (omega (arith, pow-suc 2 w))
          ∙ ap (λ (t : ℕ). t ∷ ones w (base + 1) (bit_and (v / 2) (v / 2 - 1))) (omega arith))
]

-- The bits of a word and their positions.
member-ones :
    (w base v q : ℕ) → v < 2 ^ w → member q (ones w base v) ≡ (leb base q && bit v (q - base))
unfolding ones bit
member-ones zero base v q small =
    let empty : v ≡ 0 = omega arith in rw (empty, bit-zero (q - base)) (ground arith)
member-ones (suc w) base v q small = elim (Bool-cases (leb (base + 1) q)) [
  | inl past ↦
      let next_bit : q - base ≡ suc (q - (base + 1)) = ground arith in
      let other : (base == q) ≡ false = ground arith in
      let here : leb base q ≡ true = ground arith in
      let rest = member-ones w (base + 1) (v / 2) q (omega (arith, pow-suc 2 w)) in
      rw (next_bit, here) (ground arith)
  | inr not_past ↦
      let rest = member-ones w (base + 1) (v / 2) q (omega (arith, pow-suc 2 w)) in
      elim (Bool-cases (base == q)) [
        | inl same ↦ let first : q - base ≡ 0 = ground arith in rw first (ground arith)
        | inr other ↦ ground arith
      ]
]

-- The words from index `i`, `count` of them.
rest : ℕ → ℕ → List ℕ → List ℕ
rest zero i ws = []
rest (suc count) i ws = ones 64 (i * 64) (get_or ws i 0) ++ rest count (i + 1) ws

member-append : (q : ℕ) (xs ys : List ℕ) → member q (xs ++ ys) ≡ (member q xs || member q ys)
member-append q [] ys = refl
member-append q (x ∷ xs) ys = ground (arith, member-append q xs ys)

AreWords-get_or : (ws : List ℕ) (i : ℕ) → All (λ w. w < 2 ^ 64) ws → get_or ws i 0 < 2 ^ 64
AreWords-get_or [] i h = omega arith
AreWords-get_or (w ∷ ws) zero h = h.0
AreWords-get_or (w ∷ ws) (suc i) h = AreWords-get_or ws i h.1

skip_lem :
    (ws : List ℕ)
    → All (λ w. w < 2 ^ 64) ws
    → (count fuel i v : ℕ) → v < 2 ^ 64
    → i + 1 + count ≡ length ws
    → count < fuel
    → ((skip fuel ws i v ≡ none) × (ones 64 (i * 64) v ++ rest count (i + 1) ws ≡ []))
      ⊎ ((i' : ℕ) × (v' : ℕ) × (count' : ℕ) × (skip fuel ws i v ≡ some (i', v'))
          × (0 < v')
          × (v' < 2 ^ 64)
          × (i' + 1 + count' ≡ length ws)
          × (ones 64 (i * 64) v ++ rest count (i + 1) ws
              ≡ ones 64 (i' * 64) v' ++ rest count' (i' + 1) ws))
unfolding skip rest
skip_lem ws words count zero i v small ends enough = absurd (omega arith)
skip_lem ws words zero (suc fuel) i zero small ends enough =
    let missing : get_elem? ws (i + 1) ≡ none = ground (arith, get_elem?-cases ws (i + 1)) in
    inl (rw (missing, skip), rw (ones-zero 64 (i * 64)))
skip_lem ws words (suc count) (suc fuel) i zero small ends enough =
    let found : get_elem? ws (i + 1) ≡ some (get_or ws (i + 1) 0) =
      ground (arith, get_elem?-cases ws (i + 1)) in
    rw (found, skip, ones-zero 64 (i * 64))
      (skip_lem ws words count fuel (i + 1) (get_or ws (i + 1) 0) (AreWords-get_or ws (i + 1) words)
        (omega arith) (omega arith))
skip_lem ws words count (suc fuel) i (suc v) small ends enough =
    inr (i, suc v, count, ground arith, omega arith, small, ends, refl)

trailing_zeros-lt : (w v : ℕ) → 0 < v → v < 2 ^ w → trailing_zeros w v < w
unfolding trailing_zeros
trailing_zeros-lt zero v pos small = absurd (omega arith)
trailing_zeros-lt (suc w) v pos small = elim (Bool-cases (v % 2 == 1)) [
  | inl odd ↦ rw (odd, trailing_zeros) (omega arith)
  | inr even ↦
      rw (even, trailing_zeros)
        (omega (arith, trailing_zeros-lt w (v / 2) (ground arith) (omega (arith, pow-suc 2 w))))
]

-- A cursor of the iterator: its word, the words after it, and the qubits that it still visits.
module _ (ws : List ℕ) (words : All (λ w. w < 2 ^ 64) ws) where
  abbrev cursor : ℕ → ℕ → QubitSetIter
  cursor i v = record { words = ws; at = i; left = v }

  next_lem :
      (i v count : ℕ)
      → v < 2 ^ 64
      → i + 1 + count ≡ length ws
      → ((next (cursor i v) ≡ none) × (ones 64 (i * 64) v ++ rest count (i + 1) ws ≡ []))
        ⊎ ((q : ℕ) × (i' : ℕ) × (v' : ℕ) × (count' : ℕ) × (next (cursor i v)
              ≡ some (q, cursor i' v'))
            × (v' < 2 ^ 64)
            × (i' + 1 + count' ≡ length ws)
            × (ones 64 (i * 64) v ++ rest count (i + 1) ws
                ≡ q ∷ (ones 64 (i' * 64) v' ++ rest count' (i' + 1) ws)))
  unfolding next
  next_lem i v count small ends =
      elim (skip_lem ws words count (length ws + 1) i v small ends (omega arith)) [
        | inl (stops, nothing) ↦ inl (rw (stops, next), nothing)
        | inr (i', v', count', goes, pos, small', ends', same) ↦
            let first : bit_or (i' * 2 ^ 6) (trailing_zeros 64 v')
                ≡ i' * 64 + trailing_zeros 64 v' =
              bit_or-shift i' 6 i' (trailing_zeros 64 v') (lt-two_pow i')
                (trailing_zeros-lt 64 v' pos small') in
            inr (
              i' * 64 + trailing_zeros 64 v',
              i',
              bit_and v' (v' - 1),
              count',
              rw (goes, next, first),
              bit_and-lt 64 v' (v' - 1) small',
              ends',
              same ∙ ap (λ l. l ++ rest count' (i' + 1) ws) (ones_step 64 (i' * 64) v' pos small'),
            )
      ]

  collect_lem :
      (fuel i v count : ℕ)
      → v < 2 ^ 64
      → i + 1 + count ≡ length ws
      → length (ones 64 (i * 64) v ++ rest count (i + 1) ws) < fuel
      → collect fuel (cursor i v) ≡ ones 64 (i * 64) v ++ rest count (i + 1) ws
  unfolding collect
  collect_lem zero i v count small ends enough = absurd (omega arith)
  collect_lem (suc fuel) i v count small ends enough = elim (next_lem i v count small ends) [
    | inl (stops, nothing) ↦ rw (stops, collect) (sym nothing)
    | inr (q, i', v', count', goes, small', ends', same) ↦
        rw (goes, collect, same)
          (ap (λ l. q ∷ l)
            (collect_lem fuel i' v' count' small' ends' (omega (arith, ap length same))))
  ]

length-rest : (count i : ℕ) (ws : List ℕ) → length (rest count i ws) ≤ 64 * count
unfolding rest
length-rest zero i ws = omega arith
length-rest (suc count) i ws = omega (
  arith,
  length-append (ones 64 (i * 64) (get_or ws i 0)) (rest count (i + 1) ws),
  length-ones 64 (i * 64) (get_or ws i 0),
  length-rest count (i + 1) ws,
)

qubits_lem :
    (ws : List ℕ)
    → 1 ≤ length ws
    → All (λ w. w < 2 ^ 64) ws
    → qubits_of_words ws ≡ rest (length ws) 0 ws
unfolding qubits_of_words rest
qubits_lem [] h words = absurd (omega arith)
qubits_lem (w ∷ ws) h words =
    collect_lem (w ∷ ws) words (64 * length (w ∷ ws) + 1) 0 w (length ws) words.0 (omega arith) (
      omega (
        arith,
        length-append (ones 64 0 w) (rest (length ws) 1 (w ∷ ws)),
        length-ones 64 0 w,
        length-rest (length ws) 1 (w ∷ ws),
      ))

member-rest :
    (count i q : ℕ) (ws : List ℕ)
    → All (λ w. w < 2 ^ 64) ws
    → member q (rest count i ws) ≡ (leb (i * 64) q && (ltb q ((i + count) * 64) && holds ws q))
unfolding rest holds
member-rest zero i q ws words = ground arith
member-rest (suc count) i q ws words =
    let here = member-ones 64 (i * 64) (get_or ws i 0) q (AreWords-get_or ws i words) in
    let there = member-rest count (i + 1) q ws words in
    rw (member-append q (ones 64 (i * 64) (get_or ws i 0)) (rest count (i + 1) ws), here, there)
      (elim (Bool-cases (q / 64 == i)) [
        | inl same ↦
            let e : q / 64 ≡ i = (==_iff (q / 64) i).0 same in
            let offset : q - i * 64 ≡ q % 64 = omega arith in rw (offset, e) (ground arith)
        | inr other ↦
            ground (arith, bit_beyond 64 (get_or ws i 0) (q - i * 64) (AreWords-get_or ws i words))
      ])

-- The iterator visits exactly the qubits of the set.
pub member-qubits_of_words :
    (s : QubitSet) (q : ℕ) → IsValid s → member q (qubits_of_words s.words) ≡ contains s q
member-qubits_of_words s q v =
    rw
      (
        qubits_lem s.words v.has_word v.are_words,
        member-rest (length s.words) 0 q s.words v.are_words,
        contains-holds s q v,
      )
      (ground (arith, holds_end s.words q))

-- Strictly ascending, from a lower bound on.
abbrev pub Ascending : ℕ → List ℕ → Type 0
Ascending lo [] = Unit
Ascending lo (x ∷ xs) = (lo ≤ x) × Ascending (x + 1) xs

Ascending-mono : (lo lo' : ℕ) (xs : List ℕ) → lo' ≤ lo → Ascending lo xs → Ascending lo' xs
Ascending-mono lo lo' [] h a = tt
Ascending-mono lo lo' (x ∷ xs) h a = (omega arith, a.1)

Ascending-append :
    (lo m : ℕ) (xs ys : List ℕ)
    → lo ≤ m
    → Ascending lo xs
    → All (λ x. x < m) xs
    → Ascending m ys
    → Ascending lo (xs ++ ys)
Ascending-append lo m [] ys h a below b = Ascending-mono m lo ys h b
Ascending-append lo m (x ∷ xs) ys h a below b =
    (a.0, Ascending-append (x + 1) m xs ys (omega arith) a.1 below.1 b)

ones-Ascending :
    (w base v : ℕ) → Ascending base (ones w base v) × All (λ x. x < base + w) (ones w base v)
unfolding ones
ones-Ascending zero base v = (tt, tt)
ones-Ascending (suc w) base v =
    let (up, below) = ones-Ascending w (base + 1) (v / 2) in
    let same : base + 1 + w ≡ base + suc w = omega arith in
    let below' = subst (λ m. All (λ x. x < m) (ones w (base + 1) (v / 2))) same below in
    elim (Bool-cases (v % 2 == 1)) [
      | inl odd ↦ rw odd ((omega arith, up), (omega arith, below'))
      | inr even ↦ rw even (Ascending-mono (base + 1) base _ (omega arith) up, below')
    ]

rest-Ascending : (count i : ℕ) (ws : List ℕ) → Ascending (i * 64) (rest count i ws)
unfolding rest
rest-Ascending zero i ws = tt
rest-Ascending (suc count) i ws =
    let (up, below) = ones-Ascending 64 (i * 64) (get_or ws i 0) in
    let same : (i + 1) * 64 ≡ i * 64 + 64 = omega arith in
    Ascending-append (i * 64) (i * 64 + 64) (ones 64 (i * 64) (get_or ws i 0))
      (rest count (i + 1) ws) (omega arith) up below
      (subst (λ m. Ascending m (rest count (i + 1) ws)) same (rest-Ascending count (i + 1) ws))

pub qubits_of_words-Ascending : (s : QubitSet) → IsValid s → Ascending 0 (qubits_of_words s.words)
qubits_of_words-Ascending s v =
    rw (qubits_lem s.words v.has_word v.are_words) (rest-Ascending (length s.words) 0 s.words)

-- The iterator of a valid set yields its qubits in strictly ascending order, and exactly those.
pub iter_lem :
    (s : QubitSet)
    → IsValid s
    → Ascending 0 (qubits_of_words s.words)
      × ((q : ℕ) → member q (qubits_of_words s.words) ≡ contains s q)
iter_lem s v = (qubits_of_words-Ascending s v, λ q. member-qubits_of_words s q v)

count_ones-ones : (w base v : ℕ) → count_ones w v ≡ length (ones w base v)
unfolding count_ones ones
count_ones-ones zero base v = refl
count_ones-ones (suc w) base v = ground (arith, count_ones-ones w (base + 1) (v / 2))

sum_ones-rest :
    (before ws : List ℕ) → sum_ones ws ≡ length (rest (length ws) (length before) (before ++ ws))
unfolding sum_ones rest
sum_ones-rest before [] = refl
sum_ones-rest before (w ∷ ws) =
    let here = get_or_middle before w ws in
    let there = sum_ones-rest (before ++ (w ∷ [])) ws in
    let one_more = length-append before (w ∷ []) in
    let regroup = append_assoc before (w ∷ []) ws in
    rw (here, count_ones-ones 64 (length before * 64) w)
      (omega (
        arith,
        length-append (ones 64 (length before * 64) w)
            (rest (length ws) (length before + 1) (before ++ (w ∷ ws))),
        rw (one_more, regroup) at there,
      ))
  where
    get_or_middle : (xs : List ℕ) (w : ℕ) (ys : List ℕ) → get_or (xs ++ (w ∷ ys)) (length xs) 0 ≡ w
    get_or_middle [] w ys = refl
    get_or_middle (x ∷ xs) w ys = get_or_middle xs w ys

-- `len` of a valid set is the number of qubits that the iterator visits.
pub len-qubits_of_words : (s : QubitSet) → IsValid s → len s ≡ length (qubits_of_words s.words)
unfolding len
len-qubits_of_words s v = rw (qubits_lem s.words v.has_word v.are_words) (sum_ones-rest [] s.words)
