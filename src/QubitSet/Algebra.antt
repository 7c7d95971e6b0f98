-- ===== src/QubitSet/Algebra.antt =====
-- `new`, `clear`, `extend` and `intersection` of `QubitSet` as operations on sets.
use qblaze.Base.{
  ℕ, suc, zero, ◌+◌, ◌/◌, ◌%◌, ◌^◌, ◌≤◌, ◌<◌, ◌≡◌, refl, ap, ◌∙◌, arith, min, bit_and, false, ◌&&◌,
  ◌||◌, List, [], ◌∷◌, length, get_or, set, All, length-set, get_or-set, get_or_end, ◌==◌,
  if◌then◌else◌, leb, ltb, Bool-cases, inl, inr, member, ==_iff,
}
use qblaze.Base.Words.{bit, bit-zero, bit-and, bit_and-lt}
use qblaze.QubitSet.{
  QubitSet, IsValid, new, contains, insert, clear, extend, intersection, and_loop, grow, zero_words,
}
use qblaze.QubitSet.Laws.{
  holds, holds_end, contains-holds, contains-insert, insert-IsValid, grow-resize, length-resize,
  AreWords-set, get_or-lt, resize-AreWords,
}

pub new-IsValid : IsValid new
unfolding new
new-IsValid = record { has_word = omega arith; are_words = (omega arith, tt) }

pub contains-new : (q : ℕ) → contains new q ≡ false
unfolding new holds
contains-new q = rw (contains-holds new q new-IsValid) (zero_word (q / 64))
  where
    zero_word : (i : ℕ) → bit (get_or (0 ∷ []) i 0) (q % 64) ≡ false
    zero_word zero = bit-zero (q % 64)
    zero_word (suc i) = bit-zero (q % 64)

length-zero_words : (ws : List ℕ) → length (zero_words ws) ≡ length ws
length-zero_words [] = refl
length-zero_words (w ∷ ws) = ap suc (length-zero_words ws)

zero_words-AreWords : (ws : List ℕ) → All (λ w. w < 2 ^ 64) (zero_words ws)
zero_words-AreWords [] = tt
zero_words-AreWords (w ∷ ws) = (omega arith, zero_words-AreWords ws)

get_or-zero_words : (ws : List ℕ) (i : ℕ) → get_or (zero_words ws) i 0 ≡ 0
get_or-zero_words [] i = refl
get_or-zero_words (w ∷ ws) zero = refl
get_or-zero_words (w ∷ ws) (suc i) = get_or-zero_words ws i

pub clear-IsValid : (s : QubitSet) → IsValid s → IsValid (clear s)
unfolding clear
clear-IsValid s v = record {
  has_word = omega (arith, length-zero_words s.words, v.has_word);
  are_words = zero_words-AreWords s.words;
}

pub contains-clear : (s : QubitSet) (q : ℕ) → IsValid s → contains (clear s) q ≡ false
unfolding clear holds
contains-clear s q v =
    rw (contains-holds (clear s) q (clear-IsValid s v), get_or-zero_words s.words (q / 64))
      (bit-zero (q % 64))

pub extend-IsValid : (s : QubitSet) (qs : List ℕ) → IsValid s → IsValid (extend s qs)
unfolding extend
extend-IsValid s [] v = v
extend-IsValid s (q ∷ qs) v = extend-IsValid (insert s q) qs (insert-IsValid s q v)

-- After `extend` a valid set holds the qubits of the list and those that it held before.
pub contains-extend :
    (s : QubitSet) (qs : List ℕ) (r : ℕ)
    → IsValid s
    → contains (extend s qs) r ≡ (member r qs || contains s r)
unfolding extend
contains-extend s [] r v = refl
contains-extend s (q ∷ qs) r v =
    ground
      (arith, contains-extend (insert s q) qs r (insert-IsValid s q v), contains-insert s q r v)

module _ (w0 w1 : List ℕ) where
  length-and_loop : (left i : ℕ) (w : List ℕ) → length (and_loop left i w0 w1 w) ≡ length w
  unfolding and_loop
  length-and_loop zero i w = refl
  length-and_loop (suc left) i w =
      length-and_loop left (i + 1) (set w i (bit_and (get_or w0 i 0) (get_or w1 i 0)))
      ∙ length-set w i (bit_and (get_or w0 i 0) (get_or w1 i 0))

  get_or-and_loop :
      (left i j : ℕ) (w : List ℕ)
      → i + left ≤ length w
      → get_or (and_loop left i w0 w1 w) j 0 ≡ (
          if leb i j && ltb j (i + left)
          then bit_and (get_or w0 j 0) (get_or w1 j 0)
          else get_or w j 0)
  unfolding and_loop
  get_or-and_loop zero i j w fits = ground arith
  get_or-and_loop (suc left) i j w fits =
      let v = bit_and (get_or w0 i 0) (get_or w1 i 0) in
      rw
        (
          get_or-and_loop left (i + 1) j (set w i v) (omega (arith, length-set w i v)),
          get_or-set w i j v 0 (omega arith),
        )
        (elim (Bool-cases (i == j)) [
          | inl same ↦ let e : i ≡ j = (==_iff i j).0 same in rw e (ground arith)
          | inr other ↦ ground arith
        ])

  and_loop-AreWords :
      (left i : ℕ) (w : List ℕ)
      → All (λ x. x < 2 ^ 64) w0
      → All (λ x. x < 2 ^ 64) w
      → All (λ x. x < 2 ^ 64) (and_loop left i w0 w1 w)
  unfolding and_loop
  and_loop-AreWords zero i w h0 h = h
  and_loop-AreWords (suc left) i w h0 h =
      and_loop-AreWords left (i + 1) (set w i (bit_and (get_or w0 i 0) (get_or w1 i 0))) h0 (
        AreWords-set w i (bit_and (get_or w0 i 0) (get_or w1 i 0)) h
          (bit_and-lt 64 (get_or w0 i 0) (get_or w1 i 0) (get_or-lt w0 i h0)))

  whole_loop :
      (n j : ℕ) (w : List ℕ)
      → length w ≡ n
      → get_or (and_loop n 0 w0 w1 w) j 0
        ≡ (if ltb j n then bit_and (get_or w0 j 0) (get_or w1 j 0) else 0)
  whole_loop n j w len =
      ground (arith, get_or-and_loop n 0 j w (omega (arith, len)), get_or_end w j 0)

-- The fresh set that `intersection` fills.
abbrev room : ℕ → List ℕ
room n = if ltb (length new.words) n then grow new.words n else new.words

room_lem : (n : ℕ) → 1 ≤ n → (length (room n) ≡ n) × All (λ x. x < 2 ^ 64) (room n)
unfolding new
room_lem n h = elim (Bool-cases (ltb 1 n)) [
  | inl many ↦
      let fits : 1 ≤ n = omega arith in
      rw (many, grow-resize (0 ∷ []) n (omega arith) (ground arith))
        (length-resize (0 ∷ []) n fits, resize-AreWords (0 ∷ []) n fits (omega arith, tt))
  | inr one ↦ rw one (ground arith, (omega arith, tt))
]

intersection-IsValid : (a b : QubitSet) → IsValid a → IsValid b → IsValid (intersection a b)
unfolding intersection
intersection-IsValid a b va vb =
    let n = min (length a.words) (length b.words) in
    let (len, words) = room_lem n (omega (arith, va.has_word, vb.has_word)) in
    record {
      has_word =
          omega
            (arith, length-and_loop a.words b.words n 0 (room n), len, va.has_word, vb.has_word);
      are_words = and_loop-AreWords a.words b.words n 0 (room n) va.are_words words;
    }

-- `intersection` of valid sets is a valid set, and holds the qubits that are in both sets.
pub contains-intersection :
    (a b : QubitSet) (q : ℕ)
    → IsValid a
    → IsValid b
    → IsValid (intersection a b) × (contains (intersection a b) q ≡ (contains a q && contains b q))
unfolding intersection holds
contains-intersection a b q va vb =
    let n = min (length a.words) (length b.words) in
    let (len, words) = room_lem n (omega (arith, va.has_word, vb.has_word)) in
    let valid = intersection-IsValid a b va vb in
    (
      valid,
      rw
          (
            contains-holds (intersection a b) q valid,
            contains-holds a q va,
            contains-holds b q vb,
            whole_loop a.words b.words n (q / 64) (room n) len,
          )
          (elim (Bool-cases (ltb (q / 64) n)) [
            | inl inside ↦ rw inside (
                ground
                  (arith, bit-and (get_or a.words (q / 64) 0) (get_or b.words (q / 64) 0) (q % 64)))
            | inr outside ↦
                rw (outside, bit-zero (q % 64))
                  (ground (arith, holds_end a.words q, holds_end b.words q))
          ]),
    )
