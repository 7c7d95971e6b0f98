-- ===== src/QubitSet/Laws.antt =====
-- Every operation of `QubitSet` against the set of qubits that the words stand for.
use qblaze.Base.{
  ℕ, suc, zero, ◌+◌, ◌-◌, ◌/◌, ◌%◌, ◌^◌, ◌≤◌, ◌<◌, ◌≡◌, refl, ap, ◌∙◌, arith, bit_and, bit_or, Bool,
  true, false, not, ◌&&◌, ◌||◌, none, some, List, [], ◌∷◌, ◌++◌, length, get_elem?, get_or, set,
  replicate, take, All, length-append, length-set, length-replicate, get_or-set, get_or_end,
  get_or-append_replicate, ◌==◌, if◌then◌else◌, leb, ltb, Bool-cases, inl, inr, ltb→lt, ==_iff, sym,
}
use qblaze.Base.Words.{
  bit, bit-zero, bit-or, bit-and, bit-pow, bit-complement, complement, test-bit,
}
use qblaze.Base.Words.{bit_or-lt, bit_and-lt, pow-lt}
use qblaze.QubitSet.{QubitSet, IsValid, contains, remove, insert, grow, resize}

-- The bit of a qubit in a list of words; words past the end count as zero.
unfoldable pub holds : List ℕ → ℕ → Bool
holds ws q = bit (get_or ws (q / 64) 0) (q % 64)

abbrev pub AreWords : List ℕ → Type 0
AreWords ws = All (λ w. w < 2 ^ 64) ws

pub get_or-lt : (ws : List ℕ) (i : ℕ) → AreWords ws → get_or ws i 0 < 2 ^ 64
get_or-lt [] i h = omega arith
get_or-lt (w ∷ ws) zero h = h.0
get_or-lt (w ∷ ws) (suc i) h = get_or-lt ws i h.1

pub get_elem?-cases :
    (ws : List ℕ) (i : ℕ)
    → get_elem? ws i ≡ (if ltb i (length ws) then some (get_or ws i 0) else none)
get_elem?-cases [] i = ground arith
get_elem?-cases (w ∷ ws) zero = ground arith
get_elem?-cases (w ∷ ws) (suc i) = ground (arith, get_elem?-cases ws i)

pub AreWords-set : (ws : List ℕ) (i v : ℕ) → AreWords ws → v < 2 ^ 64 → AreWords (set ws i v)
AreWords-set [] i v h k = tt
AreWords-set (w ∷ ws) zero v h k = (k, h.1)
AreWords-set (w ∷ ws) (suc i) v h k = (h.0, AreWords-set ws i v h.1 k)

AreWords-append : (ws vs : List ℕ) → AreWords ws → AreWords vs → AreWords (ws ++ vs)
AreWords-append [] vs h k = k
AreWords-append (w ∷ ws) vs h k = (h.0, AreWords-append ws vs h.1 k)

pub AreWords-replicate : (n : ℕ) → AreWords (replicate n 0)
AreWords-replicate zero = tt
AreWords-replicate (suc n) = (omega arith, AreWords-replicate n)

-- `contains` reads the bit of the qubit.
pub contains-holds : (s : QubitSet) (q : ℕ) → IsValid s → contains s q ≡ holds s.words q
unfolding contains holds
contains-holds s q v = ground (
  arith,
  get_elem?-cases s.words (q / 64),
  test-bit 64 (get_or s.words (q / 64) 0) (q % 64) (get_or-lt s.words (q / 64) v.are_words),
  get_or_end s.words (q / 64) 0,
  bit-zero (q % 64),
)

-- Writing one word changes the bits of that word.
pub holds-set :
    (ws : List ℕ) (i v r : ℕ)
    → i < length ws
    → holds (set ws i v) r ≡ (if i == r / 64 then bit v (r % 64) else holds ws r)
unfolding holds
holds-set ws i v r h = ground (arith, get_or-set ws i (r / 64) v 0 h)

take-all : (n : ℕ) (ws : List ℕ) → length ws ≤ n → take n ws ≡ ws
take-all zero [] h = refl
take-all zero (w ∷ ws) h = absurd (omega arith)
take-all (suc n) [] h = refl
take-all (suc n) (w ∷ ws) h = ap (◌∷◌ w) (take-all n ws (omega arith))

-- The write of one bit, as a change of one qubit.
pub holds-bit_or :
    (ws : List ℕ) (q r : ℕ)
    → q / 64 < length ws
    → holds (set ws (q / 64) (bit_or (get_or ws (q / 64) 0) (2 ^ (q % 64)))) r
      ≡ (q == r || holds ws r)
unfolding holds
holds-bit_or ws q r h = ground (
  arith,
  holds-set ws (q / 64) (bit_or (get_or ws (q / 64) 0) (2 ^ (q % 64))) r h,
  bit-or (get_or ws (q / 64) 0) (2 ^ (q % 64)) (r % 64),
  bit-pow (q % 64) (r % 64),
)

pub holds-bit_and :
    (ws : List ℕ) (q r : ℕ)
    → q / 64 < length ws
    → holds (set ws (q / 64) (bit_and (get_or ws (q / 64) 0) (complement 64 (2 ^ (q % 64))))) r
      ≡ (not (q == r) && holds ws r)
unfolding holds
holds-bit_and ws q r h = ground (
  arith,
  holds-set ws (q / 64) (bit_and (get_or ws (q / 64) 0) (complement 64 (2 ^ (q % 64)))) r h,
  bit-and (get_or ws (q / 64) 0) (complement 64 (2 ^ (q % 64))) (r % 64),
  bit-complement 64 (2 ^ (q % 64)) (r % 64) (pow-lt 64 (q % 64) (omega arith)) (omega arith),
  bit-pow (q % 64) (r % 64),
)

holds-resize : (ws : List ℕ) (n r : ℕ) → length ws ≤ n → holds (resize ws n) r ≡ holds ws r
unfolding holds
holds-resize ws n r h =
    rw (take-all n ws h) (rw (get_or-append_replicate ws (n - length ws) (r / 64) 0) refl)

pub length-resize : (ws : List ℕ) (n : ℕ) → length ws ≤ n → length (resize ws n) ≡ n
length-resize ws n h = rw (take-all n ws h) (
    omega (
      arith,
      length-append ws (replicate (n - length ws) 0),
      length-replicate {A = ℕ} (n - length ws) 0,
    ))

pub resize-AreWords : (ws : List ℕ) (n : ℕ) → length ws ≤ n → AreWords ws → AreWords (resize ws n)
resize-AreWords ws n h words =
    rw (take-all n ws h)
      (AreWords-append ws (replicate (n - length ws) 0) words (AreWords-replicate _))

pub grow-resize : (ws : List ℕ) (n : ℕ) → 1 ≤ length ws → 2 ≤ n → grow ws n ≡ resize ws n
unfolding grow
grow-resize [] n h k = absurd (omega arith)
grow-resize (v ∷ []) zero h k = absurd (omega arith)
grow-resize (v ∷ []) (suc n) h k =
    let one_less : suc n - 1 ≡ n = omega arith in rw (take-all n [] (omega arith), one_less)
grow-resize (v ∷ w ∷ ws) n h k = refl

contains_ne :
    (s : QubitSet) (q r : ℕ) → contains s q ≡ false → contains s r ≡ (not (q == r) && contains s r)
contains_ne s q r h = elim (Bool-cases (q == r)) [
  | inl same ↦ let e : q ≡ r = (==_iff q r).0 same in rw (same) (rw e at h)
  | inr other ↦ rw other
]

-- The words that `insert` writes into reach the word of the qubit and hold the same qubits.
abbrev room : List ℕ → ℕ → List ℕ
room ws i = if leb (length ws) i then grow ws (i + 1) else ws

room_lem :
    (ws : List ℕ) (i : ℕ)
    → 1 ≤ length ws
    → AreWords ws
    → (i < length (room ws i))
      × (1 ≤ length (room ws i))
      × AreWords (room ws i)
      × ((r : ℕ) → holds (room ws i) r ≡ holds ws r)
room_lem ws i h words = elim (Bool-cases (leb (length ws) i)) [
  | inl short ↦
      let fits : length ws ≤ i + 1 = ground arith in
      rw (short, grow-resize ws (i + 1) h (ground arith))
        (
          omega (arith, length-resize ws (i + 1) fits),
          omega (arith, length-resize ws (i + 1) fits),
          resize-AreWords ws (i + 1) fits words,
          λ r. holds-resize ws (i + 1) r fits,
        )
  | inr long ↦ rw long (ground arith, h, words, λ r. refl)
]

pub insert-IsValid : (s : QubitSet) (q : ℕ) → IsValid s → IsValid (insert s q)
unfolding insert
insert-IsValid s q v =
    let (inside, positive, words, same) = room_lem s.words (q / 64) v.has_word v.are_words in
    let ws = room s.words (q / 64) in
    let w = bit_or (get_or ws (q / 64) 0) (2 ^ (q % 64)) in
    let small : w < 2 ^ 64 =
      bit_or-lt 64 (get_or ws (q / 64) 0) (2 ^ (q % 64)) (get_or-lt ws (q / 64) words)
        (pow-lt 64 (q % 64) (omega arith)) in
    record {
      has_word = omega (arith, length-set ws (q / 64) w);
      are_words = AreWords-set ws (q / 64) w words small;
    }

-- After `insert` of a qubit a valid set holds that qubit and those that it held before.
pub contains-insert :
    (s : QubitSet) (q r : ℕ) → IsValid s → contains (insert s q) r ≡ (q == r || contains s r)
unfolding insert
contains-insert s q r v =
    let (inside, positive, words, same) = room_lem s.words (q / 64) v.has_word v.are_words in
    rw (contains-holds (insert s q) r (insert-IsValid s q v), contains-holds s r v)
      (holds-bit_or (room s.words (q / 64)) q r inside ∙ ap (λ b. q == r || b) (same r))

abbrev cleared : QubitSet → ℕ → QubitSet
cleared s q = record {
  words = set s.words (q / 64) (bit_and (get_or s.words (q / 64) 0) (complement 64 (2 ^ (q % 64))));
}

remove_inside :
    (s : QubitSet) (q : ℕ)
    → IsValid s
    → ltb (q / 64) (length s.words) ≡ true
    → remove s q ≡ (cleared s q, contains s q)
unfolding remove contains
remove_inside s q v h =
    let found : get_elem? s.words (q / 64) ≡ some (get_or s.words (q / 64) 0) =
      ground (arith, get_elem?-cases s.words (q / 64)) in
    rw (found, remove, contains)

remove_outside :
    (s : QubitSet) (q : ℕ)
    → ltb (q / 64) (length s.words) ≡ false
    → (remove s q ≡ (s, false)) × (contains s q ≡ false)
unfolding remove contains
remove_outside s q h =
    let missing : get_elem? s.words (q / 64) ≡ none =
      ground (arith, get_elem?-cases s.words (q / 64)) in
    (rw (missing, remove), rw (missing, contains))

pub remove-IsValid : (s : QubitSet) (q : ℕ) → IsValid s → IsValid (remove s q).0
remove-IsValid s q v = elim (Bool-cases (ltb (q / 64) (length s.words))) [
  | inl inside ↦
      let w = bit_and (get_or s.words (q / 64) 0) (complement 64 (2 ^ (q % 64))) in
      let small : w < 2 ^ 64 =
        bit_and-lt 64 (get_or s.words (q / 64) 0) (complement 64 (2 ^ (q % 64)))
          (get_or-lt s.words (q / 64) v.are_words) in
      rw (remove_inside s q v inside) (record {
        has_word = omega (arith, length-set s.words (q / 64) w, v.has_word);
        are_words = AreWords-set s.words (q / 64) w v.are_words small;
      })
  | inr outside ↦ rw ((remove_outside s q outside).0) v
]

-- `remove` takes the qubit out of a valid set, leaves every other qubit as it was, and tells
-- whether it was there.
pub contains-remove :
    (s : QubitSet) (q r : ℕ)
    → IsValid s
    → (contains (remove s q).0 r ≡ (not (q == r) && contains s r)) × ((remove s q).1 ≡ contains s q)
contains-remove s q r v = elim (Bool-cases (ltb (q / 64) (length s.words))) [
  | inl inside ↦
      let valid : IsValid (cleared s q) =
        rw (remove_inside s q v inside) at (remove-IsValid s q v) in
      rw (remove_inside s q v inside) (
        rw (contains-holds (cleared s q) r valid, contains-holds s r v)
            (holds-bit_and s.words q r (ltb→lt _ _ inside)),
        refl,
      )
  | inr outside ↦
      let missing : contains s q ≡ false = (remove_outside s q outside).1 in
      rw ((remove_outside s q outside).0) (contains_ne s q r missing, sym missing)
]

-- A qubit past the last word is not in the set.
pub holds_end : (ws : List ℕ) (q : ℕ) → length ws ≤ q / 64 → holds ws q ≡ false
unfolding holds
holds_end ws q h = rw (get_or_end ws (q / 64) 0 h) (bit-zero (q % 64))
