-- ===== src/Base/Words.antt =====
-- 64-bit words as numbers below 2 ^ 64, their bits, and the laws of `&`, `|`, `^`, `!` and `<<`
-- bit by bit, at every width.
use Prim.Native.Nat.{digits, bitwise, bit_and-bitwise, bit_or-bitwise, bit_xor-bitwise, differ}
use native.Mathlib.Nat.{pow-suc, one-le-pow}
use qblaze.Base.{
  ℕ, zero, suc, ◌+◌, ◌-◌, ◌*◌, ◌/◌, ◌%◌, ◌^◌, ◌≤◌, ◌<◌, min, max, bit_and, bit_or, bit_xor, ◌≡◌,
  refl, sym, ap, ◌∙◌, arith, ◌==◌, if◌then◌else◌, Bool, false, not, ◌&&◌, ◌||◌, xorb,
}

ended : (at_end : ℕ → ℕ) (op : ℕ → ℕ → ℕ) (fuel y : ℕ) → digits at_end op fuel 0 y ≡ at_end y
ended at_end op (suc fuel) y = refl
ended at_end op zero y = refl

-- Fuel beyond the first word changes nothing.
spare_fuel :
    (at_end : ℕ → ℕ) (op : ℕ → ℕ → ℕ) (spare n x y : ℕ)
    → x ≤ n
    → digits at_end op (n + spare) x y ≡ digits at_end op n x y
spare_fuel at_end op spare (suc n) (suc x) y within =
    let one_more : suc n + spare ≡ suc (n + spare) = omega arith in
    rw one_more (
      ap (λ (high : ℕ). high * 2 + op (suc x % 2) (y % 2))
        (spare_fuel at_end op spare n (suc x / 2) (y / 2) (omega arith)))
spare_fuel at_end op spare n zero y within =
    ended at_end op (n + spare) y ∙ sym (ended at_end op n y)
spare_fuel at_end op spare zero (suc x) y within = absurd (omega arith)

-- The lowest digit, and the rest above it.
low_digit :
    (at_end : ℕ → ℕ) (op : ℕ → ℕ → ℕ) (x y : ℕ)
    → bitwise at_end op (suc x) y
      ≡ bitwise at_end op (suc x / 2) (y / 2) * 2 + op (suc x % 2) (y % 2)
low_digit at_end op x y =
    let half = suc x / 2 in
    let split : x ≡ half + (x - half) = omega arith in
    ap (λ (high : ℕ). high * 2 + op (suc x % 2) (y % 2))
      (ap (λ (fuel : ℕ). digits at_end op fuel half (y / 2)) split
        ∙ spare_fuel at_end op (x - half) half half (y / 2) (omega arith))

pub bit_and_step : (x y : ℕ) → bit_and x y ≡ bit_and (x / 2) (y / 2) * 2 + min (x % 2) (y % 2)
bit_and_step (suc x) y = simp bit_and-bitwise (low_digit (λ rest. 0) min x y)
bit_and_step zero y = simp bit_and-bitwise (omega arith)

pub bit_or_step : (x y : ℕ) → bit_or x y ≡ bit_or (x / 2) (y / 2) * 2 + max (x % 2) (y % 2)
bit_or_step (suc x) y = simp bit_or-bitwise (low_digit (λ rest. rest) max x y)
bit_or_step zero y = simp bit_or-bitwise (omega arith)

-- Digits differ where their sum is odd.
odd_sum : (d e : ℕ) → d < 2 → e < 2 → differ d e ≡ (d + e) % 2
odd_sum (suc (suc d)) e small_d small_e = absurd (omega arith)
odd_sum d (suc (suc e)) small_d small_e = absurd (omega arith)
odd_sum zero zero small_d small_e = refl
odd_sum zero (suc zero) small_d small_e = refl
odd_sum (suc zero) zero small_d small_e = refl
odd_sum (suc zero) (suc zero) small_d small_e = refl

pub bit_xor_step : (x y : ℕ) → bit_xor x y ≡ bit_xor (x / 2) (y / 2) * 2 + (x + y) % 2
bit_xor_step (suc x) y =
    let low : differ (suc x % 2) (y % 2) ≡ (suc x + y) % 2 =
      odd_sum (suc x % 2) (y % 2) (omega arith) (omega arith) ∙ omega arith in
    simp bit_xor-bitwise (rw (← low) (low_digit (λ rest. rest) differ x y))
bit_xor_step zero y = simp bit_xor-bitwise (omega arith)

-- Bit `i` of a word.
unfoldable pub bit : ℕ → ℕ → Bool
bit x zero = x % 2 == 1
bit x (suc i) = bit (x / 2) i

pub bit-and : (a b i : ℕ) → bit (bit_and a b) i ≡ (bit a i && bit b i)
unfolding bit
bit-and a b zero = ground (arith, bit_and_step a b)
bit-and a b (suc i) =
    let half : bit_and a b / 2 ≡ bit_and (a / 2) (b / 2) = omega (arith, bit_and_step a b) in
    rw half (bit-and (a / 2) (b / 2) i)

pub bit-or : (a b i : ℕ) → bit (bit_or a b) i ≡ (bit a i || bit b i)
unfolding bit
bit-or a b zero = ground (arith, bit_or_step a b)
bit-or a b (suc i) =
    let half : bit_or a b / 2 ≡ bit_or (a / 2) (b / 2) = omega (arith, bit_or_step a b) in
    rw half (bit-or (a / 2) (b / 2) i)

pub bit-xor : (a b i : ℕ) → bit (bit_xor a b) i ≡ xorb (bit a i) (bit b i)
unfolding bit
bit-xor a b zero = ground (arith, bit_xor_step a b)
bit-xor a b (suc i) =
    let half : bit_xor a b / 2 ≡ bit_xor (a / 2) (b / 2) = omega (arith, bit_xor_step a b) in
    rw half (bit-xor (a / 2) (b / 2) i)

pub bit-zero : (i : ℕ) → bit 0 i ≡ false
unfolding bit
bit-zero zero = refl
bit-zero (suc i) = bit-zero i

-- `1 << j` has the one bit `j`.
pub bit-pow : (j i : ℕ) → bit (2 ^ j) i ≡ (j == i)
unfolding bit
bit-pow zero zero = refl
bit-pow zero (suc i) = rw (bit-zero i) (ground arith)
bit-pow (suc j) zero = ground (arith, pow-suc 2 j)
bit-pow (suc j) (suc i) =
    let half : 2 ^ suc j / 2 ≡ 2 ^ j = omega (arith, pow-suc 2 j) in
    rw half (ground (arith, bit-pow j i))

-- `!x` at width `w`.
unfoldable pub complement : ℕ → ℕ → ℕ
complement w x = 2 ^ w - 1 - x

pub complement-lt : (w x : ℕ) → complement w x < 2 ^ w
unfolding complement
complement-lt w x = omega (arith, one-le-pow w 2)

pub bit-complement : (w x i : ℕ) → x < 2 ^ w → i < w → bit (complement w x) i ≡ not (bit x i)
unfolding bit complement
bit-complement zero x i hx hi = absurd (omega arith)
bit-complement (suc w) x zero hx hi = ground (arith, pow-suc 2 w)
bit-complement (suc w) x (suc i) hx hi =
    let half : (2 ^ suc w - 1 - x) / 2 ≡ 2 ^ w - 1 - x / 2 = omega (arith, pow-suc 2 w) in
    rw half (bit-complement w (x / 2) i (omega (arith, pow-suc 2 w)) (omega arith))

-- Beyond the width of a word its bits are zero.
pub bit_beyond : (w x i : ℕ) → x < 2 ^ w → w ≤ i → bit x i ≡ false
unfolding bit
bit_beyond zero zero i hx hi = bit-zero i
bit_beyond zero (suc x) i hx hi = absurd (omega arith)
bit_beyond (suc w) x zero hx hi = absurd (omega arith)
bit_beyond (suc w) x (suc i) hx hi =
    bit_beyond w (x / 2) i (omega (arith, pow-suc 2 w)) (omega arith)

-- A word is its bits.
pub bit_ext : (w x y : ℕ) → x < 2 ^ w → y < 2 ^ w → ((i : ℕ) → bit x i ≡ bit y i) → x ≡ y
unfolding bit
bit_ext zero x y hx hy h = omega arith
bit_ext (suc w) x y hx hy h = ground (
  arith,
  h 0,
  bit_ext w (x / 2) (y / 2) (omega (arith, pow-suc 2 w)) (omega (arith, pow-suc 2 w))
      (λ i. h (suc i)),
)

-- The operations stay within the width.
pub bit_and-lt : (w a b : ℕ) → a < 2 ^ w → bit_and a b < 2 ^ w
bit_and-lt zero zero b h = omega (arith, bit_and-bitwise 0 b)
bit_and-lt zero (suc a) b h = absurd (omega arith)
bit_and-lt (suc w) a b h = omega (
  arith,
  pow-suc 2 w,
  bit_and_step a b,
  bit_and-lt w (a / 2) (b / 2) (omega (arith, pow-suc 2 w)),
)

pub bit_or-lt : (w a b : ℕ) → a < 2 ^ w → b < 2 ^ w → bit_or a b < 2 ^ w
bit_or-lt zero zero zero h k = omega arith
bit_or-lt zero a b h k = absurd (omega arith)
bit_or-lt (suc w) a b h k = omega (
  arith,
  pow-suc 2 w,
  bit_or_step a b,
  bit_or-lt w (a / 2) (b / 2) (omega (arith, pow-suc 2 w)) (omega (arith, pow-suc 2 w)),
)

pub bit_xor-lt : (w a b : ℕ) → a < 2 ^ w → b < 2 ^ w → bit_xor a b < 2 ^ w
bit_xor-lt zero zero zero h k = omega arith
bit_xor-lt zero a b h k = absurd (omega arith)
bit_xor-lt (suc w) a b h k = omega (
  arith,
  pow-suc 2 w,
  bit_xor_step a b,
  bit_xor-lt w (a / 2) (b / 2) (omega (arith, pow-suc 2 w)) (omega (arith, pow-suc 2 w)),
)

pub pow-lt : (w j : ℕ) → j < w → 2 ^ j < 2 ^ w
pow-lt zero j h = absurd (omega arith)
pow-lt (suc w) zero h = omega (arith, pow-suc 2 w, one-le-pow w 2)
pow-lt (suc w) (suc j) h = omega (arith, pow-suc 2 w, pow-suc 2 j, pow-lt w j (omega arith))

pub bit_and-zero : (w a : ℕ) → a < 2 ^ w → bit_and a 0 ≡ 0
bit_and-zero zero zero h = bit_and-bitwise 0 0
bit_and-zero zero (suc a) h = absurd (omega arith)
bit_and-zero (suc w) a h =
    omega
      (arith, pow-suc 2 w, bit_and_step a 0, bit_and-zero w (a / 2) (omega (arith, pow-suc 2 w)))

-- `v & (1 << j)` is the test of bit `j`.
pub bit_and-pow : (w v j : ℕ) → v < 2 ^ w → bit_and v (2 ^ j) ≡ (if bit v j then 2 ^ j else 0)
unfolding bit
bit_and-pow zero v j h =
    let empty : v ≡ 0 = omega arith in rw (empty, bit-zero j) (bit_and-bitwise 0 (2 ^ j))
bit_and-pow (suc w) v zero h =
    ground
      (arith, bit_and_step v 1, pow-suc 2 w, bit_and-zero w (v / 2) (omega (arith, pow-suc 2 w)))
bit_and-pow (suc w) v (suc j) h = ground (
  arith,
  bit_and_step v (2 ^ suc j),
  pow-suc 2 j,
  pow-suc 2 w,
  bit_and-pow w (v / 2) j (omega (arith, pow-suc 2 w)),
)

pub one-le-two_pow : (j : ℕ) → 1 ≤ 2 ^ j
one-le-two_pow j = one-le-pow j 2 (omega arith)

-- The Boolean test `v & (1 << j) != 0`.
pub test-bit : (w v j : ℕ) → v < 2 ^ w → not (bit_and v (2 ^ j) == 0) ≡ bit v j
test-bit w v j h = ground (arith, bit_and-pow w v j h, one-le-pow j 2)

bit_or-zero : (w a : ℕ) → a < 2 ^ w → bit_or a 0 ≡ a
bit_or-zero zero zero h = bit_or-bitwise 0 0
bit_or-zero zero (suc a) h = absurd (omega arith)
bit_or-zero (suc w) a h =
    omega (arith, pow-suc 2 w, bit_or_step a 0, bit_or-zero w (a / 2) (omega (arith, pow-suc 2 w)))

-- `(q << k) | r` of disjoint fields is their sum.
pub bit_or-shift : (w k q r : ℕ) → q < 2 ^ w → r < 2 ^ k → bit_or (q * 2 ^ k) r ≡ q * 2 ^ k + r
bit_or-shift w zero q r hq hr =
    let none_left : r ≡ 0 = omega arith in
    let one_time : q * 2 ^ 0 ≡ q = omega arith in
    rw (none_left, one_time) (omega (arith, bit_or-zero w q hq))
bit_or-shift w (suc k) q r hq hr =
    let double : q * 2 ^ suc k ≡ 2 * (q * 2 ^ k) =
      omega (arith, ap (λ (t : ℕ). q * t) (pow-suc 2 k)) in
    ground (
      arith,
      double,
      pow-suc 2 k,
      bit_or_step (q * 2 ^ suc k) r,
      bit_or-shift w k q (r / 2) hq (omega (arith, pow-suc 2 k)),
    )

pub bit_and_self : (w v : ℕ) → v < 2 ^ w → bit_and v v ≡ v
bit_and_self w v h =
    bit_ext w (bit_and v v) v (bit_and-lt w v v h) h (λ i. ground (arith, bit-and v v i))

pub lt-two_pow : (n : ℕ) → n < 2 ^ n
lt-two_pow zero = omega arith
lt-two_pow (suc n) = omega (arith, pow-suc 2 n, lt-two_pow n)

mod_digit : (a p : ℕ) → 0 < p → a % (2 * p) ≡ 2 * (a / 2 % p) + a % 2
mod_digit a p h = grind arith

-- `a & (2^k - 1)` and `a & !(2^k - 1)`: the low and the high bits.
pub bit_and-low_mask : (k a : ℕ) → bit_and a (2 ^ k - 1) ≡ a % 2 ^ k
bit_and-low_mask zero a = omega (arith, bit_and-zero a a (lt-two_pow a))
bit_and-low_mask (suc k) a = ground (
  arith,
  bit_and_step a (2 ^ suc k - 1),
  pow-suc 2 k,
  one-le-pow k 2 (omega arith),
  bit_and-low_mask k (a / 2),
  mod_digit a (2 ^ k),
)

pub bit_and-high_mask :
    (w k a : ℕ) → k ≤ w → a < 2 ^ w → bit_and a (complement w (2 ^ k - 1)) ≡ a - a % 2 ^ k
unfolding complement
bit_and-high_mask w zero a h small =
    let all_ones : 2 ^ w - 1 - (2 ^ 0 - 1) ≡ 2 ^ w - 1 = omega arith in
    rw (all_ones, bit_and-low_mask w a) (grind arith)
bit_and-high_mask zero (suc k) a h small = absurd (omega arith)
bit_and-high_mask (suc w) (suc k) a h small = ground (
  arith,
  bit_and_step a (2 ^ suc w - 1 - (2 ^ suc k - 1)),
  pow-suc 2 k,
  pow-suc 2 w,
  one-le-pow k 2 (omega arith),
  one-le-pow w 2 (omega arith),
  bit_and-high_mask w k (a / 2) (omega arith) (omega (arith, pow-suc 2 w)),
  mod_digit a (2 ^ k),
)

pub bit_xor-zero : (w a : ℕ) → a < 2 ^ w → bit_xor a 0 ≡ a
bit_xor-zero zero zero h = bit_xor-bitwise 0 0
bit_xor-zero zero (suc a) h = absurd (omega arith)
bit_xor-zero (suc w) a h =
    omega
      (arith, pow-suc 2 w, bit_xor_step a 0, bit_xor-zero w (a / 2) (omega (arith, pow-suc 2 w)))
