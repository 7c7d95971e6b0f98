-- ===== src/Angle.antt =====
-- `src/angle.rs`: an angle is a 64-bit fraction of a turn, added with wrap-around. The conversions
-- from and to `f64` are outside the model.
pub mod Group
pub mod Round
pub mod Mid
use qblaze.Base.{
  ℕ, suc, zero, ◌+◌, ◌-◌, ◌*◌, ◌/◌, ◌%◌, ◌^◌, bit_and, Bool, true, false, not, ◌&&◌, ◌||◌, ltb, leb,
  ◌==◌, if◌then◌else◌,
}
use qblaze.Base.Words.{complement}

abbrev pub Angle : Type 0
Angle = ℕ

abbrev pub zero_angle : Angle
zero_angle = 0

abbrev pub pi_1_4 : Angle
pi_1_4 = 0x2000000000000000

abbrev pub pi_1_2 : Angle
pi_1_2 = 0x4000000000000000

abbrev pub pi_3_4 : Angle
pi_3_4 = 0x6000000000000000

abbrev pub pi : Angle
pi = 0x8000000000000000

abbrev pub pi_5_4 : Angle
pi_5_4 = 0xa000000000000000

abbrev pub pi_3_2 : Angle
pi_3_2 = 0xc000000000000000

abbrev pub pi_7_4 : Angle
pi_7_4 = 0xe000000000000000

-- `wrapping_neg`, `wrapping_add` and `wrapping_sub` of `u64`.
unfoldable pub neg : Angle → Angle
neg a = (2 ^ 64 - a) % 2 ^ 64

unfoldable pub add : Angle → Angle → Angle
add a b = (a + b) % 2 ^ 64

unfoldable pub sub : Angle → Angle → Angle
sub a b = (a + 2 ^ 64 - b) % 2 ^ 64

-- Keeps `bits` leading bits, ties to even.
unfoldable pub round : Angle → ℕ → Angle
round a bits =
    if leb 64 bits
    then a
    else if bits == 0
    then zero_angle
    else (let next = 2 ^ (64 - bits) in
        let mask = next - 1 in
        let half = next / 2 in
        let low = bit_and a mask in
        let r = bit_and a (complement 64 mask) in
        if ltb half low || (low == half && not (bit_and a next == 0))
        then (r + next) % 2 ^ 64
        else r)

unfoldable pub is_negative : Angle → Bool
is_negative a = ltb pi a

unfoldable pub unsigned_gt : Angle → Angle → Bool
unsigned_gt a b = ltb b a

unfoldable pub signed_gt : Angle → Angle → Bool
signed_gt a b = ltb ((b + (pi - 1)) % 2 ^ 64) ((a + (pi - 1)) % 2 ^ 64)

-- `(x as i64 >> 1) as u64`: the arithmetic shift keeps the sign bit.
abbrev pub shift_right_signed : ℕ → ℕ
shift_right_signed x = x / 2 + (if leb (2 ^ 63) x then 2 ^ 63 else 0)

unfoldable pub mid : Angle → Angle → Angle
unfolding sub
mid a b =
    let diff = sub a b in
    ((a + shift_right_signed diff) % 2 ^ 64 + bit_and (bit_and a diff) 1) % 2 ^ 64
