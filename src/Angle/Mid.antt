-- ===== src/Angle/Mid.antt =====
-- `Angle::mid`.
use qblaze.Base.{ℕ, ◌+◌, ◌-◌, ◌*◌, ◌/◌, ◌%◌, ◌^◌, ◌<◌, ◌≡◌, bit_and, min, arith, if◌then◌else◌, leb}
use qblaze.Base.Words.{bit_and_step, bit_and-low_mask}
use qblaze.Angle.{Angle, mid, add, sub}
use qblaze.Angle.Group.{IsAngle}

-- `x & y & 1` is the product of the lowest bits.
low_and : (x y : ℕ) → bit_and (bit_and x y) 1 ≡ min (x % 2) (y % 2)
low_and x y = omega (arith, bit_and-low_mask 1 (bit_and x y), bit_and_step x y)

mid_value :
    (a b : Angle)
    → mid a b
      ≡ ((a + (sub a b / 2 + (if leb (2 ^ 63) (sub a b) then 2 ^ 63 else 0))) % 2 ^ 64
          + min (a % 2) (sub a b % 2))
        % 2 ^ 64
unfolding mid
mid_value a b = rw (low_and a (sub a b))

-- The middle of an angle and itself is that angle.
pub mid_self : (a : Angle) → IsAngle a → mid a a ≡ a
mid_self a h =
    let none_between : sub a a ≡ 0 = unfold sub in omega arith in
    rw (mid_value a a, none_between) (ground arith)

-- On 64-bit values `mid` adds half of `a - b` to `a`, so it does not lie between its arguments: at
-- an even distance `2 * d` below half a turn it returns the angle `d` before the first, away from
-- the second.
pub mid_extrapolates :
    (a d : ℕ)
    → IsAngle a
    → 2 * d < 2 ^ 63
    → (mid a (add a (2 * d)) ≡ sub a d) × (mid a (sub a (2 * d)) ≡ add a d)
mid_extrapolates a d ha hd = (ahead, behind)
  where
    ahead : mid a (add a (2 * d)) ≡ sub a d
    ahead =
        let back : sub a (add a (2 * d)) ≡ (2 ^ 64 - 2 * d) % 2 ^ 64 =
          unfold sub add in omega arith in
        rw (mid_value a (add a (2 * d)), back) (unfold sub in ground arith)

    behind : mid a (sub a (2 * d)) ≡ add a d
    behind =
        let back : sub a (sub a (2 * d)) ≡ 2 * d = unfold sub in omega arith in
        rw (mid_value a (sub a (2 * d)), back) (unfold add in ground arith)
