-- ===== src/Angle/Group.antt =====
-- Angles form a commutative group under `+`, and the comparisons order them as integers.
use qblaze.Base.{ℕ, ◌+◌, ◌-◌, ◌^◌, ◌<◌, ◌≡◌, ◌↔◌, true, arith, leb, if◌then◌else◌}
use qblaze.Angle.{Angle, zero_angle, pi, neg, add, sub, is_negative, signed_gt}

abbrev pub IsAngle : Angle → Type 0
IsAngle a = a < 2 ^ 64

pub add-lt : (a b : Angle) → IsAngle (add a b)
unfolding add
add-lt a b = omega arith

pub sub-lt : (a b : Angle) → IsAngle (sub a b)
unfolding sub
sub-lt a b = omega arith

pub neg-lt : (a : Angle) → IsAngle (neg a)
unfolding neg
neg-lt a = omega arith

pub add_comm : (a b : Angle) → add a b ≡ add b a
unfolding add
add_comm a b = omega arith

pub add_assoc : (a b c : Angle) → add (add a b) c ≡ add a (add b c)
unfolding add
add_assoc a b c = omega arith

pub zero-add : (a : Angle) → IsAngle a → add 0 a ≡ a
unfolding add
zero-add a h = omega arith

pub add-zero : (a : Angle) → IsAngle a → add a 0 ≡ a
unfolding add
add-zero a h = omega arith

pub add-neg : (a : Angle) → IsAngle a → add a (neg a) ≡ 0
unfolding add neg
add-neg a h = omega arith

pub sub-add-neg : (a b : Angle) → IsAngle b → sub a b ≡ add a (neg b)
unfolding sub add neg
sub-add-neg a b h = omega arith

pub sub-eq_zero : (a b : Angle) → IsAngle a → IsAngle b → sub a b ≡ 0 → a ≡ b
unfolding sub
sub-eq_zero a b ha hb h = omega arith

pub sub-add : (a b : Angle) → IsAngle a → IsAngle b → add b (sub a b) ≡ a
unfolding sub add
sub-add a b ha hb = omega arith

-- On 64-bit values the operators of `Angle` are those of a commutative group: sums stay in range,
-- associate and commute, zero is neutral, and `-` is the sum with the inverse.
pub group_laws :
    (a b c : Angle)
    → IsAngle a
    → IsAngle b
    → IsAngle (add a b)
      × (add (add a b) c ≡ add a (add b c))
      × (add a b ≡ add b a)
      × (add zero_angle a ≡ a)
      × (add a (neg a) ≡ zero_angle)
      × (sub a b ≡ add a (neg b))
      × (add b (sub a b) ≡ a)
group_laws a b c ha hb = (
  add-lt a b,
  add_assoc a b c,
  add_comm a b,
  zero-add a ha,
  add-neg a ha,
  sub-add-neg a b hb,
  sub-add a b ha hb,
)

-- The number of 2^-64 turns that an angle stands for, in (-2^63, 2^63], with 2^63 added.
pub offset : Angle → ℕ
offset a = if leb a pi then a + 2 ^ 63 else a - 2 ^ 63

-- On 64-bit values `signed_gt` compares the angles as numbers in (-pi, pi], and `is_negative`
-- tells those below zero.
pub signed_gt_iff :
    (a b : Angle)
    → IsAngle a
    → IsAngle b
    → ((signed_gt a b ≡ true) ↔ (offset b < offset a))
      × ((is_negative a ≡ true) ↔ (offset a < 2 ^ 63))
unfolding signed_gt offset is_negative
signed_gt_iff a b ha hb = (ground arith, ground arith)
