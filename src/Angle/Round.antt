-- ===== src/Angle/Round.antt =====
-- `Angle::round`: rounding to the grid of 2 ^ bits angles.
use native.Mathlib.Nat.{
  pow-suc, mod-eq-zero_of_dvd, dvd_of_mod-eq-zero, dvd-add, dvd-sub, dvd-mod_iff, dvd_refl,
  div-add-mod, dvd-mul_right, mod-lt, mod-le, pow-le-pow_right, dvd-mul_right_of_dvd,
}
use qblaze.Base.{
  ℕ, suc, zero, ◌+◌, ◌-◌, ◌*◌, ◌/◌, ◌%◌, ◌^◌, ◌≤◌, ◌<◌, ◌∣◌, ◌≡◌, ◌⊎◌, inl, inr, Bool, true, false,
  ◌&&◌, ◌||◌, arith, if◌then◌else◌, leb, ltb, ◌==◌, Bool-cases, ==_iff, subst, leb→le, refl,
}
use qblaze.Base.Words.{bit, test-bit, bit_and-low_mask, bit_and-high_mask, one-le-two_pow}
use qblaze.Angle.{Angle, round, add, sub, neg}
use qblaze.Angle.Group.{IsAngle}

-- The distance of two neighbours on the grid.
abbrev pub grid : ℕ → ℕ
grid bits = 2 ^ (64 - bits)

-- An angle that is a multiple of the grid's distance.
abbrev pub OnGrid : ℕ → Angle → Type 0
OnGrid bits a = IsAngle a × (a % grid bits ≡ 0)

grid_double : (bits : ℕ) → bits < 64 → (grid bits ≡ 2 * 2 ^ (63 - bits)) × (1 ≤ 2 ^ (63 - bits))
grid_double bits h =
    let more : 64 - bits ≡ suc (63 - bits) = omega arith in
    (rw more (omega (arith, pow-suc 2 (63 - bits))), one-le-two_pow (63 - bits))

pow-dvd : (d j : ℕ) → 2 ^ j ∣ 2 ^ (d + j)
pow-dvd zero j = let e : 0 + j ≡ j = omega arith in rw e (dvd_refl (2 ^ j))
pow-dvd (suc d) j =
    let e : suc d + j ≡ suc (d + j) = omega arith in
    rw (e, pow-suc 2 (d + j)) (dvd-mul_right_of_dvd (2 ^ j) (pow-dvd d j) 2)

turn-multiple : (bits : ℕ) → grid bits ∣ 2 ^ 64
turn-multiple bits =
    let e : 64 - (64 - bits) + (64 - bits) ≡ 64 = omega arith in
    rw e at (pow-dvd (64 - (64 - bits)) (64 - bits))

OnGrid-mod : (bits x : ℕ) → grid bits ∣ x → OnGrid bits (x % 2 ^ 64)
OnGrid-mod bits x h = (
  omega arith,
  mod-eq-zero_of_dvd (grid bits) ((dvd-mod_iff (grid bits) (turn-multiple bits)).1 h),
)

module _ (bits : ℕ) {a : Angle} (ha : OnGrid bits a) where
  OnGrid-dvd : grid bits ∣ a
  OnGrid-dvd = dvd_of_mod-eq-zero (grid bits) ha.1

  pub OnGrid-neg : OnGrid bits (neg a)
  unfolding neg
  OnGrid-neg = OnGrid-mod bits (2 ^ 64 - a) (dvd-sub (grid bits) (turn-multiple bits) OnGrid-dvd)

-- The angles of a grid are closed under the operators of the group.
module _ (bits : ℕ) {a b : Angle} (ha : OnGrid bits a) (hb : OnGrid bits b) where
  pub OnGrid-add : OnGrid bits (add a b)
  unfolding add
  OnGrid-add =
      OnGrid-mod bits (a + b) (dvd-add (grid bits) (OnGrid-dvd bits ha) (OnGrid-dvd bits hb))

  pub OnGrid-sub : OnGrid bits (sub a b)
  unfolding sub
  OnGrid-sub = OnGrid-mod bits (a + 2 ^ 64 - b) (
      dvd-sub (grid bits) (dvd-add (grid bits) (OnGrid-dvd bits ha) (turn-multiple bits))
        (OnGrid-dvd bits hb))

-- `round` between the two extremes, with its masks read as a quotient and a remainder.
round_value :
    (a bits : ℕ)
    → IsAngle a
    → 0 < bits
    → bits < 64
    → round a bits ≡ (
        if ltb (grid bits / 2) (a % grid bits)
          || (a % grid bits == grid bits / 2 && bit a (64 - bits))
        then (a - a % grid bits + grid bits) % 2 ^ 64
        else a - a % grid bits)
unfolding round
round_value a bits h pos small =
    let not_all : leb 64 bits ≡ false = ground arith in
    let not_none : (bits == 0) ≡ false = ground arith in
    rw (
      not_all,
      not_none,
      bit_and-low_mask (64 - bits) a,
      bit_and-high_mask 64 (64 - bits) a (omega arith) h,
      test-bit 64 a (64 - bits) h,
    )

-- An angle of the grid is not changed.
pub round_aligned : (a bits : ℕ) → OnGrid bits a → round a bits ≡ a
round_aligned a bits (h, multiple) = elim (Bool-cases (leb 64 bits)) [
  | inl all ↦ unfold round in rw all
  | inr not_all ↦ elim (Bool-cases (bits == 0)) [
    | inl none_left ↦
        let e : bits ≡ 0 = (==_iff bits 0).0 none_left in
        let nothing : a % 2 ^ (64 - 0) ≡ 0 = subst (λ n. a % 2 ^ (64 - n) ≡ 0) e multiple in
        unfold round in rw (not_all, none_left) (omega arith)
    | inr some_left ↦
        rw (round_value a bits h (ground arith) (ground arith), multiple)
          (ground (arith, grid_double bits (ground arith)))
  ]
]

OnGrid-if :
    (b : Bool) (bits x y : ℕ) → OnGrid bits x → OnGrid bits y → OnGrid bits (if b then x else y)
OnGrid-if true bits x y hx hy = hx
OnGrid-if false bits x y hx hy = hy

pub floor-dvd : (a g : ℕ) → g ∣ a - a % g
floor-dvd a g =
    let e : a - a % g ≡ g * (a / g) = omega (arith, div-add-mod a g) in
    rw e (dvd-mul_right g (a / g))

-- What `round` is at the three ranges of its precision.
round_all : (a bits : ℕ) → 64 ≤ bits → round a bits ≡ a
unfolding round
round_all a bits h = let all : leb 64 bits ≡ true = ground arith in rw all

round_none : (a : ℕ) → round a 0 ≡ 0
unfolding round
round_none a = refl

-- `round` of a 64-bit angle is a 64-bit angle, and a multiple of the distance of the grid of its
-- precision.
pub round-OnGrid : (a bits : ℕ) → IsAngle a → OnGrid bits (round a bits)
round-OnGrid a bits h = elim (Bool-cases (leb 64 bits)) [
  | inl all ↦
      let one : 64 - bits ≡ 0 = ground arith in
      rw (round_all a bits (leb→le _ _ all), one) (h, omega arith)
  | inr not_all ↦ elim (Bool-cases (bits == 0)) [
    | inl none_left ↦ rw ((==_iff bits 0).0 none_left, round_none a) (omega arith, omega arith)
    | inr some_left ↦
        let down = floor-dvd a (grid bits) in
        let near = round_value a bits h (ground arith) (ground arith) in
        let up =
          OnGrid-mod bits (a - a % grid bits + grid bits)
            (dvd-add (grid bits) down (dvd_refl (grid bits))) in
        rw near (OnGrid-if _ bits _ _ up (omega arith, mod-eq-zero_of_dvd (grid bits) down))
  ]
]

-- At every precision from 1 bit on a rounded 64-bit angle differs from the angle, around the
-- circle, by at most half of the distance of the grid.
pub round_near :
    (a bits : ℕ)
    → IsAngle a
    → 0 < bits
    → (2 * sub a (round a bits) ≤ grid bits) ⊎ (2 * sub (round a bits) a ≤ grid bits)
unfolding sub
round_near a bits h pos = elim (Bool-cases (leb 64 bits)) [
  | inl all ↦ inl (rw (round_all a bits (leb→le _ _ all)) (omega arith))
  | inr not_all ↦
      let (two, one) = grid_double bits (ground arith) in
      let below : a % grid bits < grid bits = mod-lt a (omega arith) in
      let part : a % grid bits ≤ a = mod-le a (grid bits) in
      let whole : grid bits ≤ 2 ^ 63 =
        pow-le-pow_right {n = 2} (omega arith) {i = 64 - bits} {j = 63} (ground arith) in
      elim (Bool-cases (
        ltb (grid bits / 2) (a % grid bits)
        || (a % grid bits == grid bits / 2 && bit a (64 - bits)))) [
          | inl up ↦ inr (rw (round_value a bits h pos (ground arith), up) (ground arith))
          | inr down ↦ inl (rw (round_value a bits h pos (ground arith), down) (ground arith))
        ]
]
