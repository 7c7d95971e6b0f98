-- ===== src/Complex.antt =====
-- `src/complex.rs` over an interface to its scalars: `f64` in the program, whose rounding the model
-- leaves out. Polar forms, which need trigonometric functions, and the formatting are not modelled.
pub mod Laws
use qblaze.Base.{◌≡◌}

-- The scalar operations that the code calls.
pub record Scalar : Type 1 where
  pub Value : Type 0
  pub zero : Value
  pub one : Value
  pub add : Value → Value → Value
  pub sub : Value → Value → Value
  pub mul : Value → Value → Value
  pub div : Value → Value → Value
  pub neg : Value → Value

-- Exact arithmetic of the scalars, but for division.
pub record IsExactScalar (r : Scalar) : Type 0 where
  pub add_comm : (a b : r.Value) → r.add a b ≡ r.add b a
  pub add_zero : (a : r.Value) → r.add a r.zero ≡ a
  pub add_neg : (a : r.Value) → r.add a (r.neg a) ≡ r.zero
  pub sub_neg : (a b : r.Value) → r.sub a b ≡ r.add a (r.neg b)
  pub neg_neg : (a : r.Value) → r.neg (r.neg a) ≡ a
  pub neg_add : (a b : r.Value) → r.neg (r.add a b) ≡ r.add (r.neg a) (r.neg b)
  pub mul_comm : (a b : r.Value) → r.mul a b ≡ r.mul b a
  pub mul_zero : (a : r.Value) → r.mul a r.zero ≡ r.zero
  pub mul_one : (a : r.Value) → r.mul a r.one ≡ a
  pub mul_neg : (a b : r.Value) → r.mul a (r.neg b) ≡ r.neg (r.mul a b)

module _ (r : Scalar) where
  pub record Complex : Type 0 where
    pub re : r.Value
    pub im : r.Value

  -- `from_cartesian`.
  abbrev pub cartesian : r.Value → r.Value → Complex
  cartesian a b = record { re = a; im = b }

  abbrev pub zero_complex : Complex
  zero_complex = cartesian r.zero r.zero

  abbrev pub one_complex : Complex
  one_complex = cartesian r.one r.zero

  unfoldable pub to_cartesian : Complex → r.Value × r.Value
  to_cartesian z = (z.re, z.im)

  unfoldable pub conj : Complex → Complex
  conj z = cartesian z.re (r.neg z.im)

  unfoldable pub neg_conj : Complex → Complex
  neg_conj z = cartesian (r.neg z.re) z.im

  unfoldable pub norm2 : Complex → r.Value
  norm2 z = r.add (r.mul z.re z.re) (r.mul z.im z.im)

  unfoldable pub mul_i : Complex → Complex
  mul_i z = cartesian (r.neg z.im) z.re

  unfoldable pub div_i : Complex → Complex
  div_i z = cartesian z.im (r.neg z.re)

  -- `From<f64>`.
  unfoldable pub from_real : r.Value → Complex
  from_real a = cartesian a r.zero

  unfoldable pub neg_complex : Complex → Complex
  neg_complex z = cartesian (r.neg z.re) (r.neg z.im)

  unfoldable pub add_complex : Complex → Complex → Complex
  add_complex z w = cartesian (r.add z.re w.re) (r.add z.im w.im)

  unfoldable pub real_add : r.Value → Complex → Complex
  real_add a w = cartesian (r.add a w.re) w.im

  unfoldable pub add_real : Complex → r.Value → Complex
  add_real z a = cartesian (r.add z.re a) z.im

  unfoldable pub sub_complex : Complex → Complex → Complex
  sub_complex z w = cartesian (r.sub z.re w.re) (r.sub z.im w.im)

  unfoldable pub real_sub : r.Value → Complex → Complex
  real_sub a w = cartesian (r.sub a w.re) (r.neg w.im)

  unfoldable pub sub_real : Complex → r.Value → Complex
  sub_real z a = cartesian (r.sub z.re a) z.im

  unfoldable pub real_mul : r.Value → Complex → Complex
  real_mul a w = cartesian (r.mul a w.re) (r.mul a w.im)

  unfoldable pub mul_real : Complex → r.Value → Complex
  mul_real z a = cartesian (r.mul z.re a) (r.mul z.im a)

  unfoldable pub div_real : Complex → r.Value → Complex
  div_real z a = cartesian (r.div z.re a) (r.div z.im a)

  unfoldable pub mul_complex : Complex → Complex → Complex
  mul_complex z w =
      cartesian (r.sub (r.mul z.re w.re) (r.mul z.im w.im))
        (r.add (r.mul z.re w.im) (r.mul z.im w.re))

  unfoldable pub div_complex : Complex → Complex → Complex
  unfolding mul_complex conj norm2 div_real
  div_complex z w = div_real (mul_complex z (conj w)) (norm2 w)
