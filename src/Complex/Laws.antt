-- ===== src/Complex/Laws.antt =====
-- The operators of `Complex` in exact arithmetic.
use qblaze.Base.{◌≡◌, refl, sym, ap, ap₂, ◌∙◌}
use qblaze.Complex.{
  Scalar, IsExactScalar, Complex, cartesian, conj, norm2, mul_i, div_i, from_real, neg_complex,
  add_complex, sub_complex, real_add, add_real, real_sub, sub_real, real_mul, mul_real, mul_complex,
}

module _ (r : Scalar) (exact : IsExactScalar r) where
  zero_add : (a : r.Value) → r.add r.zero a ≡ a
  zero_add a = exact.add_comm r.zero a ∙ exact.add_zero a

  zero_mul : (a : r.Value) → r.mul r.zero a ≡ r.zero
  zero_mul a = exact.mul_comm r.zero a ∙ exact.mul_zero a

  one_mul : (a : r.Value) → r.mul r.one a ≡ a
  one_mul a = exact.mul_comm r.one a ∙ exact.mul_one a

  neg_mul : (a b : r.Value) → r.mul (r.neg a) b ≡ r.neg (r.mul a b)
  neg_mul a b = exact.mul_comm (r.neg a) b ∙ exact.mul_neg b a ∙ ap r.neg (exact.mul_comm b a)

  neg_zero : r.neg r.zero ≡ r.zero
  neg_zero = sym (zero_add (r.neg r.zero)) ∙ exact.add_neg r.zero

  sub_zero : (a : r.Value) → r.sub a r.zero ≡ a
  sub_zero a = exact.sub_neg a r.zero ∙ ap (r.add a) neg_zero ∙ exact.add_zero a

  complex_ext : (z w : Complex r) → z.re ≡ w.re → z.im ≡ w.im → z ≡ w
  complex_ext z w h k = λ i. record { re = h i; im = k i }

  mul-conj : (z : Complex r) → mul_complex r z (conj r z) ≡ from_real r (norm2 r z)
  unfolding mul_complex conj from_real norm2
  mul-conj z =
      complex_ext _ _
        (exact.sub_neg _ _
          ∙ ap (λ a. r.add (r.mul z.re z.re) (r.neg a)) (exact.mul_neg z.im z.im)
          ∙ ap (r.add (r.mul z.re z.re)) (exact.neg_neg (r.mul z.im z.im)))
        (ap (λ a. r.add a (r.mul z.im z.re)) (exact.mul_neg z.re z.im)
          ∙ exact.add_comm _ _
          ∙ ap (λ a. r.add a (r.neg (r.mul z.re z.im))) (exact.mul_comm z.im z.re)
          ∙ exact.add_neg (r.mul z.re z.im))

  mul-i : (z : Complex r) → mul_complex r z (cartesian r r.zero r.one) ≡ mul_i r z
  unfolding mul_complex mul_i
  mul-i z =
      complex_ext _ _
        (exact.sub_neg _ _
          ∙ ap₂ r.add (exact.mul_zero z.re) (ap r.neg (exact.mul_one z.im))
          ∙ zero_add (r.neg z.im))
        (ap₂ r.add (exact.mul_one z.re) (exact.mul_zero z.im) ∙ exact.add_zero z.re)

  mul_commutes : (z w : Complex r) → mul_complex r z w ≡ mul_complex r w z
  unfolding mul_complex
  mul_commutes z w =
      complex_ext _ _ (ap₂ r.sub (exact.mul_comm z.re w.re) (exact.mul_comm z.im w.im))
        (exact.add_comm _ _ ∙ ap₂ r.add (exact.mul_comm z.im w.re) (exact.mul_comm z.re w.im))

  conj-mul : (z w : Complex r) → conj r (mul_complex r z w) ≡ mul_complex r (conj r z) (conj r w)
  unfolding mul_complex conj
  conj-mul z w =
      complex_ext _ _
        (ap (r.sub (r.mul z.re w.re)) (
          sym (
            exact.mul_neg (r.neg z.im) w.im
            ∙ ap r.neg (neg_mul z.im w.im)
            ∙ exact.neg_neg (r.mul z.im w.im))))
        (exact.neg_add _ _ ∙ ap₂ r.add (sym (exact.mul_neg z.re w.im)) (sym (neg_mul z.im w.re)))

  -- In exact arithmetic the product of complex numbers commutes, conjugation passes through it and
  -- a number times its conjugate is `norm2`; `mul_i` is the product with the imaginary unit, twice
  -- it is the negative, and `div_i` undoes it; `-` adds the negative.
  pub product_laws :
      (z w : Complex r)
      → (mul_complex r z w ≡ mul_complex r w z)
        × (conj r (mul_complex r z w) ≡ mul_complex r (conj r z) (conj r w))
        × (mul_complex r z (conj r z) ≡ from_real r (norm2 r z))
        × (mul_complex r z (cartesian r r.zero r.one) ≡ mul_i r z)
        × (mul_i r (mul_i r z) ≡ neg_complex r z)
        × (div_i r (mul_i r z) ≡ z)
        × (sub_complex r z w ≡ add_complex r z (neg_complex r w))
  unfolding mul_i div_i neg_complex sub_complex add_complex
  product_laws z w = (
    mul_commutes z w,
    conj-mul z w,
    mul-conj z,
    mul-i z,
    refl,
    complex_ext _ _ refl (exact.neg_neg z.im),
    complex_ext _ _ (exact.sub_neg z.re w.re) (exact.sub_neg z.im w.im),
  )

  -- In exact arithmetic the mixed operators with a real number are the complex ones with the
  -- number made complex.
  pub mixed_laws :
      (a : r.Value) (z : Complex r)
      → (real_add r a z ≡ add_complex r (from_real r a) z)
        × (add_real r z a ≡ add_complex r z (from_real r a))
        × (real_sub r a z ≡ sub_complex r (from_real r a) z)
        × (sub_real r z a ≡ sub_complex r z (from_real r a))
        × (real_mul r a z ≡ mul_complex r (from_real r a) z)
        × (mul_real r z a ≡ mul_complex r z (from_real r a))
  unfolding real_add add_real real_sub sub_real real_mul mul_real add_complex sub_complex
      mul_complex from_real
  mixed_laws a z = (
    complex_ext _ _ refl (sym (zero_add z.im)),
    complex_ext _ _ refl (sym (exact.add_zero z.im)),
    complex_ext _ _ refl (sym (exact.sub_neg r.zero z.im ∙ zero_add (r.neg z.im))),
    complex_ext _ _ refl (sym (sub_zero z.im)),
    complex_ext _ _ (sym (ap (r.sub (r.mul a z.re)) (zero_mul z.im) ∙ sub_zero (r.mul a z.re)))
        (sym (ap (r.add (r.mul a z.im)) (zero_mul z.re) ∙ exact.add_zero (r.mul a z.im))),
    complex_ext _ _
        (sym (ap (r.sub (r.mul z.re a)) (exact.mul_zero z.im) ∙ sub_zero (r.mul z.re a)))
        (sym (ap (λ b. r.add b (r.mul z.im a)) (exact.mul_zero z.re) ∙ zero_add (r.mul z.im a))),
  )
