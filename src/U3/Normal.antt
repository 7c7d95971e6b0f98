-- ===== src/U3/Normal.antt =====
-- The normal form of the gates of `src/u3.rs`, and the adjoint.
use qblaze.Base.{
  ◌≡◌, ◌≤◌, ◌<◌, ◌^◌, inl, inr, refl, ◌∙◌, arith, true, false, ltb, ◌==◌, ==_iff, Bool-cases,
}
use qblaze.Angle.{Angle, zero_angle, pi, add, sub, neg, is_negative}
use qblaze.U3.{U3, normalized, adjoint, IsNormal}

pub normalized-IsNormal :
    (theta phi lambda : Angle)
    → theta < 2 ^ 64
    → phi < 2 ^ 64
    → lambda < 2 ^ 64
    → IsNormal (normalized theta phi lambda)
unfolding normalized add sub neg is_negative
normalized-IsNormal theta phi lambda h0 h1 h2 = elim (Bool-cases (theta == zero_angle)) [
  | inl zero ↦ rw zero (record {
    theta-le = ground arith;
    phi-lt = omega arith;
    lambda-lt = omega arith;
    poles = λ e. refl;
  })
  | inr turned ↦ elim (Bool-cases (theta == pi)) [
    | inl half ↦
        rw (turned, half)
          (record {
            theta-le = ground arith;
            phi-lt = omega arith;
            lambda-lt = omega arith;
            poles = λ e. refl;
          })
    | inr inside ↦ elim (Bool-cases (ltb pi theta)) [
      | inl negative ↦
          rw (turned, inside, negative)
            (record {
              theta-le = ground arith;
              phi-lt = omega arith;
              lambda-lt = omega arith;
              poles = λ e. absurd (ground arith);
            })
      | inr positive ↦
          rw (turned, inside, positive)
            (record {
              theta-le = ground arith;
              phi-lt = omega arith;
              lambda-lt = omega arith;
              poles = λ e. absurd (ground arith);
            })
    ]
  ]
]

pub u3_eq :
    {theta theta' phi phi' lambda lambda' : Angle}
    → theta ≡ theta'
    → phi ≡ phi'
    → lambda ≡ lambda'
    → ◌≡◌ {A = U3}
        (record { theta = theta; phi = phi; lambda = lambda })
        (record { theta = theta'; phi = phi'; lambda = lambda' })
u3_eq e0 e1 e2 = λ i. record { theta = e0 i; phi = e1 i; lambda = e2 i }

neg-lt : (a : Angle) → neg a < 2 ^ 64
unfolding neg
neg-lt a = omega arith

add-lt : (a b : Angle) → add a b < 2 ^ 64
unfolding add
add-lt a b = omega arith

pub adjoint-IsNormal : (g : U3) → IsNormal (adjoint g)
unfolding adjoint
adjoint-IsNormal g =
    normalized-IsNormal (neg g.theta) (neg g.lambda) (neg g.phi) (neg-lt g.theta) (neg-lt g.lambda)
      (neg-lt g.phi)

-- A normal gate is unchanged by `normalized`.
pub normalized_self : (g : U3) → IsNormal g → normalized g.theta g.phi g.lambda ≡ g
unfolding normalized add sub is_negative
normalized_self g v = elim (Bool-cases (g.theta == zero_angle)) [
  | inl zero ↦
      let e = v.poles (inl ((==_iff _ _).0 zero)) in
      rw (zero, e) (u3_eq (omega arith) (omega (arith, v.phi-lt)) refl)
  | inr turned ↦ elim (Bool-cases (g.theta == pi)) [
    | inl half ↦
        let e = v.poles (inr ((==_iff _ _).0 half)) in
        rw (turned, half, e) (u3_eq (omega arith) (omega (arith, v.phi-lt)) refl)
    | inr inside ↦
        let positive : ltb pi g.theta ≡ false = ground (arith, v.theta-le) in
        rw (turned, inside, positive) refl
  ]
]

-- The angle of a normal gate is at a pole or between them.
pub data Latitude (theta : Angle) : Type 0 where
  north : theta ≡ zero_angle → Latitude theta
  south : theta ≡ pi → Latitude theta
  between : 0 < theta → theta < pi → Latitude theta

pub latitude : (theta : Angle) → theta ≤ pi → Latitude theta
latitude theta h = elim (Bool-cases (theta == zero_angle)) [
  | inl zero ↦ north ((==_iff _ _).0 zero)
  | inr turned ↦ elim (Bool-cases (theta == pi)) [
    | inl half ↦ south ((==_iff _ _).0 half)
    | inr inside ↦ between (ground arith) (ground arith)
  ]
]

pub normalized-between :
    (theta phi lambda : Angle)
    → 0 < theta
    → theta < pi
    → normalized theta phi lambda ≡ record { theta = theta; phi = phi; lambda = lambda }
unfolding normalized is_negative
normalized-between theta phi lambda h0 h1 =
    let e0 : theta == zero_angle ≡ false = ground arith in
    let e1 : theta == pi ≡ false = ground arith in
    let e2 : ltb pi theta ≡ false = ground arith in rw (e0, e1, e2) refl

pub normalized-negative :
    (theta phi lambda : Angle)
    → pi < theta
    → normalized theta phi lambda
      ≡ record { theta = neg theta; phi = add phi pi; lambda = add lambda pi }
unfolding normalized is_negative
normalized-negative theta phi lambda h =
    let e0 : theta == zero_angle ≡ false = ground arith in
    let e1 : theta == pi ≡ false = ground arith in
    let e2 : ltb pi theta ≡ true = ground arith in rw (e0, e1, e2) refl

-- The adjoint at the poles, and between them.
pub adjoint-between :
    (g : U3)
    → 0 < g.theta
    → g.theta < pi
    → adjoint g
      ≡ record { theta = g.theta; phi = add (neg g.lambda) pi; lambda = add (neg g.phi) pi }
unfolding adjoint neg
adjoint-between g h0 h1 =
    normalized-negative (neg g.theta) (neg g.lambda) (neg g.phi) (omega arith)
    ∙ u3_eq (omega arith) refl refl

pub adjoint-north :
    (phi : Angle)
    → phi < 2 ^ 64
    → adjoint (record { theta = zero_angle; phi = phi; lambda = zero_angle })
      ≡ record { theta = zero_angle; phi = neg phi; lambda = zero_angle }
unfolding adjoint normalized neg add
adjoint-north phi h = u3_eq refl (omega arith) refl

pub adjoint-south :
    (phi : Angle)
    → phi < 2 ^ 64
    → adjoint (record { theta = pi; phi = phi; lambda = zero_angle })
      ≡ record { theta = pi; phi = phi; lambda = zero_angle }
unfolding adjoint normalized neg sub
adjoint-south phi h = u3_eq refl (omega arith) refl
