-- ===== src/U3/Compose.antt =====
-- `compose` of `src/u3.rs`: the identity, the inverses and the normal form.
use qblaze.Base.{
  ◌≡◌, ◌≤◌, ◌<◌, ◌^◌, inl, inr, refl, sym, ap, ap₂, ◌∙◌, arith, Bool, true, false, ◌&&◌,
  if◌then◌else◌, ◌==◌, ==_iff, Bool-cases,
}
use qblaze.Angle.{Angle, zero_angle, pi, pi_1_2, add, sub, neg}
use qblaze.U3.{U3, u3_i, normalized, ry, adjoint, IsNormal, from_yzy, compose}
use qblaze.U3.Normal.{
  normalized-IsNormal, adjoint-IsNormal, u3_eq, Latitude, north, south, between, latitude,
  normalized-between, normalized-negative, adjoint-between, adjoint-north, adjoint-south,
}

-- The gate at a pole has one angle.
pole_eq :
    (g : U3) (theta : Angle)
    → g.theta ≡ theta
    → g.lambda ≡ zero_angle
    → g ≡ record { theta = theta; phi = g.phi; lambda = zero_angle }
pole_eq g theta e0 e1 = u3_eq e0 refl e1

pub adjoint-adjoint : (g : U3) → IsNormal g → adjoint (adjoint g) ≡ g
unfolding add neg
adjoint-adjoint g v = elim (latitude g.theta v.theta-le) [
  | north e ↦
      let g' = pole_eq g zero_angle e (v.poles (inl e)) in
      ap (λ h. adjoint (adjoint h)) g'
      ∙ ap adjoint (adjoint-north g.phi v.phi-lt)
      ∙ adjoint-north (neg g.phi) (omega arith)
      ∙ u3_eq refl (omega (arith, v.phi-lt)) refl
      ∙ sym g'
  | south e ↦
      let g' = pole_eq g pi e (v.poles (inr e)) in
      let once = adjoint-south g.phi v.phi-lt in
      ap (λ h. adjoint (adjoint h)) g' ∙ ap adjoint once ∙ once ∙ sym g'
  | between h0 h1 ↦
      let turned : U3 = record {
        theta = g.theta;
        phi = add (neg g.lambda) pi;
        lambda = add (neg g.phi) pi;
      } in
      ap adjoint (adjoint-between g h0 h1)
      ∙ adjoint-between turned h0 h1
      ∙ u3_eq refl (omega (arith, v.phi-lt)) (omega (arith, v.lambda-lt))
]

record IsTurn (g : U3) : Type 0 where
  theta-lt : g.theta < 2 ^ 64

module _ (mix : Angle → Angle → Angle → Angle × Angle × Angle) where
  -- Composing with a rotation of nothing around Y.
  from_yzy-right :
      (theta z : Angle)
      → theta ≤ pi
      → z < 2 ^ 64
      → from_yzy mix theta z zero_angle ≡ normalized theta z zero_angle
  unfolding from_yzy ry add sub neg
  from_yzy-right theta z h hz = elim (Bool-cases (z == zero_angle)) [
    | inl flat ↦
        let e : z ≡ zero_angle = (==_iff _ _).0 flat in
        let e' : add theta zero_angle ≡ theta = omega arith in
        rw flat (ap₂ (λ (t u : Angle). normalized t u zero_angle) e' (sym e))
    | inr tilted ↦ elim (Bool-cases (z == pi)) [
      | inl half ↦ rw (tilted, half) (half_turn theta z (latitude theta h) ((==_iff _ _).0 half))
      | inr other ↦ elim (Bool-cases (theta == zero_angle)) [
        | inl at0 ↦
            let e : theta ≡ zero_angle = (==_iff _ _).0 at0 in
            rw (tilted, other, at0) (u3_eq (sym e) (omega arith) refl)
        | inr off0 ↦ elim (Bool-cases (theta == pi)) [
          | inl at_pi ↦
              let e : theta ≡ pi = (==_iff _ _).0 at_pi in
              rw (tilted, other, off0, at_pi) (u3_eq (sym e) (omega arith) refl)
          | inr off_pi ↦ rw (tilted, other, off0, off_pi) refl
        ]
      ]
    ]
  ]
    where
      half_turn :
          (theta z : Angle)
          → Latitude theta
          → z ≡ pi
          → normalized (sub zero_angle theta) zero_angle pi ≡ normalized theta z zero_angle
      half_turn theta z (north e) e' = rw (e, e') refl
      half_turn theta z (south e) e' = rw (e, e') refl
      half_turn theta z (between h0 h1) e' =
          normalized-negative (sub zero_angle theta) zero_angle pi (omega arith)
          ∙ u3_eq (omega arith) (sym e') refl
          ∙ sym (normalized-between theta z zero_angle h0 h1)

  from_yzy-left :
      (theta z : Angle)
      → theta ≤ pi
      → z < 2 ^ 64
      → from_yzy mix zero_angle z theta ≡ normalized theta zero_angle z
  unfolding from_yzy ry add sub neg
  from_yzy-left theta z h hz = elim (Bool-cases (z == zero_angle)) [
    | inl flat ↦
        let e : z ≡ zero_angle = (==_iff _ _).0 flat in
        let e' : add zero_angle theta ≡ theta = omega arith in
        rw flat (ap₂ (λ (t u : Angle). normalized t zero_angle u) e' (sym e))
    | inr tilted ↦ elim (Bool-cases (z == pi)) [
      | inl half ↦
          let e : z ≡ pi = (==_iff _ _).0 half in
          let e' : sub theta zero_angle ≡ theta = omega arith in
          rw (tilted, half) (ap₂ (λ (t u : Angle). normalized t zero_angle u) e' (sym e))
      | inr other ↦ rw (tilted, other) refl
    ]
  ]

  -- The half turn, `z`, the half turn.
  from_yzy-half_turns :
      (z : Angle)
      → z < 2 ^ 64
      → from_yzy mix pi z pi ≡ record { theta = zero_angle; phi = neg z; lambda = zero_angle }
  unfolding from_yzy ry add sub neg
  from_yzy-half_turns z hz = elim (Bool-cases (z == zero_angle)) [
    | inl flat ↦ rw flat (u3_eq refl (omega (arith, (==_iff _ _).0 flat)) refl)
    | inr tilted ↦ elim (Bool-cases (z == pi)) [
      | inl half ↦ rw (tilted, half) (u3_eq refl (omega (arith, (==_iff _ _).0 half)) refl)
      | inr other ↦ rw (tilted, other) (u3_eq refl (omega arith) refl)
    ]
  ]

  from_yzy-opposite :
      (theta : Angle)
      → theta ≤ pi
      → from_yzy mix theta pi theta ≡ record { theta = zero_angle; phi = pi; lambda = zero_angle }
  unfolding from_yzy add sub
  from_yzy-opposite theta h =
      let e : sub theta theta ≡ zero_angle = omega arith in
      ap (λ (t : Angle). normalized t zero_angle pi) e

  compose_of :
      (a b r : U3)
      → from_yzy mix a.theta (add a.phi b.lambda) b.theta ≡ r
      → compose mix a b ≡ normalized r.theta (add r.phi b.phi) (add a.lambda r.lambda)
  unfolding compose
  compose_of a b r e = ap (λ r. normalized r.theta (add r.phi b.phi) (add a.lambda r.lambda)) e

  compose-north :
      (phi phi' : Angle)
      → phi < 2 ^ 64
      → compose mix
          (record { theta = zero_angle; phi = phi; lambda = zero_angle })
          (record { theta = zero_angle; phi = phi'; lambda = zero_angle })
        ≡ record { theta = zero_angle; phi = add phi phi'; lambda = zero_angle }
  unfolding add normalized
  compose-north phi phi' h =
      let a : U3 = record { theta = zero_angle; phi = phi; lambda = zero_angle } in
      let b : U3 = record { theta = zero_angle; phi = phi'; lambda = zero_angle } in
      compose_of a b a (
        from_yzy-right zero_angle (add phi zero_angle) (omega arith) (omega arith)
        ∙ u3_eq refl (omega arith) refl)
      ∙ u3_eq refl (omega arith) refl

  identity_right : (g : U3) → IsNormal g → compose mix g u3_i ≡ g
  unfolding add sub normalized
  identity_right g v = elim (latitude g.theta v.theta-le) [
    | north e ↦
        let g' = pole_eq g zero_angle e (v.poles (inl e)) in
        ap (λ h. compose mix h u3_i) g'
        ∙ compose-north g.phi zero_angle v.phi-lt
        ∙ u3_eq refl (omega (arith, v.phi-lt)) refl
        ∙ sym g'
    | south e ↦
        let g' = pole_eq g pi e (v.poles (inr e)) in
        let a : U3 = record { theta = pi; phi = g.phi; lambda = zero_angle } in
        ap (λ h. compose mix h u3_i) g'
        ∙ compose_of a u3_i a (
            from_yzy-right pi (add g.phi zero_angle) (omega arith) (omega arith)
            ∙ u3_eq refl (omega (arith, v.phi-lt)) refl)
        ∙ u3_eq refl (omega (arith, v.phi-lt)) refl
        ∙ sym g'
    | between h0 h1 ↦
        let r : U3 = record { theta = g.theta; phi = add g.phi zero_angle; lambda = zero_angle } in
        compose_of g u3_i r (
          from_yzy-right g.theta (add g.phi zero_angle) v.theta-le (omega arith)
          ∙ normalized-between g.theta (add g.phi zero_angle) zero_angle h0 h1)
        ∙ normalized-between g.theta _ _ h0 h1
        ∙ u3_eq refl (omega (arith, v.phi-lt)) (omega (arith, v.lambda-lt))
  ]

  identity_left : (g : U3) → IsNormal g → compose mix u3_i g ≡ g
  unfolding add sub normalized
  identity_left g v = elim (latitude g.theta v.theta-le) [
    | north e ↦
        let g' = pole_eq g zero_angle e (v.poles (inl e)) in
        ap (compose mix u3_i) g'
        ∙ compose-north zero_angle g.phi (omega arith)
        ∙ u3_eq refl (omega (arith, v.phi-lt)) refl
        ∙ sym g'
    | south e ↦
        let g' = pole_eq g pi e (v.poles (inr e)) in
        let b : U3 = record { theta = pi; phi = g.phi; lambda = zero_angle } in
        let r : U3 = record { theta = pi; phi = zero_angle; lambda = zero_angle } in
        ap (compose mix u3_i) g'
        ∙ compose_of u3_i b r (
            from_yzy-left pi (add zero_angle zero_angle) (omega arith) (omega arith)
            ∙ u3_eq refl refl refl)
        ∙ u3_eq refl (omega (arith, v.phi-lt)) refl
        ∙ sym g'
    | between h0 h1 ↦
        let r : U3 = record {
          theta = g.theta;
          phi = zero_angle;
          lambda = add zero_angle g.lambda;
        } in
        compose_of u3_i g r (
          from_yzy-left g.theta (add zero_angle g.lambda) v.theta-le (omega arith)
          ∙ normalized-between g.theta zero_angle (add zero_angle g.lambda) h0 h1)
        ∙ normalized-between g.theta _ _ h0 h1
        ∙ u3_eq refl (omega (arith, v.phi-lt)) (omega (arith, v.lambda-lt))
  ]

  inverse_right : (g : U3) → IsNormal g → compose mix g (adjoint g) ≡ u3_i
  unfolding add neg sub normalized
  inverse_right g v = elim (latitude g.theta v.theta-le) [
    | north e ↦
        let g' = pole_eq g zero_angle e (v.poles (inl e)) in
        ap (λ h. compose mix h (adjoint h)) g'
        ∙ ap (compose mix (record { theta = zero_angle; phi = g.phi; lambda = zero_angle }))
            (adjoint-north g.phi v.phi-lt)
        ∙ compose-north g.phi (neg g.phi) v.phi-lt
        ∙ u3_eq refl (omega (arith, v.phi-lt)) refl
    | south e ↦
        let g' = pole_eq g pi e (v.poles (inr e)) in
        let a : U3 = record { theta = pi; phi = g.phi; lambda = zero_angle } in
        let r : U3 = record {
          theta = zero_angle;
          phi = neg (add g.phi zero_angle);
          lambda = zero_angle;
        } in
        ap (λ h. compose mix h (adjoint h)) g'
        ∙ ap (compose mix a) (adjoint-south g.phi v.phi-lt)
        ∙ compose_of a a r (from_yzy-half_turns (add g.phi zero_angle) (omega arith))
        ∙ u3_eq refl (omega (arith, v.phi-lt)) refl
    | between h0 h1 ↦
        let b : U3 = record {
          theta = g.theta;
          phi = add (neg g.lambda) pi;
          lambda = add (neg g.phi) pi;
        } in
        let r : U3 = record { theta = zero_angle; phi = pi; lambda = zero_angle } in
        let turn : add g.phi (add (neg g.phi) pi) ≡ pi = omega (arith, v.phi-lt) in
        ap (compose mix g) (adjoint-between g h0 h1)
        ∙ compose_of g b r (
            ap (λ (t : Angle). from_yzy mix g.theta t g.theta) turn
            ∙ from_yzy-opposite g.theta v.theta-le)
        ∙ u3_eq refl (omega (arith, v.lambda-lt)) refl
  ]

  module _ (mix-lt : (a b c : Angle) → (mix a b c).0 < 2 ^ 64) where
    theta-IsTurn :
        (theta phi lambda : Angle) → theta < 2 ^ 64 → IsTurn (normalized theta phi lambda)
    unfolding normalized neg
    theta-IsTurn theta phi lambda h = record { theta-lt = ground arith }

    either-IsTurn : (b : Bool) {x y : U3} → IsTurn x → IsTurn y → IsTurn (if b then x else y)
    either-IsTurn true h0 h1 = h0
    either-IsTurn false h0 h1 = h1

    from_yzy-IsTurn :
        (ry1 z ry2 : Angle) → ry1 < 2 ^ 64 → ry2 < 2 ^ 64 → IsTurn (from_yzy mix ry1 z ry2)
    unfolding from_yzy ry add sub
    from_yzy-IsTurn ry1 z ry2 h1 h2 =
        let sum : add ry1 ry2 < 2 ^ 64 = omega arith in
        let difference : sub ry2 ry1 < 2 ^ 64 = omega arith in
        let turned1 : add ry1 pi < 2 ^ 64 = omega arith in
        let turned2 : add ry2 pi < 2 ^ 64 = omega arith in
        let rest : sub pi z < 2 ^ 64 = omega arith in
        either-IsTurn (z == zero_angle) (theta-IsTurn (add ry1 ry2) zero_angle zero_angle sum) (
          either-IsTurn (z == pi) (theta-IsTurn (sub ry2 ry1) zero_angle pi difference) (
            either-IsTurn (ry1 == zero_angle) (theta-IsTurn ry2 zero_angle z h2) (
              either-IsTurn (ry1 == pi) (theta-IsTurn (add ry2 pi) zero_angle (neg z) turned2) (
                either-IsTurn (ry2 == zero_angle) (theta-IsTurn ry1 z zero_angle h1) (
                  either-IsTurn (ry2 == pi) (theta-IsTurn (add ry1 pi) (neg z) zero_angle turned1) (
                    either-IsTurn ((ry1 == pi_1_2) && (ry2 == pi_1_2))
                      (theta-IsTurn (sub pi z) pi_1_2 pi_1_2 rest)
                      (theta-IsTurn (mix ry1 z ry2).0 (mix ry1 z ry2).1 (mix ry1 z ry2).2
                        (mix-lt ry1 z ry2))))))))

    compose-IsNormal : (a b : U3) → IsNormal a → IsNormal b → IsNormal (compose mix a b)
    unfolding compose add
    compose-IsNormal a b va vb =
        normalized-IsNormal _ _ _
          ((from_yzy-IsTurn a.theta (add a.phi b.lambda) b.theta (omega (arith, va.theta-le))
            (omega (arith, vb.theta-le))).theta-lt)
          (omega arith) (omega arith)

    -- Where the first angle that is computed in `f64` is a 64-bit value, `compose` of normal gates
    -- is normal, `adjoint` of a normal gate is normal and undoes itself, the identity gate is
    -- neutral on both sides, and the composition with the adjoint, in either order, is exactly the
    -- identity gate.
    pub group_lem :
        (a g : U3)
        → IsNormal a
        → IsNormal g
        → IsNormal (compose mix a g)
          × IsNormal (adjoint g)
          × (adjoint (adjoint g) ≡ g)
          × (compose mix g u3_i ≡ g)
          × (compose mix u3_i g ≡ g)
          × (compose mix g (adjoint g) ≡ u3_i)
          × (compose mix (adjoint g) g ≡ u3_i)
    group_lem a g va v =
        let inverse = adjoint-IsNormal g in
        let back = adjoint-adjoint g v in
        (
          compose-IsNormal a g va v,
          inverse,
          back,
          identity_right g v,
          identity_left g v,
          inverse_right g v,
          ap (compose mix (adjoint g)) (sym back) ∙ inverse_right (adjoint g) inverse,
        )
