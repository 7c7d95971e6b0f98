-- ===== src/U3.antt =====
-- `src/u3.rs`: single-qubit gates up to a global phase, as three angles. The printing and the gate's
-- matrix in `f64` are not modelled; the part of `from_yzy` that computes in `f64` is a parameter.
pub mod Normal
pub mod Compose
use qblaze.Base.{
  ℕ, ◌≡◌, ◌≤◌, ◌<◌, ◌^◌, ◌⊎◌, Bool, true, false, ◌&&◌, ◌||◌, Option, none, some, if◌then◌else◌,
  ◌==◌,
}
use qblaze.Angle
use qblaze.Angle.{Angle, zero_angle, pi, pi_1_2, pi_3_2, add, sub, neg, round, is_negative}

pub record U3 : Type 0 where
  pub theta : Angle
  pub phi : Angle
  pub lambda : Angle

abbrev pub u3_i : U3
u3_i = record { theta = zero_angle; phi = zero_angle; lambda = zero_angle }

abbrev pub u3_x : U3
u3_x = record { theta = pi; phi = pi; lambda = zero_angle }

abbrev pub u3_z : U3
u3_z = record { theta = zero_angle; phi = pi; lambda = zero_angle }

abbrev pub u3_y : U3
u3_y = record { theta = pi; phi = zero_angle; lambda = zero_angle }

abbrev pub u3_h : U3
u3_h = record { theta = pi_1_2; phi = zero_angle; lambda = pi }

-- `U3::new`.
unfoldable pub normalized : Angle → Angle → Angle → U3
unfolding add sub neg is_negative
normalized theta phi lambda =
    if theta == zero_angle
    then record { theta = theta; phi = add phi lambda; lambda = zero_angle }
    else if theta == pi
    then record { theta = theta; phi = sub phi lambda; lambda = zero_angle }
    else if is_negative theta
    then record { theta = neg theta; phi = add phi pi; lambda = add lambda pi }
    else record { theta = theta; phi = phi; lambda = lambda }

unfoldable pub rx : Angle → U3
unfolding normalized
rx a = normalized a pi_3_2 pi_1_2

unfoldable pub ry : Angle → U3
unfolding normalized
ry a = normalized a zero_angle zero_angle

unfoldable pub rz : Angle → U3
rz a = record { theta = zero_angle; phi = a; lambda = zero_angle }

-- `adjoint`.
unfoldable pub adjoint : U3 → U3
unfolding normalized neg
adjoint g = normalized (neg g.theta) (neg g.lambda) (neg g.phi)

unfoldable pub is_sfree : U3 → ℕ → Bool
is_sfree g prec = let th = round g.theta prec in th == zero_angle || th == pi

unfoldable pub to_cx_rz : U3 → ℕ → Option (Bool × Angle)
unfolding add sub
to_cx_rz g prec =
    let th = round g.theta prec in
    if th == zero_angle
    then some (false, add g.phi g.lambda)
    else if th == pi
    then some (true, sub (add pi g.phi) g.lambda)
    else none

unfoldable pub to_rz_rx : U3 → ℕ → Option (Angle × Angle)
unfolding add sub neg
to_rz_rx g prec =
    let th = round g.theta prec in
    let ph = round g.phi prec in
    if th == zero_angle
    then some (add g.phi g.lambda, zero_angle)
    else if th == pi
    then some (add (sub pi g.phi) g.lambda, pi)
    else if ph == pi_3_2
    then some (sub g.lambda pi_1_2, g.theta)
    else if ph == pi_1_2
    then some (add g.lambda pi_1_2, neg g.theta)
    else none

unfoldable pub to_rz_h_rz : U3 → ℕ → Option (Angle × Angle)
unfolding sub
to_rz_h_rz g prec = if round g.theta prec == pi_1_2 then some (sub g.lambda pi, g.phi) else none

-- `mix ry1 rz ry2` are the angles that `from_yzy` computes in `f64`.
module _ (mix : Angle → Angle → Angle → Angle × Angle × Angle) where
  unfoldable pub from_yzy : Angle → Angle → Angle → U3
  unfolding ry normalized add sub neg
  from_yzy ry1 rz ry2 =
      if rz == zero_angle
      then ry (add ry1 ry2)
      else if rz == pi
      then normalized (sub ry2 ry1) zero_angle pi
      else if ry1 == zero_angle
      then normalized ry2 zero_angle rz
      else if ry1 == pi
      then normalized (add ry2 pi) zero_angle (neg rz)
      else if ry2 == zero_angle
      then normalized ry1 rz zero_angle
      else if ry2 == pi
      then normalized (add ry1 pi) (neg rz) zero_angle
      else if (ry1 == pi_1_2) && (ry2 == pi_1_2)
      then normalized (sub pi rz) pi_1_2 pi_1_2
      else normalized (mix ry1 rz ry2).0 (mix ry1 rz ry2).1 (mix ry1 rz ry2).2

  -- `compose`.
  unfoldable pub compose : U3 → U3 → U3
  compose a b =
      let r = from_yzy a.theta (add a.phi b.lambda) b.theta in
      normalized r.theta (add r.phi b.phi) (add a.lambda r.lambda)

-- The ranges that the comment of `U3` gives; at the ends of the first one `lambda` is not used.
pub record IsNormal (g : U3) : Type 0 where
  pub theta-le : g.theta ≤ pi
  pub phi-lt : g.phi < 2 ^ 64
  pub lambda-lt : g.lambda < 2 ^ 64
  pub poles : (g.theta ≡ zero_angle) ⊎ (g.theta ≡ pi) → g.lambda ≡ zero_angle
