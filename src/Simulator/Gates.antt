-- ===== src/Simulator/Gates.antt =====
-- The gates of `src/simulator.rs` with controls, and `flush`.
use qblaze.Base.{
  ℕ, Bool, true, false, not, ◌||◌, Option, none, some, List, [], ◌∷◌, map, ◌==◌, if◌then◌else◌, Run,
  ok, panic, ◌>>=◌,
}
use qblaze.Angle.{Angle, pi, neg, round}
use qblaze.Control.{
  Control, ControlItem, is_always, uses, with_qubit, from_iter, qubit, value, invert,
}
use qblaze.Sfree.Ops.{Queue, ctl_swap, ctl_phase, ctl_x}
use qblaze.U3.{u3_x, rz}
use qblaze.Simulator.{Backend, Simulator, u3, flush_gates, prec}
use qblaze.Simulator.Preflush.{
  preflush, preflush_ctl, preflush_ctl_h, preflush_i, preflush_x, normal, inverted, hadamard,
}

module _ (b : Backend) where
  abbrev pub invert_if : Bool → ControlItem → ControlItem
  invert_if v c = if v then invert c else c

  -- `_preflush_ctl`: the items of the new control, before they are collected.
  unfoldable pub preflush_items :
      Simulator b → List ControlItem → Run (Simulator b × List ControlItem)
  unfolding invert qubit
  preflush_items sim [] = ok (sim, [])
  preflush_items sim (c ∷ cs) = do
    (sim', inverts) ← preflush b preflush_ctl (qubit c) sim
    (sim'', rest) ← preflush_items sim' cs
    ok (sim'', invert_if inverts c ∷ rest)

  unfoldable pub preflush_controls : Simulator b → Control → Run (Simulator b × Control)
  unfolding from_iter
  preflush_controls sim ctl = do
    (sim', items) ← preflush_items sim ctl
    ctl' ← from_iter items
    ok (sim', ctl')

  -- `_preflush_ctl_h`: one positive control may be a Hadamard gate, and is left out.
  unfoldable pub preflush_items_h :
      Simulator b → Option ℕ → List ControlItem → Run (Simulator b × List ControlItem × Option ℕ)
  unfolding invert qubit value preflush_items
  preflush_items_h sim h [] = ok (sim, [], h)
  preflush_items_h sim (some p) (c ∷ cs) = do
    (sim', inverts) ← preflush b preflush_ctl (qubit c) sim
    (sim'', rest, h') ← preflush_items_h sim' (some p) cs
    ok (sim'', invert_if inverts c ∷ rest, h')
  preflush_items_h sim none (c ∷ cs) =
      if not (value c)
      then (do
        (sim', inverts) ← preflush b preflush_ctl (qubit c) sim
        (sim'', rest, h') ← preflush_items_h sim' none cs
        ok (sim'', invert_if inverts c ∷ rest, h'))
      else (preflush b preflush_ctl_h (qubit c) sim >>= λ r. elim r.1 [
        | normal ↦ (preflush_items_h r.0 none cs >>= λ t. ok (t.0, c ∷ t.1, t.2))
        | inverted ↦ (preflush_items_h r.0 none cs >>= λ t. ok (t.0, invert c ∷ t.1, t.2))
        | hadamard ↦ preflush_items_h r.0 (some (qubit c)) cs
      ])

  unfoldable pub preflush_controls_h :
      Simulator b → Control → Run (Simulator b × Control × Option ℕ)
  unfolding from_iter
  preflush_controls_h sim ctl = do
    (sim', items, h) ← preflush_items_h sim none ctl
    ctl' ← from_iter items
    ok (sim', ctl', h)

  abbrev pub with_queue : Simulator b → Queue → Simulator b
  with_queue sim queue = record sim { queue = queue }

  -- `ctl_x` of the simulator.
  unfoldable pub apply_ctl_x : Simulator b → Control → ℕ → Run (Simulator b)
  unfolding u3 is_always uses with_qubit ctl_x ctl_phase preflush_controls preflush_controls_h
  apply_ctl_x sim ctl q =
      if is_always ctl
      then ok (u3 b sim q u3_x)
      else if uses ctl q
      then panic
      else (preflush b preflush_x q sim >>= λ r. elim r.1 [
        | some q_inv ↦ (do
          (sim1, ctl1, h) ← preflush_controls_h r.0 ctl
          ctl2 ← with_qubit ctl1 q (not q_inv)
          sim2 ← flush_gates b false sim1
          ok (elim h [
            | some q2 ↦ with_queue sim2 (ctl_x sim2.queue ctl2 q2)
            | none ↦ with_queue sim2 (ctl_phase sim2.queue ctl2 pi)
          ]))
        | none ↦ (do
          (sim1, ctl1) ← preflush_controls r.0 ctl
          sim2 ← flush_gates b false sim1
          ok (with_queue sim2 (ctl_x sim2.queue ctl1 q)))
      ])

  -- `ctl_swap` of the simulator.
  unfoldable pub apply_ctl_swap : Simulator b → Control → ℕ → ℕ → Run (Simulator b)
  unfolding uses ctl_swap preflush_controls
  apply_ctl_swap sim ctl q1 q2 = if uses ctl q1 || uses ctl q2 || (q1 == q2) then panic else (do
    (sim1, ctl1) ← preflush_controls sim ctl
    (sim2, r2) ← preflush b preflush_i q1 sim1
    (sim3, r3) ← preflush b preflush_i q2 sim2
    sim4 ← flush_gates b false sim3
    ok (with_queue sim4 (ctl_swap sim4.queue ctl1 q1 q2)))

  abbrev pub push_ctl_phase : Angle → Simulator b × Control → Run (Simulator b)
  push_ctl_phase a (sim1, ctl1) = do
    sim2 ← flush_gates b false sim1
    ok (with_queue sim2 (ctl_phase sim2.queue ctl1 a))

  -- `ctl_phase` of the simulator.
  unfoldable pub apply_ctl_phase : Simulator b → Control → Angle → Run (Simulator b)
  unfolding u3 rz neg value qubit round ctl_x ctl_phase preflush_controls preflush_controls_h
  apply_ctl_phase sim [] a = ok sim
  apply_ctl_phase sim (c ∷ []) a = ok (u3 b sim (qubit c) (rz (if value c then a else neg a)))
  apply_ctl_phase sim (c ∷ d ∷ cs) a =
      if round a prec == pi
      then (preflush_controls_h sim (c ∷ d ∷ cs) >>= λ r. elim r.2 [
        | some q ↦ (do
          sim2 ← flush_gates b false r.0
          ok (with_queue sim2 (ctl_x sim2.queue r.1 q)))
        | none ↦ push_ctl_phase a (r.0, r.1)
      ])
      else (preflush_controls sim (c ∷ d ∷ cs) >>= push_ctl_phase a)

  -- `flush`.
  unfoldable pub preflush_all : Simulator b → List ℕ → Run (Simulator b)
  preflush_all sim [] = ok sim
  preflush_all sim (q ∷ qs) = do (sim', r) ← preflush b preflush_i q sim; preflush_all sim' qs

  unfoldable pub flush : Simulator b → Run (Simulator b)
  flush sim = do sim' ← preflush_all sim (map (λ e. e.0) sim.qubits); flush_gates b true sim'
