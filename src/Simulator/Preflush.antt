-- ===== src/Simulator/Preflush.antt =====
-- `_preflush` of `src/simulator.rs`: what an operation wants to know of a qubit's queued gate, and what
-- is done with a gate that the operation cannot use.
use qblaze.Base.{
  ℕ, Bool, true, false, not, ◌&&◌, Option, none, some, ◌==◌, if◌then◌else◌, Run, ok, ◌>>=◌,
}
use qblaze.Angle.{Angle, zero_angle, pi, round}
use qblaze.Control.{single}
use qblaze.Sfree.Ops.{Queue, queue_x, ctl_phase}
use qblaze.U3.{U3, u3_h, rx, rz, compose, to_cx_rz, to_rz_rx, to_rz_h_rz}
use qblaze.Simulator.{
  Backend, QubitState, Simulator, find_qubit, remove_qubit, put_qubit, gate_blocked,
  maybe_eager_flush, prec,
}

-- The trait `Preflush`.
pub record Preflush (R : Type 0) : Type 0 where
  pub from_id : R
  pub from_rx : Option R
  pub from_rz : Option R
  pub from_x_rz : Option R
  pub from_h_rz : Option R
  pub from_h_rx : Option R
  pub from_x_h_rx : Option R

-- `PreflushCtl`, by its field `invert`.
abbrev pub preflush_ctl : Preflush Bool
preflush_ctl = record {
  from_id = false;
  from_rx = none;
  from_rz = some false;
  from_x_rz = some true;
  from_h_rz = none;
  from_h_rx = none;
  from_x_h_rx = none;
}

pub data PreflushCtlH : Type 0 where
  normal : PreflushCtlH
  inverted : PreflushCtlH
  hadamard : PreflushCtlH

abbrev pub preflush_ctl_h : Preflush PreflushCtlH
preflush_ctl_h = record {
  from_id = normal;
  from_rx = none;
  from_rz = some normal;
  from_x_rz = some inverted;
  from_h_rz = some hadamard;
  from_h_rx = none;
  from_x_h_rx = none;
}

pub data PreflushI : Type 0 where
  preflushed : PreflushI

abbrev pub preflush_i : Preflush PreflushI
preflush_i = record {
  from_id = preflushed;
  from_rx = none;
  from_rz = none;
  from_x_rz = none;
  from_h_rz = none;
  from_h_rx = none;
  from_x_h_rx = none;
}

-- `PreflushX`, by its field `is_h`.
abbrev pub preflush_x : Preflush (Option Bool)
preflush_x = record {
  from_id = none;
  from_rx = some none;
  from_rz = none;
  from_x_rz = none;
  from_h_rz = none;
  from_h_rx = some (some false);
  from_x_h_rx = some (some true);
}

-- `if let Some(r) = o { return t(r); }`, else go on.
abbrev pub return_some : {R S : Type 0} → Option R → (R → S) → S → S
return_some none t rest = rest
return_some (some r) t rest = t r

module _ (b : Backend) where
  -- `ctl_phase(Control::single(q, true), a)`, unless the angle rounds to zero.
  abbrev pub push_rz : Queue → ℕ → Angle → Queue
  push_rz queue q a =
      if round a prec == zero_angle then queue else ctl_phase queue (single q true) a

  module _ {R : Type 0} (cls : Preflush R) (q : ℕ) where
    -- The gate needs the state vector.
    unfoldable pub preflush_must_flush : Simulator b → QubitState → Simulator b × R
    preflush_must_flush sim st = (
      record sim { qubits = put_qubit sim.qubits q (record st { must_flush = true }) },
      cls.from_id,
    )

    abbrev reordered : Simulator b → QubitState → Queue → U3 → Simulator b
    reordered sim st queue gate = record sim {
      queue = queue;
      qubits = put_qubit sim.qubits q (record st { pending = gate; is_reordered = true });
    }

    -- The gate is a Hadamard gate between two phases.
    unfoldable pub preflush_h : Simulator b → QubitState → Simulator b × R
    preflush_h sim st = elim (to_rz_h_rz st.pending prec) [
      | none ↦ preflush_must_flush sim st
      | some (rz1, rz2) ↦
          let keep = reordered sim st sim.queue st.pending in
          let rest = preflush_must_flush sim st in
          let after_x =
            if round rz2 prec == pi
            then return_some cls.from_x_h_rx (λ r. (keep, r)) rest
            else rest in
          let after_h =
            if round rz2 prec == zero_angle
            then return_some cls.from_h_rx (λ r. (keep, r)) rest
            else after_x in
          return_some cls.from_h_rz
            (λ r. (
              if round rz1 prec == zero_angle
                  then keep
                  else reordered sim st (push_rz sim.queue q rz1) (compose b.mix u3_h (rz rz2)),
              r,
            ))
            after_h
    ]

    -- The gate is a rotation around X after a phase.
    unfoldable pub preflush_rx : Simulator b → QubitState → Simulator b × R
    preflush_rx sim st = elim (to_rz_rx st.pending prec) [
      | none ↦ preflush_h sim st
      | some (rz', rx') ↦
          return_some cls.from_rx
            (λ r. (
              if round rz' prec == zero_angle
                  then record sim { qubits = put_qubit sim.qubits q st }
                  else reordered sim st (push_rz sim.queue q rz') (rx rx'),
              r,
            ))
            (preflush_h sim st)
    ]

    -- The gate is in the queue.
    abbrev pub removed : Simulator b → Queue → Simulator b × R
    removed sim queue =
        (record sim { queue = queue; qubits = remove_qubit sim.qubits q }, cls.from_id)

    abbrev pub after_x : Simulator b → Angle → Queue → Simulator b × R
    after_x sim a queue =
        if round a prec == zero_angle
        then removed sim queue
        else return_some cls.from_rz (λ r. (record sim { queue = queue }, r))
            (removed sim (push_rz queue q a))

    -- The gate is diagonal, after an X gate or not.
    unfoldable pub preflush_sfree : Simulator b → Bool → Angle → Simulator b × R
    preflush_sfree sim is_x a =
        if is_x
        then return_some cls.from_x_rz (λ r. (sim, r)) (after_x sim a (queue_x sim.queue q))
        else after_x sim a sim.queue

    -- The gate is not diagonal, and was not applied early.
    abbrev pub preflush_tried : Simulator b → QubitState → b.State × Bool → Simulator b × R
    preflush_tried sim st tried =
        let sim' = record sim { state = tried.0 } in
        if tried.1
        then removed sim' sim.queue
        else preflush_rx sim' (record st { maybe_destructive = false })

    -- `_preflush`.
    unfoldable pub preflush : Simulator b → Run (Simulator b × R)
    preflush sim = elim (find_qubit sim.qubits q) [
      | none ↦ ok (sim, cls.from_id)
      | some st ↦ elim (to_cx_rz st.pending prec) [
        | some (is_x, a) ↦ ok (preflush_sfree sim is_x a)
        | none ↦
            if st.maybe_destructive && not (gate_blocked sim.queue q st.pending)
            then (maybe_eager_flush b sim.state q st.pending >>= λ tried.
                ok (preflush_tried sim st tried))
            else ok (preflush_rx sim st)
      ]
    ]
