-- ===== src/Simulator/Measure.antt =====
-- The measurements of `src/simulator.rs`; the numbers are a parameter.
use qblaze.Base.{ℕ, ◌-◌, ◌^◌, Bool, false, not, leb, ltb, if◌then◌else◌, Run, ok, ◌>>=◌}
use qblaze.Sfree.Ops.{queue_writes}
use qblaze.Simulator.{Backend, Simulator, flush_gates}
use qblaze.Simulator.Preflush.{preflush, preflush_ctl}

-- `f64`, and what the state vector does with it. `as_u64 r` is `(r * 2.0f64.powi(64)) as u64`.
pub record Meter (b : Backend) : Type 1 where
  pub F64 : Type 0
  pub one : F64
  pub zero_f64 : F64
  pub nan : F64
  pub add : F64 → F64 → F64
  pub div : F64 → F64 → F64
  pub sqrt : F64 → F64
  pub le : F64 → F64 → Bool
  pub is_zero : F64 → Bool
  pub as_u64 : F64 → ℕ
  pub premeasure : b.State → ℕ → Run (F64 × F64)
  pub collapse : ℕ → Bool → F64 → b.State → Run b.State

-- `!bias` of `u64`.
abbrev pub not_u64 : ℕ → ℕ
not_u64 bias = 2 ^ 64 - 1 - bias

module _ (b : Backend) (m : Meter b) where
  -- `premeasure`: whether the qubit is inverted, and the weights of its values.
  unfoldable pub premeasure : Simulator b → ℕ → Run (Simulator b × Bool × m.F64 × m.F64)
  unfolding queue_writes
  premeasure sim q = do
    (sim1, inverts) ← preflush b preflush_ctl q sim
    sim2 ← flush_gates b (queue_writes sim1.queue q) sim1
    (r0, r1) ←
        if ltb (b.max_qubit sim2.state) q then ok (m.one, m.zero_f64) else m.premeasure sim2.state q
    ok (sim2, inverts, r0, r1)

  -- The value that a random number selects.
  unfoldable pub choose : ℕ → m.F64 → m.F64 → m.F64 → m.F64 → Bool
  choose bias r0 r1 r0n r1n =
      if m.le r0 r1 then leb (m.as_u64 r0n) bias else ltb (not_u64 bias) (m.as_u64 r1n)

  -- `measure` of the simulator, from the weights on.
  unfoldable pub measure_with :
      ℕ → ℕ → Simulator b → Bool → m.F64 → m.F64 → Run (Simulator b × Bool × m.F64 × m.F64)
  unfolding choose
  measure_with q bias sim inverts r0 r1 =
      let sum = m.add r0 r1 in
      let r0n = m.div r0 sum in
      let r1n = m.div r1 sum in
      let v = choose (if inverts then not_u64 bias else bias) r0 r1 r0n r1n in
      if m.is_zero sum then ok (sim, false, m.nan, m.nan) else (do
        s ←
            if m.is_zero (if v then r0 else r1)
            then ok sim.state
            else m.collapse q v (m.sqrt (if v then r1 else r0)) sim.state
        ok (
            if inverts
            then (record sim { state = s }, not v, r1n, r0n)
            else (record sim { state = s }, v, r0n, r1n)))

  unfoldable pub measure_qubit : Simulator b → ℕ → ℕ → Run (Simulator b × Bool × m.F64 × m.F64)
  unfolding premeasure measure_with
  measure_qubit sim q bias = premeasure sim q >>= λ r. measure_with q bias r.0 r.1 r.2 r.3

  unfoldable pub qubit_probs : Simulator b → ℕ → Run (Simulator b × m.F64 × m.F64)
  unfolding premeasure
  qubit_probs sim q = do
    (sim', inverts, r0, r1) ← premeasure sim q
    let sum = m.add r0 r1
    ok (if inverts then (sim', m.div r1 sum, m.div r0 sum) else (sim', m.div r0 sum, m.div r1 sum))
