-- ===== src/Simulator.antt =====
-- `src/simulator.rs`: queued single-qubit gates, the queue of superposition-free gates and the state
-- vector. The state vector is an interface, whose operations may panic; the hash map is a list of
-- entries in the order in which the map is iterated.
pub mod Preflush
pub mod Gates
pub mod Account
pub mod Measure
use qblaze.Base.{
  ℕ, ◌+◌, ◌*◌, ◌≤◌, Bool, true, false, not, ◌&&◌, ◌||◌, Option, none, some, List, [], ◌∷◌, max,
  ◌==◌, leb, ltb, if◌then◌else◌, Run, ok, panic, out_of_fuel, ◌>>=◌,
}
use qblaze.Sfree.Ops.{Queue, blocks, empty_queue, clear_queue, is_empty}
use qblaze.Sfree.Ops
use qblaze.U3.{U3, compose, to_rz_rx, is_sfree}
use qblaze.Angle.{Angle}

-- `PREC` and `N_SAMP`.
abbrev pub prec : ℕ
prec = 32

abbrev pub n_samp : ℕ
n_samp = 32

-- The trait `Statevector`, as far as the simulator calls it. `collapses s q gate` says that the
-- sampled `collapse_delta` add up to at most `-N_SAMP / 4`; `mix` is that of `U3::compose`.
pub record Backend : Type 1 where
  pub State : Type 0
  pub mix : Angle → Angle → Angle → Angle × Angle × Angle
  pub fresh : ℕ → State
  pub max_qubit : State → ℕ
  pub length_of : State → ℕ
  pub collapses : State → ℕ → U3 → Bool
  pub perform_u4 : ℕ → U3 → State → Run State
  pub perform_sfree : Queue → State → Run State
  pub grown : ℕ → State → Run State

pub record QubitState : Type 0 where
  pub pending : U3
  pub maybe_destructive : Bool
  pub must_flush : Bool
  pub is_reordered : Bool

abbrev pub Qubits : Type 0
Qubits = List (ℕ × QubitState)

unfoldable pub find_qubit : Qubits → ℕ → Option QubitState
find_qubit [] q = none
find_qubit ((p, st) ∷ qs) q = let rest = find_qubit qs q in if p == q then some st else rest

unfoldable pub remove_qubit : Qubits → ℕ → Qubits
remove_qubit [] q = []
remove_qubit ((p, st) ∷ qs) q =
    let rest = remove_qubit qs q in if p == q then rest else (p, st) ∷ rest

unfoldable pub put_qubit : Qubits → ℕ → QubitState → Qubits
unfolding remove_qubit
put_qubit qs q st = (q, st) ∷ remove_qubit qs q

-- `Queue::blocks` on a gate.
unfoldable pub gate_blocked : Queue → ℕ → U3 → Bool
unfolding blocks to_rz_rx
gate_blocked queue q gate = blocks queue (to_rz_rx gate prec) prec q

module _ (b : Backend) where
  pub record Simulator : Type 0 where
    pub state : b.State
    pub queue : Queue
    pub qubits : Qubits

  unfoldable pub reset_state : ℕ → Simulator → Simulator
  unfolding clear_queue
  reset_state init_max_qubit sim = record {
    state = b.fresh init_max_qubit;
    queue = clear_queue sim.queue;
    qubits = [];
  }

  -- `clone_flushed`, but for the copy of the state.
  unfoldable pub clone_flushed : Simulator → Run Simulator
  unfolding is_empty
  clone_flushed sim = if not (is_empty sim.queue) then panic else elim sim.qubits [
    | [] ↦ ok (record { state = sim.state; queue = empty_queue; qubits = [] })
    | e ∷ es ↦ panic
  ]

  -- `u3`.
  unfoldable pub u3 : Simulator → ℕ → U3 → Simulator
  unfolding find_qubit put_qubit compose
  u3 sim q gate =
      let st : QubitState = elim (find_qubit sim.qubits q) [
        | some st ↦ record st { pending = compose b.mix st.pending gate; maybe_destructive = true }
        | none ↦ record {
          pending = gate;
          maybe_destructive = true;
          must_flush = false;
          is_reordered = false;
        }
      ] in
      record sim { qubits = put_qubit sim.qubits q st }

  -- `maybe_eager_flush`: the state after it, and whether the gate was applied.
  unfoldable pub maybe_eager_flush : b.State → ℕ → U3 → Run (b.State × Bool)
  unfolding is_sfree
  maybe_eager_flush s q gate =
      if is_sfree gate prec
      then ok (s, false)
      else if ltb (b.max_qubit s) q
      then ok (s, false)
      else if leb (b.length_of s) (32 * n_samp)
      then ok (s, false)
      else if not (b.collapses s q gate)
      then ok (s, false)
      else (b.perform_u4 q gate s >>= λ s'. ok (s', true))

  unfoldable pub ensure_qubit : b.State → ℕ → Run b.State
  ensure_qubit s q = if leb q (b.max_qubit s) then ok s else b.grown q s

  -- `HashMap::retain`, with a closure that may change the state and the entry.
  unfoldable pub retain :
      (b.State → ℕ → QubitState → Run (b.State × Option QubitState))
      → b.State
      → Qubits
      → Run (b.State × Qubits)
  retain f s [] = ok (s, [])
  retain f s ((q, st) ∷ qs) = do
    (s', kept) ← f s q st
    (s'', rest) ← retain f s' qs
    ok (s'', elim kept [ none ↦ rest | some st' ↦ (q, st') ∷ rest ])

  -- The three closures of `_flush`.
  unfoldable pub retain_unblocked :
      Queue → b.State → ℕ → QubitState → Run (b.State × Option QubitState)
  unfolding gate_blocked maybe_eager_flush
  retain_unblocked queue s q st =
      if st.must_flush || st.is_reordered
      then ok (s, some st)
      else if gate_blocked queue q st.pending
      then ok (s, some (record st { maybe_destructive = true }))
      else if not st.maybe_destructive
      then ok (s, some st)
      else (do
        (s', done) ← maybe_eager_flush s q st.pending
        ok (s', if done then none else some (record st { maybe_destructive = false })))

  unfoldable pub retain_remaining : b.State → ℕ → QubitState → Run (b.State × Option QubitState)
  unfolding maybe_eager_flush
  retain_remaining s q st =
      if st.is_reordered || not st.maybe_destructive then ok (s, some st) else (do
        (s', done) ← maybe_eager_flush s q st.pending
        ok (s', if done then none else some (record st { maybe_destructive = false })))

  -- The closure has the debug assertion that no entry has both flags.
  unfoldable pub retain_flushed : b.State → ℕ → QubitState → Run (b.State × Option QubitState)
  retain_flushed s q st =
      if not st.must_flush
      then ok (s, some (record st { is_reordered = false }))
      else if st.is_reordered
      then panic
      else (b.perform_u4 q st.pending s >>= λ s'. ok (s', none))

  unfoldable pub any_blocked : Queue → Qubits → Bool
  unfolding gate_blocked
  any_blocked queue [] = false
  any_blocked queue ((q, st) ∷ qs) =
      (st.must_flush && gate_blocked queue q st.pending) || any_blocked queue qs

  unfoldable pub max_flushed : ℕ → Qubits → ℕ
  max_flushed m [] = m
  max_flushed m ((q, st) ∷ qs) = max_flushed (if st.must_flush && ltb m q then q else m) qs

  unfoldable pub also_flush : Bool → Simulator → Bool
  unfolding is_empty any_blocked
  also_flush also_sfree sim =
      if is_empty sim.queue then false else also_sfree || any_blocked sim.queue sim.qubits

  -- `_flush` from its first `retain` on, with the flag that the queue is flushed.
  unfoldable pub flush_from : Bool → Queue → b.State → Qubits → Run Simulator
  flush_from also queue s1 qs1 = do
    s2 ← ensure_qubit s1 (max_flushed (if also then Ops.max_qubit queue else 0) qs1)
    s3 ← if also then b.perform_sfree queue s2 else ok s2
    (s4, qs4) ← if also then retain retain_remaining s3 qs1 else ok (s3, qs1)
    (s5, qs5) ← retain retain_flushed s4 qs4
    ok (record { state = s5; queue = if also then clear_queue queue else queue; qubits = qs5 })

  -- `_flush`.
  unfoldable pub flush_gates : Bool → Simulator → Run Simulator
  flush_gates also_sfree sim = do
    (s1, qs1) ← retain (retain_unblocked sim.queue) sim.state sim.qubits
    flush_from (also_flush also_sfree sim) sim.queue s1 qs1
