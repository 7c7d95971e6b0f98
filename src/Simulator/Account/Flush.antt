-- ===== src/Simulator/Account/Flush.antt =====
-- All calls of `_flush` of `src/simulator.rs`, and the queued gates that are left.
use qblaze.Base.{ℕ, ◌+◌, ◌≤◌, ◌≡◌, Bool, true, false, [], Run, ok, ◌>>=◌, All}
use qblaze.Sfree.Ops
use qblaze.Sfree.Ops.{Queue, is_empty, clear_queue}
use qblaze.U3.{U3}
use qblaze.Simulator.{Backend, Qubits, Simulator}
use qblaze.Simulator.Account.{Gates, count_gates, count_queued, run_gates}
use qblaze.Simulator.Account.Passes.{IsClear, Unblocked}
use qblaze.Simulator.Account.Finish.{MayPass, finish}

module _ (b : Backend) where
  -- What `_flush` does to the state, to the queue and to the queued gates.
  pub record Flushes (also : Bool) (sim : Simulator b) (m : Run (Simulator b)) : Type 0 where
    -- The gates applied first, and what follows.
    pub first : Gates
    pub wide : ℕ
    pub eager : Gates
    pub forced : Gates
    pub left : Qubits
    pub returns :
        m ≡ (run_gates b first sim.state >>= finish b also sim.queue wide eager forced left)
    pub first_unblocked : All (λ g. Unblocked b sim.queue g.0 g.1) first
    pub none_eager : also ≡ false → eager ≡ []
    pub reaches : also ≡ true → Ops.max_qubit sim.queue ≤ wide
    pub may_pass : All (λ g. MayPass b also sim.queue g.0 g.1 × (g.0 ≤ wide)) forced
    pub accounts :
        (sim' : Simulator b)
        → m ≡ ok sim'
        → ((p : ℕ → U3 → Bool)
            → count_gates p first + count_gates p eager + count_gates p forced + count_queued p left
              ≡ count_queued p sim.qubits)
          × All (λ e. IsClear b e.0 e.1) left
