-- ===== src/Simulator/Account.antt =====
-- `_flush` of `src/simulator.rs`: which queued gates it applies, in which order, and which it keeps.
pub mod Passes
pub mod Finish
pub mod Flush
use qblaze.Base.{
  ℕ, ◌+◌, ◌≤◌, ◌≡◌, refl, sym, ap, ◌∙◌, arith, Bool, true, false, not, ◌&&◌, ◌||◌, ◌⊎◌, inl, inr,
  Option, none, some, List, [], ◌∷◌, ltb, Bool-cases, if◌then◌else◌, Run, ok, panic, out_of_fuel,
  ◌>>=◌, All, leb,
}
use qblaze.Sfree.Ops
use qblaze.Sfree.Ops.{Queue, is_empty, clear_queue}
use qblaze.U3
use qblaze.U3.{U3}
use qblaze.Simulator.{
  Backend, QubitState, Qubits, Simulator, gate_blocked, maybe_eager_flush, ensure_qubit, retain,
  retain_unblocked, retain_remaining, retain_flushed, any_blocked, also_flush, max_flushed,
  flush_from, flush_gates, prec,
}

-- Gates and the qubits that they are applied to.
abbrev pub Gates : Type 0
Gates = List (ℕ × U3)

-- How many of the gates satisfy a test, and how many of the queued ones.
abbrev pub count_gates : (ℕ → U3 → Bool) → Gates → ℕ
count_gates p [] = 0
count_gates p (g ∷ gs) = (if p g.0 g.1 then 1 else 0) + count_gates p gs

abbrev pub count_queued : (ℕ → U3 → Bool) → Qubits → ℕ
count_queued p [] = 0
count_queued p (e ∷ es) = (if p e.0 e.1.pending then 1 else 0) + count_queued p es

run_cases : {A : Type 0} (m : Run A) → ((a : A) × (m ≡ ok a)) ⊎ ((m ≡ panic) ⊎ (m ≡ out_of_fuel))
run_cases (ok a) = inl (a, refl)
run_cases panic = inr (inl refl)
run_cases out_of_fuel = inr (inr refl)

pub bind_assoc :
    {A B C : Type 0} (m : Run A) (f : A → Run B) (g : B → Run C)
    → ((m >>= f) >>= g) ≡ (m >>= λ a. f a >>= g)
bind_assoc (ok a) f g = refl
bind_assoc panic f g = refl
bind_assoc out_of_fuel f g = refl

module _ (b : Backend) where
  -- The gates, one after the other.
  abbrev pub run_gates : Gates → b.State → Run b.State
  run_gates [] s = ok s
  run_gates (g ∷ gs) s = b.perform_u4 g.0 g.1 s >>= run_gates gs

  -- A step of a pass keeps the entry's gate, or applies it and drops the entry.
  abbrev pub Steps :
      (ℕ → QubitState → Type 0)
      → (ℕ → QubitState → Type 0)
      → (ℕ → U3 → Type 0)
      → (b.State → ℕ → QubitState → Run (b.State × Option QubitState))
      → Type 0
  Steps P Q C f =
      (s : b.State) (q : ℕ) (st : QubitState)
      → P q st
      → ((st' : QubitState) × (f s q st ≡ ok (s, some st')) × (st'.pending ≡ st.pending) × Q q st')
        ⊎ ((f s q st ≡ (b.perform_u4 q st.pending s >>= λ s'. ok (s', none))) × C q st.pending)

  -- A pass applies gates to the state, and keeps the other entries.
  pub record Retains (Q : ℕ → QubitState → Type 0) (C : ℕ → U3 → Type 0) (s : b.State) (qs : Qubits)
      (m : Run (b.State × Qubits)) : Type 0 where
    pub gates : Gates
    pub left : Qubits
    pub returns : m ≡ (run_gates gates s >>= λ s'. ok (s', left))
    pub chosen : All (λ g. C g.0 g.1) gates
    pub accounts :
        (s' : b.State)
        → run_gates gates s ≡ ok s'
        → ((p : ℕ → U3 → Bool) → count_gates p gates + count_queued p left ≡ count_queued p qs)
          × All (λ e. Q e.0 e.1) left

  pub retain_lem :
      (P Q : ℕ → QubitState → Type 0) (C : ℕ → U3 → Type 0)
      (f : b.State → ℕ → QubitState → Run (b.State × Option QubitState))
      → Steps P Q C f
      → (s : b.State) (qs : Qubits) → All (λ e. P e.0 e.1) qs
      → Retains Q C s qs (retain b f s qs)
  unfolding retain
  retain_lem P Q C f steps s [] h = record {
    gates = [];
    left = [];
    returns = refl;
    chosen = tt;
    accounts = λ s' e. (λ p. refl, tt);
  }
  retain_lem P Q C f steps s ((q, st) ∷ qs) h = elim (steps s q st h.0) [
    | inl (st', e, same, kept) ↦
        let r = retain_lem P Q C f steps s qs h.1 in
        record {
          gates = r.gates;
          left = (q, st') ∷ r.left;
          returns = rw (e, r.returns) (bind_assoc (run_gates r.gates s) _ _);
          chosen = r.chosen;
          accounts = λ s' done.
              let (counts, all_left) = r.accounts s' done in
              (λ p. rw same (omega (arith, counts p)), (kept, all_left));
        }
    | inr (e, c) ↦ elim (run_cases (b.perform_u4 q st.pending s)) [
      | inl (s1, e1) ↦
          let r = retain_lem P Q C f steps s1 qs h.1 in
          record {
            gates = (q, st.pending) ∷ r.gates;
            left = r.left;
            returns = rw (e, e1, r.returns) (bind_assoc (run_gates r.gates s1) _ _);
            chosen = (c, r.chosen);
            accounts = λ s' done.
                let (counts, all_left) = r.accounts s' (rw e1 at done) in
                (λ p. omega (arith, counts p), all_left);
          }
      | inr (inl e1) ↦ record {
        gates = (q, st.pending) ∷ [];
        left = [];
        returns = rw (e, e1) refl;
        chosen = (c, tt);
        accounts = λ s' done. absurd (stops (rw e1 at done));
      }
      | inr (inr e1) ↦ record {
        gates = (q, st.pending) ∷ [];
        left = [];
        returns = rw (e, e1) refl;
        chosen = (c, tt);
        accounts = λ s' done. absurd (runs_out (rw e1 at done));
      }
    ]
  ]
    where
      stops : {A : Type 0} {a : A} → panic ≡ ok a → ⊥
      stops e = cc

      runs_out : {A : Type 0} {a : A} → out_of_fuel ≡ ok a → ⊥
      runs_out e = cc
