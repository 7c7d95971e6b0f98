-- ===== src/Sfree/Compile/Join.antt =====
-- `compile_seq` after its two branches: the join of their results runs as the branch of the qubit.
use qblaze.Base.{ℕ, ◌≡◌, inl, inr, ap, ◌∙◌, arith, true, flip_all, xorb, if◌then◌else◌, Bool-cases}
use qblaze.Angle.{Angle, add}
use qblaze.Control.{Qubit, always}
use qblaze.QubitSet
use qblaze.QubitSet.{QubitSet, contains, intersection}
use qblaze.QubitSet.Iter.{qubits_of_words}
use qblaze.QubitSet.Algebra.{contains-intersection}
use qblaze.QubitSet.Traversal.{iter_lem}
use qblaze.Sfree.Gates.{Amplitude, IsExact, with_bits}
use qblaze.Sfree.Meaning.{Elt, run, shift, Element_ext}
use qblaze.Sfree.Emit.{Stat, push_toggle_many}
use qblaze.Sfree.Emit.Laws.{run-push_toggle_many-always}
use qblaze.Sfree.Compile.{Acc, remove_all, join, with_toggled}
use qblaze.Sfree.Compile.Step.{IsState, view, sem}
use qblaze.Sfree.Compile.Branch.{remove_all-IsValid, contains-remove_all, join_phases_lem}

module _ (amp : Amplitude) (exact : IsExact amp) (prec : ℕ) where
  -- The toggles of a branch are those that are shared and those that are flipped in the branch.
  view_flushed :
      (common own t : QubitSet) (a p : Angle) (g : Elt amp)
      → ((r : Qubit) → xorb (contains common r) (contains own r) ≡ contains t r)
      → view amp common (add a p) (with_bits amp g (flip_all (contains own) g.bits))
        ≡ shift amp a (view amp t p g)
  view_flushed common own t a p g h =
      Element_ext amp _ _ (λ r. ground (arith, h r)) (exact.phase_add a p g.val)

  -- What is left of a branch's toggles without the shared ones.
  flush_toggles :
      (common t : QubitSet) (r : Qubit)
      → QubitSet.IsValid common
      → QubitSet.IsValid t
      → (contains common r ≡ true → contains t r ≡ true)
      → xorb (contains common r) (contains (remove_all t (qubits_of_words common.words)) r)
        ≡ contains t r
  flush_toggles common t r vc vt within = ground (
    arith,
    within,
    contains-remove_all t (qubits_of_words common.words) r vt,
    (iter_lem common vc).1 r,
  )

  -- The program of a branch with its own toggles flushed.
  run-flushed :
      (n_words : ℕ) (st : Stat) (r0 : Acc) (common : QubitSet) (a : Angle) (f : Elt amp)
      → IsState prec r0
      → QubitSet.IsValid common
      → ((r : Qubit) → contains common r ≡ true → contains r0.toggled r ≡ true)
      → (let own = remove_all r0.toggled (qubits_of_words common.words) in
          view amp common (add a r0.phase) (
            run amp
              (push_toggle_many n_words
                (record { stat = st; program = r0.program })
                always
                own).program
              f)
          ≡ shift amp a (sem amp r0 f))
  run-flushed n_words st r0 common a f state vc within =
      let shared = qubits_of_words common.words in
      let own = remove_all r0.toggled shared in
      ap (view amp common (add a r0.phase)) (
        run-push_toggle_many-always amp n_words (record { stat = st; program = r0.program }) own f
          (remove_all-IsValid r0.toggled shared state.toggled_valid))
      ∙ view_flushed common own r0.toggled a r0.phase (run amp r0.program f)
          (λ r. flush_toggles common r0.toggled r vc state.toggled_valid (within r))

  -- What the join has to give: the state before, followed by the branch of the qubit.
  pub record Joins (s : Acc) (q : Qubit) (r0 r1 s' : Acc) : Type 0 where
    pub state : IsState prec s'
    pub means :
        (e : Elt amp)
        → sem amp s' e ≡ (
            let f = run amp s.program e in
            if f.bits q then shift amp s.phase (sem amp r1 f) else shift amp s.phase (sem amp r0 f))

  -- In exact arithmetic, joining the valid results of the two branches of a partition gives a
  -- valid state that runs as the state before it, followed by the branch of the qubit, with the
  -- phase before it added.
  pub join_lem :
      (n_words : ℕ) (s : Acc) (q : Qubit) (r0 r1 : Acc)
      → IsState prec s
      → IsState prec r0
      → IsState prec r1
      → Joins s q r0 r1 (join n_words prec s q r0 r1)
  unfolding join
  join_lem n_words s q r0 r1 hs h0 h1 =
      let common = intersection r0.toggled r1.toggled in
      let meet = λ (r : Qubit).
        contains-intersection r0.toggled r1.toggled r h0.toggled_valid h1.toggled_valid in
      let vc : QubitSet.IsValid common = (meet 0).0 in
      let shared = qubits_of_words common.words in
      let t0 = remove_all r0.toggled shared in
      let t1 = remove_all r1.toggled shared in
      let o0 =
        push_toggle_many n_words (record { stat = r1.stat; program = r0.program }) always t0 in
      let o1 =
        push_toggle_many n_words (record { stat = o0.stat; program = r1.program }) always t1 in
      let joined =
        join_phases_lem amp exact prec (with_toggled s common) q o1.stat o0.program o1.program
          r0.phase r1.phase (record { toggled_valid = vc; phase_grid = hs.phase_grid })
          h0.phase_grid h1.phase_grid in
      record {
        state = joined.state;
        means = λ e.
            let f = run amp s.program e in
            joined.means e ∙ (elim (Bool-cases (f.bits q)) [
              | inl one ↦ rw one (
                  run-flushed n_words o0.stat r1 common s.phase f h1 vc
                    (λ r c. ground (arith, (meet r).1)))
              | inr nought ↦ rw nought (
                  run-flushed n_words r1.stat r0 common s.phase f h0 vc
                    (λ r c. ground (arith, (meet r).1)))
            ]);
      }
