-- ===== src/Sfree/Compile/Branch.antt =====
-- The two compiled branches of a partition, joined: shared toggles are kept, the others are flipped
-- in their branch, and the phases of the branches become a global phase and a difference.
use qblaze.Base.{
  ℕ, ◌≡◌, inl, inr, refl, sym, ap, ◌∙◌, arith, Bool, true, false, not, ◌&&◌, List, [], ◌∷◌, Bits,
  flip_all, xorb, if◌then◌else◌, ◌==◌, Bool-cases, ==_iff, member,
}
use qblaze.Angle.{Angle, add, sub, neg, mid, round, zero_angle}
use qblaze.Angle.Group.{IsAngle, sub-eq_zero}
use qblaze.Angle.Mid.{mid_self}
use qblaze.Angle.Round.{OnGrid, OnGrid-add, OnGrid-sub, OnGrid-neg, round_aligned}
use qblaze.Control.{Qubit, always, single}
use qblaze.Control.Items.{qubit-item, value-item}
use qblaze.Control.Meaning.{satisfied}
use qblaze.QubitSet
use qblaze.QubitSet.{QubitSet, contains, remove, intersection}
use qblaze.QubitSet.Laws.{contains-remove, remove-IsValid}
use qblaze.Sfree.Gates.{Amplitude, IsExact, Program, stop, step, is_empty, partitioned}
use qblaze.Sfree.Meaning.{Elt, run, run_one, run-push, shift}
use qblaze.Sfree.Emit.{Stat, Out, push_phase}
use qblaze.Sfree.Emit.Laws.{run-push_phase}
use qblaze.Sfree.Compile.{Acc, remove_all, join_phases, push_partitioned, both_empty}
use qblaze.Sfree.Compile.Step.{IsState, view, sem}

pub remove_all-IsValid :
    (s : QubitSet) (qs : List Qubit) → QubitSet.IsValid s → QubitSet.IsValid (remove_all s qs)
unfolding remove_all
remove_all-IsValid s [] v = v
remove_all-IsValid s (q ∷ qs) v = remove_all-IsValid (remove s q).0 qs (remove-IsValid s q v)

pub contains-remove_all :
    (s : QubitSet) (qs : List Qubit) (r : Qubit)
    → QubitSet.IsValid s
    → contains (remove_all s qs) r ≡ (not (member r qs) && contains s r)
unfolding remove_all
contains-remove_all s [] r v = refl
contains-remove_all s (q ∷ qs) r v = ground (
  arith,
  contains-remove_all (remove s q).0 qs r (remove-IsValid s q v),
  (contains-remove s q r v).0,
)

-- The angles of the two branches, and what the difference does to them.
cancel_low :
    (s p0 p1 : Angle)
    → IsAngle s
    → IsAngle p0
    → IsAngle p1
    → add s p1 ≡ 0
    → add 0 (neg (sub p1 p0)) ≡ add s p0
unfolding add neg sub
cancel_low s p0 p1 hs h0 h1 e = omega arith

cancel_high : (s p0 p1 : Angle) → IsAngle p1 → IsAngle p0 → add (add s p0) (sub p1 p0) ≡ add s p1
unfolding add sub
cancel_high s p0 p1 h1 h0 = omega arith

run_empty : (amp : Amplitude) (r : Program) (f : Elt amp) → is_empty r ≡ true → run amp r f ≡ f
unfolding is_empty run
run_empty amp stop f h = refl
run_empty amp (step c r) f h = absurd (cc)

satisfied-single : (q : Qubit) (v : Bool) (b : Bits) → satisfied (single q v) b ≡ not (xorb (b q) v)
unfolding satisfied single
satisfied-single q v b = rw (qubit-item q v, value-item q v) (ground arith)

module _ (amp : Amplitude) (exact : IsExact amp) (prec : ℕ) where
  view-shift :
      (t : QubitSet) (a b c : Angle) (f : Elt amp)
      → add a b ≡ c
      → view amp t a (shift amp b f) ≡ view amp t c f
  view-shift t a b c f h = λ i. record {
    bits = flip_all (contains t) f.bits;
    val = (sym (exact.phase_add a b f.val) ∙ ap (λ d. amp.times_phase d f.val) h) i;
  }

  -- What joining the phases has to give.
  pub record IsJoined (s : Acc) (q : Qubit) (if0 if1 : Program) (phase0 phase1 : Angle) (s' : Acc)
      : Type 0 where
    pub state : IsState prec s'
    pub means :
        (e : Elt amp)
        → sem amp s' e ≡ (
            let f = run amp s.program e in
            if f.bits q
            then view amp s.toggled (add s.phase phase1) (run amp if1 f)
            else view amp s.toggled (add s.phase phase0) (run amp if0 f))

  -- The state after the join, with an output and a phase.
  abbrev ends : Acc → Out → Angle → Acc
  ends s o a = record { stat = o.stat; program = o.program; toggled = s.toggled; phase = a }

  module _ (s : Acc) (q : Qubit) (st : Stat) (if0 if1 : Program) (phase0 phase1 : Angle)
      (state : IsState prec s) (g0 : OnGrid prec phase0) (g1 : OnGrid prec phase1) where
    abbrev Join : Acc → Type 0
    Join s' = IsJoined s q if0 if1 phase0 phase1 s'

    run-partitioned :
        (st' : Stat) (r0 r1 : Program) (e : Elt amp)
        → run amp (push_partitioned st' s.program q r0 r1).program e
          ≡ (let f = run amp s.program e in if f.bits q then run amp r1 f else run amp r0 f)
    unfolding run_one
    run-partitioned st' r0 r1 e = run-push amp s.program (partitioned q r0 r1) e

    -- A branch of programs `r0` and `r1`, seen with phase `a`.
    split_view :
        (st' : Stat) (r0 r1 : Program) (a : Angle)
        → OnGrid prec a
        → ((f : Elt amp)
            → view amp s.toggled a (run amp r0 f)
              ≡ view amp s.toggled (add s.phase phase0) (run amp if0 f))
        → ((f : Elt amp)
            → view amp s.toggled a (run amp r1 f)
              ≡ view amp s.toggled (add s.phase phase1) (run amp if1 f))
        → Join (ends s (push_partitioned st' s.program q r0 r1) a)
    split_view st' r0 r1 a ga h0 h1 = record {
      state = record { toggled_valid = state.toggled_valid; phase_grid = ga };
      means = λ e.
          let f = run amp s.program e in
          ap (view amp s.toggled a) (run-partitioned st' r0 r1 e) ∙ (elim (Bool-cases (f.bits q)) [
            | inl one ↦ rw one (h1 f)
            | inr nought ↦ rw nought (h0 f)
          ]);
    }

    -- Both programs are empty, and the output leaves a phase on one value of the qubit.
    flat_view :
        (o : Out) (a : Angle)
        → OnGrid prec a
        → both_empty if0 if1 ≡ true
        → ((e : Elt amp)
            → let f = run amp s.program e in
              (f.bits q ≡ false
                → view amp s.toggled a (run amp o.program e)
                  ≡ view amp s.toggled (add s.phase phase0) f)
              × (f.bits q ≡ true
                  → view amp s.toggled a (run amp o.program e)
                    ≡ view amp s.toggled (add s.phase phase1) f))
        → Join (ends s o a)
    flat_view o a ga none_there h =
        let no0 : is_empty if0 ≡ true = ground arith in
        let no1 : is_empty if1 ≡ true = ground arith in
        record {
          state = record { toggled_valid = state.toggled_valid; phase_grid = ga };
          means = λ e.
              let f = run amp s.program e in
              elim (Bool-cases (f.bits q)) [
                | inl one ↦ rw (one, run_empty amp if1 f no1) ((h e).1 one)
                | inr nought ↦ rw (nought, run_empty amp if0 f no0) ((h e).0 nought)
              ];
        }

    branches_agree : sub phase1 phase0 ≡ 0 → Join (join_phases prec s q st if0 if1 phase0 phase1)
    unfolding join_phases
    branches_agree h =
        let equal : phase1 ≡ phase0 = sub-eq_zero phase1 phase0 g1.0 g0.0 h in
        let middle : mid phase0 phase1 ≡ phase0 = rw equal (mid_self phase0 g0.0) in
        let rounds : (round (sub phase1 phase0) prec == zero_angle) ≡ true =
          rw (round_aligned (sub phase1 phase0) prec (OnGrid-sub prec g1 g0), h) in
        let phase = ap (λ c. add s.phase c) middle in
        let phase' = ap (λ c. add s.phase c) (middle ∙ sym equal) in
        let grid : OnGrid prec (add s.phase (mid phase0 phase1)) =
          rw middle (OnGrid-add prec state.phase_grid g0) in
        elim (Bool-cases (both_empty if0 if1)) [
          | inl nothing ↦
              rw (rounds, nothing)
                (flat_view (record { stat = st; program = s.program })
                  (add s.phase (mid phase0 phase1)) grid nothing
                  (λ e. (
                    (λ b. ap (λ c. view amp s.toggled c (run amp s.program e)) phase),
                    (λ b. ap (λ c. view amp s.toggled c (run amp s.program e)) phase'),
                  )))
          | inr something ↦
              rw (rounds, something)
                (split_view st if0 if1 (add s.phase (mid phase0 phase1)) grid
                  (λ f. ap (λ c. view amp s.toggled c (run amp if0 f)) phase)
                  (λ f. ap (λ c. view amp s.toggled c (run amp if1 f)) phase'))
        ]

    -- Adding a phase to one branch.
    run-phase_on :
        (r : Program) (a : Angle) (f : Elt amp)
        → OnGrid prec a
        → run amp (push_phase (record { stat = st; program = r }) always a prec).program f
          ≡ shift amp a (run amp r f)
    unfolding satisfied
    run-phase_on r a f ga =
        run-push_phase amp exact (record { stat = st; program = r }) always a prec f ga

    -- Adding a phase to one value of the qubit.
    run-phase_if :
        (v : Bool) (a : Angle) (e : Elt amp)
        → OnGrid prec a
        → run amp
            (push_phase (record { stat = st; program = s.program }) (single q v) a prec).program
            e
          ≡ (let f = run amp s.program e in if not (xorb (f.bits q) v) then shift amp a f else f)
    run-phase_if v a e ga =
        let f = run amp s.program e in
        run-push_phase amp exact (record { stat = st; program = s.program }) (single q v) a prec e
          ga
        ∙ ap (λ b. if b then shift amp a f else f) (satisfied-single q v f.bits)

    branches_cancel :
        (round (sub phase1 phase0) prec == zero_angle) ≡ false
        → add s.phase phase1 ≡ 0
        → Join (join_phases prec s q st if0 if1 phase0 phase1)
    unfolding join_phases
    branches_cancel differs h =
        let d = neg (sub phase1 phase0) in
        let gd : OnGrid prec d = OnGrid-neg prec (OnGrid-sub prec g1 g0) in
        let gz : OnGrid prec 0 = rw h at (OnGrid-add prec state.phase_grid g1) in
        let rounds : (round (add s.phase phase1) prec == zero_angle) ≡ true =
          rw (round_aligned (add s.phase phase1) prec (OnGrid-add prec state.phase_grid g1), h) in
        let low : add 0 d ≡ add s.phase phase0 =
          cancel_low s.phase phase0 phase1 state.phase_grid.0 g0.0 g1.0 h in
        elim (Bool-cases (both_empty if0 if1)) [
          | inl nothing ↦
              rw (differs, rounds, nothing)
                (flat_view
                  (push_phase (record { stat = st; program = s.program }) (single q false) d prec) 0
                  gz nothing
                  (λ e.
                    let f = run amp s.program e in
                    (
                      (λ b.
                          rw (run-phase_if false d e gd, b)
                            (view-shift s.toggled 0 d (add s.phase phase0) f low)),
                      (λ b.
                          rw (run-phase_if false d e gd, b)
                            (ap (λ c. view amp s.toggled c f) (sym h))),
                    )))
          | inr something ↦
              let o = push_phase (record { stat = st; program = if0 }) always d prec in
              rw (differs, rounds, something)
                (split_view o.stat o.program if1 0 gz
                  (λ f.
                    ap (view amp s.toggled 0) (run-phase_on if0 d f gd)
                    ∙ view-shift s.toggled 0 d (add s.phase phase0) (run amp if0 f) low)
                  (λ f. ap (λ c. view amp s.toggled c (run amp if1 f)) (sym h)))
        ]

    branches_differ :
        (round (sub phase1 phase0) prec == zero_angle) ≡ false
        → (round (add s.phase phase1) prec == zero_angle) ≡ false
        → Join (join_phases prec s q st if0 if1 phase0 phase1)
    unfolding join_phases
    branches_differ differs remains =
        let d = sub phase1 phase0 in
        let gd : OnGrid prec d = OnGrid-sub prec g1 g0 in
        let a = add s.phase phase0 in
        let ga : OnGrid prec a = OnGrid-add prec state.phase_grid g0 in
        let high : add a d ≡ add s.phase phase1 = cancel_high s.phase phase0 phase1 g1.0 g0.0 in
        elim (Bool-cases (both_empty if0 if1)) [
          | inl nothing ↦
              rw (differs, remains, nothing)
                (flat_view
                  (push_phase (record { stat = st; program = s.program }) (single q true) d prec) a
                  ga nothing
                  (λ e.
                    let f = run amp s.program e in
                    (
                      (λ b. rw (run-phase_if true d e gd, b)),
                      (λ b.
                          rw (run-phase_if true d e gd, b)
                            (view-shift s.toggled a d (add s.phase phase1) f high)),
                    )))
          | inr something ↦
              let o = push_phase (record { stat = st; program = if1 }) always d prec in
              rw (differs, remains, something)
                (split_view o.stat if0 o.program a ga (λ f. refl)
                  (λ f.
                    ap (view amp s.toggled a) (run-phase_on if1 d f gd)
                    ∙ view-shift s.toggled a d (add s.phase phase1) (run amp if1 f) high))
        ]

    pub join_phases_lem : Join (join_phases prec s q st if0 if1 phase0 phase1)
    join_phases_lem = elim (Bool-cases (round (sub phase1 phase0) prec == zero_angle)) [
      | inl equal ↦
          let none_left : sub phase1 phase0 ≡ 0 =
            rw (round_aligned (sub phase1 phase0) prec (OnGrid-sub prec g1 g0)) at
              ((==_iff _ _).0 equal) in
          branches_agree none_left
      | inr differs ↦ elim (Bool-cases (round (add s.phase phase1) prec == zero_angle)) [
        | inl cancels ↦
            let none_left : add s.phase phase1 ≡ 0 =
              rw (round_aligned (add s.phase phase1) prec (OnGrid-add prec state.phase_grid g1)) at
                ((==_iff _ _).0 cancels) in
            branches_cancel differs none_left
        | inr remains ↦ branches_differ differs remains
      ]
    ]
