-- ===== src/Sfree/Compile/Loop.antt =====
-- The loop of `compile_seq`: with fuel above the weight of the operations it returns, and what it
-- returns runs as the operations do.
use qblaze.Base.{
  ℕ, suc, zero, ◌<◌, ◌≡◌, inl, inr, refl, sym, ap, ◌∙◌, arith, Bool, true, false, flip_all, xorb,
  [], ◌∷◌, none, some, ok, Bool-cases,
}
use qblaze.Angle.{Angle, sub, zero_angle}
use qblaze.Angle.Group.{IsAngle}
use qblaze.Angle.Round.{OnGrid, OnGrid-sub}
use qblaze.Control.{Control}
use qblaze.QubitSet.{contains}
use qblaze.Sfree.Gates.{Amplitude, IsExact}
use qblaze.Sfree.Ops.{Op, OpSeq, weight}
use qblaze.Sfree.Meaning.{Elt, run, exec, exec-shift, shift, AreValid, IsValidOp}
use qblaze.Sfree.Emit.{Stat}
use qblaze.Sfree.Split.{Branches, Partition, try_partition}
use qblaze.Sfree.Split.Laws.{pick, IsSound}
use qblaze.Sfree.Split.Laws.Sound.{try_partition_lem}
use qblaze.Sfree.Compile.{Acc, start, physical, join, step_one, compile_loop}
use qblaze.Sfree.Compile.Step.{IsState, view, sem, step_one_lem}
use qblaze.Sfree.Compile.Join.{join_lem}

sub_self : (a : Angle) → IsAngle a → sub a a ≡ 0
unfolding sub
sub_self a h = omega arith

zero-OnGrid : (prec a : ℕ) → OnGrid prec a → OnGrid prec zero_angle
zero-OnGrid prec a h = rw (sub_self a h.0) at (OnGrid-sub prec h h)

start-IsState :
    (prec : ℕ) (s : Acc) (st : Stat) → IsState prec s → IsState prec (start st s.toggled)
start-IsState prec s st h = record {
  toggled_valid = h.toggled_valid;
  phase_grid = zero-OnGrid prec s.phase h.phase_grid;
}

module _ (amp : Amplitude) (exact : IsExact amp) (prec : ℕ) where
  -- The loop returns a state that stands for the operations applied to what the state before
  -- stood for.
  pub record Returns (n_words fuel : ℕ) (ops : OpSeq) (s : Acc) : Type 0 where
    pub result : Acc
    pub returns : compile_loop n_words prec fuel ops s ≡ ok result
    pub state : IsState prec result
    pub means : (e : Elt amp) → sem amp result e ≡ exec amp ops (sem amp s e)

  -- The branch that the register takes is the one that the toggled element takes.
  pick-physical :
      (toggled v : Bool) (b : Branches) → pick v (physical toggled b) ≡ pick (xorb toggled v) b
  pick-physical true true b = refl
  pick-physical true false b = refl
  pick-physical false true b = refl
  pick-physical false false b = refl

  -- A branch runs as its operations on what the state before it stands for.
  run-branch :
      (s r : Acc) (st : Stat) (ops : OpSeq) (f : Elt amp)
      → ((e : Elt amp) → sem amp r e ≡ exec amp ops (sem amp (start st s.toggled) e))
      → shift amp s.phase (sem amp r f) ≡ exec amp ops (view amp s.toggled s.phase f)
  unfolding run
  run-branch s r st ops f h =
      ap (shift amp s.phase) (h f)
      ∙ sym (exec-shift amp exact ops s.phase (view amp s.toggled 0 f))
      ∙ ap (exec amp ops) (λ i. record {
        bits = flip_all (contains s.toggled) f.bits;
        val = ap (amp.times_phase s.phase) (exact.phase_zero f.val) i;
      })

  module _ (n_words fuel : ℕ) (ctl : Control) (op : Op) (ops : OpSeq) (s : Acc)
      (state : IsState prec s) where
    one_step :
        try_partition ctl op ops ≡ ok none
        → IsValidOp prec (ctl, op)
        → Returns n_words fuel ops (step_one prec s ctl op)
        → Returns n_words (suc fuel) ((ctl, op) ∷ ops) s
    unfolding compile_loop exec
    one_step alone valid rest = record {
      result = rest.result;
      returns = rw (compile_loop, alone) rest.returns;
      state = rest.state;
      means = λ e.
          rest.means e
          ∙ ap (exec amp ops) ((step_one_lem amp exact prec s ctl op state valid).means e);
    }

    branch_step :
        (part : Partition)
        → try_partition ctl op ops ≡ ok (some part)
        → IsSound amp prec ((ctl, op) ∷ ops) part
        → (let b = physical (contains s.toggled part.on) part.branches in
            (h0 : Returns n_words fuel b.if0 (start s.stat s.toggled))
            → (h1 : Returns n_words fuel b.if1 (start h0.result.stat s.toggled))
            → Returns n_words fuel part.after (join n_words prec s part.on h0.result h1.result)
            → Returns n_words (suc fuel) ((ctl, op) ∷ ops) s)
    unfolding compile_loop
    branch_step part found sound h0 h1 rest =
        let b = physical (contains s.toggled part.on) part.branches in
        let joined =
          join_lem amp exact prec n_words s part.on h0.result h1.result state h0.state h1.state in
        record {
          result = rest.result;
          returns = rw (compile_loop, found, h0.returns, h1.returns) rest.returns;
          state = rest.state;
          means = λ e.
              let f = run amp s.program e in
              let taken : exec amp (pick (f.bits part.on) b) (sem amp s e)
                  ≡ exec amp
                      (pick (xorb (contains s.toggled part.on) (f.bits part.on)) part.branches)
                      (sem amp s e) =
                ap (λ l. exec amp l (sem amp s e))
                  (pick-physical (contains s.toggled part.on) (f.bits part.on) part.branches) in
              let ran : sem amp (join n_words prec s part.on h0.result h1.result) e
                  ≡ exec amp (pick (f.bits part.on) b) (sem amp s e) =
                joined.means e ∙ (elim (Bool-cases (f.bits part.on)) [
                  | inl one ↦ rw one (run-branch s h1.result h0.result.stat b.if1 f h1.means)
                  | inr nought ↦ rw nought (run-branch s h0.result s.stat b.if0 f h0.means)
                ]) in
              rest.means e
              ∙ ap (exec amp part.after) (ran ∙ taken)
              ∙ sym (sound.means (sem amp s e));
        }

  physical_valid :
      (toggled : Bool) (part : Partition) (ops : OpSeq)
      → IsSound amp prec ops part
      → (let b = physical toggled part.branches in
          (AreValid prec b.if0 × (weight b.if0 < weight ops))
          × (AreValid prec b.if1 × (weight b.if1 < weight ops)))
  physical_valid true part ops h = ((h.valid1, h.light1), (h.valid0, h.light0))
  physical_valid false part ops h = ((h.valid0, h.light0), (h.valid1, h.light1))

  -- In exact arithmetic and with fuel above the weight of valid operations the loop of
  -- `compile_seq` returns, from any valid state, and what it returns means the operations after
  -- the state.
  pub compile_loop_lem :
      (n_words fuel : ℕ) (ops : OpSeq) (s : Acc)
      → AreValid prec ops
      → IsState prec s
      → weight ops < fuel
      → Returns n_words fuel ops s
  unfolding compile_loop exec weight
  compile_loop_lem n_words zero ops s valid state enough = absurd (omega arith)
  compile_loop_lem n_words (suc fuel) [] s valid state enough = record {
    result = s;
    returns = refl;
    state = state;
    means = λ e. refl;
  }
  compile_loop_lem n_words (suc fuel) ((ctl, op) ∷ ops) s valid state enough =
      elim (try_partition_lem amp prec ctl op ops valid.0 valid.1) [
        | inl alone ↦ one_step n_words fuel ctl op ops s state alone valid.0 (
            compile_loop_lem n_words fuel ops (step_one prec s ctl op) valid.1
              ((step_one_lem amp exact prec s ctl op state valid.0).state) (omega arith))
        | inr (part, found, sound) ↦
            let (v0, v1) =
              physical_valid (contains s.toggled part.on) part ((ctl, op) ∷ ops) sound in
            let b = physical (contains s.toggled part.on) part.branches in
            let h0 =
              compile_loop_lem n_words fuel b.if0 (start s.stat s.toggled) v0.0
                (start-IsState prec s s.stat state) (omega arith) in
            let h1 =
              compile_loop_lem n_words fuel b.if1 (start h0.result.stat s.toggled) v1.0
                (start-IsState prec s h0.result.stat state) (omega arith) in
            let joined =
              join_lem amp exact prec n_words s part.on h0.result h1.result state h0.state
                h1.state in
            branch_step n_words fuel ctl op ops s state part found sound h0 h1 (
              compile_loop_lem n_words fuel part.after
                (join n_words prec s part.on h0.result h1.result) sound.valid_after joined.state
                (omega (arith, sound.light_after)))
      ]
