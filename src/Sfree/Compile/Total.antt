-- ===== src/Sfree/Compile/Total.antt =====
-- `Queue::compile` as a whole: from the queued operations to a program over elements.
use native.Mathlib.Nat.{zero-mod}
use qblaze.Base.{
  ℕ, suc, if◌then◌else◌, ◌≡◌, refl, ap, ◌∙◌, arith, false, [], Option, none, some, ok,
}
use qblaze.Angle.{zero_angle}
use qblaze.Angle.Round.{OnGrid, grid}
use qblaze.Control.{always}
use qblaze.QubitSet
use qblaze.QubitSet.{QubitSet, contains}
use qblaze.QubitSet.Algebra.{new-IsValid, contains-new, contains-clear}
use qblaze.Sfree.Gates
use qblaze.Sfree.Gates.{Amplitude, IsExact, Program, stop, step, Compiled, from_seq, with_bits}
use qblaze.Sfree.Ops.{Queue, weight}
use qblaze.Sfree.Compile.Loop.{Returns}
use qblaze.Sfree.Meaning.{Elt, run, run_one, exec, shift, AreValid, Element_ext}
use qblaze.Sfree.Emit.{Stat, push_toggle_many}
use qblaze.Sfree.Emit.Laws.{run-push_toggle_many-always}
use qblaze.Sfree.Compile.{Acc, start, out, compile_seq, compile, Compilation}
use qblaze.Sfree.Compile.Step.{IsState, sem}
use qblaze.Sfree.Compile.Loop.{compile_loop_lem}

-- What a compilation runs on an element: nothing if there is no compiled operation.
abbrev pub run_compiled : (amp : Amplitude) → Option Compiled → Elt amp → Elt amp
run_compiled amp none e = e
run_compiled amp (some c) e = run_one amp c e

zero-OnGrid : (prec : ℕ) → OnGrid prec zero_angle
zero-OnGrid prec = (omega arith, zero-mod (grid prec))

run-from_seq :
    (amp : Amplitude) (r : Program) (e : Elt amp) → run_one amp (from_seq r) e ≡ run amp r e
unfolding run_one run from_seq
run-from_seq amp stop e = refl
run-from_seq amp (step c stop) e = refl
run-from_seq amp (step c (step d r)) e = refl

abbrev optional : Program → Option Compiled
optional r = if Gates.is_empty r then none else some (from_seq r)

run-optional :
    (amp : Amplitude) (r : Program) (e : Elt amp) → run_compiled amp (optional r) e ≡ run amp r e
unfolding run Gates.is_empty
run-optional amp stop e = refl
run-optional amp (step c r) e = run-from_seq amp (step c r) e

module _ (amp : Amplitude) (exact : IsExact amp) (n_words prec : ℕ) where
  -- The result of a compilation that stands for the operations, up to the phase that it drops.
  pub record Compiles (s : Queue) (st : Stat) : Type 0 where
    pub result : Compilation
    pub returns : compile n_words prec s st ≡ ok result
    pub no_ops : result.queue.ops ≡ []
    pub no_reads : (q : ℕ) → contains result.queue.reads q ≡ false
    pub no_writes : (q : ℕ) → contains result.queue.writes q ≡ false
    pub means :
        (e : Elt amp)
        → shift amp result.dropped (run_compiled amp result.compiled e) ≡ exec amp s.ops e

  start-IsState : (st : Stat) → IsState prec (start st QubitSet.new)
  start-IsState st = record { toggled_valid = new-IsValid; phase_grid = zero-OnGrid prec }

  -- The start stands for the element itself.
  sem-start : (st : Stat) (e : Elt amp) → sem amp (start st QubitSet.new) e ≡ e
  unfolding run
  sem-start st e = Element_ext amp _ _ (λ q. rw (contains-new q)) (exact.phase_zero e.val)

  -- The toggles that are left at the end are flipped by the program.
  run-last_toggles :
      (r : Acc) (e : Elt amp)
      → IsState prec r
      → shift amp r.phase (run amp (push_toggle_many n_words (out r) always r.toggled).program e)
        ≡ sem amp r e
  run-last_toggles r e state =
      ap (shift amp r.phase)
        (run-push_toggle_many-always amp n_words (out r) r.toggled e state.toggled_valid)

  compiles :
      (s : Queue) (st : Stat)
      → QubitSet.IsValid s.reads
      → QubitSet.IsValid s.writes
      → Returns amp exact prec n_words (suc (weight s.ops)) s.ops (start st QubitSet.new)
      → Compiles s st
  unfolding compile compile_seq
  compiles s st reads writes h =
      let r = h.result in
      let o = push_toggle_many n_words (out r) always r.toggled in
      record {
        result = record {
          queue = record {
            ops = [];
            reads = QubitSet.clear s.reads;
            writes = QubitSet.clear s.writes;
          };
          stat = o.stat;
          compiled = optional o.program;
          dropped = r.phase;
        };
        returns = rw h.returns;
        no_ops = refl;
        no_reads = λ q. contains-clear s.reads q reads;
        no_writes = λ q. contains-clear s.writes q writes;
        means = λ e.
            ap (shift amp r.phase) (run-optional amp o.program e)
            ∙ run-last_toggles r e h.state
            ∙ h.means e
            ∙ ap (exec amp s.ops) (sem-start st e);
      }

  -- In exact arithmetic, of a queue of valid operations (a sorted control without the qubits that
  -- are written, a phase on the grid of the precision), with valid sets of qubits, `compile`
  -- returns without a panic and within its fuel; the queue is then empty, and on every element the
  -- compiled operation does what the queued operations do, one after the other, up to the global
  -- phase that is dropped.
  pub compile_lem :
      (s : Queue) (st : Stat)
      → AreValid prec s.ops
      → QubitSet.IsValid s.reads
      → QubitSet.IsValid s.writes
      → Compiles s st
  compile_lem s st valid reads writes = compiles s st reads writes (
      compile_loop_lem amp exact prec n_words (suc (weight s.ops)) s.ops (start st QubitSet.new)
        valid (start-IsState st) (omega arith))
