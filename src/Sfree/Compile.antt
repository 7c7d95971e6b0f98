-- ===== src/Sfree/Compile.antt =====
-- `compile_seq` and `Queue::compile` of `src/sfree/queue.rs`.
pub mod Step
pub mod Branch
pub mod Join
pub mod Loop
pub mod Total
use qblaze.Base.{
  ℕ, suc, zero, ◌+◌, Bool, true, false, not, xorb, ◌&&◌, List, [], ◌∷◌, ◌==◌, if◌then◌else◌, length,
  Option, none, some, Run, ok, panic, out_of_fuel, ◌>>=◌,
}
use qblaze.Angle
use qblaze.Angle.{Angle, zero_angle}
use qblaze.Control.{Control, Qubit, always, is_always, single, inplace_toggle_if}
use qblaze.QubitSet
use qblaze.QubitSet.{QubitSet, contains, insert, remove, intersection}
use qblaze.QubitSet.Iter.{qubits_of_words}
use qblaze.Sfree.Gates
use qblaze.Sfree.Gates.{Program, stop, step, push, Compiled, partitioned, from_seq}
use qblaze.Sfree.Ops.{Op, OpSeq, gphase, x, swap, Queue, weight}
use qblaze.Sfree.Split.{try_partition, Partition, Branches}
use qblaze.Sfree.Emit.{
  Stat, Out, no_stat, set_shuffle, push_phase, push_toggle_one, push_toggle_many, push_swap,
}

-- The local variables of `compile_seq`: `r`, `toggled` and `gphase`, with the shared `st`.
pub record Acc : Type 0 where
  pub stat : Stat
  pub program : Program
  pub toggled : QubitSet
  pub phase : Angle

abbrev pub with_out : Acc → Out → Acc
with_out s o = record { stat = o.stat; program = o.program; toggled = s.toggled; phase = s.phase }

abbrev pub with_toggled : Acc → QubitSet → Acc
with_toggled s t = record { stat = s.stat; program = s.program; toggled = t; phase = s.phase }

abbrev pub out : Acc → Out
out s = record { stat = s.stat; program = s.program }

-- `for q in toggled.iter() { set.remove(q); }`
unfoldable pub remove_all : QubitSet → List Qubit → QubitSet
remove_all s [] = s
remove_all s (q ∷ qs) = remove_all (remove s q).0 qs

-- `if !toggled.remove(q) { toggled.insert(q); }`
unfoldable pub toggle : QubitSet → Qubit → QubitSet
toggle t q = let (t', was) = remove t q in if was then t' else insert t' q

-- An operation with no condition.
unfoldable pub step_always : Acc → Op → Acc
unfolding toggle push_swap
step_always s (gphase a) = record {
  stat = s.stat;
  program = s.program;
  toggled = s.toggled;
  phase = Angle.add s.phase a;
}
step_always s (x q) = with_toggled s (toggle s.toggled q)
step_always s (swap q1 q2) =
    let has1 = contains s.toggled q1 in
    let has2 = contains s.toggled q2 in
    let t =
      if has1 && not has2
      then insert (remove s.toggled q1).0 q2
      else if has2 && not has1
      then insert (remove s.toggled q2).0 q1
      else s.toggled in
    with_out (with_toggled s t) (push_swap (out s) always q1 q2)

-- An operation under a control whose items are already toggled.
unfoldable pub step_controlled : ℕ → Acc → Control → Op → Acc
unfolding push_phase push_toggle_one push_swap
step_controlled prec s ctl (gphase a) = with_out s (push_phase (out s) ctl a prec)
step_controlled prec s ctl (x q) = with_out s (push_toggle_one (out s) ctl q)
step_controlled prec s ctl (swap q1 q2) =
    let has1 = contains s.toggled q1 in
    let has2 = contains s.toggled q2 in
    let q = if has1 then q1 else q2 in
    let s' : Acc =
      if xorb has1 has2
      then (with_out (with_toggled s (remove s.toggled q).0) (push_toggle_one (out s) always q))
      else s in
    with_out s' (push_swap (out s') ctl q1 q2)

unfoldable pub step_one : ℕ → Acc → Control → Op → Acc
unfolding step_always step_controlled
step_one prec s ctl op =
    if is_always ctl
    then step_always s op
    else step_controlled prec s (inplace_toggle_if (contains s.toggled) ctl) op

abbrev pub both_empty : Program → Program → Bool
both_empty a b = Gates.is_empty a && Gates.is_empty b

-- `st.shuffle = true; r.push(Compiled::from_pseq(ctl_q, if0, if1));`
abbrev pub push_partitioned : Stat → Program → Qubit → Program → Program → Out
push_partitioned st r q if0 if1 = record {
  stat = set_shuffle st;
  program = push r (partitioned q if0 if1);
}

-- The phases of the two branches, after their toggles: `o0` and `o1` are the branches, `s` is the
-- state before the partition with the toggles that both branches share.
unfoldable pub join_phases : ℕ → Acc → Qubit → Stat → Program → Program → Angle → Angle → Acc
join_phases prec s q st if0 if1 phase0 phase1 =
    let diff = Angle.sub phase1 phase0 in
    let nothing = both_empty if0 if1 in
    let r : Out = record { stat = st; program = s.program } in
    let with_phase = λ (o : Out) (a : Angle).
      let s' : Acc = record {
        stat = o.stat;
        program = o.program;
        toggled = s.toggled;
        phase = a;
      } in
      s' in
    if Angle.round diff prec == zero_angle
    then (let a = Angle.add s.phase (Angle.mid phase0 phase1) in
        if nothing then with_phase r a else with_phase (push_partitioned st s.program q if0 if1) a)
    else if Angle.round (Angle.add s.phase phase1) prec == zero_angle
    then (if nothing
        then with_phase (push_phase r (single q false) (Angle.neg diff) prec) zero_angle
        else (let o =
              push_phase (record { stat = st; program = if0 }) always (Angle.neg diff) prec in
            with_phase (push_partitioned o.stat s.program q o.program if1) zero_angle))
    else (let a = Angle.add s.phase phase0 in
        if nothing
        then with_phase (push_phase r (single q true) diff prec) a
        else (let o = push_phase (record { stat = st; program = if1 }) always diff prec in
            with_phase (push_partitioned o.stat s.program q if0 o.program) a))

-- What `compile_seq` does with the results `r0` and `r1` of the two branches.
unfoldable pub join : ℕ → ℕ → Acc → Qubit → Acc → Acc → Acc
unfolding remove_all push_toggle_many join_phases
join n_words prec s q r0 r1 =
    let common = intersection r0.toggled r1.toggled in
    let shared = qubits_of_words common.words in
    let t0 = remove_all r0.toggled shared in
    let t1 = remove_all r1.toggled shared in
    let o0 = push_toggle_many n_words (record { stat = r1.stat; program = r0.program }) always t0 in
    let o1 = push_toggle_many n_words (record { stat = o0.stat; program = r1.program }) always t1 in
    join_phases prec (with_toggled s common) q o1.stat o0.program o1.program r0.phase r1.phase

-- A branch starts with an empty program, the toggles so far and no phase.
abbrev pub start : Stat → QubitSet → Acc
start st t = record { stat = st; program = stop; toggled = t; phase = zero_angle }

-- `mem::swap(&mut if0, &mut if1)` if the qubit is toggled.
abbrev pub physical : Bool → Branches → Branches
physical true b = record { if0 = b.if1; if1 = b.if0 }
physical false b = b

-- The loop of `compile_seq`, and with it the recursion into the branches, on fuel.
unfoldable pub compile_loop : ℕ → ℕ → ℕ → OpSeq → Acc → Run Acc
compile_loop n_words prec zero ops s = out_of_fuel
compile_loop n_words prec (suc fuel) [] s = ok s
compile_loop n_words prec (suc fuel) ((ctl, op) ∷ ops) s = elim (try_partition ctl op ops) [
  | panic ↦ panic
  | out_of_fuel ↦ out_of_fuel
  | ok none ↦ compile_loop n_words prec fuel ops (step_one prec s ctl op)
  | ok (some part) ↦ (do
    let b = physical (contains s.toggled part.on) part.branches
    r0 ← compile_loop n_words prec fuel b.if0 (start s.stat s.toggled)
    r1 ← compile_loop n_words prec fuel b.if1 (start r0.stat s.toggled)
    compile_loop n_words prec fuel part.after (join n_words prec s part.on r0 r1))
]

-- The fuel is one more than the steps that the loop takes at most.
unfoldable pub compile_seq : ℕ → ℕ → Stat → OpSeq → QubitSet → Run Acc
unfolding compile_loop weight
compile_seq n_words prec st ops t = compile_loop n_words prec (suc (weight ops)) ops (start st t)

-- `Queue::compile`: the emptied queue, the statistics, the compiled operation unless there is nothing
-- to do, and the global phase, which the source drops.
pub record Compilation : Type 0 where
  pub queue : Queue
  pub stat : Stat
  pub compiled : Option Compiled
  pub dropped : Angle

unfoldable pub compile : ℕ → ℕ → Queue → Stat → Run Compilation
unfolding compile_seq push_toggle_many
compile n_words prec s st = do
  r ← compile_seq n_words prec st s.ops QubitSet.new
  let o = push_toggle_many n_words (out r) always r.toggled
  ok (record {
    queue = record { ops = []; reads = QubitSet.clear s.reads; writes = QubitSet.clear s.writes };
    stat = o.stat;
    compiled = if Gates.is_empty o.program then none else some (from_seq o.program);
    dropped = r.phase;
  })
