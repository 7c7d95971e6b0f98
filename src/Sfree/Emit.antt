-- ===== src/Sfree/Emit.antt =====
-- The emission of compiled gates: `make_controlled`, `push_phase`, `push_toggle_one`,
-- `push_toggle_many` and `push_swap` of `src/sfree/queue.rs`, and `Stat` of `src/sfree/mod.rs`.
pub mod Laws
use qblaze.Base.{ℕ, suc, zero, ◌+◌, Bool, true, false, List, [], ◌∷◌, ◌==◌, leb, if◌then◌else◌}
use qblaze.Angle.{Angle, round, zero_angle, pi_1_4, pi_1_2, pi_3_4, pi, pi_5_4, pi_3_2, pi_7_4}
use qblaze.Control.{Control, Qubit, qubit, value, always}
use qblaze.QubitSet
use qblaze.QubitSet.{QubitSet}
use qblaze.QubitSet.Iter.{qubits_of_words}
use qblaze.Sfree.Gates.{
  Gate, x, swap, p, pz, ps, psdg, pt, pt3, pt5, ptdg, multi_x, singly_controlled, multi_controlled,
  Program, stop, push, from_gate, Compiled,
}

pub record Stat : Type 0 where
  pub ops : ℕ
  pub shuffle : Bool
  pub modified : QubitSet

-- `Stat::default`.
abbrev pub no_stat : Stat
no_stat = record { ops = 0; shuffle = false; modified = QubitSet.new }

abbrev pub count_op : Stat → Stat
count_op st = record { ops = st.ops + 1; shuffle = st.shuffle; modified = st.modified }

abbrev pub set_shuffle : Stat → Stat
set_shuffle st = record { ops = st.ops; shuffle = true; modified = st.modified }

-- `Stat::write`.
abbrev pub write : Stat → Qubit → Stat
write st q = record { ops = st.ops; shuffle = st.shuffle; modified = QubitSet.insert st.modified q }

abbrev pub write_all : Stat → List Qubit → Stat
write_all st [] = st
write_all st (q ∷ qs) = write_all (write st q) qs

-- What the emitting functions change through their `&mut` arguments.
pub record Out : Type 0 where
  pub stat : Stat
  pub program : Program

unfoldable pub make_controlled : Control → Gate → Compiled
make_controlled [] g = from_gate g
make_controlled (c ∷ []) g = from_gate (singly_controlled (value c) (qubit c) g)
make_controlled (c ∷ d ∷ cs) g = from_gate (multi_controlled (c ∷ d ∷ cs) g)

abbrev pub emit : Out → Control → Gate → Out
emit o ctl g = record { stat = count_op o.stat; program = push o.program (make_controlled ctl g) }

-- The gate for a rounded angle `r` that is not zero; `a` is the angle itself.
unfoldable pub phase_gate : Angle → Angle → Gate
phase_gate r a =
    if r == pi_1_4
    then pt
    else if r == pi_1_2
    then ps
    else if r == pi_3_4
    then pt3
    else if r == pi
    then pz
    else if r == pi_5_4
    then pt5
    else if r == pi_3_2
    then psdg
    else if r == pi_7_4
    then ptdg
    else p a

unfoldable pub push_phase : Out → Control → Angle → ℕ → Out
unfolding make_controlled phase_gate push
push_phase o ctl a prec =
    if round a prec == zero_angle then o else emit o ctl (phase_gate (round a prec) a)

unfoldable pub push_toggle_one : Out → Control → Qubit → Out
unfolding make_controlled push
push_toggle_one o ctl q = emit (record { stat = write o.stat q; program = o.program }) ctl (x q)

abbrev pub push_toggles : Out → Control → List Qubit → Out
push_toggles o ctl [] = o
push_toggles o ctl (q ∷ qs) = push_toggles (push_toggle_one o ctl q) ctl qs

-- `size_of::<BitSet<N>>() / 8` is `n_words`.
unfoldable pub push_toggle_many : ℕ → Out → Control → QubitSet → Out
unfolding push_toggle_one
push_toggle_many n_words o ctl s =
    let n = QubitSet.len s in
    let qs = qubits_of_words s.words in
    if n == 0
    then o
    else if leb n_words n
    then emit (record { stat = write_all o.stat qs; program = o.program }) ctl (multi_x s)
    else push_toggles o ctl qs

unfoldable pub push_swap : Out → Control → Qubit → Qubit → Out
unfolding make_controlled push
push_swap o ctl q r =
    emit (record { stat = write (write o.stat q) r; program = o.program }) ctl (swap q r)
