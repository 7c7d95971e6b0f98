-- ===== src/Examples.antt =====
-- Runs on small registers, and each theorem at a concrete input.
mod Data
mod State
mod Queued
use mathlib.Core.HLevel.{Σ_prop_path}
use native.Mathlib.Bridge.{le_prop}
use qblaze.Base.{
  ℕ, suc, ◌+◌, ◌*◌, ◌<◌, ◌≤◌, ◌^◌, ◌≡◌, ◌⊎◌, ◌↔◌, refl, arith, Bool, true, false, not, ◌&&◌, ◌||◌,
  [], ◌∷◌, length, Bits, flip_all, member, none, some, ok, panic, ◌==◌, ==_iff, subst,
}
use qblaze.Angle.{
  Angle, add, sub, neg, round, zero_angle, pi_1_4, pi_1_2, pi_3_4, pi, pi_5_4, pi_3_2, pi_7_4,
}
use qblaze.Angle.Group.{add-lt, zero-add, add_assoc}
use qblaze.Angle.Group.{IsAngle, group_laws, offset, signed_gt_iff}
use qblaze.Angle
use qblaze.Angle.Round.{OnGrid, grid, round_near, round-OnGrid}
use qblaze.Angle.Mid.{mid_self, mid_extrapolates}
use qblaze.QubitSet
use qblaze.QubitSet.{QubitSet, contains, insert, remove, extend, intersection}
use qblaze.QubitSet.Iter.{qubits_of_words}
use qblaze.QubitSet.Laws.{contains-insert, contains-remove}
use qblaze.QubitSet.Algebra.{contains-extend, contains-intersection}
use qblaze.QubitSet.Traversal.{Ascending, iter_lem, len-qubits_of_words}
use qblaze.Control.{
  Control, Qubit, always, item, qubit, value, uses, from_iter, with_qubit, without_qubit,
  inplace_toggle_if,
}
use qblaze.Control.Meaning.{satisfied, same, IsControl, satisfied-inplace_toggle_if}
use qblaze.Control.Collect.{distinct, from_iter_lem}
use qblaze.Control.Lookup.{without_qubit_lem, with_qubit_lem}
use qblaze.Sfree.Gates.{Amplitude, IsExact, stop, step, from_gate, x}
use qblaze.Sfree.Ops
use qblaze.Sfree.Ops.{Op, OpSeq, Queue, gphase, swap, op_writes}
use qblaze.Sfree.Meaning.{run, shift, AreValid, IsValidOp}
use qblaze.Sfree.Emit.{no_stat, push_phase, push_toggle_many}
use qblaze.Sfree.Emit.Laws.{run-push_phase, run-push_toggle_many}
use qblaze.Sfree.Split.{Partition, try_partition}
use qblaze.Sfree.Split.Laws.{IsSound}
use qblaze.Sfree.Split.Laws.Sound.{try_partition_lem}
use qblaze.Sfree.Compile.{Acc, step_one, join}
use qblaze.Sfree.Compile.Step.{IsState, Goes, step_one_lem}
use qblaze.Sfree.Compile.Join.{Joins, join_lem}
use qblaze.Sfree.Compile.Loop.{Returns, compile_loop_lem}
use qblaze.Sfree.Compile.Total.{Compiles, compile_lem}

-- Amplitudes of norm one, by their angle.
abbrev UnitValue : Type 0
UnitValue = (v : ℕ) × (v < 2 ^ 64)

abbrev turn : Angle → UnitValue → UnitValue
turn a (v, h) = (add a v, add-lt a v)

abbrev unit_amplitude : Amplitude
unit_amplitude = record {
  Value = UnitValue;
  times_phase = turn;
  negate = turn pi;
  mul_i = turn pi_1_2;
  div_i = turn pi_3_2;
  mul_t = turn pi_1_4;
  mul_t3 = turn pi_3_4;
  mul_t5 = turn pi_5_4;
  mul_tdg = turn pi_7_4;
}

unit_exact : IsExact unit_amplitude
unit_exact = record {
  phase_zero = λ v. Σ_prop_path (λ n. le_prop) (zero-add v.0 v.1);
  phase_add = λ a b v. Σ_prop_path (λ n. le_prop) (add_assoc a b v.0);
  negate_phase = λ v. refl;
  mul_i_phase = λ v. refl;
  div_i_phase = λ v. refl;
  mul_t_phase = λ v. refl;
  mul_t3_phase = λ v. refl;
  mul_t5_phase = λ v. refl;
  mul_tdg_phase = λ v. refl;
}

-- Angles: an eighth of a turn and a little more.
abbrev near_eighth : Angle
near_eighth = pi_1_4 + 5

group_laws_example :
    IsAngle (add pi near_eighth)
    × (add (add pi near_eighth) pi_7_4 ≡ add pi (add near_eighth pi_7_4))
    × (add pi near_eighth ≡ add near_eighth pi)
    × (add zero_angle pi ≡ pi)
    × (add pi (neg pi) ≡ zero_angle)
    × (sub pi near_eighth ≡ add pi (neg near_eighth))
    × (add near_eighth (sub pi near_eighth) ≡ pi)
group_laws_example = group_laws pi near_eighth pi_7_4 (omega arith) (omega arith)

round_near_example :
    (2 * sub near_eighth (round near_eighth 3) ≤ grid 3)
    ⊎ (2 * sub (round near_eighth 3) near_eighth ≤ grid 3)
round_near_example = round_near near_eighth 3 (omega arith) (omega arith)

round-OnGrid_example : OnGrid 3 (round near_eighth 3)
round-OnGrid_example = round-OnGrid near_eighth 3 (omega arith)

mid_self_example : Angle.mid near_eighth near_eighth ≡ near_eighth
mid_self_example = mid_self near_eighth (omega arith)

mid_extrapolates_example :
    (Angle.mid pi_1_2 (add pi_1_2 (2 * 8)) ≡ sub pi_1_2 8)
    × (Angle.mid pi_1_2 (sub pi_1_2 (2 * 8)) ≡ add pi_1_2 8)
mid_extrapolates_example = mid_extrapolates pi_1_2 8 (omega arith) (omega arith)

-- Sets of one and of two words.
abbrev low_set : QubitSet
low_set = record { words = 5 ∷ [] }

abbrev wide_set : QubitSet
wide_set = record { words = 4 ∷ 9 ∷ [] }

low_set-IsValid : QubitSet.IsValid low_set
low_set-IsValid = record { has_word = omega arith; are_words = (omega arith, tt) }

wide_set-IsValid : QubitSet.IsValid wide_set
wide_set-IsValid = record { has_word = omega arith; are_words = (omega arith, (omega arith, tt)) }

contains-insert_example : contains (insert low_set 70) 70 ≡ (70 == 70 || contains low_set 70)
contains-insert_example = contains-insert low_set 70 70 low_set-IsValid

contains-remove_example :
    (contains (remove wide_set 64).0 67 ≡ (not (64 == 67) && contains wide_set 67))
    × ((remove wide_set 64).1 ≡ contains wide_set 64)
contains-remove_example = contains-remove wide_set 64 67 wide_set-IsValid

contains-extend_example :
    contains (extend low_set (70 ∷ 3 ∷ [])) 70 ≡ (member 70 (70 ∷ 3 ∷ []) || contains low_set 70)
contains-extend_example = contains-extend low_set (70 ∷ 3 ∷ []) 70 low_set-IsValid

contains-intersection_example :
    QubitSet.IsValid (intersection low_set wide_set)
    × (contains (intersection low_set wide_set) 2 ≡ (contains low_set 2 && contains wide_set 2))
contains-intersection_example =
    contains-intersection low_set wide_set 2 low_set-IsValid wide_set-IsValid

iter_lem_example :
    Ascending 0 (qubits_of_words (4 ∷ 9 ∷ []))
    × ((q : ℕ) → member q (qubits_of_words (4 ∷ 9 ∷ [])) ≡ contains wide_set q)
iter_lem_example = iter_lem wide_set wide_set-IsValid

len-qubits_of_words_example : QubitSet.len wide_set ≡ length (qubits_of_words (4 ∷ 9 ∷ []))
len-qubits_of_words_example = len-qubits_of_words wide_set wide_set-IsValid

-- A control on qubits 0, 1 and 4.
abbrev three_items : Control
three_items = 1 ∷ 2 ∷ 9 ∷ []

three_items-IsControl : IsControl three_items
unfolding qubit
three_items-IsControl = (omega arith, (omega arith, (omega arith, tt)))

from_iter_lem_example :
    (distinct (9 ∷ 1 ∷ 2 ∷ []) ≡ true
      → (r : Control) × (from_iter (9 ∷ 1 ∷ 2 ∷ []) ≡ ok r)
        × IsControl r
        × ((q : Qubit) → uses r q ≡ uses (9 ∷ 1 ∷ 2 ∷ []) q)
        × ((b : Bits) → satisfied r b ≡ satisfied (9 ∷ 1 ∷ 2 ∷ []) b))
    × (distinct (9 ∷ 1 ∷ 2 ∷ []) ≡ false → from_iter (9 ∷ 1 ∷ 2 ∷ []) ≡ panic)
from_iter_lem_example = from_iter_lem (9 ∷ 1 ∷ 2 ∷ [])

satisfied-inplace_toggle_if_example :
    satisfied (inplace_toggle_if (λ q. q == 1) three_items) (λ q. true)
    ≡ satisfied three_items (flip_all (λ q. q == 1) (λ q. true))
satisfied-inplace_toggle_if_example =
    satisfied-inplace_toggle_if (λ q. q == 1) (λ q. true) three_items

without_qubit_lem_example :
    ((without_qubit three_items 1 ≡ ok none) × (uses three_items 1 ≡ false))
    ⊎ ((v : Bool) × (r : Control) × (without_qubit three_items 1 ≡ ok (some (v, r)))
        × (uses three_items 1 ≡ true)
        × IsControl r
        × (uses r 1 ≡ false)
        × (suc (length r) ≡ length three_items)
        × ((p : Qubit) → uses three_items p ≡ (1 == p || uses r p))
        × ((b : Bits) → satisfied three_items b ≡ (same (b 1) v && satisfied r b)))
without_qubit_lem_example = without_qubit_lem three_items 1 three_items-IsControl

with_qubit_lem_example :
    ((with_qubit three_items 3 true ≡ panic) × (uses three_items 3 ≡ true))
    ⊎ ((r : Control) × (with_qubit three_items 3 true ≡ ok r)
        × (uses three_items 3 ≡ false)
        × IsControl r
        × ((b : Bits) → satisfied r b ≡ (same (b 3) true && satisfied three_items b)))
with_qubit_lem_example = with_qubit_lem three_items 3 true three_items-IsControl

-- Six operations under the condition that qubit 0 is set, after which qubit 0 is flipped.
abbrev ctl0 : Control
ctl0 = 1 ∷ []

abbrev sample_rest : OpSeq
sample_rest =
    (ctl0, gphase pi_1_4)
    ∷ (ctl0, swap 2 3)
    ∷ (ctl0, Op.x 2)
    ∷ (ctl0, gphase pi)
    ∷ (ctl0, Op.x 3)
    ∷ (always, Op.x 0)
    ∷ []

abbrev sample_ops : OpSeq
sample_ops = (ctl0, Op.x 1) ∷ sample_rest

flip_valid : IsValidOp 10 (ctl0, Op.x 1)
unfolding uses op_writes qubit
flip_valid = ((omega arith, tt), (λ q u. ground arith), tt)

rest_valid : AreValid 10 sample_rest
unfolding uses op_writes qubit
rest_valid = (
  ((omega arith, tt), (λ q u. refl), (omega arith, omega arith)),
  (
    ((omega arith, tt), (λ q u. ground arith), tt),
    (
      ((omega arith, tt), (λ q u. ground arith), tt),
      (
        ((omega arith, tt), (λ q u. refl), (omega arith, omega arith)),
        (((omega arith, tt), (λ q u. ground arith), tt), ((tt, (λ q u. ground arith), tt), tt)),
      ),
    ),
  ),
)

abbrev sample_queue : Queue
sample_queue = record { ops = sample_ops; reads = low_set; writes = wide_set }

compile_lem_example : Compiles unit_amplitude unit_exact 1 10 sample_queue no_stat
compile_lem_example =
    compile_lem unit_amplitude unit_exact 1 10 sample_queue no_stat (flip_valid, rest_valid)
      low_set-IsValid wide_set-IsValid

try_partition_lem_example :
    (try_partition ctl0 (Op.x 1) sample_rest ≡ ok none)
    ⊎ ((part : Partition) × (try_partition ctl0 (Op.x 1) sample_rest ≡ ok (some part))
        × IsSound unit_amplitude 10 sample_ops part)
try_partition_lem_example =
    try_partition_lem unit_amplitude 10 ctl0 (Op.x 1) sample_rest flip_valid rest_valid

-- A state in which qubits 0 and 2 are toggled.
abbrev toggled_state : Acc
toggled_state = record {
  stat = no_stat;
  program = step (from_gate (x 5)) stop;
  toggled = low_set;
  phase = pi_1_2;
}

toggled_state-IsState : IsState 10 toggled_state
toggled_state-IsState = record {
  toggled_valid = low_set-IsValid;
  phase_grid = (omega arith, omega arith);
}

compile_loop_lem_example : Returns unit_amplitude unit_exact 10 1 100 sample_rest toggled_state
compile_loop_lem_example =
    compile_loop_lem unit_amplitude unit_exact 10 1 100 sample_rest toggled_state rest_valid
      toggled_state-IsState (unfold Ops.weight in omega arith)

step_one_lem_example :
    Goes unit_amplitude unit_exact 10 toggled_state
      (step_one 10 toggled_state ctl0 (Op.x 1))
      ctl0
      (Op.x 1)
step_one_lem_example =
    step_one_lem unit_amplitude unit_exact 10 toggled_state ctl0 (Op.x 1) toggled_state-IsState
      flip_valid

join_lem_example :
    Joins unit_amplitude unit_exact 10 toggled_state 7 toggled_state toggled_state
      (join 1 10 toggled_state 7 toggled_state toggled_state)
join_lem_example =
    join_lem unit_amplitude unit_exact 10 1 toggled_state 7 toggled_state toggled_state
      toggled_state-IsState toggled_state-IsState toggled_state-IsState

-- A control on qubit 5, which the set does not hold.
abbrev ctl5 : Control
ctl5 = 11 ∷ []

ctl5_apart : (q : ℕ) → uses ctl5 q ≡ true → contains wide_set q ≡ false
unfolding uses qubit
ctl5_apart q used =
    let e : 5 ≡ q = (==_iff _ _).0 (ground (arith, used)) in
    subst (λ r. contains wide_set r ≡ false) e (unfold contains in refl)

run-push_toggle_many_example :
    run unit_amplitude
      (push_toggle_many 1 (record { stat = no_stat; program = stop }) ctl5 wide_set).program
      (record { bits = λ q. true; val = (3, omega arith) })
    ≡ record { bits = flip_all (contains wide_set) (λ q. true); val = (3, omega arith) }
unfolding run satisfied qubit value
run-push_toggle_many_example =
    run-push_toggle_many unit_amplitude 1 (record { stat = no_stat; program = stop }) ctl5 wide_set
      (record { bits = λ q. true; val = (3, omega arith) }) wide_set-IsValid ctl5_apart

run-push_phase_example :
    run unit_amplitude
      (push_phase (record { stat = no_stat; program = stop }) always pi_1_4 10).program
      (record { bits = λ q. true; val = (3, omega arith) })
    ≡ shift unit_amplitude pi_1_4 (record { bits = λ q. true; val = (3, omega arith) })
unfolding run satisfied
run-push_phase_example =
    run-push_phase unit_amplitude unit_exact (record { stat = no_stat; program = stop }) always
      pi_1_4 10 (record { bits = λ q. true; val = (3, omega arith) }) (omega arith, omega arith)
