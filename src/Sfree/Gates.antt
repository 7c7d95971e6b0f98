-- ===== src/Sfree/Gates.antt =====
-- `src/sfree/gates.rs` and the programs of `src/sfree/compiler.rs`. The bits of an element are the
-- function that its bit set stands for. A compiled closure is the data that it closes over.
use qblaze.Base.{◌≡◌, Bool, true, false, Bits, flip, flip_all, member, if◌then◌else◌}
use qblaze.Angle.{Angle, add, pi_1_4, pi_1_2, pi_3_4, pi, pi_5_4, pi_3_2, pi_7_4}
use qblaze.Control.{Control, Qubit}
use qblaze.Control.Meaning.{satisfied, same}
use qblaze.QubitSet.{QubitSet}
use qblaze.QubitSet.Iter.{qubits_of_words}

-- The operations on amplitudes that the gates call: `val *= Complex::from_arg(a)`, `-val`,
-- `val.mul_i()`, `val.div_i()` and the four closed forms of the odd eighths of a turn.
pub record Amplitude : Type 1 where
  pub Value : Type 0
  pub times_phase : Angle → Value → Value
  pub negate : Value → Value
  pub mul_i : Value → Value
  pub div_i : Value → Value
  pub mul_t : Value → Value
  pub mul_t3 : Value → Value
  pub mul_t5 : Value → Value
  pub mul_tdg : Value → Value

-- Exact arithmetic: phases act as the group of angles, and the closed forms are phases.
pub record IsExact (amp : Amplitude) : Type 0 where
  pub phase_zero : (v : amp.Value) → amp.times_phase 0 v ≡ v
  pub phase_add :
      (a b : Angle) (v : amp.Value)
      → amp.times_phase (add a b) v ≡ amp.times_phase a (amp.times_phase b v)
  pub negate_phase : (v : amp.Value) → amp.negate v ≡ amp.times_phase pi v
  pub mul_i_phase : (v : amp.Value) → amp.mul_i v ≡ amp.times_phase pi_1_2 v
  pub div_i_phase : (v : amp.Value) → amp.div_i v ≡ amp.times_phase pi_3_2 v
  pub mul_t_phase : (v : amp.Value) → amp.mul_t v ≡ amp.times_phase pi_1_4 v
  pub mul_t3_phase : (v : amp.Value) → amp.mul_t3 v ≡ amp.times_phase pi_3_4 v
  pub mul_t5_phase : (v : amp.Value) → amp.mul_t5 v ≡ amp.times_phase pi_5_4 v
  pub mul_tdg_phase : (v : amp.Value) → amp.mul_tdg v ≡ amp.times_phase pi_7_4 v

pub data Gate : Type 0 where
  x : Qubit → Gate
  swap : Qubit → Qubit → Gate
  p : Angle → Gate
  pz ps psdg pt pt3 pt5 ptdg : Gate
  multi_x : QubitSet → Gate
  singly_controlled : Bool → Qubit → Gate → Gate
  multi_controlled : Control → Gate → Gate

mutual
  pub data Compiled : Type 0 where
    from_gate : Gate → Compiled
    sequence : Program → Compiled
    partitioned : Qubit → Program → Program → Compiled

  -- A vector of compiled operations, in the order in which they run.
  pub data Program : Type 0 where
    stop : Program
    step : Compiled → Program → Program

-- `Vec::push`.
unfoldable pub push : Program → Compiled → Program
push stop c = step c stop
push (step d r) c = step d (push r c)

unfoldable pub is_empty : Program → Bool
is_empty stop = true
is_empty (step c r) = false

-- `Compiled::from_seq`.
unfoldable pub from_seq : Program → Compiled
from_seq (step c stop) = c
from_seq r = sequence r

module _ (amp : Amplitude) where
  pub record Element : Type 0 where
    pub bits : Bits
    pub val : amp.Value

  abbrev pub with_val : Element → amp.Value → Element
  with_val e v = record { bits = e.bits; val = v }

  abbrev pub with_bits : Element → Bits → Element
  with_bits e b = record { bits = b; val = e.val }

  -- `Gate::perform` with what `Gate::prepare` made of the gate.
  unfoldable pub perform : Gate → Element → Element
  perform (x q) e = with_bits e (flip q e.bits)
  perform (swap q r) e =
      if same (e.bits q) (e.bits r) then e else with_bits e (flip r (flip q e.bits))
  perform (p a) e = with_val e (amp.times_phase a e.val)
  perform pz e = with_val e (amp.negate e.val)
  perform ps e = with_val e (amp.mul_i e.val)
  perform psdg e = with_val e (amp.div_i e.val)
  perform pt e = with_val e (amp.mul_t e.val)
  perform pt3 e = with_val e (amp.mul_t3 e.val)
  perform pt5 e = with_val e (amp.mul_t5 e.val)
  perform ptdg e = with_val e (amp.mul_tdg e.val)
  perform (multi_x s) e = with_bits e (flip_all (λ q. member q (qubits_of_words s.words)) e.bits)
  perform (singly_controlled v q g) e =
      let inner = perform g e in if same (e.bits q) v then inner else e
  perform (multi_controlled ctl g) e =
      let inner = perform g e in if satisfied ctl e.bits then inner else e
