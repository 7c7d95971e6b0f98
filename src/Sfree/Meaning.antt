-- ===== src/Sfree/Meaning.antt =====
-- What the queue and the compiled program mean: functions on one element.
use qblaze.Base.{
  ℕ, ◌≡◌, refl, sym, ap, ◌∙◌, arith, true, false, [], ◌∷◌, ◌++◌, flip, if◌then◌else◌, Bool-cases,
  inl, inr, All,
}
use qblaze.Angle.{Angle}
use qblaze.Angle.Group.{add_comm}
use qblaze.Control.{Control, Qubit, uses}
use qblaze.Control.Meaning.{satisfied, IsControl, same}
use qblaze.Angle.Round.{OnGrid}
use qblaze.Sfree.Gates.{
  Amplitude, IsExact, Element, with_val, with_bits, perform, Program, Compiled, stop, step, push,
  from_gate, sequence, partitioned,
}
use qblaze.Sfree.Ops.{Op, OpSeq, gphase, x, swap, op_writes}

-- What `compile_seq` asks of an operation: a sorted control that does not use the qubits that the
-- operation writes, and a phase on the grid of the precision.
abbrev pub HasPhase : ℕ → Op → Type 0
HasPhase prec (gphase a) = OnGrid prec a
HasPhase prec (x q) = Unit
HasPhase prec (swap q r) = Unit

abbrev pub IsApart : Control → Op → Type 0
IsApart ctl op = (q : Qubit) → uses ctl q ≡ true → op_writes op q ≡ false

abbrev pub IsValidOp : ℕ → Control × Op → Type 0
IsValidOp prec (ctl, op) = IsControl ctl × IsApart ctl op × HasPhase prec op

abbrev pub AreValid : ℕ → OpSeq → Type 0
AreValid prec ops = All (IsValidOp prec) ops

module _ (amp : Amplitude) where
  abbrev pub Elt : Type 0
  Elt = Element amp

  -- One queued operation, as the queue's callers mean it.
  unfoldable pub apply : Op → Elt → Elt
  apply (gphase a) e = with_val amp e (amp.times_phase a e.val)
  apply (x q) e = with_bits amp e (flip q e.bits)
  apply (swap q r) e =
      if same (e.bits q) (e.bits r) then e else with_bits amp e (flip r (flip q e.bits))

  unfoldable pub exec_one : Control × Op → Elt → Elt
  unfolding apply
  exec_one (ctl, op) e = let f = apply op e in if satisfied ctl e.bits then f else e

  unfoldable pub exec : OpSeq → Elt → Elt
  exec [] e = e
  exec (o ∷ ops) e = exec ops (exec_one o e)

  -- The compiled program on one element: a partition sends it to the branch of its bit.
  unfoldable mutual
    pub run_one : Compiled → Elt → Elt
    run_one (from_gate g) e = perform amp g e
    run_one (sequence r) e = run r e
    run_one (partitioned q r0 r1) e =
        let e0 = run r0 e in let e1 = run r1 e in if e.bits q then e1 else e0

    pub run : Program → Elt → Elt
    run stop e = e
    run (step c r) e = run r (run_one c e)

  pub Element_ext : (e f : Elt) → ((q : Qubit) → e.bits q ≡ f.bits q) → e.val ≡ f.val → e ≡ f
  Element_ext e f h k = λ i. record { bits = λ q. h q i; val = k i }

  -- Multiplying the amplitude by a phase.
  abbrev pub shift : Angle → Elt → Elt
  shift a e = with_val amp e (amp.times_phase a e.val)

  pub run-push : (r : Program) (c : Compiled) (e : Elt) → run (push r c) e ≡ run_one c (run r e)
  unfolding run push
  run-push stop c e = refl
  run-push (step d r) c e = run-push r c (run_one d e)

  pub exec-append : (ops ops' : OpSeq) (e : Elt) → exec (ops ++ ops') e ≡ exec ops' (exec ops e)
  unfolding exec
  exec-append [] ops' e = refl
  exec-append (o ∷ ops) ops' e = exec-append ops ops' (exec_one o e)

  -- An operation changes only the qubits that it writes.
  pub bits-exec_one :
      (ctl : Control) (op : Op) (e : Elt) (q : Qubit)
      → op_writes op q ≡ false
      → (exec_one (ctl, op) e).bits q ≡ e.bits q
  unfolding exec_one op_writes
  bits-exec_one ctl (gphase a) e q h = ground arith
  bits-exec_one ctl (x r) e q h = ground arith
  bits-exec_one ctl (swap r s) e q h = ground arith

  module _ (exact : IsExact amp) where
    pub phase_swap :
        (a b : Angle) (v : amp.Value)
        → amp.times_phase a (amp.times_phase b v) ≡ amp.times_phase b (amp.times_phase a v)
    phase_swap a b v =
        sym (exact.phase_add a b v)
        ∙ ap (λ c. amp.times_phase c v) (add_comm a b)
        ∙ exact.phase_add b a v

    pub exec_one-shift :
        (o : Control × Op) (a : Angle) (e : Elt) → exec_one o (shift a e) ≡ shift a (exec_one o e)
    unfolding exec_one
    exec_one-shift (ctl, gphase b) a e = elim (Bool-cases (satisfied ctl e.bits)) [
      | inl asked ↦ rw asked (λ i. record { bits = e.bits; val = phase_swap b a e.val i })
      | inr not_asked ↦ rw not_asked
    ]
    exec_one-shift (ctl, x q) a e = elim (Bool-cases (satisfied ctl e.bits)) [
      | inl asked ↦ rw asked
      | inr not_asked ↦ rw not_asked
    ]
    exec_one-shift (ctl, swap q r) a e = elim (Bool-cases (satisfied ctl e.bits)) [
      | inl asked ↦ elim (Bool-cases (same (e.bits q) (e.bits r))) [
        | inl equal ↦ rw (asked, equal)
        | inr differ ↦ rw (asked, differ)
      ]
      | inr not_asked ↦ rw not_asked
    ]

    -- A global phase commutes with every operation.
    pub exec-shift :
        (ops : OpSeq) (a : Angle) (e : Elt) → exec ops (shift a e) ≡ shift a (exec ops e)
    unfolding exec
    exec-shift [] a e = refl
    exec-shift (o ∷ ops) a e = rw (exec_one-shift o a e) (exec-shift ops a (exec_one o e))
