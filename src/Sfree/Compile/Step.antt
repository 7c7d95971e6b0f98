-- ===== src/Sfree/Compile/Step.antt =====
-- One operation that is compiled by itself: the state stands for the same element as before, with
-- the operation applied.
use qblaze.Base.{
  ℕ, ◌≡◌, inl, inr, refl, ap, ◌∙◌, arith, Bool, true, false, not, ◌&&◌, ◌||◌, [], ◌∷◌, Bits, flip,
  flip_all, xorb, if◌then◌else◌, ◌==◌, Bool-cases, ==_refl,
}
use qblaze.Angle.{Angle}
use qblaze.Angle.Round.{OnGrid, OnGrid-add}
use qblaze.Control.{Control, Qubit, always, is_always, uses, inplace_toggle_if}
use qblaze.Control.Meaning.{satisfied, same, satisfied_ext, satisfied-inplace_toggle_if}
use qblaze.QubitSet
use qblaze.QubitSet.{QubitSet, contains, insert, remove}
use qblaze.QubitSet.Laws.{contains-insert, contains-remove, insert-IsValid, remove-IsValid}
use qblaze.Sfree.Gates.{Amplitude, IsExact, Element, with_val, with_bits, perform}
use qblaze.Sfree.Gates as Gates
use qblaze.Sfree.Ops.{Op, gphase, x, swap, op_writes}
use qblaze.Sfree.Meaning.{Elt, exec_one, apply, run, Element_ext, phase_swap, IsValidOp}
use qblaze.Sfree.Emit.{push_toggle_one, push_swap}
use qblaze.Sfree.Emit.Laws.{run-push_phase, run-push_toggle_one, run-push_swap}
use qblaze.Sfree.Compile.{
  Acc, out, with_out, with_toggled, toggle, step_always, step_controlled, step_one,
}

-- The invariant of the local variables.
pub record IsState (prec : ℕ) (s : Acc) : Type 0 where
  pub toggled_valid : QubitSet.IsValid s.toggled
  pub phase_grid : OnGrid prec s.phase

-- The element that the toggles and the global phase make of an element of the register.
abbrev pub view : (amp : Amplitude) → QubitSet → Angle → Elt amp → Elt amp
view amp t a f = record { bits = flip_all (contains t) f.bits; val = amp.times_phase a f.val }

-- What a state means for an element before the program.
abbrev pub sem : (amp : Amplitude) → Acc → Elt amp → Elt amp
sem amp s e = view amp s.toggled s.phase (run amp s.program e)

toggle-IsValid : (t : QubitSet) (q : Qubit) → QubitSet.IsValid t → QubitSet.IsValid (toggle t q)
unfolding toggle
toggle-IsValid t q v = elim (Bool-cases (remove t q).1) [
  | inl was ↦ rw was (remove-IsValid t q v)
  | inr was_not ↦ rw was_not (insert-IsValid (remove t q).0 q (remove-IsValid t q v))
]

contains-toggle :
    (t : QubitSet) (q r : Qubit)
    → QubitSet.IsValid t
    → contains (toggle t q) r ≡ xorb (q == r) (contains t r)
unfolding toggle
contains-toggle t q r v =
    let (gone, was) = contains-remove t q r v in
    let put_back = contains-insert (remove t q).0 q r (remove-IsValid t q v) in
    elim (Bool-cases (remove t q).1) [
      | inl there ↦ rw there (ground arith)
      | inr absent ↦ rw absent (ground arith)
    ]

-- Moving a toggle from one qubit to another.
contains-move :
    (t : QubitSet) (q1 q2 r : Qubit)
    → QubitSet.IsValid t
    → contains (insert (remove t q1).0 q2) r ≡ (q2 == r || (not (q1 == r) && contains t r))
contains-move t q1 q2 r v =
    rw (contains-insert (remove t q1).0 q2 r (remove-IsValid t q1 v), (contains-remove t q1 r v).0)

module _ (amp : Amplitude) (exact : IsExact amp) (prec : ℕ) where
  -- A state and an operation after which the state means the same element, operated on.
  pub record Goes (s s' : Acc) (ctl : Control) (op : Op) : Type 0 where
    pub state : IsState prec s'
    pub means : (e : Elt amp) → sem amp s' e ≡ exec_one amp (ctl, op) (sem amp s e)

  step_always_gphase :
      (s : Acc) (a : Angle)
      → IsState prec s
      → OnGrid prec a
      → Goes s (step_always s (gphase a)) [] (gphase a)
  unfolding step_always exec_one satisfied
  step_always_gphase s a st grid = record {
    state = record {
      toggled_valid = st.toggled_valid;
      phase_grid = OnGrid-add prec st.phase_grid grid;
    };
    means = λ e.
        let f = run amp s.program e in
        λ i. record {
          bits = flip_all (contains s.toggled) f.bits;
          val = (exact.phase_add s.phase a f.val ∙ phase_swap amp exact s.phase a f.val) i;
        };
  }

  step_always_x : (s : Acc) (q : Qubit) → IsState prec s → Goes s (step_always s (x q)) [] (x q)
  unfolding step_always exec_one satisfied
  step_always_x s q st = record {
    state = record {
      toggled_valid = toggle-IsValid s.toggled q st.toggled_valid;
      phase_grid = st.phase_grid;
    };
    means = λ e.
        let f = run amp s.program e in
        Element_ext amp _ _ (λ r. ground (arith, contains-toggle s.toggled q r st.toggled_valid))
          refl;
  }

-- The qubits that are toggled after an uncontrolled swap.
abbrev swapped_toggles : QubitSet → Qubit → Qubit → QubitSet
swapped_toggles t q1 q2 =
    if contains t q1 && not (contains t q2)
    then insert (remove t q1).0 q2
    else if contains t q2 && not (contains t q1)
    then insert (remove t q2).0 q1
    else t

abbrev swap_bits : Qubit → Qubit → Bits → Bits
swap_bits q1 q2 b r = if same (b q1) (b q2) then b r else flip q2 (flip q1 b) r

swap_value :
    (q1 q2 : Qubit) (b : Bits) (r : Qubit)
    → swap_bits q1 q2 b r ≡ (if q1 == r then b q2 else if q2 == r then b q1 else b r)
swap_value q1 q2 b r = ground arith

contains-swapped_toggles :
    (t : QubitSet) (q1 q2 r : Qubit)
    → QubitSet.IsValid t
    → contains (swapped_toggles t q1 q2) r
      ≡ (if q1 == r then contains t q2 else if q2 == r then contains t q1 else contains t r)
contains-swapped_toggles t q1 q2 r v = elim (Bool-cases (contains t q1)) [
  | inl one ↦ elim (Bool-cases (contains t q2)) [
    | inl both ↦ rw (one, both) (ground arith)
    | inr only ↦ rw (one, only, contains-move t q1 q2 r v) (ground arith)
  ]
  | inr no_one ↦ elim (Bool-cases (contains t q2)) [
    | inl only ↦ rw (no_one, only, contains-move t q2 q1 r v) (ground arith)
    | inr neither ↦ rw (no_one, neither) (ground arith)
  ]
]

swapped_toggles-IsValid :
    (t : QubitSet) (q1 q2 : Qubit) → QubitSet.IsValid t → QubitSet.IsValid (swapped_toggles t q1 q2)
swapped_toggles-IsValid t q1 q2 v =
    choose (contains t q1 && not (contains t q2)) (contains t q2 && not (contains t q1))
  where
    choose :
        (a b : Bool)
        → QubitSet.IsValid
            (if a then insert (remove t q1).0 q2 else if b then insert (remove t q2).0 q1 else t)
    choose true b = insert-IsValid (remove t q1).0 q2 (remove-IsValid t q1 v)
    choose false true = insert-IsValid (remove t q2).0 q1 (remove-IsValid t q2 v)
    choose false false = v

module _ (amp : Amplitude) where
  bits-swap :
      (q1 q2 : Qubit) (f : Elt amp) (r : Qubit)
      → (perform amp (Gates.swap q1 q2) f).bits r
        ≡ (if q1 == r then f.bits q2 else if q2 == r then f.bits q1 else f.bits r)
  unfolding perform
  bits-swap q1 q2 f r = elim (Bool-cases (same (f.bits q1) (f.bits q2))) [
    | inl equal ↦ rw equal (ground arith)
    | inr differ ↦ rw differ (ground arith)
  ]

  val-swap : (q1 q2 : Qubit) (f : Elt amp) → (perform amp (Gates.swap q1 q2) f).val ≡ f.val
  unfolding perform
  val-swap q1 q2 f = elim (Bool-cases (same (f.bits q1) (f.bits q2))) [
    | inl equal ↦ rw equal
    | inr differ ↦ rw differ
  ]

  -- The queued swap is the gate.
  apply-swap :
      (q1 q2 : Qubit) (f : Elt amp) → apply amp (swap q1 q2) f ≡ perform amp (Gates.swap q1 q2) f
  unfolding apply perform
  apply-swap q1 q2 f = refl

  -- A swap of the bits of the register, with the toggles swapped too, swaps what they stand for.
  view-swap :
      (t t' : QubitSet) (a : Angle) (q1 q2 : Qubit) (f : Elt amp)
      → ((r : Qubit)
          → contains t' r
            ≡ (if q1 == r then contains t q2 else if q2 == r then contains t q1 else contains t r))
      → view amp t' a (perform amp (Gates.swap q1 q2) f) ≡ apply amp (swap q1 q2) (view amp t a f)
  view-swap t t' a q1 q2 f h = rw (apply-swap q1 q2 (view amp t a f)) (
      Element_ext amp _ _
        (λ r. rw (h r, bits-swap q1 q2 f r, bits-swap q1 q2 (view amp t a f) r) (ground arith))
        (rw (val-swap q1 q2 f, val-swap q1 q2 (view amp t a f))))

module _ (amp : Amplitude) (exact : IsExact amp) (prec : ℕ) where
  step_always_swap :
      (s : Acc) (q1 q2 : Qubit)
      → IsState prec s
      → Goes amp exact prec s (step_always s (swap q1 q2)) [] (swap q1 q2)
  unfolding step_always exec_one satisfied
  step_always_swap s q1 q2 st = record {
    state = record {
      toggled_valid = swapped_toggles-IsValid s.toggled q1 q2 st.toggled_valid;
      phase_grid = st.phase_grid;
    };
    means = λ e.
        let f = run amp s.program e in
        let t = swapped_toggles s.toggled q1 q2 in
        ap (view amp t s.phase) (run-push_swap amp (out s) always q1 q2 e)
        ∙ view-swap amp s.toggled t s.phase q1 q2 f
            (λ r. contains-swapped_toggles s.toggled q1 q2 r st.toggled_valid);
  }

  step_always_lem :
      (s : Acc) (op : Op)
      → IsState prec s
      → IsValidOp prec ([], op)
      → Goes amp exact prec s (step_always s op) [] op
  step_always_lem s (gphase a) st valid = step_always_gphase amp exact prec s a st valid.2
  step_always_lem s (x q) st valid = step_always_x amp exact prec s q st
  step_always_lem s (swap q1 q2) st valid = step_always_swap s q1 q2 st

  -- Under a control the items are toggled first, and then ask of the register what the control asks.
  module _ (s : Acc) (ctl : Control) (st : IsState prec s) where
    abbrev ctl' : Control
    ctl' = inplace_toggle_if (contains s.toggled) ctl

    asks :
        (e : Elt amp) → satisfied ctl' e.bits ≡ satisfied ctl (flip_all (contains s.toggled) e.bits)
    asks e = satisfied-inplace_toggle_if (contains s.toggled) e.bits ctl

    step_controlled_gphase :
        (a : Angle)
        → OnGrid prec a
        → Goes amp exact prec s (step_controlled prec s ctl' (gphase a)) ctl (gphase a)
    unfolding step_controlled exec_one
    step_controlled_gphase a grid = record {
      state = record { toggled_valid = st.toggled_valid; phase_grid = st.phase_grid };
      means = λ e.
          let f = run amp s.program e in
          ap (view amp s.toggled s.phase) (run-push_phase amp exact (out s) ctl' a prec e grid)
          ∙ (elim (Bool-cases (satisfied ctl (flip_all (contains s.toggled) f.bits))) [
            | inl asked ↦
                rw (asks f, asked)
                  (λ i. record {
                    bits = flip_all (contains s.toggled) f.bits;
                    val = phase_swap amp exact s.phase a f.val i;
                  })
            | inr unasked ↦ rw (asks f, unasked)
          ]);
    }

    step_controlled_x :
        (q : Qubit) → Goes amp exact prec s (step_controlled prec s ctl' (x q)) ctl (x q)
    unfolding step_controlled exec_one
    step_controlled_x q = record {
      state = record { toggled_valid = st.toggled_valid; phase_grid = st.phase_grid };
      means = λ e.
          let f = run amp s.program e in
          ap (view amp s.toggled s.phase) (run-push_toggle_one amp (out s) ctl' q e)
          ∙ (elim (Bool-cases (satisfied ctl (flip_all (contains s.toggled) f.bits))) [
            | inl asked ↦ rw (asks f, asked) (Element_ext amp _ _ (λ r. ground arith) refl)
            | inr unasked ↦ rw (asks f, unasked)
          ]);
    }

    -- Both qubits of the swap are toggled, or neither: the toggles stay.
    step_controlled_swap_even :
        (q1 q2 : Qubit)
        → xorb (contains s.toggled q1) (contains s.toggled q2) ≡ false
        → Goes amp exact prec s (step_controlled prec s ctl' (swap q1 q2)) ctl (swap q1 q2)
    unfolding step_controlled exec_one
    step_controlled_swap_even q1 q2 even = rw even (record {
      state = record { toggled_valid = st.toggled_valid; phase_grid = st.phase_grid };
      means = λ e.
          let f = run amp s.program e in
          let alike : (r : Qubit)
              → contains s.toggled r ≡ (
                  if q1 == r
                  then contains s.toggled q2
                  else if q2 == r
                  then contains s.toggled q1
                  else contains s.toggled r) =
            λ r. ground arith in
          ap (view amp s.toggled s.phase) (run-push_swap amp (out s) ctl' q1 q2 e)
          ∙ (elim (Bool-cases (satisfied ctl (flip_all (contains s.toggled) f.bits))) [
            | inl asked ↦
                rw (asks f, asked) (view-swap amp s.toggled s.toggled s.phase q1 q2 f alike)
            | inr unasked ↦ rw (asks f, unasked)
          ]);
    })

    -- A toggled qubit of a controlled swap is flipped in the register first.
    module _ (q : Qubit) (there : contains s.toggled q ≡ true) where
      abbrev flushed : Acc
      flushed = with_out (with_toggled s (remove s.toggled q).0) (push_toggle_one (out s) always q)

      flushed-IsState : IsState prec flushed
      flushed-IsState = record {
        toggled_valid = remove-IsValid s.toggled q st.toggled_valid;
        phase_grid = st.phase_grid;
      }

      sem-flushed : (e : Elt amp) → sem amp flushed e ≡ sem amp s e
      unfolding satisfied
      sem-flushed e =
          let f = run amp s.program e in
          ap (view amp (remove s.toggled q).0 s.phase) (run-push_toggle_one amp (out s) always q e)
          ∙ Element_ext amp _ _
              (λ r. ground (arith, (contains-remove s.toggled q r st.toggled_valid).0)) refl

      asks_flushed :
          (e : Elt amp)
          → uses ctl q ≡ false
          → satisfied ctl' e.bits
            ≡ satisfied ctl (flip_all (contains (remove s.toggled q).0) e.bits)
      asks_flushed e unused =
          asks e
          ∙ satisfied_ext ctl _ _
              (λ r used. ground (arith, (contains-remove s.toggled q r st.toggled_valid).0))

      swap_flushed :
          (q1 q2 : Qubit)
          → uses ctl q ≡ false
          → contains (remove s.toggled q).0 q1 ≡ contains (remove s.toggled q).0 q2
          → Goes amp exact prec s
              (with_out flushed (push_swap (out flushed) ctl' q1 q2))
              ctl
              (swap q1 q2)
      unfolding exec_one
      swap_flushed q1 q2 unused alike = record {
        state = record {
          toggled_valid = remove-IsValid s.toggled q st.toggled_valid;
          phase_grid = st.phase_grid;
        };
        means = λ e.
            let f = run amp flushed.program e in
            let t = (remove s.toggled q).0 in
            let both : (r : Qubit)
                → contains t r ≡ (
                    if q1 == r
                    then contains t q2
                    else if q2 == r
                    then contains t q1
                    else contains t r) =
              λ r. ground arith in
            let pushed : view amp t s.phase (run amp (push_swap (out flushed) ctl' q1 q2).program e)
                ≡ exec_one amp (ctl, swap q1 q2) (view amp t s.phase f) =
              ap (view amp t s.phase) (run-push_swap amp (out flushed) ctl' q1 q2 e)
              ∙ (elim (Bool-cases (satisfied ctl (flip_all (contains t) f.bits))) [
                | inl asked ↦
                    rw (asks_flushed f unused, asked) (view-swap amp t t s.phase q1 q2 f both)
                | inr unasked ↦ rw (asks_flushed f unused, unasked)
              ]) in
            pushed ∙ ap (exec_one amp (ctl, swap q1 q2)) (sem-flushed e);
      }

    step_controlled_swap_odd :
        (q1 q2 : Qubit)
        → IsValidOp prec (ctl, swap q1 q2)
        → xorb (contains s.toggled q1) (contains s.toggled q2) ≡ true
        → Goes amp exact prec s (step_controlled prec s ctl' (swap q1 q2)) ctl (swap q1 q2)
    unfolding step_controlled op_writes
    step_controlled_swap_odd q1 q2 valid odd =
        let apart : (q : Qubit) → uses ctl q ≡ true → (q1 == q || q2 == q) ≡ false = valid.1 in
        elim (Bool-cases (contains s.toggled q1)) [
          | inl first ↦
              let not_second : contains s.toggled q2 ≡ false = ground arith in
              let unused : uses ctl q1 ≡ false = ground (arith, apart q1, ==_refl q1) in
              rw (odd, first)
                (swap_flushed q1 first q1 q2 unused (
                  ground (
                    arith,
                    (contains-remove s.toggled q1 q1 st.toggled_valid).0,
                    (contains-remove s.toggled q1 q2 st.toggled_valid).0,
                  )))
          | inr not_first ↦
              let second : contains s.toggled q2 ≡ true = ground arith in
              let unused : uses ctl q2 ≡ false = ground (arith, apart q2, ==_refl q2) in
              rw (odd, not_first)
                (swap_flushed q2 second q1 q2 unused (
                  ground (
                    arith,
                    (contains-remove s.toggled q2 q1 st.toggled_valid).0,
                    (contains-remove s.toggled q2 q2 st.toggled_valid).0,
                  )))
        ]

    step_controlled_lem :
        (op : Op)
        → IsValidOp prec (ctl, op)
        → Goes amp exact prec s (step_controlled prec s ctl' op) ctl op
    step_controlled_lem (gphase a) valid = step_controlled_gphase a valid.2
    step_controlled_lem (x q) valid = step_controlled_x q
    step_controlled_lem (swap q1 q2) valid =
        elim (Bool-cases (xorb (contains s.toggled q1) (contains s.toggled q2))) [
          | inl odd ↦ step_controlled_swap_odd q1 q2 valid odd
          | inr even ↦ step_controlled_swap_even q1 q2 even
        ]

  -- In exact arithmetic a valid operation that is compiled by itself, under any control, keeps the
  -- invariant of the state, and the state after it means what the state before it means, with the
  -- operation applied.
  pub step_one_lem :
      (s : Acc) (ctl : Control) (op : Op)
      → IsState prec s
      → IsValidOp prec (ctl, op)
      → Goes amp exact prec s (step_one prec s ctl op) ctl op
  unfolding step_one is_always
  step_one_lem s [] op st valid = step_always_lem s op st valid
  step_one_lem s (c ∷ cs) op st valid = step_controlled_lem s (c ∷ cs) st op valid
