-- ===== src/Sfree/Emit/Laws.antt =====
-- What each emitted gate does to an element, in exact arithmetic.
use qblaze.Base.{
  ℕ, ◌+◌, ◌<◌, ◌≡◌, refl, sym, ap, ◌∙◌, arith, Bool, true, false, List, [], ◌∷◌, Bits, flip,
  flip_all, xorb, if◌then◌else◌, ◌==◌, ==_iff, Bool-cases, inl, inr, member, length, leb,
}
use qblaze.Angle.{Angle, zero_angle, pi_1_4, pi_1_2, pi_3_4, pi, pi_5_4, pi_3_2, pi_7_4}
use qblaze.Angle.Round.{OnGrid, round_aligned}
use qblaze.Control.{Control, Qubit, always, uses}
use qblaze.Control.Meaning.{satisfied, satisfied_ext}
use qblaze.QubitSet
use qblaze.QubitSet.{QubitSet, contains, IsValid}
use qblaze.QubitSet.Iter.{qubits_of_words}
use qblaze.QubitSet.Traversal.{Ascending, iter_lem, len-qubits_of_words}
use qblaze.Sfree.Gates.{
  Amplitude, IsExact, with_val, with_bits, perform, Gate, x, swap, p, multi_x, pz, ps, psdg, pt,
  pt3, pt5, ptdg,
}
use qblaze.Sfree.Meaning.{Elt, run, run_one, run-push, shift, Element_ext}
use qblaze.Sfree.Emit.{
  Out, make_controlled, emit, phase_gate, push_phase, push_toggle_one, push_toggles,
  push_toggle_many, push_swap, write, write_all,
}

not-member_below : (lo q : ℕ) (qs : List Qubit) → Ascending lo qs → q < lo → member q qs ≡ false
not-member_below lo q [] a h = refl
not-member_below lo q (r ∷ qs) a h = ground (arith, not-member_below (r + 1) q qs a.1 (omega arith))

module _ (amp : Amplitude) where
  -- A gate under a control.
  run-make_controlled :
      (ctl : Control) (g : Gate) (e : Elt amp)
      → run_one amp (make_controlled ctl g) e
        ≡ (if satisfied ctl e.bits then perform amp g e else e)
  unfolding make_controlled run_one perform satisfied
  run-make_controlled [] g e = refl
  run-make_controlled (c ∷ []) g e = ground arith
  run-make_controlled (c ∷ d ∷ cs) g e = refl

  run-emit :
      (o : Out) (ctl : Control) (g : Gate) (e : Elt amp)
      → run amp (emit o ctl g).program e
        ≡ (let f = run amp o.program e in if satisfied ctl f.bits then perform amp g f else f)
  run-emit o ctl g e =
      run-push amp o.program (make_controlled ctl g) e
      ∙ run-make_controlled ctl g (run amp o.program e)

  module _ (exact : IsExact amp) where
    abbrev Performs : Gate → Angle → Type 0
    Performs g a = (e : Elt amp) → perform amp g e ≡ shift amp a e

    choose :
        (a c : Angle) (g h : Gate)
        → Performs g c
        → Performs h a
        → Performs (if a == c then g else h) a
    choose a c g h at_c at_a e = elim (Bool-cases (a == c)) [
      | inl equal ↦
          let same_angle : c ≡ a = sym ((==_iff a c).0 equal) in
          rw equal (at_c e ∙ ap (λ d. shift amp d e) same_angle)
      | inr other ↦ rw other (at_a e)
    ]

    -- At an angle that rounding does not change, the chosen gate multiplies by its phase.
    perform-phase_gate : (a : Angle) → Performs (phase_gate a a) a
    unfolding perform phase_gate
    perform-phase_gate a =
        choose a pi_1_4 pt _ (λ e. ap (with_val amp e) (exact.mul_t_phase e.val))
          (choose a pi_1_2 ps _ (λ e. ap (with_val amp e) (exact.mul_i_phase e.val))
            (choose a pi_3_4 pt3 _ (λ e. ap (with_val amp e) (exact.mul_t3_phase e.val))
              (choose a pi pz _ (λ e. ap (with_val amp e) (exact.negate_phase e.val))
                (choose a pi_5_4 pt5 _ (λ e. ap (with_val amp e) (exact.mul_t5_phase e.val))
                  (choose a pi_3_2 psdg _ (λ e. ap (with_val amp e) (exact.div_i_phase e.val))
                    (choose a pi_7_4 ptdg (p a)
                      (λ e. ap (with_val amp e) (exact.mul_tdg_phase e.val)) (λ e. refl)))))))

    -- In exact arithmetic `push_phase` of an angle on the grid multiplies by its phase exactly the
    -- elements that satisfy the control, whichever of the gates it chooses and when it emits none.
    pub run-push_phase :
        (o : Out) (ctl : Control) (a : Angle) (prec : ℕ) (e : Elt amp)
        → OnGrid prec a
        → run amp (push_phase o ctl a prec).program e
          ≡ (let f = run amp o.program e in if satisfied ctl f.bits then shift amp a f else f)
    unfolding push_phase
    run-push_phase o ctl a prec e grid = elim (Bool-cases (a == zero_angle)) [
      | inl nothing ↦
          let e0 : a ≡ 0 = (==_iff a 0).0 nothing in
          rw (round_aligned a prec grid, nothing)
            (sym (no_phase (run amp o.program e) a e0 (satisfied ctl (run amp o.program e).bits)))
      | inr something ↦
          rw (round_aligned a prec grid, something)
            (rw (run-emit o ctl (phase_gate a a) e, perform-phase_gate a (run amp o.program e)))
    ]
      where
        no_phase :
            (f : Elt amp) (a : Angle) → a ≡ 0 → (b : Bool) → (if b then shift amp a f else f) ≡ f
        no_phase f a h true = rw h (λ i. record { bits = f.bits; val = exact.phase_zero f.val i })
        no_phase f a h false = refl

  -- `push_toggle_one` flips the qubit under the control.
  pub run-push_toggle_one :
      (o : Out) (ctl : Control) (q : Qubit) (e : Elt amp)
      → run amp (push_toggle_one o ctl q).program e ≡ (
          let f = run amp o.program e in
          if satisfied ctl f.bits then with_bits amp f (flip q f.bits) else f)
  unfolding push_toggle_one perform
  run-push_toggle_one o ctl q e =
      let written : Out = record { stat = write o.stat q; program = o.program } in
      run-emit written ctl (x q) e

  pub run-push_swap :
      (o : Out) (ctl : Control) (q r : Qubit) (e : Elt amp)
      → run amp (push_swap o ctl q r).program e ≡ (
          let f = run amp o.program e in
          if satisfied ctl f.bits then perform amp (swap q r) f else f)
  unfolding push_swap
  run-push_swap o ctl q r e =
      let written : Out = record { stat = write (write o.stat q) r; program = o.program } in
      run-emit written ctl (swap q r) e

  -- Flipping every qubit of an ascending list under a control that uses none of them flips the
  -- members of the list.
  run-push_toggles :
      (lo : ℕ) (qs : List Qubit) (o : Out) (ctl : Control) (e : Elt amp)
      → Ascending lo qs
      → ((q : Qubit) → uses ctl q ≡ true → member q qs ≡ false)
      → run amp (push_toggles o ctl qs).program e ≡ (
          let f = run amp o.program e in
          if satisfied ctl f.bits then with_bits amp f (flip_all (λ q. member q qs) f.bits) else f)
  run-push_toggles lo [] o ctl e a apart =
      elim (Bool-cases (satisfied ctl (run amp o.program e).bits)) [
        | inl on ↦ rw on (Element_ext amp _ _ (λ r. ground arith) refl)
        | inr off ↦ rw off refl
      ]
  run-push_toggles lo (q ∷ qs) o ctl e a apart =
      let f = run amp o.program e in
      let next = push_toggle_one o ctl q in
      let later =
        run-push_toggles (q + 1) qs next ctl e a.1 (λ r used. ground (arith, apart r used)) in
      elim (Bool-cases (satisfied ctl f.bits)) [
        | inl on ↦
            let same_control : satisfied ctl (flip q f.bits) ≡ true =
              satisfied_ext ctl (flip q f.bits) f.bits (λ r used. ground (arith, apart r used))
              ∙ on in
            later
            ∙ rw (run-push_toggle_one o ctl q e, on, same_control)
                (Element_ext amp _ _ (λ r. ground (arith, not-member_below (q + 1) q qs a.1)) refl)
        | inr off ↦ later ∙ rw (run-push_toggle_one o ctl q e, off, off) refl
      ]

  -- `push_toggle_many` of a valid set, under a control that uses no qubit of the set, flips
  -- exactly the qubits of the set in the elements that satisfy the control, and leaves the others,
  -- whether it emits no gate, one gate per qubit or one gate for all of them.
  pub run-push_toggle_many :
      (n_words : ℕ) (o : Out) (ctl : Control) (s : QubitSet) (e : Elt amp)
      → IsValid s
      → ((q : Qubit) → uses ctl q ≡ true → contains s q ≡ false)
      → run amp (push_toggle_many n_words o ctl s).program e ≡ (
          let f = run amp o.program e in
          if satisfied ctl f.bits then with_bits amp f (flip_all (contains s) f.bits) else f)
  unfolding push_toggle_many
  run-push_toggle_many n_words o ctl s e v apart =
      let (ascends, members) = iter_lem s v in
      let qs = qubits_of_words s.words in
      let f = run amp o.program e in
      let as_set : with_bits amp f (flip_all (λ q. member q qs) f.bits)
          ≡ with_bits amp f (flip_all (contains s) f.bits) =
        Element_ext amp _ _ (λ r. rw (members r)) refl in
      elim (Bool-cases (QubitSet.len s == 0)) [
        | inl none_left ↦
            let unchanged : f ≡ with_bits amp f (flip_all (contains s) f.bits) =
              Element_ext amp _ _
                (λ r.
                  rw (← members r)
                    (no_member qs r (ground (arith, len-qubits_of_words s v)) f.bits))
                refl in
            elim (Bool-cases (satisfied ctl f.bits)) [
              | inl on ↦ rw (none_left, on) unchanged
              | inr off ↦ rw (none_left, off) refl
            ]
        | inr some_left ↦ elim (Bool-cases (leb n_words (QubitSet.len s))) [
          | inl many ↦
              let written : Out = record { stat = write_all o.stat qs; program = o.program } in
              rw (some_left, many)
                (run-emit written ctl (multi_x s) e
                  ∙ (unfold perform in ap (λ g. if satisfied ctl f.bits then g else f) as_set))
          | inr few ↦
              rw (some_left, few)
                (run-push_toggles 0 qs o ctl e ascends (λ q used. members q ∙ apart q used)
                  ∙ ap (λ g. if satisfied ctl f.bits then g else f) as_set)
        ]
      ]
    where
      no_member :
          (qs : List Qubit) (r : Qubit)
          → length qs ≡ 0
          → (b : Bits) → b r ≡ xorb (member r qs) (b r)
      no_member [] r h b = refl
      no_member (q ∷ qs) r h b = absurd (omega arith)

  -- Without a control every element is flipped.
  pub run-push_toggle_many-always :
      (n_words : ℕ) (o : Out) (s : QubitSet) (e : Elt amp)
      → IsValid s
      → run amp (push_toggle_many n_words o always s).program e
        ≡ (let f = run amp o.program e in with_bits amp f (flip_all (contains s) f.bits))
  unfolding satisfied uses
  run-push_toggle_many-always n_words o s e v =
      run-push_toggle_many n_words o always s e v (λ q used. absurd (cc))
