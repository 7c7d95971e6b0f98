-- ===== src/Sfree/Split/Laws/Sound.antt =====
-- `try_partition` never panics on valid operations, and a partition that it returns is sound.
use qblaze.Base.{
  ℕ, suc, zero, ◌+◌, ◌<◌, ◌≡◌, ◌⊎◌, inl, inr, refl, sym, ap, ◌∙◌, arith, Bool, true, false, ◌||◌,
  List, [], ◌∷◌, map, ltb, length, take, drop, All, All-drop, take-append-drop, Option, none, some,
  ok, Bool-cases, ==_refl, ◌==◌,
}
use qblaze.Control.{Control, Qubit, qubit, uses, without_qubit}
use qblaze.Control.Lookup.{without_qubit_lem}
use qblaze.Sfree.Gates.{Amplitude}
use qblaze.Sfree.Ops.{Op, OpSeq, weight}
use qblaze.Sfree.Meaning.{Elt, exec, exec_one, exec-append, bits-exec_one, AreValid, IsValidOp}
use qblaze.Sfree.Split.{
  Branches, Partition, place_first, split_at, try_partition, select_control, least_len,
}
use qblaze.Sfree.Split.Laws.{
  pick, Unwritten, IsChoice, IsSound, split_loop_lem, select_loop_lem, exec-skip, exec-match,
}

weight-take-drop : (n : ℕ) (ops : OpSeq) → weight (take n ops) + weight (drop n ops) ≡ weight ops
unfolding weight
weight-take-drop zero ops = omega arith
weight-take-drop (suc n) [] = omega arith
weight-take-drop (suc n) ((c, op) ∷ ops) = omega (arith, weight-take-drop n ops)

module _ (amp : Amplitude) (prec : ℕ) (ctl : Control) (op : Op) (q : Qubit) where
  -- The first operation, which goes to one branch.
  record IsFirst (b : Branches) : Type 0 where
    valid0 : AreValid prec b.if0
    valid1 : AreValid prec b.if1
    light0 : weight b.if0 < suc (length ctl)
    light1 : weight b.if1 < suc (length ctl)
    means : (e : Elt amp) → exec amp (pick (e.bits q) b) e ≡ exec_one amp (ctl, op) e

  first_lem :
      IsValidOp prec (ctl, op)
      → uses ctl q ≡ true
      → (w : Option (Bool × Control)) × (b : Branches) × (without_qubit ctl q ≡ ok w)
        × (place_first op w ≡ ok b)
        × IsFirst b
  unfolding exec weight
  first_lem valid used = elim (without_qubit_lem ctl q valid.0) [
    | inl (none_there, unused) ↦ absurd (ground (arith, used, unused))
    | inr (true, r, there, _, sorted, gone, shorter, others, asks) ↦
        let b : Branches = record { if0 = []; if1 = (r, op) ∷ [] } in
        (
          some (true, r),
          b,
          there,
          refl,
          record {
            valid0 = tt;
            valid1 = ((sorted, (λ p u. valid.1 p (ground (arith, others p))), valid.2), tt);
            light0 = omega arith;
            light1 = omega arith;
            means = λ e. elim (Bool-cases (e.bits q)) [
              | inl one ↦ rw one (sym (exec-match amp prec q ctl r op e true one (asks e.bits)))
              | inr nought ↦
                  rw nought (sym (exec-skip amp prec q ctl r op e true nought (asks e.bits)))
            ];
          },
        )
    | inr (false, r, there, _, sorted, gone, shorter, others, asks) ↦
        let b : Branches = record { if0 = (r, op) ∷ []; if1 = [] } in
        (
          some (false, r),
          b,
          there,
          refl,
          record {
            valid0 = ((sorted, (λ p u. valid.1 p (ground (arith, others p))), valid.2), tt);
            valid1 = tt;
            light0 = omega arith;
            light1 = omega arith;
            means = λ e. elim (Bool-cases (e.bits q)) [
              | inl one ↦ rw one (sym (exec-skip amp prec q ctl r op e false one (asks e.bits)))
              | inr nought ↦
                  rw nought (sym (exec-match amp prec q ctl r op e false nought (asks e.bits)))
            ];
          },
        )
  ]

  split_at_lem :
      (ops : OpSeq) (n : ℕ)
      → IsValidOp prec (ctl, op)
      → AreValid prec ops
      → Unwritten q n ops
      → (n ≡ 0) ⊎ (uses ctl q ≡ true)
      → (split_at ctl op ops q n ≡ ok none)
        ⊎ ((part : Partition) × (split_at ctl op ops q n ≡ ok (some part))
            × IsSound amp prec ((ctl, op) ∷ ops) part)
  unfolding split_at exec weight
  split_at_lem ops n valid valids u from = elim (Bool-cases (ltb n least_len)) [
    | inl short ↦ inl (rw short)
    | inr long ↦
        let used : uses ctl q ≡ true = ground arith in
        let (w, b, there, placed, first) = first_lem valid used in
        let (b', loops, g) = split_loop_lem amp prec q n ops b valids first.valid0 first.valid1 u in
        let parts = weight-take-drop n ops in
        let part : Partition = record { on = q; branches = b'; after = drop n ops } in
        inr (
          part,
          rw (long, there, placed, loops),
          record {
            valid0 = g.valid0;
            valid1 = g.valid1;
            valid_after = All-drop (IsValidOp prec) n ops valids;
            light0 = omega (arith, g.light0, first.light0);
            light1 = omega (arith, g.light1, first.light1);
            light_after = omega arith;
            means = λ e.
                let kept : (exec amp (pick (e.bits q) b) e).bits q ≡ e.bits q =
                  ap (λ (t : Elt amp). t.bits q) (first.means e)
                  ∙ bits-exec_one amp ctl op e q (valid.1 q used) in
                let through =
                  g.means (e.bits q) e kept ∙ ap (exec amp (take n ops)) (first.means e) in
                ap (λ l. exec amp l (exec_one amp (ctl, op) e)) (sym (take-append-drop n ops))
                ∙ exec-append amp (take n ops) (drop n ops) (exec_one amp (ctl, op) e)
                ∙ ap (exec amp (drop n ops)) (sym through);
          },
        )
  ]

-- Every qubit of a control is used by it.
uses-All : (ctl : Control) → All (λ q. uses ctl q ≡ true) (map qubit ctl)
unfolding uses
uses-All [] = tt
uses-All (c ∷ cs) = (rw (==_refl (qubit c)), weaken (map qubit cs) (uses-All cs))
  where
    weaken :
        (qs : List Qubit)
        → All (λ q. uses cs q ≡ true) qs
        → All (λ q. (qubit c == q || uses cs q) ≡ true) qs
    weaken [] h = tt
    weaken (q ∷ qs) h = (rw h.0 (or_true (qubit c == q)), weaken qs h.1)
      where
        or_true : (b : Bool) → (b || true) ≡ true
        or_true true = refl
        or_true false = refl

-- On valid operations `try_partition` never panics: it finds nothing, or a partition whose
-- branches and rest are smaller and valid, and through which every element runs as through the
-- operations.
pub try_partition_lem :
    (amp : Amplitude) (prec : ℕ) (ctl : Control) (op : Op) (ops : OpSeq)
    → IsValidOp prec (ctl, op)
    → AreValid prec ops
    → (try_partition ctl op ops ≡ ok none)
      ⊎ ((part : Partition) × (try_partition ctl op ops ≡ ok (some part))
          × IsSound amp prec ((ctl, op) ∷ ops) part)
unfolding try_partition
try_partition_lem amp prec ctl op [] valid valids = inl refl
try_partition_lem amp prec ctl op (o ∷ ops) valid valids =
    let r = select_control (map qubit ctl) (o ∷ ops) in
    let choice : IsChoice (λ q. uses ctl q ≡ true) (o ∷ ops) r =
      unfold select_control in
      select_loop_lem (λ q. uses ctl q ≡ true) (map qubit ctl) (o ∷ ops) 2 0 0 (uses-All ctl)
        (record { clean = tt; from = inl refl }) in
    split_at_lem amp prec ctl op r.0 (o ∷ ops) r.1 valid valids choice.clean choice.from
