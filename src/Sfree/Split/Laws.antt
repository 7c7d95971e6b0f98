-- ===== src/Sfree/Split/Laws.antt =====
-- A partition is sound: its qubit is a control of the first operation and is not written, and each
-- element goes through the branch of its bit as through the operations themselves.
pub mod Sound
use qblaze.Base.{
  ℕ, suc, zero, ◌+◌, ◌-◌, ◌≤◌, ◌<◌, ◌≡◌, ◌⊎◌, inl, inr, refl, sym, ap, ◌∙◌, arith, Bool, true,
  false, not, ◌&&◌, ◌||◌, List, [], ◌∷◌, ◌++◌, map, ◌==◌, ltb, leb, if◌then◌else◌, length, take,
  drop, All, Option, none, some, Run, ok, panic, ◌>>=◌, Bool-cases, ==_refl,
}
use qblaze.Control.{Control, Qubit, qubit, uses, without_qubit}
use qblaze.Control.Meaning.{satisfied, same, IsControl}
use qblaze.Control.Lookup.{without_qubit_lem}
use qblaze.Sfree.Gates.{Amplitude}
use qblaze.Sfree.Ops.{Op, OpSeq, op_writes, weight}
use qblaze.Sfree.Meaning.{
  Elt, exec, exec_one, exec-append, bits-exec_one, AreValid, IsValidOp, IsApart, HasPhase,
}
use qblaze.Sfree.Split.{
  Score, eval_loop, eval_control, select_loop, select_control, Branches, push0, push1, place,
  split_loop, place_first, Partition, split_at, try_partition, fail_score, least_len,
}

-- The first `n` operations exist and do not write the qubit.
abbrev pub Unwritten : Qubit → ℕ → OpSeq → Type 0
Unwritten q zero ops = Unit
Unwritten q (suc n) [] = ⊥
Unwritten q (suc n) (o ∷ ops) = (op_writes o.1 q ≡ false) × Unwritten q n ops

eval_loop_lem :
    (q : Qubit) (ops : OpSeq) (i cur : ℕ) (s : Score)
    → (eval_loop q ops i cur s ≡ s)
      ⊎ ((k : ℕ) × ((eval_loop q ops i cur s).len ≡ i + k) × Unwritten q k ops)
unfolding eval_loop
eval_loop_lem q [] i cur s = inl refl
eval_loop_lem q ((ctl, op) ∷ ops) i cur s = elim (Bool-cases (op_writes op q)) [
  | inl writes ↦ inl (rw writes)
  | inr reads ↦
      let cur' : ℕ = if uses ctl q then cur + 2 else cur - 1 in
      let s' : Score = if ltb s.best cur' then record { best = cur'; len = i + 1 } else s in
      let one : (s' ≡ s) ⊎ (s'.len ≡ i + 1) = elim (Bool-cases (ltb s.best cur')) [
        | inl better ↦ inr (rw better)
        | inr worse ↦ inl (rw worse)
      ] in
      elim (Bool-cases (leb cur' fail_score)) [
        | inl fails ↦
            rw (reads, fails) (elim one [ inl e ↦ inl e | inr e ↦ inr (1, e, (reads, tt)) ])
        | inr goes ↦
            rw (reads, goes)
              (elim (eval_loop_lem q ops (i + 1) cur' s') [
                | inl stays ↦ elim one [
                  | inl e ↦ inl (stays ∙ e)
                  | inr e ↦ inr (1, ap (λ (t : Score). t.len) stays ∙ e, (reads, tt))
                ]
                | inr (k, len, clean) ↦ inr (suc k, len ∙ omega arith, (reads, clean))
              ])
      ]
]

eval_control-Unwritten : (q : Qubit) (ops : OpSeq) → Unwritten q (eval_control q ops).len ops
unfolding eval_control
eval_control-Unwritten q ops = elim (eval_loop_lem q ops 0 4 (record { best = 2; len = 0 })) [
  | inl stays ↦ rw stays tt
  | inr (k, len, clean) ↦ let e : 0 + k ≡ k = omega arith in rw (len, e) clean
]

-- The chosen qubit is unwritten for the chosen length, and comes from the list unless that is 0.
pub record IsChoice (Good : Qubit → Type 0) (ops : OpSeq) (r : Qubit × ℕ) : Type 0 where
  pub clean : Unwritten r.0 r.1 ops
  pub from : (r.1 ≡ 0) ⊎ Good r.0

module _ (r : Qubit) (rs : List Qubit) (ops : OpSeq) (best : ℕ) (q : Qubit) (len : ℕ) where
  select_better :
      ltb best (eval_control r ops).best ≡ true
      → select_loop (r ∷ rs) ops best q len
        ≡ select_loop rs ops (eval_control r ops).best r (eval_control r ops).len
  unfolding select_loop
  select_better h = rw h

  select_worse :
      ltb best (eval_control r ops).best ≡ false
      → select_loop (r ∷ rs) ops best q len ≡ select_loop rs ops best q len
  unfolding select_loop
  select_worse h = rw h

pub select_loop_lem :
    (Good : Qubit → Type 0) (rs : List Qubit) (ops : OpSeq) (best : ℕ) (q : Qubit) (len : ℕ)
    → All Good rs
    → IsChoice Good ops (q, len)
    → IsChoice Good ops (select_loop rs ops best q len)
unfolding select_loop
select_loop_lem Good [] ops best q len g h = h
select_loop_lem Good (r ∷ rs) ops best q len g h =
    elim (Bool-cases (ltb best (eval_control r ops).best)) [
      | inl better ↦ rw (select_better r rs ops best q len better) (
          select_loop_lem Good rs ops (eval_control r ops).best r (eval_control r ops).len g.1
            (record { clean = eval_control-Unwritten r ops; from = inr g.0 }))
      | inr worse ↦
          rw (select_worse r rs ops best q len worse) (select_loop_lem Good rs ops best q len g.1 h)
    ]

-- The branch of a bit.
abbrev pub pick : Bool → Branches → OpSeq
pick true b = b.if1
pick false b = b.if0

AreValid-push :
    (prec : ℕ) (ops : OpSeq) (o : Control × Op)
    → AreValid prec ops
    → IsValidOp prec o
    → AreValid prec (ops ++ (o ∷ []))
AreValid-push prec [] o h k = (k, tt)
AreValid-push prec (p ∷ ops) o h k = (h.0, AreValid-push prec ops o h.1 k)

weight-push :
    (ops : OpSeq) (ctl : Control) (op : Op)
    → weight (ops ++ ((ctl, op) ∷ [])) ≡ weight ops + suc (length ctl)
unfolding weight
weight-push [] ctl op = omega arith
weight-push ((c, p) ∷ ops) ctl op = omega (arith, weight-push ops ctl op)

-- Where an operation goes by what its control asks of the qubit.
module _ (amp : Amplitude) (prec : ℕ) (q : Qubit) where
  -- Both branches hold valid operations, and each does what the operations so far do to an element
  -- with its bit.
  pub record Follows (ops : OpSeq) (b b' : Branches) : Type 0 where
    pub valid0 : AreValid prec b'.if0
    pub valid1 : AreValid prec b'.if1
    pub light0 : weight b'.if0 ≤ weight b.if0 + weight ops
    pub light1 : weight b'.if1 ≤ weight b.if1 + weight ops
    pub means :
        (v : Bool) (e : Elt amp)
        → (exec amp (pick v b) e).bits q ≡ v
        → exec amp (pick v b') e ≡ exec amp ops (exec amp (pick v b) e)

  pub exec-skip :
      (ctl r : Control) (op : Op) (e : Elt amp) (v : Bool)
      → e.bits q ≡ not v
      → satisfied ctl e.bits ≡ (same (e.bits q) v && satisfied r e.bits)
      → exec_one amp (ctl, op) e ≡ e
  unfolding exec_one
  exec-skip ctl r op e v h k =
      let unasked : satisfied ctl e.bits ≡ false = ground arith in rw unasked

  pub exec-match :
      (ctl r : Control) (op : Op) (e : Elt amp) (v : Bool)
      → e.bits q ≡ v
      → satisfied ctl e.bits ≡ (same (e.bits q) v && satisfied r e.bits)
      → exec_one amp (ctl, op) e ≡ exec_one amp (r, op) e
  unfolding exec_one
  exec-match ctl r op e v h k =
      let asks : satisfied ctl e.bits ≡ satisfied r e.bits = ground arith in rw asks

  -- One operation that does not write the qubit is placed.
  place_lem :
      (ctl : Control) (op : Op) (b : Branches)
      → IsValidOp prec (ctl, op)
      → AreValid prec b.if0
      → AreValid prec b.if1
      → (w : Option (Bool × Control)) × (without_qubit ctl q ≡ ok w)
        × Follows ((ctl, op) ∷ []) b (place ctl op b w)
  unfolding exec weight
  place_lem ctl op b valid v0 v1 = elim (without_qubit_lem ctl q valid.0) [
    | inl (none_there, unused) ↦ (
      none,
      none_there,
      record {
        valid0 = AreValid-push prec b.if0 (ctl, op) v0 valid;
        valid1 = AreValid-push prec b.if1 (ctl, op) v1 valid;
        light0 = omega (arith, weight-push b.if0 ctl op);
        light1 = omega (arith, weight-push b.if1 ctl op);
        means = elim [
          | true ↦ λ e h. exec-append amp b.if1 ((ctl, op) ∷ []) e
          | false ↦ λ e h. exec-append amp b.if0 ((ctl, op) ∷ []) e
        ];
      },
    )
    | inr (true, r, there, used, sorted, gone, shorter, others, asks) ↦
        let rest : IsValidOp prec (r, op) =
          (sorted, (λ p u. valid.1 p (ground (arith, others p))), valid.2) in
        (
          some (true, r),
          there,
          record {
            valid0 = v0;
            valid1 = AreValid-push prec b.if1 (r, op) v1 rest;
            light0 = omega arith;
            light1 = omega (arith, weight-push b.if1 r op);
            means = elim [
              | true ↦ λ e h.
                  exec-append amp b.if1 ((r, op) ∷ []) e
                  ∙ sym (exec-match ctl r op (exec amp b.if1 e) true h (asks _))
              | false ↦ λ e h. sym (exec-skip ctl r op (exec amp b.if0 e) true h (asks _))
            ];
          },
        )
    | inr (false, r, there, used, sorted, gone, shorter, others, asks) ↦
        let rest : IsValidOp prec (r, op) =
          (sorted, (λ p u. valid.1 p (ground (arith, others p))), valid.2) in
        (
          some (false, r),
          there,
          record {
            valid0 = AreValid-push prec b.if0 (r, op) v0 rest;
            valid1 = v1;
            light0 = omega (arith, weight-push b.if0 r op);
            light1 = omega arith;
            means = elim [
              | true ↦ λ e h. sym (exec-skip ctl r op (exec amp b.if1 e) false h (asks _))
              | false ↦ λ e h.
                  exec-append amp b.if0 ((r, op) ∷ []) e
                  ∙ sym (exec-match ctl r op (exec amp b.if0 e) false h (asks _))
            ];
          },
        )
  ]

  Follows-trans :
      (o : Control × Op) (ops : OpSeq) (b b1 b2 : Branches)
      → op_writes o.1 q ≡ false
      → Follows (o ∷ []) b b1
      → Follows ops b1 b2
      → Follows (o ∷ ops) b b2
  unfolding exec weight
  Follows-trans (ctl, op) ops b b1 b2 clean f g = record {
    valid0 = g.valid0;
    valid1 = g.valid1;
    light0 = omega (arith, f.light0, g.light0);
    light1 = omega (arith, f.light1, g.light1);
    means = λ v e h.
        let kept : (exec amp (pick v b1) e).bits q ≡ v =
          ap (λ (t : Elt amp). t.bits q) (f.means v e h)
          ∙ bits-exec_one amp ctl op (exec amp (pick v b) e) q clean
          ∙ h in
        g.means v e kept ∙ ap (exec amp ops) (f.means v e h);
  }

  pub split_loop_lem :
      (n : ℕ) (ops : OpSeq) (b : Branches)
      → AreValid prec ops
      → AreValid prec b.if0
      → AreValid prec b.if1
      → Unwritten q n ops
      → (b' : Branches) × (split_loop n q ops b ≡ ok (b', drop n ops)) × Follows (take n ops) b b'
  unfolding split_loop
  split_loop_lem zero ops b v v0 v1 u = (
    b,
    refl,
    record {
      valid0 = v0;
      valid1 = v1;
      light0 = omega arith;
      light1 = omega arith;
      means = λ v e h. unfold exec in refl;
    },
  )
  split_loop_lem (suc n) [] b v v0 v1 u = absurd u
  split_loop_lem (suc n) ((ctl, op) ∷ ops) b v v0 v1 u =
      let (w, found, f) = place_lem ctl op b v.0 v0 v1 in
      let (b', loops, g) = split_loop_lem n ops (place ctl op b w) v.1 f.valid0 f.valid1 u.1 in
      (b', rw found loops, Follows-trans (ctl, op) (take n ops) b (place ctl op b w) b' u.0 f g)

-- What a partition promises: lighter branches and rest, of valid operations, and each element runs
-- through the branch of its bit, then the rest.
pub record IsSound (amp : Amplitude) (prec : ℕ) (ops : OpSeq) (part : Partition) : Type 0 where
  pub valid0 : AreValid prec part.branches.if0
  pub valid1 : AreValid prec part.branches.if1
  pub valid_after : AreValid prec part.after
  pub light0 : weight part.branches.if0 < weight ops
  pub light1 : weight part.branches.if1 < weight ops
  pub light_after : weight part.after < weight ops
  pub means :
      (e : Elt amp)
      → exec amp ops e ≡ exec amp part.after (exec amp (pick (e.bits part.on) part.branches) e)
