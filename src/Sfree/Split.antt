-- ===== src/Sfree/Split.antt =====
-- The choice of a control qubit to partition on: `eval_control`, `select_control` and
-- `try_partition` of `src/sfree/queue.rs`.
pub mod Laws
use qblaze.Base.{
  ℕ, suc, zero, ◌+◌, ◌-◌, Bool, true, false, not, ◌&&◌, ◌||◌, List, [], ◌∷◌, ◌++◌, map, ◌==◌, ltb,
  leb, if◌then◌else◌, length, drop, Option, none, some, Run, ok, panic, out_of_fuel, ◌>>=◌,
}
use qblaze.Control.{Control, Qubit, qubit, uses, without_qubit}
use qblaze.Sfree.Ops.{Op, OpSeq, op_writes}

-- The scores of the source are signed and at least -2; here they are kept plus two, so the
-- threshold THRES_PART_FAIL is 0, the score to beat starts at 2 and the running score at 4.
abbrev pub fail_score : ℕ
fail_score = 0

-- `THRES_PART_DO`.
abbrev pub least_len : ℕ
least_len = 5

pub record Score : Type 0 where
  pub best : ℕ
  pub len : ℕ

-- The loop of `eval_control` at operation `i`.
unfoldable pub eval_loop : Qubit → OpSeq → ℕ → ℕ → Score → Score
eval_loop q [] i cur s = s
eval_loop q ((ctl, op) ∷ ops) i cur s =
    let cur' : ℕ = if uses ctl q then cur + 2 else cur - 1 in
    let s' : Score = if ltb s.best cur' then record { best = cur'; len = i + 1 } else s in
    let rest = eval_loop q ops (i + 1) cur' s' in
    if op_writes op q then s else if leb cur' fail_score then s' else rest

unfoldable pub eval_control : Qubit → OpSeq → Score
unfolding eval_loop
eval_control q ops = eval_loop q ops 0 4 (record { best = 2; len = 0 })

-- The loop of `select_control`, with the best score, qubit and length so far.
unfoldable pub select_loop : List Qubit → OpSeq → ℕ → Qubit → ℕ → Qubit × ℕ
unfolding eval_control
select_loop [] ops best q len = (q, len)
select_loop (r ∷ rs) ops best q len =
    let s = eval_control r ops in
    let better = ltb best s.best in
    select_loop rs ops (if better then s.best else best) (if better then r else q)
      (if better then s.len else len)

unfoldable pub select_control : List Qubit → OpSeq → Qubit × ℕ
unfolding select_loop
select_control qs ops = select_loop qs ops 2 0 0

-- The two branches of a partition, and the operations after it.
pub record Branches : Type 0 where
  pub if0 : OpSeq
  pub if1 : OpSeq

abbrev pub push0 : Branches → Control × Op → Branches
push0 b o = record { if0 = b.if0 ++ (o ∷ []); if1 = b.if1 }

abbrev pub push1 : Branches → Control × Op → Branches
push1 b o = record { if0 = b.if0; if1 = b.if1 ++ (o ∷ []) }

-- Where an operation goes, by the condition that its control has on the qubit.
abbrev pub place : Control → Op → Branches → Option (Bool × Control) → Branches
place ctl op b none = push1 (push0 b (ctl, op)) (ctl, op)
place ctl op b (some (false, r)) = push0 b (r, op)
place ctl op b (some (true, r)) = push1 b (r, op)

-- `for _ in 0..ctl_l { let (ctl, op) = ops.next().unwrap(); … }`
unfoldable pub split_loop : ℕ → Qubit → OpSeq → Branches → Run (Branches × OpSeq)
split_loop zero q ops b = ok (b, ops)
split_loop (suc n) q [] b = panic
split_loop (suc n) q ((ctl, op) ∷ ops) b =
    without_qubit ctl q >>= λ w. split_loop n q ops (place ctl op b w)

abbrev pub place_first : Op → Option (Bool × Control) → Run Branches
place_first op none = panic
place_first op (some (false, r)) = ok (record { if0 = (r, op) ∷ []; if1 = [] })
place_first op (some (true, r)) = ok (record { if0 = []; if1 = (r, op) ∷ [] })

pub record Partition : Type 0 where
  pub on : Qubit
  pub branches : Branches
  pub after : OpSeq

-- The part of `try_partition` after the choice of the qubit and the length.
unfoldable pub split_at : Control → Op → OpSeq → Qubit → ℕ → Run (Option Partition)
unfolding split_loop
split_at ctl0 op0 ops q len = if ltb len least_len then ok none else do
  w ← without_qubit ctl0 q
  b ← place_first op0 w
  r ← split_loop len q ops b
  ok (some (record { on = q; branches = r.0; after = r.1 }))

unfoldable pub try_partition : Control → Op → OpSeq → Run (Option Partition)
unfolding split_at select_control
try_partition ctl0 op0 [] = ok none
try_partition ctl0 op0 (o ∷ ops) =
    let (q, len) = select_control (map qubit ctl0) (o ∷ ops) in split_at ctl0 op0 (o ∷ ops) q len
