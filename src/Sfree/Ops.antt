-- ===== src/Sfree/Ops.antt =====
-- The queue of `src/sfree/queue.rs`: operations under control and the qubits they read and write.
use qblaze.Base.{
  ℕ, suc, ◌+◌, Bool, false, not, ◌&&◌, ◌||◌, List, [], ◌∷◌, ◌++◌, map, max, ◌==◌, length, Option,
  none, some,
}
use qblaze.Angle.{Angle, round, zero_angle}
use qblaze.Control.{Control, Qubit, qubit, always}
use qblaze.QubitSet
use qblaze.QubitSet.{QubitSet, contains, insert, extend, clear}
use qblaze.QubitSet.Iter.{qubits_of_words}

pub data Op : Type 0 where
  gphase : Angle → Op
  x : Qubit → Op
  swap : Qubit → Qubit → Op

-- `Op::writes`.
unfoldable pub op_writes : Op → Qubit → Bool
op_writes (gphase a) t = false
op_writes (x q) t = q == t
op_writes (swap q r) t = q == t || r == t

abbrev pub OpSeq : Type 0
OpSeq = List (Control × Op)

pub record Queue : Type 0 where
  pub ops : OpSeq
  pub reads : QubitSet
  pub writes : QubitSet

-- `Queue::default`.
abbrev pub empty_queue : Queue
empty_queue = record { ops = []; reads = QubitSet.new; writes = QubitSet.new }

-- `Queue::reads` and `Queue::writes`.
unfoldable pub queue_reads : Queue → Qubit → Bool
queue_reads s q = contains s.reads q

unfoldable pub queue_writes : Queue → Qubit → Bool
queue_writes s q = contains s.writes q

unfoldable pub is_empty : Queue → Bool
is_empty s = length s.ops == 0

unfoldable pub queue_len : Queue → ℕ
queue_len s = length s.ops

abbrev pub push_op : Queue → Control → Op → OpSeq
push_op s ctl op = s.ops ++ ((ctl, op) ∷ [])

unfoldable pub queue_x : Queue → Qubit → Queue
queue_x s q = record { ops = push_op s always (x q); reads = s.reads; writes = insert s.writes q }

unfoldable pub ctl_phase : Queue → Control → Angle → Queue
ctl_phase s ctl a = record {
  ops = push_op s ctl (gphase a);
  reads = extend s.reads (map qubit ctl);
  writes = s.writes;
}

unfoldable pub ctl_x : Queue → Control → Qubit → Queue
ctl_x s ctl q = record {
  ops = push_op s ctl (x q);
  reads = extend s.reads (map qubit ctl);
  writes = insert s.writes q;
}

unfoldable pub ctl_swap : Queue → Control → Qubit → Qubit → Queue
ctl_swap s ctl q r = record {
  ops = push_op s ctl (swap q r);
  reads = insert (insert (extend s.reads (map qubit ctl)) q) r;
  writes = insert (insert s.writes q) r;
}

unfoldable pub clear_queue : Queue → Queue
clear_queue s = record { ops = []; reads = clear s.reads; writes = clear s.writes }

-- `Iterator::max`, from a first value on.
unfoldable pub fold_max : ℕ → List ℕ → ℕ
fold_max m [] = m
fold_max m (q ∷ qs) = fold_max (max m q) qs

unfoldable pub max_qubit : Queue → Qubit
unfolding fold_max
max_qubit s = fold_max (fold_max 0 (qubits_of_words s.reads.words)) (qubits_of_words s.writes.words)

-- `Queue::blocks`, with the result of `gate.to_rz_rx(prec)` as an argument.
unfoldable pub blocks : Queue → Option (Angle × Angle) → ℕ → Qubit → Bool
blocks s none prec q = contains s.reads q || contains s.writes q
blocks s (some (rz, rx)) prec q =
    (not (round rx prec == zero_angle) && contains s.reads q)
    || (not (round rz prec == zero_angle) && contains s.writes q)

-- The control items and operations of a sequence: what a partition makes smaller.
unfoldable pub weight : OpSeq → ℕ
weight [] = 0
weight ((ctl, op) ∷ ops) = suc (length ctl) + weight ops
