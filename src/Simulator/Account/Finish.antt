-- ===== src/Simulator/Account/Finish.antt =====
-- The calls of `_flush` of `src/simulator.rs` after its first pass.
use qblaze.Base.{
  ℕ, ◌+◌, ◌≤◌, ◌≡◌, refl, sym, ap, ◌∙◌, arith, Bool, true, false, ◌⊎◌, inl, inr, [], if◌then◌else◌,
  Run, ok, panic, out_of_fuel, ◌>>=◌, All,
}
use qblaze.Sfree.Ops
use qblaze.Sfree.Ops.{Queue, is_empty, clear_queue}
use qblaze.U3.{U3}
use qblaze.Simulator.{
  Backend, QubitState, Qubits, Simulator, ensure_qubit, retain, retain_remaining, retain_flushed,
  max_flushed, flush_from,
}
use qblaze.Simulator.Account.{
  Gates, Retains, bind_assoc, count_gates, count_queued, retain_lem, run_gates,
}
use qblaze.Simulator.Account.Passes.{
  Any, IsClear, IsMarked, Unblocked, flushed_lem, max_flushed_lem, remaining_lem,
}

module _ (b : Backend) where
  -- A computation that returns, or that fails whatever follows it.
  pub ok_or_stuck :
      {A : Type 0} (m : Run A)
      → ((a : A) × (m ≡ ok a))
        ⊎ (((f g : A → Run (Simulator b)) → (m >>= f) ≡ (m >>= g))
            × ((f : A → Run (Simulator b)) (sim : Simulator b) → (m >>= f) ≡ ok sim → ⊥))
  ok_or_stuck (ok a) = inl (a, refl)
  ok_or_stuck panic = inr (λ f g. refl, λ f sim e. cc)
  ok_or_stuck out_of_fuel = inr (λ f g. refl, λ f sim e. cc)

  abbrev pack : Bool → Queue → Qubits → b.State → Run (Simulator b)
  pack also queue left s5 =
      ok (record { state = s5; queue = if also then clear_queue queue else queue; qubits = left })

  -- The calls after the first pass: the state is widened, the queue is applied or not, and gates.
  abbrev pub finish : Bool → Queue → ℕ → Gates → Gates → Qubits → b.State → Run (Simulator b)
  finish also queue wide eager forced left s1 = do
    s2 ← ensure_qubit b s1 wide
    s3 ← if also then b.perform_sfree queue s2 else ok s2
    s4 ← run_gates b eager s3
    s5 ← run_gates b forced s4
    pack also queue left s5

  -- A forced gate does not overtake the queue where it is blocked.
  abbrev pub MayPass : Bool → Queue → ℕ → U3 → Type 0
  MayPass also queue q gate = also ≡ false → is_empty queue ≡ false → Unblocked b queue q gate

  pub record Finishes (also : Bool) (queue : Queue) (s1 : b.State) (qs1 : Qubits)
      (m : Run (Simulator b)) : Type 0 where
    pub wide : ℕ
    pub eager : Gates
    pub forced : Gates
    pub left : Qubits
    pub returns : m ≡ finish also queue wide eager forced left s1
    pub none_eager : also ≡ false → eager ≡ []
    pub reaches : also ≡ true → Ops.max_qubit queue ≤ wide
    pub may_pass : All (λ g. MayPass also queue g.0 g.1 × (g.0 ≤ wide)) forced
    pub accounts :
        (sim' : Simulator b)
        → m ≡ ok sim'
        → ((p : ℕ → U3 → Bool)
            → count_gates p eager + count_gates p forced + count_queued p left ≡ count_queued p qs1)
          × All (λ e. IsClear b e.0 e.1) left

  abbrev Inside : Bool → Queue → ℕ → ℕ → QubitState → Type 0
  Inside also queue w q st = IsMarked b (λ q gate. MayPass also queue q gate × (q ≤ w)) q st

  stopped_lem :
      (queue : Queue) (s1 : b.State) (qs1 : Qubits) (w : ℕ)
      → Ops.max_qubit queue ≤ w
      → (eager : Gates) → flush_from b true queue s1 qs1 ≡ finish true queue w eager [] [] s1
      → ((sim' : Simulator b) → flush_from b true queue s1 qs1 ≡ ok sim' → ⊥)
      → Finishes true queue s1 qs1 (flush_from b true queue s1 qs1)
  stopped_lem queue s1 qs1 w low eager calls never = record {
    wide = w;
    eager = eager;
    forced = [];
    left = [];
    returns = calls;
    none_eager = λ e. absurd (cc);
    reaches = λ e. low;
    may_pass = tt;
    accounts = λ sim' done. absurd (never sim' done);
  }

  -- The last pass, after those that returned.
  finished_lem :
      (queue : Queue) (s1 : b.State) (qs1 : Qubits)
      → Ops.max_qubit queue ≤ max_flushed b (Ops.max_qubit queue) qs1
      → (s2 : b.State) → ensure_qubit b s1 (max_flushed b (Ops.max_qubit queue) qs1) ≡ ok s2
      → (s3 : b.State) → b.perform_sfree queue s2 ≡ ok s3
      → (r : Retains b
          (Inside true queue (max_flushed b (Ops.max_qubit queue) qs1))
          (Any b)
          s3
          qs1
          (retain b (retain_remaining b) s3 qs1))
      → (s4 : b.State) → run_gates b r.gates s3 ≡ ok s4
      → Finishes true queue s1 qs1 (flush_from b true queue s1 qs1)
  unfolding flush_from
  finished_lem queue s1 qs1 low s2 e2 s3 e3 r s4 e4 =
      let w = max_flushed b (Ops.max_qubit queue) qs1 in
      let (counts, inside) = r.accounts s4 e4 in
      let last =
        retain_lem b (Inside true queue w) (IsClear b)
          (λ q gate. MayPass true queue q gate × (q ≤ w)) (retain_flushed b)
          (flushed_lem b (λ q gate. MayPass true queue q gate × (q ≤ w))) s4 r.left inside in
      let rest : b.State × Qubits → Run (Simulator b) =
        λ x. retain b (retain_flushed b) x.0 x.1 >>= λ y. pack true queue y.1 y.0 in
      let front : flush_from b true queue s1 qs1 ≡ (retain b (retain_remaining b) s3 qs1 >>= rest) =
        rw (flush_from, e2, e3) refl in
      let kept : (retain b (retain_remaining b) s3 qs1 >>= rest) ≡ rest (s4, r.left) =
        rw (r.returns, e4) refl in
      let pushed : rest (s4, r.left) ≡ (run_gates b last.gates s4 >>= pack true queue last.left) =
        ap (λ m. m >>= λ y. pack true queue y.1 y.0) last.returns
        ∙ bind_assoc (run_gates b last.gates s4) _ _ in
      let back : finish true queue w r.gates last.gates last.left s1
          ≡ (run_gates b last.gates s4 >>= pack true queue last.left) =
        rw (e2, e3, e4) refl in
      let calls : flush_from b true queue s1 qs1
          ≡ finish true queue w r.gates last.gates last.left s1 =
        front ∙ kept ∙ pushed ∙ sym back in
      record {
        wide = w;
        eager = r.gates;
        forced = last.gates;
        left = last.left;
        returns = calls;
        none_eager = λ e. absurd (cc);
        reaches = λ e. low;
        may_pass = last.chosen;
        accounts = λ sim' done. elim (ok_or_stuck (run_gates b last.gates s4)) [
          | inl (s5, e5) ↦
              let (counts', clear) = last.accounts s5 e5 in
              (λ p. omega (arith, counts p, counts' p), clear)
          | inr stuck ↦
              let whole : finish true queue w r.gates last.gates last.left s1 ≡ ok sim' =
                sym calls ∙ done in
              absurd (stuck.1 (pack true queue last.left) sim' (rw (e2, e3, e4) at whole))
        ];
      }

  pub finish_lem :
      (also : Bool) (queue : Queue) (s1 : b.State) (qs1 : Qubits)
      → All (λ e. IsMarked b (MayPass also queue) e.0 e.1) qs1
      → Finishes also queue s1 qs1 (flush_from b also queue s1 qs1)
  unfolding flush_from
  finish_lem false queue s1 qs1 marks =
      let w = max_flushed b 0 qs1 in
      let (low, inside) = max_flushed_lem b (MayPass false queue) 0 w qs1 (omega arith) marks in
      elim (ok_or_stuck (ensure_qubit b s1 w)) [
        | inr stuck ↦ record {
          wide = w;
          eager = [];
          forced = [];
          left = [];
          returns = stuck.0 _ _;
          none_eager = λ e. refl;
          reaches = λ e. absurd (cc);
          may_pass = tt;
          accounts = λ sim' done. absurd (stuck.1 _ _ done);
        }
        | inl (s2, e2) ↦
            let r =
              retain_lem b (Inside false queue w) (IsClear b)
                (λ q gate. MayPass false queue q gate × (q ≤ w)) (retain_flushed b)
                (flushed_lem b (λ q gate. MayPass false queue q gate × (q ≤ w))) s2 qs1 inside in
            let calls : flush_from b false queue s1 qs1
                ≡ finish false queue w [] r.gates r.left s1 =
              rw (e2, r.returns) (bind_assoc (run_gates b r.gates s2) _ _) in
            record {
              wide = w;
              eager = [];
              forced = r.gates;
              left = r.left;
              returns = calls;
              none_eager = λ e. refl;
              reaches = λ e. absurd (cc);
              may_pass = r.chosen;
              accounts = λ sim' done. elim (ok_or_stuck (run_gates b r.gates s2)) [
                | inl (s5, e5) ↦
                    let (counts, clear) = r.accounts s5 e5 in (λ p. omega (arith, counts p), clear)
                | inr stuck ↦
                    let whole : finish false queue w [] r.gates r.left s1 ≡ ok sim' =
                      sym calls ∙ done in
                    absurd (stuck.1 (pack false queue r.left) sim' (rw e2 at whole))
              ];
            }
      ]
  finish_lem true queue s1 qs1 marks =
      let top = Ops.max_qubit queue in
      let w = max_flushed b top qs1 in
      let (low, inside) = max_flushed_lem b (MayPass true queue) top w qs1 (omega arith) marks in
      let D = λ (q : ℕ) (gate : U3). MayPass true queue q gate × (q ≤ w) in
      let stopped =
        λ (eager : Gates)
            (returns : flush_from b true queue s1 qs1 ≡ finish true queue w eager [] [] s1)
            (never : (sim' : Simulator b) → flush_from b true queue s1 qs1 ≡ ok sim' → ⊥).
          stopped_lem queue s1 qs1 w low eager returns never in
      elim (ok_or_stuck (ensure_qubit b s1 w)) [
        | inr stuck ↦ stopped [] (stuck.0 _ _) (λ sim' done. stuck.1 _ sim' done)
        | inl (s2, e2) ↦ elim (ok_or_stuck (b.perform_sfree queue s2)) [
          | inr stuck ↦
              stopped [] (rw e2 (stuck.0 _ _)) (λ sim' done. stuck.1 _ sim' (rw e2 at done))
          | inl (s3, e3) ↦
              let r4 =
                retain_lem b (IsMarked b D) (IsMarked b D) (Any b) (retain_remaining b)
                  (remaining_lem b D) s3 qs1 inside in
              elim (ok_or_stuck (run_gates b r4.gates s3)) [
                | inr stuck ↦
                    stopped r4.gates
                      (rw (flush_from, e2, e3, r4.returns)
                        (bind_assoc (run_gates b r4.gates s3) _ _ ∙ stuck.0 _ _))
                      (λ sim' done. stuck.1 _ sim' (
                        sym (bind_assoc (run_gates b r4.gates s3) _ _)
                        ∙ (rw (e2, e3, r4.returns) at done)))
                | inl (s4, e4) ↦ finished_lem queue s1 qs1 low s2 e2 s3 e3 r4 s4 e4
              ]
        ]
      ]
