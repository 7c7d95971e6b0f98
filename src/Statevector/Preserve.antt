-- ===== src/Statevector/Preserve.antt =====
-- The repartition and the gates of `src/statevector.rs`, and the invariant of the state.
use qblaze.Base.{
  ℕ, ◌+◌, ◌*◌, ◌<◌, ◌≡◌, refl, sym, ap, subst, arith, Bool, true, false, Option, none, some, [],
  Bool-cases, inl, inr, ==_iff,
}
use qblaze.Util.{merge_distinct}
use qblaze.Statevector.{Numbers, Entries, Statevector, U4, key, clear_state, with_bit, u4_write}
use qblaze.Statevector.Key.{offset}
use qblaze.Statevector.Steps.{is_partitioned_by, force_repartition, set_partition, perform_u4}
use qblaze.Statevector.Valid.{IsSorted, HasBit, IsPart, IsPartition, IsValid, halve, ordered_half}
use qblaze.Statevector.Apart.{weaken, apart_lem, merge-IsSorted, with_bit_lem}
use qblaze.Statevector.Gate.{u4_write-IsPart}

module _ (num : Numbers) (n : ℕ) where
  pub clear_state-IsValid :
      (s : Statevector num)
      → IsPartition num n s.partitioned_by s.part0 s.part1
      → IsValid num n (clear_state num s)
  unfolding clear_state
  clear_state-IsValid s h = record {
    sorted0 = tt;
    sorted1 = tt;
    apart = λ k. omega arith;
    partition = emptied s.partitioned_by s.part0 s.part1 h;
  }
    where
      emptied :
          (p : Option ℕ) (p0 p1 : Entries num)
          → IsPartition num n p p0 p1
          → IsPartition num n p [] []
      emptied none p0 p1 h = tt
      emptied (some qi) p0 p1 h = (h.0, tt, tt)

  -- Slices that are sorted and have the two values of a qubit make a valid state.
  pub halves-IsValid :
      (s : Statevector num) (qi : ℕ)
      → s.partitioned_by ≡ some qi
      → qi < n * 64
      → IsSorted num n 0 s.part0 × HasBit num n qi false s.part0
      → IsSorted num n 0 s.part1 × HasBit num n qi true s.part1
      → IsValid num n s
  halves-IsValid s qi e inside h0 h1 = record {
    sorted0 = h0.0;
    sorted1 = h1.0;
    apart = apart_lem num n qi 0 0 s.part0 s.part1 h0.0 h0.1 h1.0 h1.1;
    partition = subst (λ p. IsPartition num n p s.part0 s.part1) (sym e) (inside, h0.1, h1.1);
  }

  -- A valid state that is partitioned by the qubit already, or is not.
  is_partitioned_by_lem : (p : Option ℕ) (qi : ℕ) → is_partitioned_by p qi ≡ true → p ≡ some qi
  unfolding is_partitioned_by
  is_partitioned_by_lem none qi h = absurd (cc)
  is_partitioned_by_lem (some p) qi h = ap some ((==_iff _ _).0 h)

  pub set_partition-IsValid :
      (reserved : Bool) (qi : ℕ) (s : Statevector num)
      → qi < n * 64
      → IsValid num n s
      → IsValid num n (set_partition num n reserved qi s)
        × ((set_partition num n reserved qi s).partitioned_by ≡ some qi)
  unfolding set_partition force_repartition
  set_partition-IsValid reserved qi s inside v =
      elim (Bool-cases (is_partitioned_by s.partitioned_by qi)) [
        | inl already ↦ rw already (v, is_partitioned_by_lem s.partitioned_by qi already)
        | inr needed ↦ rw needed (written reserved)
      ]
    where
      written :
          (reserved : Bool)
          → let s' =
              force_repartition num n reserved qi false (record s { partitioned_by = some qi }) in
            IsValid num n s' × (s'.partitioned_by ≡ some qi)
      written true =
          let merged = merge_distinct (key num) s.part0 s.part1 in
          let sorted = merge-IsSorted num n s.part0 s.part1 v.sorted0 v.sorted1 v.apart in
          (
            halves-IsValid
                (record {
                  partitioned_by = some qi;
                  part0 = with_bit num qi false merged;
                  part1 = with_bit num qi true merged;
                })
                qi refl inside (with_bit_lem num n qi false 0 merged sorted)
                (with_bit_lem num n qi true 0 merged sorted),
            refl,
          )
      written false = (
        halves-IsValid (record { partitioned_by = some qi; part0 = []; part1 = [] }) qi refl inside
            (tt, tt) (tt, tt),
        refl,
      )

  -- The two slices of a valid state that is partitioned by a qubit, without the qubit.
  pub parts_of :
      (s : Statevector num) (qi : ℕ)
      → IsValid num n s
      → s.partitioned_by ≡ some qi
      → IsPart num n qi false 0 s.part0 × (qi < n * 64) × IsPart num n qi true 0 s.part1
  parts_of s qi v e =
      let (inside, ones0, ones1) = subst (λ p. IsPartition num n p s.part0 s.part1) e v.partition in
      (
        halve num n qi inside false s.part0 v.sorted0 ones0,
        inside,
        halve num n qi inside true s.part1 v.sorted1 ones1,
      )

  pub perform_u4-IsValid :
      (reserved0 reserved : Bool) (qi : ℕ) (gate : U4 num) (s : Statevector num)
      → qi < n * 64
      → IsValid num n s
      → IsValid num n (perform_u4 num n reserved0 reserved qi gate s)
  unfolding perform_u4
  perform_u4-IsValid reserved0 true qi gate s inside v =
      let s' = set_partition num n reserved0 qi s in
      let (valid, partitioned) = set_partition-IsValid reserved0 qi s inside v in
      let (part0, inside', part1) = parts_of s' qi valid partitioned in
      let (out0, out1) = u4_write num n qi gate s'.part0 s'.part1 in
      let parts = u4_write-IsPart num n qi inside gate s'.part0 s'.part1 part0 part1 in
      let (sorted0, bits0) = ordered_half num n qi inside false 0 out0 parts.0 in
      let (sorted1, bits1) = ordered_half num n qi inside true 0 out1 parts.1 in
      halves-IsValid (record { partitioned_by = s'.partitioned_by; part0 = out0; part1 = out1 }) qi
        partitioned inside (sorted0, bits0)
        (weaken num n (0 + offset n qi) 0 out1 (omega arith) sorted1, bits1)
  perform_u4-IsValid reserved0 false qi gate s inside v =
      let s' = set_partition num n reserved0 qi s in
      clear_state-IsValid s' (set_partition-IsValid reserved0 qi s inside v).0.partition
