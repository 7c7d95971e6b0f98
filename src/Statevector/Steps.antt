-- ===== src/Statevector/Steps.antt =====
-- The methods of `src/statevector.rs` that change the state. The chunks of a pass are run as one, and
-- whether `BufWriter::reserve_chunks` got its memory is an argument: where it did not, the state is
-- cleared.
use qblaze.Base.{
  ℕ, ◌+◌, Bool, false, not, Option, none, some, List, [], ◌==◌, if◌then◌else◌, Run, ok, panic,
}
use qblaze.Bitset.{get, toggle_bit}
use qblaze.Statevector.{
  apply, accumulate, lookup, lookup_random, Numbers, Statevector, U4, clear_state,
  repartition_write, repartition_fixup, u4_write, measure_count, measure_copy, normalize, state_len,
  dense_entries,
}

unfoldable pub is_partitioned_by : Option ℕ → ℕ → Bool
is_partitioned_by none qi = false
is_partitioned_by (some p) qi = p == qi

module _ (num : Numbers) (n : ℕ) where
  -- `force_repartition`.
  unfoldable pub force_repartition : Bool → ℕ → Bool → Statevector num → Statevector num
  unfolding repartition_write repartition_fixup clear_state
  force_repartition reserved qi is_fixup s =
      let (out0, out1) =
        if is_fixup
        then repartition_fixup num n qi s.part0 s.part1
        else repartition_write num qi s.part0 s.part1 in
      if reserved
      then record { partitioned_by = s.partitioned_by; part0 = out0; part1 = out1 }
      else clear_state num s

  -- `set_partition`.
  unfoldable pub set_partition : Bool → ℕ → Statevector num → Statevector num
  unfolding force_repartition is_partitioned_by
  set_partition reserved qi s =
      if is_partitioned_by s.partitioned_by qi
      then s
      else force_repartition reserved qi false (record s { partitioned_by = some qi })

  -- `perform_u4`; the first flag is the memory of the repartition.
  unfoldable pub perform_u4 : Bool → Bool → ℕ → U4 num → Statevector num → Statevector num
  unfolding set_partition u4_write clear_state
  perform_u4 reserved0 reserved qi gate s =
      let s' = set_partition reserved0 qi s in
      let (out0, out1) = u4_write num n qi gate s'.part0 s'.part1 in
      if reserved
      then record { partitioned_by = s'.partitioned_by; part0 = out0; part1 = out1 }
      else clear_state num s'

  -- `measure`, with the result of the test of `normalize`. An empty state that is not partitioned by
  -- the qubit is cut into chunks of size zero, which panics.
  unfoldable pub measure :
      Bool → Bool → ℕ → Bool → num.Weight → Statevector num → Run (Statevector num)
  unfolding normalize measure_count measure_copy clear_state state_len is_partitioned_by
  measure reserved is_one qi v scale s =
      if is_partitioned_by s.partitioned_by qi
      then normalize num is_one scale
          (if v then record s { part0 = [] } else record s { part1 = [] })
      else if state_len num s == 0
      then panic
      else if measure_count num qi v s.part0 + measure_count num qi v s.part1 == state_len num s
      then normalize num is_one scale s
      else if reserved
      then ok (record s {
        part0 = measure_copy num qi v scale s.part0;
        part1 = measure_copy num qi v scale s.part1;
      })
      else ok (clear_state num s)

  -- `import_dense`.
  unfoldable pub import_dense : Bool → List num.Value → Statevector num → Statevector num
  unfolding dense_entries clear_state
  import_dense reserved dense s =
      if reserved
      then record { partitioned_by = none; part0 = dense_entries num n 0 dense; part1 = [] }
      else clear_state num s

  -- `collapse_delta` of the `i`-th element: how many elements the gate adds and how many it removes.
  unfoldable pub collapse_delta : ℕ → U4 num → ℕ → Statevector num → ℕ × ℕ
  unfolding lookup_random lookup apply
  collapse_delta qi gate i s = elim (lookup_random num s i) [
    | none ↦ (0, 0)
    | some st_i ↦
        let v = get st_i.bits qi in
        let (ap00, ap01) = apply num gate v st_i.val in
        elim (lookup num s (toggle_bit st_i.bits qi)) [
          | none ↦ (2, 0)
          | some v_j ↦
              let (ap11, ap10) = apply num gate (not v) v_j in
              (
                0,
                (if (accumulate num ap00 ap10).1 then 0 else 1)
                    + (if (accumulate num ap01 ap11).1 then 0 else 1),
              )
        ]
  ]
