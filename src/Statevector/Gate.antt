-- ===== src/Statevector/Gate.antt =====
-- The pass that applies a single-qubit gate, `do_u4_write` of `src/statevector.rs`: the order of its
-- outputs.
use qblaze.Base.{
  ℕ, ◌+◌, ◌*◌, ◌≤◌, ◌<◌, ◌≡◌, refl, sym, subst, arith, Bool, true, false, not, List, [], ◌∷◌,
  if◌then◌else◌, All,
}
use qblaze.Bitset.{IsBitSet, get, toggle_bit}
use qblaze.Bitset.Laws.{get-toggle_bit, toggle_bit-IsBitSet}
use qblaze.Util.{merge_eq, MergeEq, lhs, rhs, both}
use qblaze.Util.Merge.{IsStrict, IsMerged, lefts, rights, merge_eq_lem}
use qblaze.Statevector.{
  Numbers, Entry, Entries, U4, apply, accumulate, masked_key, u4_writes, u4_write,
}
use qblaze.Statevector.Key.{masked-toggle}
use qblaze.Statevector.Valid.{IsPart}

module _ (num : Numbers) (n qi : ℕ) (inside : qi < n * 64) where
  abbrev pub IsHalf : Bool → Entry num → Type 0
  IsHalf v e = IsBitSet n e.bits × (get e.bits qi ≡ v)

  abbrev pub flipped : Entry num → num.Value → Entry num
  flipped e p = record { bits = toggle_bit e.bits qi; val = p }

  pub flip_lem :
      (v : Bool) (e : Entry num) (p : num.Value)
      → IsHalf v e
      → IsHalf (not v) (flipped e p) × (masked_key num n qi (flipped e p) ≡ masked_key num n qi e)
  unfolding masked_key
  flip_lem v e p h = (
    (toggle_bit-IsBitSet n e.bits h.0 qi, ground (arith, get-toggle_bit n e.bits h.0 qi inside qi)),
    masked-toggle n qi e.bits inside h.0,
  )

  pub raise :
      (v : Bool) (lo lo' : ℕ) (es : Entries num)
      → lo' ≤ lo
      → IsPart num n qi v lo es
      → IsPart num n qi v lo' es
  raise v lo lo' [] h p = tt
  raise v lo lo' (e ∷ es) h p = (p.0, p.1, omega (arith, p.2), p.3)

  pub halves :
      (v : Bool) (lo : ℕ) (es : Entries num)
      → IsPart num n qi v lo es
      → All (IsHalf v) es × IsStrict (masked_key num n qi) lo es
  halves v lo [] p = (tt, tt)
  halves v lo (e ∷ es) p =
      let rest = halves v (masked_key num n qi e + 1) es p.3 in
      (((p.0, p.1), rest.0), (p.2, rest.1))

  module _ (gate : U4 num) where
    cons-IsPart :
        (v : Bool) (lo k : ℕ) (e : Entry num) (es : Entries num)
        → IsHalf v e
        → masked_key num n qi e ≡ k
        → lo ≤ k
        → IsPart num n qi v (k + 1) es
        → IsPart num n qi v lo (e ∷ es)
    cons-IsPart v lo k e es h same above p =
        (h.0, h.1, omega arith, subst (λ m. IsPart num n qi v (m + 1) es) (sym same) p)

    cons_if-IsPart :
        (keep v : Bool) (lo k : ℕ) (e : Entry num) (es : Entries num)
        → IsHalf v e
        → masked_key num n qi e ≡ k
        → lo ≤ k
        → IsPart num n qi v (k + 1) es
        → IsPart num n qi v lo (if keep then e ∷ es else es)
    cons_if-IsPart true v lo k e es h same above p = cons-IsPart v lo k e es h same above p
    cons_if-IsPart false v lo k e es h same above p = raise v (k + 1) lo es (omega arith) p

    -- The outputs of the pass over a merge are sorted and have the values of the qubit.
    pub u4_writes-IsPart :
        (lo : ℕ) (ms : List (MergeEq (Entry num)))
        → IsMerged (masked_key num n qi) lo ms
        → All (IsHalf false) (lefts (masked_key num n qi) ms)
        → All (IsHalf true) (rights (masked_key num n qi) ms)
        → IsPart num n qi false lo (u4_writes num qi gate ms).0
          × IsPart num n qi true lo (u4_writes num qi gate ms).1
    unfolding u4_writes apply masked_key
    u4_writes-IsPart lo [] m l r = (tt, tt)
    u4_writes-IsPart lo (lhs a ∷ ms) m l r =
        let k = masked_key num n qi a in
        let rest = u4_writes-IsPart (k + 1) ms m.1 l.1 r in
        let (half, same) = flip_lem false a (apply num gate false a.val).1 l.0 in
        (
          cons-IsPart false lo k (record { bits = a.bits; val = (apply num gate false a.val).0 })
              (u4_writes num qi gate ms).0 l.0 refl m.0 rest.0,
          cons-IsPart true lo k (flipped a (apply num gate false a.val).1)
              (u4_writes num qi gate ms).1 half same m.0 rest.1,
        )
    u4_writes-IsPart lo (rhs b ∷ ms) m l r =
        let k = masked_key num n qi b in
        let rest = u4_writes-IsPart (k + 1) ms m.1 l r.1 in
        let (half, same) = flip_lem true b (apply num gate true b.val).1 r.0 in
        (
          cons-IsPart false lo k (flipped b (apply num gate true b.val).1)
              (u4_writes num qi gate ms).0 half same m.0 rest.0,
          cons-IsPart true lo k (record { bits = b.bits; val = (apply num gate true b.val).0 })
              (u4_writes num qi gate ms).1 r.0 refl m.0 rest.1,
        )
    u4_writes-IsPart lo (both a b ∷ ms) m l r =
        let k = masked_key num n qi a in
        let rest = u4_writes-IsPart (k + 1) ms m.2 l.1 r.1 in
        let p0 = accumulate num (apply num gate false a.val).0 (apply num gate true b.val).1 in
        let p1 = accumulate num (apply num gate false a.val).1 (apply num gate true b.val).0 in
        (
          cons_if-IsPart p0.1 false lo k (record { bits = a.bits; val = p0.0 })
              (u4_writes num qi gate ms).0 l.0 refl m.0 rest.0,
          cons_if-IsPart p1.1 true lo k (record { bits = b.bits; val = p1.0 })
              (u4_writes num qi gate ms).1 r.0 (sym m.1) m.0 rest.1,
        )

    -- The gate on two sorted slices.
    pub u4_write-IsPart :
        (p0 p1 : Entries num)
        → IsPart num n qi false 0 p0
        → IsPart num n qi true 0 p1
        → IsPart num n qi false 0 (u4_write num n qi gate p0 p1).0
          × IsPart num n qi true 0 (u4_write num n qi gate p0 p1).1
    unfolding u4_write
    u4_write-IsPart p0 p1 s0 s1 =
        let (half0, strict0) = halves false 0 p0 s0 in
        let (half1, strict1) = halves true 0 p1 s1 in
        let ms = merge_eq (masked_key num n qi) p0 p1 in
        let merges = merge_eq_lem (masked_key num n qi) p0 p1 strict0 strict1 in
        u4_writes-IsPart 0 ms merges.merged
          (subst (All (IsHalf false)) (sym merges.from_left) half0)
          (subst (All (IsHalf true)) (sym merges.from_right) half1)
