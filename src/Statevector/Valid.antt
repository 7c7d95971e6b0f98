-- ===== src/Statevector/Valid.antt =====
-- The invariant of the state of `src/statevector.rs`, and the order that it is stated with.
use native.Mathlib.Nat.{mul-le-mul_right, suc-mul}
use qblaze.Base.{
  ℕ, suc, ◌+◌, ◌*◌, ◌≤◌, ◌<◌, ◌≡◌, refl, ap, ap₂, ◌∙◌, subst, arith, Bool, true, false, Option,
  none, some, List, [], ◌∷◌, length, inl, inr, ◌⊎◌, if◌then◌else◌, ◌==◌,
}
use qblaze.QubitSet.Laws.{AreWords}
use qblaze.Bitset.{IsBitSet, get}
use qblaze.Statevector.{Numbers, Entry, Entries, Statevector, key, masked_key, rank, span}
use qblaze.Statevector.Key.{rank-lt, rank-masked, offset}

-- Words of one length with one rank are the same.
pub rank-injective :
    (vs ws : List ℕ)
    → AreWords vs
    → AreWords ws
    → length vs ≡ length ws
    → rank vs ≡ rank ws
    → vs ≡ ws
unfolding rank
rank-injective [] [] hv hw h e = refl
rank-injective [] (w ∷ ws) hv hw h e = absurd (omega arith)
rank-injective (v ∷ vs) [] hv hw h e = absurd (omega arith)
rank-injective (v ∷ vs) (w ∷ ws) hv hw h e =
    let same_length : length vs ≡ length ws = omega arith in
    let below_v = rank-lt vs hv.1 in
    let below_w = rank-lt ws hw.1 in
    let place = span (length ws) in
    let same_place : span (length vs) ≡ place = ap span same_length in
    let e' : v * place + rank vs ≡ w * place + rank ws = rw same_place at e in
    let below : rank vs < place = rw same_place at below_v in
    elim (lt-or-ge' v w) [
      | inl lower ↦
          let step : suc v * place ≤ w * place = mul-le-mul_right place lower in
          absurd (omega (arith, suc-mul v place, step, below))
      | inr rest ↦ elim rest [
        | inl higher ↦
            let step : suc w * place ≤ v * place = mul-le-mul_right place higher in
            absurd (omega (arith, suc-mul w place, step, below_w, e'))
        | inr same ↦
            let tails : rank vs ≡ rank ws = omega (arith, ap (λ (t : ℕ). t * place) same) in
            ap₂ (◌∷◌) same (rank-injective vs ws hv.1 hw.1 same_length tails)
      ]
    ]
  where
    lt-or-ge' : (v w : ℕ) → (v < w) ⊎ ((w < v) ⊎ (v ≡ w))
    lt-or-ge' v w = grind arith

module _ (num : Numbers) (n : ℕ) where
  -- Elements of the state's width whose bits ascend strictly, from a lower bound on.
  abbrev pub IsSorted : ℕ → Entries num → Type 0
  IsSorted lo [] = Unit
  IsSorted lo (e ∷ es) = IsBitSet n e.bits × (lo ≤ key num e) × IsSorted (key num e + 1) es

  abbrev pub HasBit : ℕ → Bool → Entries num → Type 0
  HasBit qi v [] = Unit
  HasBit qi v (e ∷ es) = (get e.bits qi ≡ v) × HasBit qi v es

  -- Sorted without the qubit, and with one value of it.
  abbrev pub IsPart : ℕ → Bool → ℕ → Entries num → Type 0
  IsPart qi v lo [] = Unit
  IsPart qi v lo (e ∷ es) =
      IsBitSet n e.bits
      × (get e.bits qi ≡ v)
      × (lo ≤ masked_key num n qi e)
      × IsPart qi v (masked_key num n qi e + 1) es

  abbrev pub count_key : ℕ → Entries num → ℕ
  count_key k [] = 0
  count_key k (e ∷ es) = (if key num e == k then 1 else 0) + count_key k es

  abbrev pub IsPartition : Option ℕ → Entries num → Entries num → Type 0
  IsPartition none p0 p1 = Unit
  IsPartition (some qi) p0 p1 = (qi < n * 64) × HasBit qi false p0 × HasBit qi true p1

  -- Each slice is sorted, no bits occur twice, and the slices are what `partitioned_by` says.
  pub record IsValid (s : Statevector num) : Type 0 where
    pub sorted0 : IsSorted 0 s.part0
    pub sorted1 : IsSorted 0 s.part1
    pub apart : (k : ℕ) → count_key k s.part0 + count_key k s.part1 ≤ 1
    pub partition : IsPartition s.partitioned_by s.part0 s.part1

  module _ (qi : ℕ) (inside : qi < n * 64) where
    key-masked_key :
        (v : Bool) (e : Entry num)
        → IsBitSet n e.bits
        → get e.bits qi ≡ v
        → key num e ≡ masked_key num n qi e + (if v then offset n qi else 0)
    unfolding key masked_key
    key-masked_key v e valid bit = rank-masked n qi e.bits inside valid ∙ rw bit refl

    -- In a slice with one value of the qubit the two orders are the same.
    halve_from :
        (v : Bool) (lo : ℕ) (es : Entries num)
        → IsSorted (lo + (if v then offset n qi else 0)) es
        → HasBit qi v es
        → IsPart qi v lo es
    halve_from v lo [] s b = tt
    halve_from v lo (e ∷ es) s b =
        let keys = key-masked_key v e s.0 b.0 in
        let bit_offset = if v then offset n qi else 0 in
        let shifted : key num e + 1 ≡ masked_key num n qi e + 1 + bit_offset = omega arith in
        (
          s.0,
          b.0,
          omega (arith, s.1),
          halve_from v (masked_key num n qi e + 1) es (subst (λ k. IsSorted k es) shifted s.2) b.1,
        )

    pub halve : (v : Bool) (es : Entries num) → IsSorted 0 es → HasBit qi v es → IsPart qi v 0 es
    halve v [] s b = tt
    halve v (e ∷ es) s b =
        let keys = key-masked_key v e s.0 b.0 in
        let bit_offset = if v then offset n qi else 0 in
        let shifted : key num e + 1 ≡ masked_key num n qi e + 1 + bit_offset = omega arith in
        (
          s.0,
          b.0,
          omega arith,
          halve_from v (masked_key num n qi e + 1) es (subst (λ k. IsSorted k es) shifted s.2) b.1,
        )

    pub ordered_half :
        (v : Bool) (lo : ℕ) (es : Entries num)
        → IsPart qi v lo es
        → IsSorted (lo + (if v then offset n qi else 0)) es × HasBit qi v es
    ordered_half v lo [] p = (tt, tt)
    ordered_half v lo (e ∷ es) p =
        let keys = key-masked_key v e p.0 p.1 in
        let bit_offset = if v then offset n qi else 0 in
        let shifted : masked_key num n qi e + 1 + bit_offset ≡ key num e + 1 = omega arith in
        let rest = ordered_half v (masked_key num n qi e + 1) es p.3 in
        ((p.0, omega (arith, p.2), subst (λ k. IsSorted k es) shifted rest.0), (p.1, rest.1))
