-- ===== src/Simulator/Account/Passes.antt =====
-- What each pass of `_flush` of `src/simulator.rs` does with an entry.
use qblaze.Base.{
  ℕ, ◌≤◌, ◌≡◌, refl, arith, true, false, not, ◌&&◌, ◌||◌, ◌⊎◌, inl, inr, [], ◌∷◌, ltb, Bool-cases,
  if◌then◌else◌, ok, ◌>>=◌, All, leb,
}
use qblaze.Sfree.Ops.{Queue}
use qblaze.U3
use qblaze.U3.{U3}
use qblaze.Simulator.{
  Backend, QubitState, Qubits, gate_blocked, maybe_eager_flush, retain_unblocked, retain_remaining,
  retain_flushed, any_blocked, max_flushed, prec,
}
use qblaze.Simulator.Account.{Steps, bind_assoc}

module _ (b : Backend) where
  -- No entry has both flags, and a gate that must be flushed has a property.
  abbrev pub IsMarked : (ℕ → U3 → Type 0) → ℕ → QubitState → Type 0
  IsMarked D q st =
      (st.must_flush && st.is_reordered ≡ false) × (st.must_flush ≡ true → D q st.pending)

  abbrev pub IsClear : ℕ → QubitState → Type 0
  IsClear q st = (st.must_flush ≡ false) × (st.is_reordered ≡ false)

  eager_cases :
      (s : b.State) (q : ℕ) (gate : U3)
      → (maybe_eager_flush b s q gate ≡ ok (s, false))
        ⊎ (maybe_eager_flush b s q gate ≡ (b.perform_u4 q gate s >>= λ s'. ok (s', true)))
  unfolding maybe_eager_flush
  eager_cases s q gate = elim (Bool-cases (U3.is_sfree gate prec)) [
    | inl diagonal ↦ inl (rw diagonal refl)
    | inr other ↦ elim (Bool-cases (ltb (b.max_qubit s) q)) [
      | inl wide ↦ inl (rw (other, wide) refl)
      | inr fits ↦ elim (Bool-cases (leb (b.length_of s) 1024)) [
        | inl small ↦ inl (rw (other, fits, small) refl)
        | inr large ↦ elim (Bool-cases (b.collapses s q gate)) [
          | inr stays ↦ inl (rw (other, fits, large, stays) refl)
          | inl shrinks ↦ inr (rw (other, fits, large, shrinks) refl)
        ]
      ]
    ]
  ]

  abbrev pub Unblocked : Queue → ℕ → U3 → Type 0
  Unblocked queue q gate = gate_blocked queue q gate ≡ false

  abbrev pub Any : ℕ → U3 → Type 0
  Any q gate = Unit

  pub unblocked_lem :
      (D : ℕ → U3 → Type 0) (queue : Queue)
      → Steps b (IsMarked D) (IsMarked D) (Unblocked queue) (retain_unblocked b queue)
  unfolding retain_unblocked
  unblocked_lem D queue s q st h = elim (Bool-cases (st.must_flush || st.is_reordered)) [
    | inl flagged ↦ inl (st, rw flagged refl, refl, h)
    | inr plain ↦ elim (Bool-cases (gate_blocked queue q st.pending)) [
      | inl blocked ↦
          inl (record st { maybe_destructive = true }, rw (plain, blocked) refl, refl, h)
      | inr free ↦ elim (Bool-cases st.maybe_destructive) [
        | inr checked ↦ inl (st, rw (plain, free, checked) refl, refl, h)
        | inl unchecked ↦ elim (eager_cases s q st.pending) [
          | inl e ↦ inl (
            record st { maybe_destructive = false },
            rw (plain, free, unchecked, e) refl,
            refl,
            h,
          )
          | inr e ↦
              inr (
                rw (plain, free, unchecked, e) (bind_assoc (b.perform_u4 q st.pending s) _ _),
                free,
              )
        ]
      ]
    ]
  ]

  pub remaining_lem :
      (D : ℕ → U3 → Type 0) → Steps b (IsMarked D) (IsMarked D) Any (retain_remaining b)
  unfolding retain_remaining
  remaining_lem D s q st h = elim (Bool-cases (st.is_reordered || not st.maybe_destructive)) [
    | inl waits ↦ inl (st, rw waits refl, refl, h)
    | inr tried ↦ elim (eager_cases s q st.pending) [
      | inl e ↦ inl (record st { maybe_destructive = false }, rw (tried, e) refl, refl, h)
      | inr e ↦ inr (rw (tried, e) (bind_assoc (b.perform_u4 q st.pending s) _ _), tt)
    ]
  ]

  pub flushed_lem : (D : ℕ → U3 → Type 0) → Steps b (IsMarked D) IsClear D (retain_flushed b)
  unfolding retain_flushed
  flushed_lem D s q st h = elim (Bool-cases st.must_flush) [
    | inr waits ↦ inl (record st { is_reordered = false }, rw waits refl, refl, (waits, refl))
    | inl flushed ↦
        let alone : st.is_reordered ≡ false = rw flushed at h.0 in
        inr (rw (flushed, alone) refl, h.1 flushed)
  ]

  -- The width that is asked for holds all gates that must be flushed.
  pub max_flushed_lem :
      (D : ℕ → U3 → Type 0) (m w : ℕ) (qs : Qubits)
      → max_flushed b m qs ≤ w
      → All (λ e. IsMarked D e.0 e.1) qs
      → (m ≤ w) × All (λ e. IsMarked (λ q gate. D q gate × (q ≤ w)) e.0 e.1) qs
  unfolding max_flushed
  max_flushed_lem D m w [] h marks = (h, tt)
  max_flushed_lem D m w ((q, st) ∷ qs) h marks =
      let (here, rest) =
        max_flushed_lem D (if st.must_flush && ltb m q then q else m) w qs h marks.1 in
      (
        ground (arith, here),
        ((marks.0.0, λ flushed. (marks.0.1 flushed, ground (arith, here, flushed))), rest),
      )

  -- Where no forced gate is blocked, each of them is unblocked.
  pub none_blocked :
      (queue : Queue) (qs : Qubits)
      → any_blocked b queue qs ≡ false
      → All (λ e. IsMarked Any e.0 e.1) qs
      → All (λ e. IsMarked (Unblocked queue) e.0 e.1) qs
  unfolding any_blocked
  none_blocked queue [] free h = tt
  none_blocked queue ((q, st) ∷ qs) free h = (
    (h.0.0, λ flushed. ground (arith, free, flushed)),
    none_blocked queue qs (ground (arith, free)) h.1,
  )
