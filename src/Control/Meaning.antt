-- ===== src/Control/Meaning.antt =====
-- What a control means: a condition on a register; and the order that every control keeps.
use qblaze.Base.{
  ℕ, ◌+◌, ◌≤◌, ◌<◌, ◌≡◌, refl, arith, Bool, true, false, not, ◌&&◌, ◌||◌, [], ◌∷◌, ◌==◌, Bits, xorb,
  flip_all, Bool-cases, inl, inr,
}
use qblaze.Control.{Control, Qubit, qubit, value, uses, inplace_toggle_if}
use qblaze.Control.Items.{qubit-invert, value-invert}

-- `<->` on Booleans.
abbrev pub same : Bool → Bool → Bool
same a b = not (xorb a b)

-- The register satisfies every item of the control.
unfoldable pub satisfied : Control → Bits → Bool
satisfied [] b = true
satisfied (c ∷ cs) b = same (b (qubit c)) (value c) && satisfied cs b

-- Items in strictly ascending order of their qubits, from `lo` on.
abbrev pub IsSortedFrom : ℕ → Control → Type 0
IsSortedFrom lo [] = Unit
IsSortedFrom lo (c ∷ cs) = (lo ≤ qubit c) × IsSortedFrom (qubit c + 1) cs

abbrev pub IsControl : Control → Type 0
IsControl cs = IsSortedFrom 0 cs

pub IsSortedFrom-mono :
    (lo lo' : ℕ) (cs : Control) → lo' ≤ lo → IsSortedFrom lo cs → IsSortedFrom lo' cs
IsSortedFrom-mono lo lo' [] h s = tt
IsSortedFrom-mono lo lo' (c ∷ cs) h s = (omega arith, s.1)

-- A sorted control does not use a qubit below its lower bound.
pub uses_below : (lo q : ℕ) (cs : Control) → IsSortedFrom lo cs → q < lo → uses cs q ≡ false
unfolding uses
uses_below lo q [] s h = refl
uses_below lo q (c ∷ cs) s h = ground (arith, uses_below (qubit c + 1) q cs s.1 (omega arith))

-- A control reads only the qubits that it uses.
pub satisfied_ext :
    (cs : Control) (b b' : Bits)
    → ((q : ℕ) → uses cs q ≡ true → b q ≡ b' q)
    → satisfied cs b ≡ satisfied cs b'
unfolding satisfied uses
satisfied_ext [] b b' h = refl
satisfied_ext (c ∷ cs) b b' h =
    ground
      (arith, h (qubit c), satisfied_ext cs b b' (λ q used. h q (rw used (or_true (qubit c == q)))))
  where
    or_true : (x : Bool) → (x || true) ≡ true
    or_true true = refl
    or_true false = refl

pub inplace_toggle_if-IsSortedFrom :
    (t : Bits) (lo : ℕ) (cs : Control)
    → IsSortedFrom lo cs
    → IsSortedFrom lo (inplace_toggle_if t cs)
unfolding inplace_toggle_if
inplace_toggle_if-IsSortedFrom t lo [] s = tt
inplace_toggle_if-IsSortedFrom t lo (c ∷ cs) s = elim (Bool-cases (t (qubit c))) [
  | inl toggled ↦
      rw (toggled, qubit-invert c) (s.0, inplace_toggle_if-IsSortedFrom t (qubit c + 1) cs s.1)
  | inr left ↦ rw left (s.0, inplace_toggle_if-IsSortedFrom t (qubit c + 1) cs s.1)
]

-- Toggling the items of some qubits asks of a register what the control asked of the register with
-- these qubits flipped.
pub satisfied-inplace_toggle_if :
    (t b : Bits) (cs : Control) → satisfied (inplace_toggle_if t cs) b ≡ satisfied cs (flip_all t b)
unfolding inplace_toggle_if satisfied
satisfied-inplace_toggle_if t b [] = refl
satisfied-inplace_toggle_if t b (c ∷ cs) =
    ground (arith, qubit-invert c, value-invert c, satisfied-inplace_toggle_if t b cs)

pub uses-inplace_toggle_if :
    (t : Bits) (cs : Control) (q : Qubit) → uses (inplace_toggle_if t cs) q ≡ uses cs q
unfolding inplace_toggle_if uses
uses-inplace_toggle_if t [] q = refl
uses-inplace_toggle_if t (c ∷ cs) q = ground (arith, qubit-invert c, uses-inplace_toggle_if t cs q)
