-- ===== src/Sort/Laws.antt =====
-- The insertion sort by a key returns a sorted list of the same items.
use qblaze.Base.{ℕ, ◌+◌, ◌≤◌, ◌≡◌, refl, arith, Bool, List, [], ◌∷◌, ltb, Bool-cases, inl, inr}
use qblaze.Sort.{insert_tail, sort_loop, reverse_onto, insertion_sort}
use qblaze.Util.Merge.{IsAscending, count}

module _ {T : Type 0} (f : T → ℕ) where
  abbrev by_key : T → T → Bool
  by_key a b = ltb (f a) (f b)

  -- Keys that do not ascend, from an upper bound on.
  abbrev IsDescending : ℕ → List T → Type 0
  IsDescending hi [] = Unit
  IsDescending hi (x ∷ xs) = (f x ≤ hi) × IsDescending (f x) xs

  -- Sorted downwards, below some bound.
  abbrev Sorted : List T → Type 0
  Sorted [] = Unit
  Sorted (x ∷ xs) = IsDescending (f x) xs

  insert_tail-IsDescending :
      (hi : ℕ) (x : T) (ys : List T)
      → f x ≤ hi
      → IsDescending hi ys
      → IsDescending hi (insert_tail by_key x ys)
  unfolding insert_tail
  insert_tail-IsDescending hi x [] h s = (h, tt)
  insert_tail-IsDescending hi x (y ∷ ys) h s = elim (Bool-cases (ltb (f x) (f y))) [
    | inl below ↦ rw below (s.0, insert_tail-IsDescending (f y) x ys (ground arith) s.1)
    | inr above ↦ rw above (h, (ground arith, s.1))
  ]

  count-insert_tail :
      (p : T → Bool) (x : T) (ys : List T)
      → count f p (insert_tail by_key x ys) ≡ count f p (x ∷ ys)
  unfolding insert_tail
  count-insert_tail p x [] = refl
  count-insert_tail p x (y ∷ ys) = elim (Bool-cases (ltb (f x) (f y))) [
    | inl below ↦ rw below (omega (arith, count-insert_tail p x ys))
    | inr above ↦ rw above
  ]

  insert_tail-Sorted : (x : T) (ys : List T) → Sorted ys → Sorted (insert_tail by_key x ys)
  unfolding insert_tail
  insert_tail-Sorted x [] s = tt
  insert_tail-Sorted x (y ∷ ys) s = elim (Bool-cases (ltb (f x) (f y))) [
    | inl below ↦ rw below (insert_tail-IsDescending (f y) x ys (ground arith) s)
    | inr above ↦ rw above (ground arith, s)
  ]

  sort_loop_lem :
      (done xs : List T)
      → Sorted done
      → Sorted (sort_loop by_key done xs)
        × ((p : T → Bool) → count f p (sort_loop by_key done xs) ≡ count f p done + count f p xs)
  unfolding sort_loop
  sort_loop_lem done [] s = (s, λ p. omega arith)
  sort_loop_lem done (x ∷ xs) s =
      let (sorted, counts) =
        sort_loop_lem (insert_tail by_key x done) xs (insert_tail-Sorted x done s) in
      (sorted, λ p. omega (arith, counts p, count-insert_tail p x done))

  -- What was reversed already starts at or above the rest.
  abbrev Above : List T → List T → Type 0
  Above [] xs = Unit
  Above (o ∷ out) [] = Unit
  Above (o ∷ out) (x ∷ xs) = f x ≤ f o

  abbrev Ascends : List T → Type 0
  Ascends [] = Unit
  Ascends (o ∷ out) = IsAscending f (f o) out

  rest : (x : T) (xs : List T) → Sorted (x ∷ xs) → Sorted xs
  rest x [] s = tt
  rest x (y ∷ ys) s = s.1

  top : (x : T) (out xs : List T) → Sorted (x ∷ xs) → Above (x ∷ out) xs
  top x out [] s = tt
  top x out (y ∷ ys) s = s.0

  reverse_lem :
      (out xs : List T)
      → Ascends out
      → Sorted xs
      → Above out xs
      → Ascends (reverse_onto out xs)
        × ((p : T → Bool) → count f p (reverse_onto out xs) ≡ count f p out + count f p xs)
  unfolding reverse_onto
  reverse_lem out [] a s h = (a, λ p. omega arith)
  reverse_lem [] (x ∷ xs) a s h =
      let (up, counts) = reverse_lem (x ∷ []) xs tt (rest x xs s) (top x [] xs s) in
      (up, λ p. omega (arith, counts p))
  reverse_lem (o ∷ out) (x ∷ xs) a s h =
      let (up, counts) = reverse_lem (x ∷ o ∷ out) xs (h, a) (rest x xs s) (top x (o ∷ out) xs s) in
      (up, λ p. omega (arith, counts p))

  from_zero : (xs : List T) → Ascends xs → IsAscending f 0 xs
  from_zero [] a = tt
  from_zero (x ∷ xs) a = (omega arith, a)

  -- The insertion sort by a key returns the items with keys that do not descend, each as often as
  -- the slice has it.
  pub insertion_sort_lem :
      (xs : List T)
      → IsAscending f 0 (insertion_sort (λ a b. ltb (f a) (f b)) xs)
        × ((p : T → Bool) → count f p (insertion_sort (λ a b. ltb (f a) (f b)) xs) ≡ count f p xs)
  unfolding insertion_sort
  insertion_sort_lem [] = (tt, λ p. refl)
  insertion_sort_lem (x ∷ xs) =
      let (sorted, counts) = sort_loop_lem (x ∷ []) xs tt in
      let (up, kept) = reverse_lem [] (sort_loop by_key (x ∷ []) xs) tt sorted tt in
      (from_zero _ up, λ p. omega (arith, counts p, kept p))
