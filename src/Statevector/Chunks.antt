-- ===== src/Statevector/Chunks.antt =====
-- The sizes that the planning of `src/statevector.rs` hands to `chunks`, which panics at the size zero.
use native.Mathlib.Nat.{
  mul-le-mul_right, mul_comm, suc-mul, add-mul, one-mul, zero-mul, mod-lt, div-add-mod',
}
use qblaze.Base.{
  ℕ, suc, zero, ◌+◌, ◌-◌, ◌*◌, ◌/◌, ◌%◌, ◌≤◌, ◌<◌, ◌≡◌, max, refl, ap, arith, Bool, true, false,
  ◌||◌, Bool-cases, ltb, inl, inr, if◌then◌else◌, leb, leb→le, ◌==◌, ==_iff, ok,
}
use qblaze.Statevector.Plan.{
  saturating_mul, ceil, div_ceil, fit_loop, chunk_sizes, Context, for_chunks, for_common, words_for,
  wrapping_mul, state_max_qubit,
}

-- The quotient is the least number of pieces.
ceil-le_of : (n d m : ℕ) → 0 < d → n ≤ m * d → ceil n d ≤ m
unfolding ceil
ceil-le_of n d m h below =
    let parts = div-add-mod' n d in
    let small = mod-lt n h in
    elim (Bool-cases (leb (suc m) (n / d))) [
      | inl over ↦
          let step : suc m * d ≤ n / d * d = mul-le-mul_right d (leb→le _ _ over) in
          absurd (omega (arith, suc-mul m d, step, parts, below))
      | inr fits ↦ elim (Bool-cases (n % d == 0)) [
        | inl exact ↦ rw exact (ground arith)
        | inr rest ↦ elim (Bool-cases (m == n / d)) [
          | inl same ↦
              let e : m ≡ n / d = (==_iff _ _).0 same in
              absurd (ground (arith, ap (λ (t : ℕ). t * d) e))
          | inr apart ↦ rw rest (ground arith)
        ]
      ]
    ]

le-ceil-mul : (n d : ℕ) → 0 < d → n ≤ ceil n d * d
unfolding ceil
le-ceil-mul n d h =
    let parts = div-add-mod' n d in
    let small = mod-lt n h in
    elim (Bool-cases (n % d == 0)) [
      | inl exact ↦ rw exact (omega (arith, (==_iff _ _).0 exact, add-mul (n / d) 0 d, zero-mul d))
      | inr rest ↦ rw rest (omega (arith, add-mul (n / d) 1 d, one-mul d))
    ]

ceil-pos : (n d : ℕ) → 0 < n → 0 < d → 0 < ceil n d
ceil-pos n d hn hd = elim (Bool-cases (ceil n d == 0)) [
  | inl none_left ↦ absurd (
      omega
        (arith, le-ceil-mul n d hd, ap (λ (t : ℕ). t * d) ((==_iff _ _).0 none_left), zero-mul d))
  | inr some_left ↦ ground arith
]

-- Cut into pieces of the size that `k` pieces need, a slice gives at most `k` pieces.
ceil-ceil : (n k : ℕ) → 0 < n → 0 < k → ceil n (ceil n k) ≤ k
ceil-ceil n k hn hk =
    ceil-le_of n (ceil n k) k (ceil-pos n k hn hk)
      (omega (arith, le-ceil-mul n k hk, mul_comm k (ceil n k)))

div_ceil_lem : (n d : ℕ) → 0 < d → div_ceil n d ≡ ok (ceil n d)
unfolding div_ceil
div_ceil_lem n d h = ground arith

-- Two pieces are enough for two slices, so the loop ends before its divisor is zero.
fits_at_one :
    (n0 n1 : ℕ) → 0 < n0 → 0 < n1 → ceil n0 (ceil (n0 + n1) 1) + ceil n1 (ceil (n0 + n1) 1) ≤ 2
fits_at_one n0 n1 h0 h1 =
    let whole = le-ceil-mul (n0 + n1) 1 (omega arith) in
    let chunk = ceil (n0 + n1) 1 in
    let one0 =
      ceil-le_of n0 chunk 1 (ceil-pos (n0 + n1) 1 (omega arith) (omega arith)) (omega arith) in
    let one1 =
      ceil-le_of n1 chunk 1 (ceil-pos (n0 + n1) 1 (omega arith) (omega arith)) (omega arith) in
    omega arith

fit_loop_lem :
    (fuel n0 n1 num_chunks div : ℕ)
    → 0 < n0
    → 0 < n1
    → 2 ≤ num_chunks
    → 0 < div
    → div ≤ fuel
    → (k0 k1 : ℕ) × (fit_loop fuel n0 n1 num_chunks div ≡ ok (k0, k1))
      × (0 < k0)
      × (0 < k1)
      × (k0 + k1 ≤ num_chunks)
unfolding fit_loop
fit_loop_lem zero n0 n1 num_chunks div h0 h1 h2 h3 h4 = absurd (omega arith)
fit_loop_lem (suc fuel) n0 n1 num_chunks div h0 h1 h2 h3 h4 =
    let chunk = ceil (n0 + n1) div in
    let chunk-pos = ceil-pos (n0 + n1) div (omega arith) h3 in
    let k0 = ceil n0 chunk in
    let k1 = ceil n1 chunk in
    let e0 = div_ceil_lem (n0 + n1) div h3 in
    let e1 = div_ceil_lem n0 chunk chunk-pos in
    let e2 = div_ceil_lem n1 chunk chunk-pos in
    elim (Bool-cases (leb (k0 + k1) num_chunks)) [
      | inl fits ↦ (
        k0,
        k1,
        rw (e0, e1, e2, fits) refl,
        ceil-pos n0 chunk h0 chunk-pos,
        ceil-pos n1 chunk h1 chunk-pos,
        leb→le _ _ fits,
      )
      | inr many ↦ elim (Bool-cases (div == 1)) [
        | inl last ↦ absurd (too_many div k0 k1 num_chunks ((==_iff _ _).0 last) refl refl h2 many)
        | inr earlier ↦
            let (r0, r1, e, p0, p1, below) =
              fit_loop_lem fuel n0 n1 num_chunks (div - 1) h0 h1 h2 (ground arith) (omega arith) in
            (r0, r1, rw (e0, e1, e2, many) e, p0, p1, below)
      ]
    ]
  where
    too_many :
        (div k0 k1 num_chunks : ℕ)
        → div ≡ 1
        → ceil n0 (ceil (n0 + n1) div) ≡ k0
        → ceil n1 (ceil (n0 + n1) div) ≡ k1
        → 2 ≤ num_chunks
        → leb (k0 + k1) num_chunks ≡ false
        → ⊥
    too_many div k0 k1 num_chunks e e0 e1 h many =
        let whole = fits_at_one n0 n1 h0 h1 in
        let k0_at_one : ceil n0 (ceil (n0 + n1) 1) ≡ k0 = rw e at e0 in
        let k1_at_one : ceil n1 (ceil (n0 + n1) 1) ≡ k1 = rw e at e1 in ground arith

one_slice_lem :
    (num_chunks n0 n1 c : ℕ)
    → 0 < c
    → n0 + n1 ≤ c * num_chunks
    → (n0 == 0) || (n1 == 0) ≡ true
    → ceil n0 c + ceil n1 c ≤ num_chunks
one_slice_lem num_chunks n0 n1 c h below one = elim (Bool-cases (n0 == 0)) [
  | inl empty0 ↦
      let piece0 = ceil-le_of n0 c 0 h (ground arith) in
      let piece1 = ceil-le_of n1 c num_chunks h (omega (arith, mul_comm c num_chunks)) in
      omega arith
  | inr some0 ↦
      let piece0 = ceil-le_of n0 c num_chunks h (omega (arith, mul_comm c num_chunks)) in
      let piece1 = ceil-le_of n1 c 0 h (ground arith) in omega arith
]

-- The sizes for a target number of chunks are positive, and make no more chunks than the target, or
-- two.
pub chunk_sizes_lem :
    (num_chunks n0 n1 : ℕ)
    → 0 < n0 + n1
    → (c0 c1 : ℕ) × (chunk_sizes num_chunks n0 n1 ≡ ok (c0, c1))
      × (0 < c0)
      × (0 < c1)
      × (ceil n0 c0 + ceil n1 c1 ≤ max num_chunks 2)
unfolding chunk_sizes
chunk_sizes_lem num_chunks n0 n1 h = elim (Bool-cases (leb num_chunks 2)) [
  | inl few ↦
      let n = n0 + n1 in
      let one0 = ceil-le_of n0 n 1 h (omega arith) in
      let one1 = ceil-le_of n1 n 1 h (omega arith) in (n, n, rw few refl, h, h, ground arith)
  | inr many ↦
      let enough : 2 < num_chunks = ground arith in
      elim (Bool-cases ((n0 == 0) || (n1 == 0))) [
        | inl one_slice ↦
            let c = ceil (n0 + n1) num_chunks in
            let c-pos = ceil-pos (n0 + n1) num_chunks h (omega arith) in
            let pieces = ceil-ceil (n0 + n1) num_chunks h (omega arith) in
            let e = div_ceil_lem (n0 + n1) num_chunks (omega arith) in
            (
              c,
              c,
              rw (many, one_slice, e) refl,
              c-pos,
              c-pos,
              omega (
                arith,
                one_slice_lem num_chunks n0 n1 c c-pos
                    (le-ceil-mul (n0 + n1) num_chunks (omega arith)) one_slice,
              ),
            )
        | inr two_slices ↦
            let h0 : 0 < n0 = ground arith in
            let h1 : 0 < n1 = ground arith in
            let (k0, k1, e, p0, p1, below) =
              fit_loop_lem num_chunks n0 n1 num_chunks num_chunks h0 h1 (omega arith) (omega arith)
                (omega arith) in
            let pieces0 = ceil-ceil n0 k0 h0 p0 in
            let pieces1 = ceil-ceil n1 k1 h1 p1 in
            (
              ceil n0 k0,
              ceil n1 k1,
              rw (many, two_slices, e, div_ceil_lem n0 k0 p0, div_ceil_lem n1 k1 p1) refl,
              ceil-pos n0 k0 h0 p0,
              ceil-pos n1 k1 h1 p1,
              omega (arith, pieces0, pieces1, below),
            )
      ]
]

ceil-zero : (d : ℕ) → 0 < d → ceil 0 d ≡ 0
ceil-zero d h = omega (arith, ceil-le_of 0 d 0 h (omega arith))

saturating_mul-pos : (a b : ℕ) → 0 < a → 0 < b → 0 < saturating_mul a b
unfolding saturating_mul
saturating_mul-pos a b ha hb = let product = mul-le-mul_right b ha in omega (arith, one-mul b)

module _ (ctx : Context) (max_chunk_size : ℕ) (h : 0 < max_chunk_size) (hthr : 0 < ctx.num_threads)
    (hmin : 0 < ctx.work_item_min_size) where
  -- The number of chunks is computed for every state, and is at most two for the empty one.
  for_common_lem :
      (n : ℕ)
      → (pool : Bool) × (num_chunks : ℕ) × (for_common ctx n max_chunk_size ≡ ok (pool, num_chunks))
        × (n ≡ 0 → num_chunks ≤ 2)
  unfolding for_common
  for_common_lem n = elim (Bool-cases (ltb n ctx.multithreading_threshold)) [
    | inl small ↦ (false, 1, rw small refl, λ e. omega arith)
    | inr large ↦ elim (Bool-cases (leb ctx.num_threads 1)) [
      | inl alone ↦ (
        false,
        ceil n max_chunk_size,
        rw (large, alone, div_ceil_lem n max_chunk_size h) refl,
        λ e. rw e (omega (arith, ceil-zero max_chunk_size h)),
      )
      | inr pool ↦ elim (Bool-cases (leb n (wrapping_mul ctx.work_item_min_size ctx.num_threads))) [
        | inl few ↦ (
          true,
          ceil n ctx.work_item_min_size,
          rw (large, pool, few, div_ceil_lem n ctx.work_item_min_size hmin) refl,
          λ e. rw e (omega (arith, ceil-zero ctx.work_item_min_size hmin)),
        )
        | inr many ↦
            let stride = saturating_mul max_chunk_size ctx.num_threads in
            let e =
              div_ceil_lem n stride (saturating_mul-pos max_chunk_size ctx.num_threads h hthr) in
            elim (Bool-cases (leb (ceil n stride) 1)) [
              | inl once ↦ (
                true,
                ctx.num_threads,
                rw (large, pool, many, e, once) refl,
                λ z. absurd (ground arith),
              )
              | inr again ↦ (
                true,
                wrapping_mul ctx.num_threads (ceil n stride),
                rw (large, pool, many, e, again) refl,
                λ z. absurd (ground arith),
              )
            ]
      ]
    ]
  ]

  -- With positive sizes and threads `for_chunks` of a state that is not empty returns in a build
  -- without overflow checks, whichever products wrap around: no division by zero, and its loop
  -- ends. Both sizes are positive, and the slices fall into no more chunks than the target of
  -- `for_common`, or two.
  pub for_chunks_lem :
      (element_size n0 n1 : ℕ)
      → 0 < n0 + n1
      → (pool0 pool : Bool) × (num_chunks c0 c1 : ℕ) × (for_common ctx
            (wrapping_mul (n0 + n1) element_size)
            max_chunk_size
          ≡ ok (pool0, num_chunks))
        × (for_chunks ctx element_size max_chunk_size n0 n1 ≡ ok (pool, c0, c1))
        × (0 < c0)
        × (0 < c1)
        × (ceil n0 c0 + ceil n1 c1 ≤ max num_chunks 2)
  unfolding for_chunks
  for_chunks_lem element_size n0 n1 some_elements =
      let (pool, num_chunks, e, none_left) = for_common_lem (wrapping_mul (n0 + n1) element_size) in
      let (c0, c1, e', p0, p1, below) = chunk_sizes_lem num_chunks n0 n1 some_elements in
      (
        pool,
        (if leb num_chunks 2 then false else pool),
        num_chunks,
        c0,
        c1,
        e,
        rw (e, e') refl,
        p0,
        p1,
        below,
      )

  -- With positive sizes and threads `for_chunks` of an empty state returns the sizes zero.
  pub for_chunks-empty :
      (element_size : ℕ) → for_chunks ctx element_size max_chunk_size 0 0 ≡ ok (false, 0, 0)
  unfolding for_chunks chunk_sizes
  for_chunks-empty element_size =
      let (pool, num_chunks, e, few) = for_common_lem (wrapping_mul 0 element_size) in
      let few' : leb num_chunks 2 ≡ true =
        ground (arith, few (rw (wrapping_mul, zero-mul element_size) refl)) in
      rw (e, few') refl

-- The width that `new` chooses holds the qubit, and is at most the largest one.
pub words_for_lem :
    (q : ℕ)
    → q ≤ 3967
    → (q ≤ state_max_qubit (words_for q)) × (state_max_qubit (words_for q) ≤ 3967)
unfolding words_for state_max_qubit
words_for_lem q h = ground arith
