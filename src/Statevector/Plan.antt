-- ===== src/Statevector/Plan.antt =====
-- How `src/statevector.rs` cuts the state for the threads: the number of chunks, and the sizes that
-- `chunks` is called with. Sizes are in bytes, and the width that a qubit needs is in words.
use qblaze.Base.{
  ℕ, suc, zero, ◌+◌, ◌-◌, ◌*◌, ◌/◌, ◌%◌, ◌^◌, min, Bool, true, false, ◌||◌, if◌then◌else◌, ltb, leb,
  ◌==◌, Run, ok, panic, out_of_fuel, ◌>>=◌,
}
use qblaze.Control.{max_index}

-- `usize::div_ceil`, which panics at the divisor zero.
unfoldable pub ceil : ℕ → ℕ → ℕ
ceil n d = n / d + (if n % d == 0 then 0 else 1)

unfoldable pub div_ceil : ℕ → ℕ → Run ℕ
unfolding ceil
div_ceil n d = if d == 0 then panic else ok (ceil n d)

unfoldable pub saturating_mul : ℕ → ℕ → ℕ
saturating_mul a b = min (a * b) (2 ^ 64 - 1)

-- `Context`, as far as the planning reads it.
pub record Context : Type 0 where
  pub num_threads : ℕ
  pub chunk_size : ℕ
  pub multithreading_threshold : ℕ
  pub work_item_min_size : ℕ
  pub work_item_max_size : ℕ

-- A product of `usize`, which wraps around in a build without overflow checks.
unfoldable pub wrapping_mul : ℕ → ℕ → ℕ
wrapping_mul a b = a * b % 2 ^ 64

-- `for_common`, on the bytes of the state: whether to use the pool, and how many chunks to make.
unfoldable pub for_common : Context → ℕ → ℕ → Run (Bool × ℕ)
unfolding div_ceil saturating_mul wrapping_mul
for_common ctx n max_chunk_size =
    if ltb n ctx.multithreading_threshold
    then ok (false, 1)
    else (let thr = ctx.num_threads in
        if leb thr 1
        then (div_ceil n max_chunk_size >>= λ c. ok (false, c))
        else if leb n (wrapping_mul ctx.work_item_min_size thr)
        then (div_ceil n ctx.work_item_min_size >>= λ c. ok (true, c))
        else (div_ceil n (saturating_mul max_chunk_size thr) >>= λ chunks_per_thread.
            if leb chunks_per_thread 1
            then ok (true, thr)
            else ok (true, wrapping_mul thr chunks_per_thread)))

-- The loop of `for_chunks`.
unfoldable pub fit_loop : ℕ → ℕ → ℕ → ℕ → ℕ → Run (ℕ × ℕ)
unfolding div_ceil
fit_loop zero n0 n1 num_chunks div = out_of_fuel
fit_loop (suc fuel) n0 n1 num_chunks div = do
  chunk ← div_ceil (n0 + n1) div
  k0 ← div_ceil n0 chunk
  k1 ← div_ceil n1 chunk
  let rest = fit_loop fuel n0 n1 num_chunks (div - 1)
  if leb (k0 + k1) num_chunks then ok (k0, k1) else rest

-- `for_chunks`, from the target number of chunks on.
unfoldable pub chunk_sizes : ℕ → ℕ → ℕ → Run (ℕ × ℕ)
unfolding div_ceil fit_loop
chunk_sizes num_chunks n0 n1 =
    if leb num_chunks 2
    then ok (n0 + n1, n0 + n1)
    else if (n0 == 0) || (n1 == 0)
    then (div_ceil (n0 + n1) num_chunks >>= λ c. ok (c, c))
    else (do
      ks ← fit_loop num_chunks n0 n1 num_chunks num_chunks
      c0 ← div_ceil n0 ks.0
      c1 ← div_ceil n1 ks.1
      ok (c0, c1))

unfoldable pub for_chunks : Context → ℕ → ℕ → ℕ → ℕ → Run (Bool × ℕ × ℕ)
unfolding for_common chunk_sizes wrapping_mul
for_chunks ctx element_size max_chunk_size n0 n1 = do
  (use_pool, num_chunks) ← for_common ctx (wrapping_mul (n0 + n1) element_size) max_chunk_size
  (c0, c1) ← chunk_sizes num_chunks n0 n1
  ok (if leb num_chunks 2 then false else use_pool, c0, c1)

unfoldable pub for_merge : Context → ℕ → ℕ → Run (Bool × ℕ)
unfolding for_common wrapping_mul
for_merge ctx element_size n = for_common ctx (wrapping_mul n element_size) ctx.work_item_max_size

unfoldable pub for_sort : Context → ℕ → ℕ → Bool
unfolding wrapping_mul
for_sort ctx element_size n =
    if leb (wrapping_mul n element_size) ctx.multithreading_threshold then false else true

-- The words of the state that `new` makes for a qubit, and `max_qubit`.
unfoldable pub words_for : ℕ → ℕ
words_for q =
    if ltb q (1 * 64)
    then 1
    else if ltb q (2 * 64)
    then 2
    else if ltb q (6 * 64)
    then 6
    else if ltb q (14 * 64)
    then 14
    else if ltb q (22 * 64)
    then 22
    else if ltb q (30 * 64)
    then 30
    else if ltb q (46 * 64)
    then 46
    else max_index / 64 + (if max_index % 64 == 0 then 0 else 1)

unfoldable pub state_max_qubit : ℕ → ℕ
state_max_qubit n = 64 * n - 1
