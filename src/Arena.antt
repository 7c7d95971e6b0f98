-- ===== src/Arena.antt =====
-- `src/arena.rs`: the bump allocator. An address is a number; what is written to the memory, and the
-- drop functions that a chunk keeps in it, are not modelled.
pub mod Laws
use qblaze.Base.{
  ℕ, suc, zero, ◌+◌, ◌-◌, ◌*◌, ◌/◌, ◌%◌, ◌^◌, ◌≤◌, max, Option, none, some, List, [], ◌∷◌, length,
  ltb, leb, if◌then◌else◌, Run, ok, panic, unwrap, ◌>>=◌,
}

pub record Chunk : Type 0 where
  pub ptr : ℕ
  pub alloc_end : ℕ
  pub base : ℕ

-- The largest size that `Layout::from_size_align` takes at the alignment of `DropFunc`, 8 bytes.
abbrev pub max_layout : ℕ
max_layout = 2 ^ 63 - 8

-- `Chunk::new`, at the address that the allocator returns.
unfoldable pub new_chunk : ℕ → ℕ → Run Chunk
new_chunk address size =
    if leb size max_layout
    then ok (record { ptr = address; alloc_end = address + size; base = address })
    else panic

-- `align_offset`: the bytes up to the next multiple of the alignment.
unfoldable pub align_offset : ℕ → ℕ → ℕ
align_offset address align = (align - address % align) % align

-- The address of the allocation, and the chunk after it.
unfoldable pub try_alloc : Chunk → ℕ → ℕ → ℕ → Option (ℕ × Chunk)
try_alloc c header size align =
    let space = c.alloc_end - c.ptr in
    let offset = align_offset (c.ptr + header) align in
    if ltb space header
    then none
    else if ltb (space - header) size
    then none
    else if ltb (space - header - size) offset
    then none
    else (let at = c.ptr + offset in
        some (at, record { ptr = at + (header + size); alloc_end = c.alloc_end; base = c.base }))

-- The chunks of an arena, the newest first.
abbrev pub Chunks : Type 0
Chunks = List Chunk

abbrev pub newest_alloc : Chunks → ℕ → ℕ → ℕ → Option (ℕ × Chunks)
newest_alloc [] header size align = none
newest_alloc (c ∷ cs) header size align = elim (try_alloc c header size align) [
  | none ↦ none
  | some (at, c') ↦ some (at, c' ∷ cs)
]

-- The size of a new chunk, in a build without overflow checks.
unfoldable pub chunk_size : Chunks → ℕ → ℕ → ℕ → ℕ
chunk_size cs header size align =
    max ((size + header + align) % 2 ^ 64) (1024 * 2 ^ (length cs / 2 % 64) % 2 ^ 64)

-- `Arena::alloc_bytes`; the allocator returns `address` for a new chunk.
unfoldable pub alloc_bytes : ℕ → Chunks → ℕ → ℕ → ℕ → Run (ℕ × Chunks)
alloc_bytes address cs header size align = elim (newest_alloc cs header size align) [
  | some r ↦ ok r
  | none ↦ (do
    c ← new_chunk address (chunk_size cs header size align)
    unwrap (newest_alloc (c ∷ cs) header size align))
]
