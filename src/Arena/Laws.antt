-- ===== src/Arena/Laws.antt =====
-- Every allocation lies in its chunk, after those before it, and is aligned behind its header.
use native.Mathlib.Nat.{
  mod-eq-zero_of_dvd, dvd-add, dvd_refl, mod-lt, mod-le, mod-eq_of_lt, mod_self,
}
use qblaze.Base.{
  ℕ, ◌+◌, ◌-◌, ◌%◌, ◌≤◌, ◌<◌, ◌≡◌, ◌⊎◌, inl, inr, refl, arith, none, some, [], ◌∷◌, All, ltb, true,
  leb, length, ◌/◌, Bool-cases, ==_iff, ◌==◌, Run, ok,
}
use qblaze.Angle.Round.{floor-dvd}
use qblaze.Base.Words.{pow-lt}
use qblaze.Arena.{
  Chunk, Chunks, max_layout, new_chunk, align_offset, try_alloc, newest_alloc, chunk_size,
  alloc_bytes,
}

pub record IsChunk (c : Chunk) : Type 0 where
  pub from_base : c.base ≤ c.ptr
  pub to_end : c.ptr ≤ c.alloc_end

align_lem : (x a : ℕ) → 0 < a → (align_offset x a < a) × ((x + align_offset x a) % a ≡ 0)
unfolding align_offset
align_lem x a pos = (
  mod-lt (a - x % a) pos,
  elim (Bool-cases (x % a == 0)) [
    | inl at ↦
        let e : x % a ≡ 0 = (==_iff _ _).0 at in
        let whole : a - 0 ≡ a = omega arith in
        let stays : x + 0 ≡ x = omega arith in rw (e, whole, mod_self a, stays) e
    | inr off ↦
        let below : x % a < a = mod-lt x pos in
        let part : x % a ≤ x = mod-le x a in
        let some_left : 0 < x % a = ground arith in
        let rest : (a - x % a) % a ≡ a - x % a = mod-eq_of_lt (omega arith) in
        let next : x + (a - x % a) ≡ (x - x % a) + a = omega arith in
        rw (rest, next) (mod-eq-zero_of_dvd a (dvd-add a (floor-dvd x a) (dvd_refl a)))
  ],
)

-- An allocation in a chunk.
pub record Fits (c : Chunk) (header size align at : ℕ) (c' : Chunk) : Type 0 where
  pub after : c.ptr ≤ at
  pub aligned : (at + header) % align ≡ 0
  pub ends : c'.ptr ≡ at + header + size
  pub valid : IsChunk c'
  pub same_end : c'.alloc_end ≡ c.alloc_end
  pub same_base : c'.base ≡ c.base

pub try_alloc_lem :
    (c : Chunk) (header size align : ℕ)
    → IsChunk c
    → 0 < align
    → ((try_alloc c header size align ≡ none) × (c.alloc_end < c.ptr + header + size + align))
      ⊎ ((at : ℕ) × (c' : Chunk) × (try_alloc c header size align ≡ some (at, c'))
          × Fits c header size align at c')
unfolding try_alloc
try_alloc_lem c header size align v pos =
    let offset = align_offset (c.ptr + header) align in
    let space = c.alloc_end - c.ptr in
    let (small, aligned) = align_lem (c.ptr + header) align pos in
    elim (Bool-cases (ltb space header)) [
      | inl no_header ↦ inl (rw no_header, ground (arith, v.to_end))
      | inr header_fits ↦ elim (Bool-cases (ltb (space - header) size)) [
        | inl no_size ↦ inl (rw (header_fits, no_size), ground (arith, v.to_end))
        | inr size_fits ↦ elim (Bool-cases (ltb (space - header - size) offset)) [
          | inl no_offset ↦ inl (rw (header_fits, size_fits, no_offset), ground (arith, v.to_end))
          | inr offset_fits ↦
              let at = c.ptr + offset in
              let moved : at + header ≡ c.ptr + header + offset = omega arith in
              inr (
                at,
                record { ptr = at + (header + size); alloc_end = c.alloc_end; base = c.base },
                rw (header_fits, size_fits, offset_fits),
                record {
                  after = omega arith;
                  aligned = rw moved aligned;
                  ends = omega arith;
                  valid = record {
                    from_base = omega (arith, v.from_base);
                    to_end = ground (arith, v.to_end);
                  };
                  same_end = refl;
                  same_base = refl;
                },
              )
        ]
      ]
    ]

-- What an arena gives out: memory of its newest chunk, aligned behind the header, past what that
-- chunk gave out before; or memory of a new chunk at the address, where the newest one is too small.
pub record Allocates (address : ℕ) (cs : Chunks) (header size align : ℕ) (r : Run (ℕ × Chunks))
    : Type 0 where
  pub at : ℕ
  pub used : Chunk
  pub before : Chunk
  pub others : Chunks
  pub returns : r ≡ ok (at, used ∷ others)
  pub source :
      (cs ≡ before ∷ others)
      ⊎ ((newest_alloc cs header size align ≡ none)
          × (new_chunk address (chunk_size cs header size align) ≡ ok before)
          × (others ≡ cs))
  pub fits : Fits before header size align at used
  pub all_valid : All IsChunk others

-- A request and an arena for which the size of a new chunk does not overflow.
pub record IsModest (cs : Chunks) (header size align : ℕ) : Type 0 where
  pub request : size + header + align ≤ max_layout
  pub few_chunks : length cs < 106

chunk_size_lem :
    (cs : Chunks) (header size align : ℕ)
    → IsModest cs header size align
    → (chunk_size cs header size align ≤ max_layout)
      × (size + header + align ≤ chunk_size cs header size align)
unfolding chunk_size
chunk_size_lem cs header size align m =
    let half : length cs / 2 ≤ 52 = omega (arith, m.few_chunks) in
    let power = pow-lt 53 (length cs / 2) (omega (arith, half)) in
    let shift : length cs / 2 % 64 ≡ length cs / 2 = omega (arith, half) in
    rw shift (omega (arith, m.request, power), omega (arith, m.request, power))

new_chunk_lem :
    (address size : ℕ)
    → size ≤ max_layout
    → (c : Chunk) × (new_chunk address size ≡ ok c) × IsChunk c × (c.alloc_end ≡ c.ptr + size)
unfolding new_chunk
new_chunk_lem address size h =
    let small : leb size max_layout ≡ true = ground arith in
    (
      record { ptr = address; alloc_end = address + size; base = address },
      rw small refl,
      record { from_base = omega arith; to_end = omega arith },
      refl,
    )

grown_lem :
    (address : ℕ) (cs : Chunks) (header size align : ℕ)
    → IsModest cs header size align
    → All IsChunk cs
    → 0 < align
    → newest_alloc cs header size align ≡ none
    → Allocates address cs header size align (alloc_bytes address cs header size align)
unfolding alloc_bytes
grown_lem address cs header size align m vs pos full =
    let (small, enough) = chunk_size_lem cs header size align m in
    let (c, made, valid, ends) = new_chunk_lem address (chunk_size cs header size align) small in
    elim (try_alloc_lem c header size align valid pos) [
      | inl (fails, short) ↦ absurd (omega arith)
      | inr (at, c', found, fits) ↦ record {
        at = at;
        used = c';
        before = c;
        others = cs;
        returns = rw (alloc_bytes, full, made, newest_alloc, found);
        source = inr (full, made, refl);
        fits = fits;
        all_valid = vs;
      }
    ]

-- In an arena of less than 106 valid chunks `alloc_bytes` of at most 2^63 - 8 bytes, header and
-- alignment included, never panics, wherever the allocator puts a new chunk. The memory is of the
-- newest chunk, or of a new one where the newest one is too small. The allocation is aligned
-- behind its header, starts past what that chunk gave out before, ends within the chunk, whose
-- bounds do not change, and all chunks stay valid.
pub alloc_bytes_lem :
    (address : ℕ) (cs : Chunks) (header size align : ℕ)
    → IsModest cs header size align
    → All IsChunk cs
    → 0 < align
    → Allocates address cs header size align (alloc_bytes address cs header size align)
unfolding alloc_bytes
alloc_bytes_lem address [] header size align m vs pos =
    grown_lem address [] header size align m vs pos refl
alloc_bytes_lem address (c ∷ cs) header size align m vs pos =
    elim (try_alloc_lem c header size align vs.0 pos) [
      | inl (fails, short) ↦
          grown_lem address (c ∷ cs) header size align m vs pos (rw (newest_alloc, fails))
      | inr (at, c', found, fits) ↦ record {
        at = at;
        used = c';
        before = c;
        others = cs;
        returns = rw (alloc_bytes, newest_alloc, found);
        source = inl refl;
        fits = fits;
        all_valid = vs.1;
      }
    ]
