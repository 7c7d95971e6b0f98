-- ===== src/Util/Chunks.antt =====
-- `merge_chunk_pairs` cuts both slices into chunks, without a panic and without a loss.
use qblaze.Base.{ℕ, ◌≡◌, List, [], ◌∷◌, ◌++◌, Run, ok}

-- The chunks of each side, put together.
abbrev pub all_left : List (List ℕ × List ℕ) → List ℕ
all_left [] = []
all_left (c ∷ cs) = c.0 ++ all_left cs

abbrev pub all_right : List (List ℕ × List ℕ) → List ℕ
all_right [] = []
all_right (c ∷ cs) = c.1 ++ all_right cs

pub record Chunked (c0 c1 : List ℕ) (r : Run (List (List ℕ × List ℕ))) : Type 0 where
  pub chunks : List (List ℕ × List ℕ)
  pub returns : r ≡ ok chunks
  pub left : all_left chunks ≡ c0
  pub right : all_right chunks ≡ c1
