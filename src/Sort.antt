-- ===== src/Sort.antt =====
-- The insertion sort of `src/shamelessly_stolen_from_libstd.rs`. The part of the slice before the
-- tail is a list from its end on, as the tail sifts down through it.
pub mod Laws
use qblaze.Base.{Bool, List, [], ◌∷◌, if◌then◌else◌}

-- `insert_tail`: the tail and the part before it, last item first.
unfoldable pub insert_tail : {T : Type 0} → (T → T → Bool) → T → List T → List T
insert_tail is_less tail [] = tail ∷ []
insert_tail is_less tail (y ∷ ys) =
    let sifted = y ∷ insert_tail is_less tail ys in if is_less tail y then sifted else tail ∷ y ∷ ys

-- The loop of `insertion_sort`: the sorted part, last item first, and the items after it.
unfoldable pub sort_loop : {T : Type 0} → (T → T → Bool) → List T → List T → List T
unfolding insert_tail
sort_loop is_less done [] = done
sort_loop is_less done (x ∷ xs) = sort_loop is_less (insert_tail is_less x done) xs

-- `Vec::reverse`, which turns the last item first into the order of the slice.
unfoldable pub reverse_onto : {T : Type 0} → List T → List T → List T
reverse_onto out [] = out
reverse_onto out (x ∷ xs) = reverse_onto (x ∷ out) xs

unfoldable pub insertion_sort : {T : Type 0} → (T → T → Bool) → List T → List T
unfolding sort_loop reverse_onto
insertion_sort is_less [] = []
insertion_sort is_less (x ∷ xs) = reverse_onto [] (sort_loop is_less (x ∷ []) xs)
