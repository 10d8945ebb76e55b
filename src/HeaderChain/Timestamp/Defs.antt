-- ===== src/HeaderChain/Timestamp/Defs.antt =====
-- `median` and `validate_timestamp`.
use bit_vm.Prelude.{ℕ, Bool, List, [], ◌∷◌, get_or, ltb, leb, if◌then◌else◌}

unfoldable pub insert_sorted : ℕ → List ℕ → List ℕ
insert_sorted x [] = x ∷ []
insert_sorted x (y ∷ ys) = if leb x y then x ∷ y ∷ ys else y ∷ insert_sorted x ys

-- `sort_unstable` of the standard library.
unfoldable pub sort_unstable : List ℕ → List ℕ
unfolding insert_sorted
sort_unstable [] = []
sort_unstable (x ∷ xs) = insert_sorted x (sort_unstable xs)

-- `arr` has eleven entries, so index 5 is in range.
unfoldable pub median : List ℕ → ℕ
unfolding sort_unstable
median arr = get_or (sort_unstable arr) 5 0

unfoldable pub validate_timestamp : ℕ → List ℕ → Bool
unfolding median
validate_timestamp block_time prev_11_timestamps = ltb (median prev_11_timestamps) block_time
