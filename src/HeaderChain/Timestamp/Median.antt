-- ===== src/HeaderChain/Timestamp/Median.antt =====
-- The timestamp rule: later than more than half of the last eleven.
use bit_vm.Prelude.{
  ℕ, zero, suc, ◌+◌, ◌≤◌, ◌<◌, ◌≡◌, refl, ◌↔◌, true, List, [], ◌∷◌, length, get_or, All, ltb,
  if◌then◌else◌, arith,
}
use bit_vm.HeaderChain.Timestamp.Defs.{insert_sorted, sort_unstable, validate_timestamp}

-- How many entries lie below `t`.
unfoldable pub count_below : ℕ → List ℕ → ℕ
count_below t [] = 0
count_below t (x ∷ xs) = (if ltb x t then 1 else 0) + count_below t xs

abbrev IsSorted : List ℕ → Type 0
IsSorted [] = Unit
IsSorted (x ∷ xs) = All (λ y. x ≤ y) xs × IsSorted xs

All-insert_sorted :
    (b x : ℕ) (xs : List ℕ) → b ≤ x → All (λ y. b ≤ y) xs → All (λ y. b ≤ y) (insert_sorted x xs)
unfolding insert_sorted
All-insert_sorted b x [] h a = (h, tt)
All-insert_sorted b x (y ∷ ys) h a = ground (arith, All-insert_sorted b x ys h a.1)

All-le : (a b : ℕ) (xs : List ℕ) → a ≤ b → All (λ y. b ≤ y) xs → All (λ y. a ≤ y) xs
All-le a b [] h p = tt
All-le a b (x ∷ xs) h p = (omega arith, All-le a b xs h p.1)

insert_sorted-IsSorted : (x : ℕ) (xs : List ℕ) → IsSorted xs → IsSorted (insert_sorted x xs)
unfolding insert_sorted
insert_sorted-IsSorted x [] s = (tt, tt)
insert_sorted-IsSorted x (y ∷ ys) s =
    ground (arith, All-insert_sorted y x ys, All-le x y ys, insert_sorted-IsSorted x ys s.1)

sort_unstable-IsSorted : (xs : List ℕ) → IsSorted (sort_unstable xs)
unfolding sort_unstable
sort_unstable-IsSorted [] = tt
sort_unstable-IsSorted (x ∷ xs) =
    insert_sorted-IsSorted x (sort_unstable xs) (sort_unstable-IsSorted xs)

count_below-insert_sorted :
    (t x : ℕ) (xs : List ℕ) → count_below t (insert_sorted x xs) ≡ count_below t (x ∷ xs)
unfolding count_below insert_sorted
count_below-insert_sorted t x [] = refl
count_below-insert_sorted t x (y ∷ ys) = ground (arith, count_below-insert_sorted t x ys)

length-insert_sorted : (x : ℕ) (xs : List ℕ) → length (insert_sorted x xs) ≡ suc (length xs)
unfolding insert_sorted
length-insert_sorted x [] = refl
length-insert_sorted x (y ∷ ys) = ground (arith, length-insert_sorted x ys)

sort_unstable_lem :
    (t : ℕ) (xs : List ℕ)
    → (count_below t (sort_unstable xs) ≡ count_below t xs)
      × (length (sort_unstable xs) ≡ length xs)
unfolding sort_unstable count_below
sort_unstable_lem t [] = (refl, refl)
sort_unstable_lem t (x ∷ xs) = ground (
  arith,
  count_below-insert_sorted t x (sort_unstable xs),
  length-insert_sorted x (sort_unstable xs),
  sort_unstable_lem t xs,
)

count_below_none : (t : ℕ) (xs : List ℕ) → All (λ y. t ≤ y) xs → count_below t xs ≡ 0
unfolding count_below
count_below_none t [] h = refl
count_below_none t (x ∷ xs) h = ground (arith, count_below_none t xs h.1)

-- In a sorted list entry `k` lies below `t` exactly when `k + 1` entries do.
get_or-lt_iff :
    (t k : ℕ) (xs : List ℕ)
    → IsSorted xs
    → k < length xs
    → (get_or xs k 0 < t) ↔ (suc k ≤ count_below t xs)
unfolding count_below
get_or-lt_iff t k [] s h = absurd (omega arith)
get_or-lt_iff t zero (x ∷ xs) s h = ground (arith, count_below_none t xs, All-le t x xs)
get_or-lt_iff t (suc k) (x ∷ xs) s h =
    ground (arith, get_or-lt_iff t k xs s.1, count_below_none t xs, All-le t x xs)

-- A block time is valid exactly when at least six of the last eleven timestamps lie below it.
pub validate_timestamp_iff :
    (time : ℕ) (prev_11_timestamps : List ℕ)
    → length prev_11_timestamps ≡ 11
    → (validate_timestamp time prev_11_timestamps ≡ true)
      ↔ (6 ≤ count_below time prev_11_timestamps)
unfolding validate_timestamp
validate_timestamp_iff time ts h = ground (
  arith,
  sort_unstable_lem time ts,
  get_or-lt_iff time 5 (sort_unstable ts) (sort_unstable-IsSorted ts),
)
