-- ===== src/Mmr/Defs.antt =====
-- The two mountain ranges, their operations, and the inclusion proof.
use bit_vm.Prelude.{
  ℕ, zero, suc, ◌+◌, ◌-◌, ◌/◌, ◌%◌, ◌^◌, bit_and, bit_xor, Bool, false, ◌&&◌, ◌||◌, Option, none,
  some, List, [], ◌∷◌, ◌++◌, reverse, length, get_elem?, ltb, leb, ◌==◌, if◌then◌else◌, ◌>>=◌,
  bytes_eq,
}
use bit_vm.Prelude.Bits.{leading_zeros}
use bit_vm.Hashing.{Bytes, hash_pair}

pub record MmrInclusionProof : Type 0 where
  pub subroot_idx : ℕ
  pub internal_idx : ℕ
  pub inclusion_proof : List Bytes

-- `subroots` has the last pushed one first.
pub record MmrGuest : Type 0 where
  pub subroots : List Bytes
  pub size : ℕ

pub record MmrNative : Type 0 where
  pub nodes : List (List Bytes)

-- `1 << i` on 32 bits, where a release build masks the shift.
abbrev pub shl_one : ℕ → ℕ
shl_one i = 2 ^ (i % 32)

abbrev pub pop : List Bytes → Option (Bytes × List Bytes)
pop [] = none
pop (x ∷ xs) = some (x, xs)

unfoldable pub new_guest : MmrGuest
new_guest = record { subroots = []; size = 0 }

unfoldable pub new_native : MmrNative
new_native = record { nodes = [] ∷ [] }

-- `found == Some(&hash)`
abbrev pub is_some_of : Option Bytes → Bytes → Bool
is_some_of none hash = false
is_some_of (some found) hash = bytes_eq found hash

module _ (sha256 : Bytes → Bytes) where
  -- The `while size % 2 == 1` loop of `append`, on fuel, and the push after it.
  unfoldable pub merge_subroots : ℕ → ℕ → Bytes → List Bytes → Option (List Bytes)
  merge_subroots zero size current subroots = none
  merge_subroots (suc fuel) size current subroots =
      if size % 2 == 1
      then pop subroots
        >>= (λ top. merge_subroots fuel (size / 2) (hash_pair sha256 (top.0) current) (top.1))
      else some (current ∷ subroots)

  -- A u32 is halved to 0 in 32 rounds.
  unfoldable pub append_guest : MmrGuest → Bytes → Option MmrGuest
  unfolding merge_subroots
  append_guest m leaf = do
    subroots ← merge_subroots 33 m.size leaf m.subroots
    some (record { subroots = subroots; size = (m.size + 1) % 2 ^ 32 })

  -- The loop of `get_subroot` and of the guest's `verify_proof`, at round `i`.
  unfoldable pub climb : ℕ → ℕ → Bytes → List Bytes → Bytes
  climb i internal_idx current [] = current
  climb i internal_idx current (sibling ∷ siblings) =
      climb (i + 1) internal_idx
        (if bit_and internal_idx (shl_one i) == 0
          then hash_pair sha256 current sibling
          else hash_pair sha256 sibling current)
        siblings

  unfoldable pub get_subroot : MmrInclusionProof → Bytes → Bytes
  unfolding climb
  get_subroot p leaf = climb 0 p.internal_idx leaf p.inclusion_proof

  -- `subroots.get(i)` counts from the first pushed one.
  unfoldable pub verify_proof_guest : MmrGuest → Bytes → MmrInclusionProof → Bool
  unfolding climb
  verify_proof_guest m leaf p =
      is_some_of (get_elem? (reverse m.subroots) p.subroot_idx)
        (climb 0 p.internal_idx leaf p.inclusion_proof)

  -- The loop of `recalculate_peaks` from one level upwards: `level`, then the levels above it.
  unfoldable pub pair_levels : List Bytes → List (List Bytes) → Option (List (List Bytes))
  pair_levels level [] = some (level ∷ [])
  pair_levels level (next ∷ above) =
      if length level % 2 == 1 then some (level ∷ next ∷ above) else (do
        a ← get_elem? level (length level - 2)
        b ← get_elem? level (length level - 1)
        rest ← pair_levels (next ++ hash_pair sha256 a b ∷ []) above
        some (level ∷ rest))

  -- What follows the loop: a top level of two nodes or more gets a level above it.
  unfoldable pub grow_top : List Bytes → List (List Bytes) → Option (List (List Bytes))
  grow_top level [] =
      if ltb 1 (length level)
      then (do
        a ← get_elem? level 0
        b ← get_elem? level 1
        some (level ∷ (hash_pair sha256 a b ∷ []) ∷ []))
      else some (level ∷ [])
  grow_top level (next ∷ above) = grow_top next above >>= λ rest. some (level ∷ rest)

  unfoldable pub grow_levels : List (List Bytes) → Option (List (List Bytes))
  unfolding grow_top
  grow_levels [] = none
  grow_levels (level ∷ above) = grow_top level above

  unfoldable pub recalculate_peaks : List (List Bytes) → Option (List (List Bytes))
  unfolding pair_levels grow_levels
  recalculate_peaks [] = none
  recalculate_peaks (level ∷ above) = pair_levels level above >>= grow_levels

  unfoldable pub append_native : MmrNative → Bytes → Option MmrNative
  unfolding recalculate_peaks
  append_native m leaf = elim m.nodes [
    | [] ↦ none
    | leaves ∷ above ↦ recalculate_peaks ((leaves ++ leaf ∷ []) ∷ above) >>= λ nodes.
        some (record { nodes = nodes })
  ]

-- The loop of `get_subroots`, which ends in `reverse`: the lowest level's subroot first, as the
-- guest's stack has it.
unfoldable pub level_subroots : List (List Bytes) → List Bytes
level_subroots [] = []
level_subroots (level ∷ above) =
    if length level % 2 == 1
    then elim (get_elem? level (length level - 1)) [
      | none ↦ level_subroots above
      | some root ↦ root ∷ level_subroots above
    ]
    else level_subroots above

unfoldable pub get_subroots : MmrNative → List Bytes
unfolding level_subroots
get_subroots m = reverse (level_subroots m.nodes)

-- The `while` loop of `generate_proof` from one level upwards. `len() as u32 - 1` wraps.
unfoldable pub proof_path : List (List Bytes) → ℕ → Option (List Bytes)
proof_path [] current_index = none
proof_path (level ∷ above) current_index =
    if current_index == (length level % 2 ^ 32 + 2 ^ 32 - 1) % 2 ^ 32 && length level % 2 == 1
    then some []
    else (do
      sibling ←
          get_elem? level (if current_index % 2 == 0 then current_index + 1 else current_index - 1)
      rest ← proof_path above (current_index / 2)
      some (sibling ∷ rest))

-- The `for i in first..=last` loop of `get_helpers_from_index`: the set bits of `len` from bit
-- `i` on, over `rounds` bits.
unfoldable pub count_subtrees : ℕ → ℕ → ℕ → ℕ
count_subtrees zero i len = 0
count_subtrees (suc rounds) i len =
    (if bit_and len (2 ^ i) == 0 then 0 else 1) + count_subtrees rounds (i + 1) len

-- The number of leaves, `self.nodes[0].len()`.
abbrev pub leaf_count : List (List Bytes) → ℕ
leaf_count [] = 0
leaf_count (leaves ∷ _) = length leaves

unfoldable pub get_helpers_from_index : ℕ → ℕ → ℕ × ℕ
unfolding leading_zeros count_subtrees
get_helpers_from_index len index =
    let xor = bit_xor (len % 2 ^ 32) index in
    let xor_leading_digit = 31 - leading_zeros 32 xor in
    let internal_idx = bit_and index (shl_one xor_leading_digit - 1) in
    let leading_zeros_size = 31 - leading_zeros 32 (len % 2 ^ 32) in
    (
      count_subtrees (leading_zeros_size - xor_leading_digit) (xor_leading_digit + 1) len,
      internal_idx,
    )

unfoldable pub generate_proof : MmrNative → ℕ → Option (Bytes × MmrInclusionProof)
generate_proof m index = elim m.nodes [
  | [] ↦ none
  | leaves ∷ above ↦ if length leaves == 0 || leb (length leaves) index then none else (do
    path ← proof_path (leaves ∷ above) index
    leaf ← get_elem? leaves index
    let helpers = get_helpers_from_index (length leaves) index
    some (
      leaf,
      record { subroot_idx = helpers.0; internal_idx = helpers.1; inclusion_proof = path },
    ))
]

-- `subroots[i]` panics out of range.
unfoldable pub verify_proof_native :
    (Bytes → Bytes) → MmrNative → Bytes → MmrInclusionProof → Option Bool
unfolding get_subroot get_subroots
verify_proof_native sha256 m leaf p = do
  root ← get_elem? (get_subroots m) p.subroot_idx
  some (bytes_eq root (get_subroot sha256 p leaf))
