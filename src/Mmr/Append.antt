-- ===== src/Mmr/Append.antt =====
-- Appending a leaf to both forms: the full form stays a tower, and the subroots agree.
use bit_vm.Prelude.{
  ◌+◌, ◌^◌, ◌<◌, ◌≡◌, refl, sym, Option, some, List, [], ◌∷◌, ◌++◌, reverse, length, get_elem?,
  ◌>>=◌, arith,
}
use bit_vm.Hashing.{Bytes}
use bit_vm.Mmr.Defs.{
  MmrGuest, MmrNative, append_guest, append_native, level_subroots, new_native, new_guest,
  get_subroots,
}
use bit_vm.Mmr.Tower.{IsTower}
use bit_vm.Mmr.Push.{Pushed, push_lem, length-push}
use mathlib.Core.List.{append-nil, append_assoc}

module _ (sha256 : Bytes → Bytes) where
  -- The two forms after the leaves `xs`: the full form is a tower over them, and the compact form
  -- has its subroots and their number.
  pub record Agrees (n : MmrNative) (g : MmrGuest) (xs : List Bytes) : Type 0 where
    pub above : List (List Bytes)
    pub nodes : n ≡ record { nodes = xs ∷ above }
    pub tower : IsTower sha256 xs above
    pub sized : g.size ≡ length xs
    pub same_subroots : g.subroots ≡ level_subroots (xs ∷ above)

  -- `append` on either side, over a sequence of leaves.
  unfoldable pub append_all_native : MmrNative → List Bytes → Option MmrNative
  append_all_native n [] = some n
  append_all_native n (x ∷ xs) = append_native sha256 n x >>= λ n'. append_all_native n' xs

  unfoldable pub append_all_guest : MmrGuest → List Bytes → Option MmrGuest
  append_all_guest g [] = some g
  append_all_guest g (x ∷ xs) = append_guest sha256 g x >>= λ g'. append_all_guest g' xs

  append_native_lem :
      (l : List Bytes) (ls : List (List Bytes)) (x : Bytes) (p : Pushed sha256 x l ls 33)
      → append_native sha256 (record { nodes = l ∷ ls }) x
        ≡ some (record { nodes = (l ++ x ∷ []) ∷ p.grown })
  unfolding append_native
  append_native_lem l ls x p = rw (p.pairs, p.grows)

  append_guest_lem :
      (g : MmrGuest) (l : List Bytes) (ls : List (List Bytes)) (x : Bytes)
      (p : Pushed sha256 x l ls 33)
      → g.size ≡ length l
      → g.subroots ≡ level_subroots (l ∷ ls)
      → length l + 1 < 2 ^ 32
      → append_guest sha256 g x
        ≡ some (record { subroots = level_subroots ((l ++ x ∷ []) ∷ p.grown); size = length l + 1 })
  unfolding append_guest
  append_guest_lem g l ls x p s r h = rw (r, s, p.merges) (ground arith)

  -- One leaf: neither side panics, and they agree again.
  pub append-Agrees :
      (n : MmrNative) (g : MmrGuest) (xs : List Bytes) (x : Bytes)
      → Agrees n g xs
      → length xs + 1 < 2 ^ 32
      → (n' : MmrNative) × (g' : MmrGuest) × (append_native sha256 n x ≡ some n')
        × (append_guest sha256 g x ≡ some g')
        × Agrees n' g' (xs ++ x ∷ [])
  append-Agrees n g xs x a h = (
    record { nodes = (xs ++ x ∷ []) ∷ p.grown },
    record { subroots = level_subroots ((xs ++ x ∷ []) ∷ p.grown); size = length xs + 1 },
    rw a.nodes (append_native_lem xs a.above x p),
    append_guest_lem g xs a.above x p a.sized a.same_subroots h,
    record {
      above = p.grown;
      nodes = refl;
      tower = p.tower;
      sized = sym (length-push xs x);
      same_subroots = refl;
    },
  )
    where
      p : Pushed sha256 x xs a.above 33
      p = push_lem sha256 32 x xs a.above a.tower (omega arith)

  append_all-Agrees :
      (n : MmrNative) (g : MmrGuest) (xs ys : List Bytes)
      → Agrees n g xs
      → length xs + length ys < 2 ^ 32
      → (n' : MmrNative) × (g' : MmrGuest) × (append_all_native n ys ≡ some n')
        × (append_all_guest g ys ≡ some g')
        × Agrees n' g' (xs ++ ys)
  unfolding append_all_native append_all_guest
  append_all-Agrees n g xs [] a h = (n, g, refl, refl, rw append-nil a)
  append_all-Agrees n g xs (y ∷ ys) a h =
      let (n₁, g₁, p, q, a₁) = append-Agrees n g xs y a (omega arith) in
      let (n₂, g₂, p', q', a₂) =
        append_all-Agrees n₁ g₁ (xs ++ y ∷ []) ys a₁ (omega (arith, length-push xs y)) in
      (n₂, g₂, rw p p', rw q q', rw append_assoc at a₂)

  new-Agrees : Agrees (new_native) (new_guest) []
  unfolding new_native new_guest level_subroots
  new-Agrees = record {
    above = [];
    nodes = refl;
    tower = omega arith;
    sized = refl;
    same_subroots = refl;
  }

  pub built-Agrees :
      (xs : List Bytes)
      → length xs < 2 ^ 32
      → (n : MmrNative) × (g : MmrGuest) × (append_all_native new_native xs ≡ some n)
        × (append_all_guest new_guest xs ≡ some g)
        × Agrees n g xs
  built-Agrees xs h = append_all-Agrees new_native new_guest [] xs new-Agrees (omega arith)

  -- Append any fewer than 2^32 leaves to an empty native and an empty guest mountain range: neither
  -- panics, the native one holds the leaves at the bottom, the guest one counts them, and the
  -- native subroots are the guest's, highest mountain first.
  pub append_crosscheck :
      (xs : List Bytes)
      → length xs < 2 ^ 32
      → (n : MmrNative) × (g : MmrGuest) × (append_all_native new_native xs ≡ some n)
        × (append_all_guest new_guest xs ≡ some g)
        × (get_elem? n.nodes 0 ≡ some xs)
        × (g.size ≡ length xs)
        × (get_subroots n ≡ reverse g.subroots)
  unfolding get_subroots
  append_crosscheck xs h =
      let (n, g, p, q, a) = built-Agrees xs h in
      (n, g, p, q, rw a.nodes, a.sized, rw (a.nodes, a.same_subroots))
