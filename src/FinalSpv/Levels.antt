-- ===== src/FinalSpv/Levels.antt =====
-- The Bitcoin tree and the mid-state tree, level by level.
use bit_vm.Prelude.{
  ℕ, zero, suc, ◌+◌, ◌-◌, ◌/◌, ◌%◌, ◌<◌, ◌≡◌, refl, ap, ap₂, ◌∙◌, sym, subst, inl, inr, true, not,
  some, some_inj, List, [], ◌∷◌, ◌++◌, map, length, get_elem?, get_elem?-lt, ltb, ◌==◌,
  if◌then◌else◌, ◌>>=◌, >>=-eq-some, assert, assert-eq-some, bytes_eq, bytes_eq_refl, bytes_eq→eq,
  Bool-cases, arith,
}
use bit_vm.Hashing.{Bytes, calculate_sha256, calculate_double_sha256}
use bit_vm.FinalSpv.Merkle.{
  next_level, build_levels, top_node, path_from, parent_node, mid_state_node, climb,
}

module _ (sha256 : Bytes → Bytes) where
  abbrev pub hashes : List Bytes → List Bytes
  hashes = map sha256

  -- Hashing a mid-state node gives the node of the Bitcoin tree.
  sha256-mid_state_node :
      (a b : Bytes) → sha256 (mid_state_node sha256 a b) ≡ parent_node sha256 (sha256 a) (sha256 b)
  unfolding mid_state_node parent_node calculate_sha256 calculate_double_sha256
  sha256-mid_state_node a b = refl

  -- Different hashes come from different nodes.
  distinct : (a b : Bytes) → not (bytes_eq (sha256 a) (sha256 b)) ≡ true → not (bytes_eq a b) ≡ true
  distinct a b h = elim (Bool-cases (bytes_eq a b)) [
    | inl same ↦
        let e = bytes_eq→eq a b same in
        cc (bytes_eq_refl (sha256 a), ap (λ t. not (bytes_eq (sha256 a) (sha256 t))) e)
    | inr other ↦ rw other refl
  ]

  -- If the Bitcoin tree has a level above, so has the mid-state tree, and the one is the hashes of
  -- the other.
  next_level-hashes :
      (l ms : List Bytes)
      → next_level (parent_node sha256) (hashes l) ≡ some ms
      → (l' : List Bytes) × (next_level (mid_state_node sha256) l ≡ some l') × (ms ≡ hashes l')
  unfolding next_level
  next_level-hashes [] ms e = ([], refl, sym (some_inj e))
  next_level-hashes (a ∷ []) ms e =
      (mid_state_node sha256 a a ∷ [], refl, sym (some_inj e) ∙ rw (sha256-mid_state_node a a))
  next_level-hashes (a ∷ b ∷ rest) ms e =
      let (_, differ, e₁) = >>=-eq-some (assert (not (bytes_eq (sha256 a) (sha256 b)))) _ e in
      let (above, rec, e₂) = >>=-eq-some (next_level (parent_node sha256) (hashes rest)) _ e₁ in
      let (l', mine, same) = next_level-hashes rest above rec in
      (
        mid_state_node sha256 a b ∷ l',
        rw (distinct a b (assert-eq-some _ differ), mine),
        sym (some_inj e₂) ∙ rw (sha256-mid_state_node a b, same),
      )

  -- What a node and its sibling in the mid-state tree are hashed to.
  abbrev joined : ℕ → Bytes → Bytes → Bytes
  joined i leaf sibling =
      if i % 2 == 0
      then calculate_double_sha256 sha256 (leaf ++ calculate_sha256 sha256 sibling)
      else calculate_double_sha256 sha256 (calculate_sha256 sha256 sibling ++ leaf)

  abbrev sibling_at : ℕ → ℕ → ℕ
  sibling_at n i = if i % 2 == 1 then i - 1 else if n - 1 == i then i else i + 1

  length-next_level :
      (node : Bytes → Bytes → Bytes) (l m : List Bytes)
      → next_level node l ≡ some m
      → length m ≡ (length l + 1) / 2
  unfolding next_level
  length-next_level node [] m e = ap length (sym (some_inj e))
  length-next_level node (a ∷ []) m e = ap length (sym (some_inj e))
  length-next_level node (a ∷ b ∷ rest) m e =
      let (_, _, e₁) = >>=-eq-some (assert (not (bytes_eq a b))) _ e in
      let (above, rec, e₂) = >>=-eq-some (next_level node rest) _ e₁ in
      ap length (sym (some_inj e₂)) ∙ omega (arith, length-next_level node rest above rec)

  joined-left : (a b : Bytes) → joined 0 (sha256 a) b ≡ sha256 (mid_state_node sha256 a b)
  unfolding mid_state_node calculate_sha256 calculate_double_sha256
  joined-left a b = refl

  joined-right : (a b : Bytes) → joined 1 (sha256 b) a ≡ sha256 (mid_state_node sha256 a b)
  unfolding mid_state_node calculate_sha256 calculate_double_sha256
  joined-right a b = refl

  joined-skip : (i : ℕ) (x s : Bytes) → joined (suc (suc i)) x s ≡ joined i x s
  joined-skip i x s =
      ap
        (λ (t : ℕ).
          if t == 0
          then calculate_double_sha256 sha256 (x ++ calculate_sha256 sha256 s)
          else calculate_double_sha256 sha256 (calculate_sha256 sha256 s ++ x))
        (omega arith)

  sibling-skip :
      (n i : ℕ) → i < n → sibling_at (suc (suc n)) (suc (suc i)) ≡ suc (suc (sibling_at n i))
  sibling-skip n i h = ground arith

  -- The parent of a node.
  parent_of :
      (l m : List Bytes) (i : ℕ) (x s : Bytes)
      → next_level (mid_state_node sha256) l ≡ some m
      → i < length l
      → get_elem? l i ≡ some x
      → get_elem? l (sibling_at (length l) i) ≡ some s
      → (y : Bytes) × (get_elem? m (i / 2) ≡ some y) × (joined i (sha256 x) s ≡ sha256 y)
  unfolding next_level
  parent_of [] m i x s e lt p q = absurd (omega arith)
  parent_of (a ∷ []) m zero x s e lt p q = (
    mid_state_node sha256 a a,
    ap (λ t. get_elem? t 0) (sym (some_inj e)),
    rw (sym (some_inj p), sym (some_inj q)) (joined-left a a),
  )
  parent_of (a ∷ []) m (suc i) x s e lt p q = absurd (omega arith)
  parent_of (a ∷ b ∷ rest) m i x s e lt p q =
      let (_, _, e₁) = >>=-eq-some (assert (not (bytes_eq a b))) _ e in
      let (above, rec, e₂) = >>=-eq-some (next_level (mid_state_node sha256) rest) _ e₁ in
      let head : m ≡ mid_state_node sha256 a b ∷ above = sym (some_inj e₂) in
      among i lt p q above rec head (λ j lt' p' q'. parent_of rest above j x s rec lt' p' q')
    where
      among :
          (i : ℕ)
          → i < length (a ∷ b ∷ rest)
          → get_elem? (a ∷ b ∷ rest) i ≡ some x
          → get_elem? (a ∷ b ∷ rest) (sibling_at (length (a ∷ b ∷ rest)) i) ≡ some s
          → (above : List Bytes) → next_level (mid_state_node sha256) rest ≡ some above
          → m ≡ mid_state_node sha256 a b ∷ above
          → ((j : ℕ)
              → j < length rest
              → get_elem? rest j ≡ some x
              → get_elem? rest (sibling_at (length rest) j) ≡ some s
              → (y : Bytes) × (get_elem? above (j / 2) ≡ some y)
                × (joined j (sha256 x) s ≡ sha256 y))
          → (y : Bytes) × (get_elem? m (i / 2) ≡ some y) × (joined i (sha256 x) s ≡ sha256 y)
      among zero lt p q above rec head ih =
          let side : sibling_at (length (a ∷ b ∷ rest)) 0 ≡ 1 = ground arith in
          let q' : get_elem? (a ∷ b ∷ rest) 1 ≡ some s =
            subst (λ k. get_elem? (a ∷ b ∷ rest) k ≡ some s) side q in
          (
            mid_state_node sha256 a b,
            ap (λ t. get_elem? t 0) head,
            rw (sym (some_inj p), sym (some_inj q')) (joined-left a b),
          )
      among (suc zero) lt p q above rec head ih = (
        mid_state_node sha256 a b,
        ap (λ t. get_elem? t 0) head,
        rw (sym (some_inj p), sym (some_inj q)) (joined-right a b),
      )
      among (suc (suc j)) lt p q above rec head ih =
          let q' =
            subst (λ k. get_elem? (a ∷ b ∷ rest) k ≡ some s)
              (sibling-skip (length rest) j (omega arith)) q in
          let (y, at, same) = ih j (omega arith) p q' in
          let half : suc (suc j) / 2 ≡ suc (j / 2) = omega arith in
          (y, ap₂ (λ t (k : ℕ). get_elem? t k) head half ∙ at, joined-skip j (sha256 x) s ∙ same)

  -- What holds of a mid-state level and those above it, beside the Bitcoin tree's.
  pub record Matches (l : List Bytes) (bitcoin mid : List (List Bytes)) : Type 0 where
    pub top : Bytes
    pub bitcoin_top : top_node bitcoin ≡ some (sha256 top)
    pub mid_top : top_node mid ≡ some top
    pub paths :
        (i : ℕ)
        → i < length l
        → (path : List Bytes) × (x : Bytes) × (path_from mid i ≡ some path)
          × (get_elem? l i ≡ some x)
          × (climb sha256 i (sha256 x) path ≡ sha256 top)

  build_many :
      (node : Bytes → Bytes → Bytes) (fuel : ℕ) (l : List Bytes)
      → 1 < length l
      → build_levels node (suc fuel) l
        ≡ (next_level node l >>= λ next. build_levels node fuel next >>= λ above. some (l ∷ above))
  unfolding build_levels
  build_many node fuel l h = let test : ltb 1 (length l) ≡ true = ground arith in rw test

  path_from_up :
      (l l' : List Bytes) (mid : List (List Bytes)) (i : ℕ) (s : Bytes) (path : List Bytes)
      → get_elem? l (sibling_at (length l) i) ≡ some s
      → path_from (l' ∷ mid) (i / 2) ≡ some path
      → path_from (l ∷ l' ∷ mid) i ≡ some (s ∷ path)
  unfolding path_from
  path_from_up l l' mid i s path at up = rw at (rw up)

  climb_up :
      (i : ℕ) (x s y top : Bytes) (path : List Bytes)
      → joined i (sha256 x) s ≡ sha256 y
      → climb sha256 (i / 2) (sha256 y) path ≡ sha256 top
      → climb sha256 i (sha256 x) (s ∷ path) ≡ sha256 top
  unfolding climb
  climb_up i x s y top path same up = ap (λ t. climb sha256 (i / 2) t path) same ∙ up

  sibling_fits : (n i : ℕ) → i < n → sibling_at n i < n
  sibling_fits n i h = ground arith

  Matches-up :
      (l l' : List Bytes) (bitcoin mid : List (List Bytes)) (b : List Bytes)
      → 1 < length l
      → next_level (mid_state_node sha256) l ≡ some l'
      → bitcoin ≡ map hashes (l' ∷ mid)
      → Matches l' bitcoin (l' ∷ mid)
      → Matches l (b ∷ bitcoin) (l ∷ l' ∷ mid)
  Matches-up l l' bitcoin mid b many nexted same m = record {
    top = m.top;
    bitcoin_top = rw same (unfold top_node in rw same at m.bitcoin_top);
    mid_top = unfold top_node in m.mid_top;
    paths = λ i lt.
        let (x, at) = get_elem?-lt l i lt in
        let (s, ats) = get_elem?-lt l (sibling_at (length l) i) (sibling_fits (length l) i lt) in
        let (y, aty, parent) = parent_of l l' i x s nexted lt at ats in
        let (path, y', walks, aty', climbs) =
          m.paths (i / 2) (omega (arith, length-next_level (mid_state_node sha256) l l' nexted)) in
        let meets : joined i (sha256 x) s ≡ sha256 y' =
          parent ∙ ap sha256 (some_inj (sym aty ∙ aty')) in
        (
          s ∷ path,
          x,
          path_from_up l l' mid i s path ats walks,
          at,
          climb_up i x s y' m.top path meets climbs,
        );
  }

  Matches-one : (a : Bytes) → Matches (a ∷ []) ((sha256 a ∷ []) ∷ []) ((a ∷ []) ∷ [])
  unfolding top_node path_from climb
  Matches-one a = record { top = a; bitcoin_top = refl; mid_top = refl; paths = one }
    where
      one :
          (i : ℕ)
          → i < length (a ∷ [])
          → (path : List Bytes) × (x : Bytes) × (path_from ((a ∷ []) ∷ []) i ≡ some path)
            × (get_elem? (a ∷ []) i ≡ some x)
            × (climb sha256 i (sha256 x) path ≡ sha256 a)
      one zero lt = ([], a, refl, refl, refl)
      one (suc i) lt = absurd (omega arith)

  pub levels :
      (fuel : ℕ) (l : List Bytes) (bitcoin : List (List Bytes))
      → 0 < length l
      → build_levels (parent_node sha256) fuel (hashes l) ≡ some bitcoin
      → (mid : List (List Bytes)) × (build_levels (mid_state_node sha256) fuel l ≡ some (l ∷ mid))
        × Matches l bitcoin (l ∷ mid)
        × (bitcoin ≡ map hashes (l ∷ mid))
  levels zero l bitcoin pos e = unfold build_levels in cc e
  levels (suc fuel) [] bitcoin pos e = absurd (omega arith)
  levels (suc fuel) (a ∷ []) bitcoin pos e =
      let single : ◌≡◌ {A = List (List Bytes)} ((sha256 a ∷ []) ∷ []) bitcoin =
        unfold build_levels in some_inj e in
      (
        [],
        unfold build_levels in refl,
        subst (λ t. Matches (a ∷ []) t ((a ∷ []) ∷ [])) single (Matches-one a),
        sym single,
      )
  levels (suc fuel) (a ∷ b ∷ rest) bitcoin pos e =
      let l = a ∷ b ∷ rest in
      let many : 1 < length (a ∷ b ∷ rest) = omega arith in
      let (ms, nexted, e₁) =
        >>=-eq-some (next_level (parent_node sha256) (hashes (a ∷ b ∷ rest))) _
          (sym (build_many (parent_node sha256) fuel (hashes (a ∷ b ∷ rest)) (omega arith)) ∙ e) in
      let (above, built, e₂) = >>=-eq-some (build_levels (parent_node sha256) fuel ms) _ e₁ in
      let (l', mine, same) = next_level-hashes (a ∷ b ∷ rest) ms nexted in
      let longer : 0 < length l' =
        omega (arith, length-next_level (mid_state_node sha256) (a ∷ b ∷ rest) l' mine) in
      let (mid, built', m, image) = levels fuel l' above longer (rw same at built) in
      (
        l' ∷ mid,
        build_many (mid_state_node sha256) fuel (a ∷ b ∷ rest) many ∙ rw (mine, built'),
        subst (λ t. Matches (a ∷ b ∷ rest) t ((a ∷ b ∷ rest) ∷ l' ∷ mid)) (some_inj e₂)
            (Matches-up (a ∷ b ∷ rest) l' above mid _ many mine image m),
        sym (some_inj e₂) ∙ ap (λ t. hashes (a ∷ b ∷ rest) ∷ t) image,
      )
