-- ===== src/U32/Zip.antt =====
-- u32_zip.rs
use bit_vm.Prelude.{
  ℕ, ◌+◌, ◌-◌, ◌*◌, ◌/◌, ◌%◌, ◌^◌, ◌≡◌, refl, ◌∙◌, true, false, Option, none, some, List, ◌∷◌, ◌++◌,
  arith, ltb, ◌==◌, if◌then◌else◌, ◌>>=◌, length,
}
use bit_vm.Hashing.{Bytes}
use bit_vm.Script.Defs.{Item, Stack, Script, state, take_out}
use bit_vm.Script.Run.{◌⨾◌, Runs, run-then}
use bit_vm.U32.Stack.{
  byte, words, words-append, items, words-items, length-items, words_two, words_one,
  get_elem?-below, take_out-below, roll, pick, Transforms, roll-Runs, pick-Runs,
}

-- `a` and `b` are the positions of the two words' lowest elements, `(n + 1) * 4 - 1`.
unfoldable pub last_of : ℕ → ℕ
last_of n = (n + 1) * 4 - 1

unfoldable pub zip_at : ℕ → ℕ → Script
zip_at a b = roll a ⨾ roll b ⨾ roll (a + 1) ⨾ roll b ⨾ roll (a + 2) ⨾ roll b ⨾ roll (a + 3) ⨾ roll b

-- `none` is the failed assertion that the two differ.
unfoldable pub u32_zip : ℕ → ℕ → Option Script
unfolding zip_at
u32_zip a b =
    if a == b
    then none
    else if ltb b a
    then some (zip_at (last_of b) (last_of a))
    else some (zip_at (last_of a) (last_of b))

-- `_u32_copy_zip`
unfoldable pub copy_zip_at : ℕ → ℕ → Script
copy_zip_at a b =
    pick a
    ⨾ roll (b + 1)
    ⨾ pick (a + 1)
    ⨾ roll (b + 2)
    ⨾ pick (a + 2)
    ⨾ roll (b + 3)
    ⨾ pick (a + 3)
    ⨾ roll (b + 4)

-- `_u32_zip_copy`
unfoldable pub zip_copy_at : ℕ → ℕ → Script
zip_copy_at a b =
    roll a ⨾ pick b ⨾ roll (a + 1) ⨾ pick b ⨾ roll (a + 2) ⨾ pick b ⨾ roll (a + 3) ⨾ pick b

unfoldable pub u32_copy_zip : ℕ → ℕ → Option Script
unfolding copy_zip_at zip_copy_at
u32_copy_zip a b =
    if ltb a b
    then some (copy_zip_at (last_of a) (last_of b))
    else if ltb b a
    then some (zip_copy_at (last_of b) (last_of a))
    else none

-- The eight elements of two words, taken in turns.
abbrev pub zipped : (x₀ x₁ x₂ x₃ y₀ y₁ y₂ y₃ : Item) → Stack → Stack
zipped x₀ x₁ x₂ x₃ y₀ y₁ y₂ y₃ s = y₀ ∷ x₀ ∷ y₁ ∷ x₁ ∷ y₂ ∷ x₂ ∷ y₃ ∷ x₃ ∷ s

module _ (hash160 : Bytes → Bytes) (P M R t : Stack) (x₀ x₁ x₂ x₃ y₀ y₁ y₂ y₃ : Item) where
  pub zip_at-Runs :
      (a b : ℕ)
      → a ≡ length P + 3
      → b ≡ length P + length M + 7
      → Runs hash160
          (zip_at a b)
          (state (P ++ x₀ ∷ x₁ ∷ x₂ ∷ x₃ ∷ (M ++ y₀ ∷ y₁ ∷ y₂ ∷ y₃ ∷ R)) t)
          (state (zipped x₀ x₁ x₂ x₃ y₀ y₁ y₂ y₃ (P ++ (M ++ R))) t)
  unfolding zip_at take_out roll
  zip_at-Runs a b e f =
      run-then hash160
        (roll-Runs hash160 (P) (x₀ ∷ x₁ ∷ x₂ ∷ x₃ ∷ (M ++ y₀ ∷ y₁ ∷ y₂ ∷ y₃ ∷ R)) t
          (x₀ ∷ x₁ ∷ x₂ ∷ (M ++ y₀ ∷ y₁ ∷ y₂ ∷ y₃ ∷ R)) a 3 x₃ (omega arith) refl)
        (run-then hash160
          (roll-Runs hash160 (x₃ ∷ P) (x₀ ∷ x₁ ∷ x₂ ∷ (M ++ y₀ ∷ y₁ ∷ y₂ ∷ y₃ ∷ R)) t
            (x₀ ∷ x₁ ∷ x₂ ∷ (M ++ y₀ ∷ y₁ ∷ y₂ ∷ R)) b (3 + length M + 3) y₃ (omega arith)
            (take_out-below (x₀ ∷ x₁ ∷ x₂ ∷ M) (y₀ ∷ y₁ ∷ y₂ ∷ y₃ ∷ R) (y₀ ∷ y₁ ∷ y₂ ∷ R) 3
              (3 + length M + 3) y₃ (omega arith) refl))
          (run-then hash160
            (roll-Runs hash160 (y₃ ∷ x₃ ∷ P) (x₀ ∷ x₁ ∷ x₂ ∷ (M ++ y₀ ∷ y₁ ∷ y₂ ∷ R)) t
              (x₀ ∷ x₁ ∷ (M ++ y₀ ∷ y₁ ∷ y₂ ∷ R)) (a + 1) 2 x₂ (omega arith) refl)
            (run-then hash160
              (roll-Runs hash160 (x₂ ∷ y₃ ∷ x₃ ∷ P) (x₀ ∷ x₁ ∷ (M ++ y₀ ∷ y₁ ∷ y₂ ∷ R)) t
                (x₀ ∷ x₁ ∷ (M ++ y₀ ∷ y₁ ∷ R)) b (2 + length M + 2) y₂ (omega arith)
                (take_out-below (x₀ ∷ x₁ ∷ M) (y₀ ∷ y₁ ∷ y₂ ∷ R) (y₀ ∷ y₁ ∷ R) 2 (2 + length M + 2)
                  y₂ (omega arith) refl))
              (run-then hash160
                (roll-Runs hash160 (y₂ ∷ x₂ ∷ y₃ ∷ x₃ ∷ P) (x₀ ∷ x₁ ∷ (M ++ y₀ ∷ y₁ ∷ R)) t
                  (x₀ ∷ (M ++ y₀ ∷ y₁ ∷ R)) (a + 2) 1 x₁ (omega arith) refl)
                (run-then hash160
                  (roll-Runs hash160 (x₁ ∷ y₂ ∷ x₂ ∷ y₃ ∷ x₃ ∷ P) (x₀ ∷ (M ++ y₀ ∷ y₁ ∷ R)) t
                    (x₀ ∷ (M ++ y₀ ∷ R)) b (1 + length M + 1) y₁ (omega arith)
                    (take_out-below (x₀ ∷ M) (y₀ ∷ y₁ ∷ R) (y₀ ∷ R) 1 (1 + length M + 1) y₁
                      (omega arith) refl))
                  (run-then hash160
                    (roll-Runs hash160 (y₁ ∷ x₁ ∷ y₂ ∷ x₂ ∷ y₃ ∷ x₃ ∷ P) (x₀ ∷ (M ++ y₀ ∷ R)) t
                      ((M ++ y₀ ∷ R)) (a + 3) 0 x₀ (omega arith) refl)
                    (roll-Runs hash160 (x₀ ∷ y₁ ∷ x₁ ∷ y₂ ∷ x₂ ∷ y₃ ∷ x₃ ∷ P) ((M ++ y₀ ∷ R)) t
                      ((M ++ R)) b (0 + length M + 0) y₀ (omega arith)
                      (take_out-below (M) (y₀ ∷ R) (R) 0 (0 + length M + 0) y₀ (omega arith)
                        refl))))))))

  pub copy_zip_at-Runs :
      (a b : ℕ)
      → a ≡ length P + 3
      → b ≡ length P + length M + 7
      → Runs hash160
          (copy_zip_at a b)
          (state (P ++ x₀ ∷ x₁ ∷ x₂ ∷ x₃ ∷ (M ++ y₀ ∷ y₁ ∷ y₂ ∷ y₃ ∷ R)) t)
          (state (zipped x₀ x₁ x₂ x₃ y₀ y₁ y₂ y₃ (P ++ x₀ ∷ x₁ ∷ x₂ ∷ x₃ ∷ (M ++ R))) t)
  unfolding copy_zip_at take_out roll pick
  copy_zip_at-Runs a b e f =
      run-then hash160
        (pick-Runs hash160 (P) (x₀ ∷ x₁ ∷ x₂ ∷ x₃ ∷ (M ++ y₀ ∷ y₁ ∷ y₂ ∷ y₃ ∷ R)) t a 3 x₃
          (omega arith) refl)
        (run-then hash160
          (roll-Runs hash160 (x₃ ∷ P) (x₀ ∷ x₁ ∷ x₂ ∷ x₃ ∷ (M ++ y₀ ∷ y₁ ∷ y₂ ∷ y₃ ∷ R)) t
            (x₀ ∷ x₁ ∷ x₂ ∷ x₃ ∷ (M ++ y₀ ∷ y₁ ∷ y₂ ∷ R)) (b + 1) (4 + length M + 3) y₃
            (omega arith)
            (take_out-below (x₀ ∷ x₁ ∷ x₂ ∷ x₃ ∷ M) (y₀ ∷ y₁ ∷ y₂ ∷ y₃ ∷ R) (y₀ ∷ y₁ ∷ y₂ ∷ R) 3
              (4 + length M + 3) y₃ (omega arith) refl))
          (run-then hash160
            (pick-Runs hash160 (y₃ ∷ x₃ ∷ P) (x₀ ∷ x₁ ∷ x₂ ∷ x₃ ∷ (M ++ y₀ ∷ y₁ ∷ y₂ ∷ R)) t (a + 1)
              2 x₂ (omega arith) refl)
            (run-then hash160
              (roll-Runs hash160 (x₂ ∷ y₃ ∷ x₃ ∷ P) (x₀ ∷ x₁ ∷ x₂ ∷ x₃ ∷ (M ++ y₀ ∷ y₁ ∷ y₂ ∷ R)) t
                (x₀ ∷ x₁ ∷ x₂ ∷ x₃ ∷ (M ++ y₀ ∷ y₁ ∷ R)) (b + 2) (4 + length M + 2) y₂ (omega arith)
                (take_out-below (x₀ ∷ x₁ ∷ x₂ ∷ x₃ ∷ M) (y₀ ∷ y₁ ∷ y₂ ∷ R) (y₀ ∷ y₁ ∷ R) 2
                  (4 + length M + 2) y₂ (omega arith) refl))
              (run-then hash160
                (pick-Runs hash160 (y₂ ∷ x₂ ∷ y₃ ∷ x₃ ∷ P) (x₀ ∷ x₁ ∷ x₂ ∷ x₃ ∷ (M ++ y₀ ∷ y₁ ∷ R))
                  t (a + 2) 1 x₁ (omega arith) refl)
                (run-then hash160
                  (roll-Runs hash160 (x₁ ∷ y₂ ∷ x₂ ∷ y₃ ∷ x₃ ∷ P)
                    (x₀ ∷ x₁ ∷ x₂ ∷ x₃ ∷ (M ++ y₀ ∷ y₁ ∷ R)) t (x₀ ∷ x₁ ∷ x₂ ∷ x₃ ∷ (M ++ y₀ ∷ R))
                    (b + 3) (4 + length M + 1) y₁ (omega arith)
                    (take_out-below (x₀ ∷ x₁ ∷ x₂ ∷ x₃ ∷ M) (y₀ ∷ y₁ ∷ R) (y₀ ∷ R) 1
                      (4 + length M + 1) y₁ (omega arith) refl))
                  (run-then hash160
                    (pick-Runs hash160 (y₁ ∷ x₁ ∷ y₂ ∷ x₂ ∷ y₃ ∷ x₃ ∷ P)
                      (x₀ ∷ x₁ ∷ x₂ ∷ x₃ ∷ (M ++ y₀ ∷ R)) t (a + 3) 0 x₀ (omega arith) refl)
                    (roll-Runs hash160 (x₀ ∷ y₁ ∷ x₁ ∷ y₂ ∷ x₂ ∷ y₃ ∷ x₃ ∷ P)
                      (x₀ ∷ x₁ ∷ x₂ ∷ x₃ ∷ (M ++ y₀ ∷ R)) t (x₀ ∷ x₁ ∷ x₂ ∷ x₃ ∷ (M ++ R)) (b + 4)
                      (4 + length M + 0) y₀ (omega arith)
                      (take_out-below (x₀ ∷ x₁ ∷ x₂ ∷ x₃ ∷ M) (y₀ ∷ R) (R) 0 (4 + length M + 0) y₀
                        (omega arith) refl))))))))

  pub zip_copy_at-Runs :
      (a b : ℕ)
      → a ≡ length P + 3
      → b ≡ length P + length M + 7
      → Runs hash160
          (zip_copy_at a b)
          (state (P ++ x₀ ∷ x₁ ∷ x₂ ∷ x₃ ∷ (M ++ y₀ ∷ y₁ ∷ y₂ ∷ y₃ ∷ R)) t)
          (state (zipped x₀ x₁ x₂ x₃ y₀ y₁ y₂ y₃ (P ++ (M ++ y₀ ∷ y₁ ∷ y₂ ∷ y₃ ∷ R))) t)
  unfolding zip_copy_at take_out roll pick
  zip_copy_at-Runs a b e f =
      run-then hash160
        (roll-Runs hash160 (P) (x₀ ∷ x₁ ∷ x₂ ∷ x₃ ∷ (M ++ y₀ ∷ y₁ ∷ y₂ ∷ y₃ ∷ R)) t
          (x₀ ∷ x₁ ∷ x₂ ∷ (M ++ y₀ ∷ y₁ ∷ y₂ ∷ y₃ ∷ R)) a 3 x₃ (omega arith) refl)
        (run-then hash160
          (pick-Runs hash160 (x₃ ∷ P) (x₀ ∷ x₁ ∷ x₂ ∷ (M ++ y₀ ∷ y₁ ∷ y₂ ∷ y₃ ∷ R)) t b
            (3 + length M + 3) y₃ (omega arith)
            (get_elem?-below (x₀ ∷ x₁ ∷ x₂ ∷ M) (y₀ ∷ y₁ ∷ y₂ ∷ y₃ ∷ R) 3 (3 + length M + 3)
              (omega arith)))
          (run-then hash160
            (roll-Runs hash160 (y₃ ∷ x₃ ∷ P) (x₀ ∷ x₁ ∷ x₂ ∷ (M ++ y₀ ∷ y₁ ∷ y₂ ∷ y₃ ∷ R)) t
              (x₀ ∷ x₁ ∷ (M ++ y₀ ∷ y₁ ∷ y₂ ∷ y₃ ∷ R)) (a + 1) 2 x₂ (omega arith) refl)
            (run-then hash160
              (pick-Runs hash160 (x₂ ∷ y₃ ∷ x₃ ∷ P) (x₀ ∷ x₁ ∷ (M ++ y₀ ∷ y₁ ∷ y₂ ∷ y₃ ∷ R)) t b
                (2 + length M + 2) y₂ (omega arith)
                (get_elem?-below (x₀ ∷ x₁ ∷ M) (y₀ ∷ y₁ ∷ y₂ ∷ y₃ ∷ R) 2 (2 + length M + 2)
                  (omega arith)))
              (run-then hash160
                (roll-Runs hash160 (y₂ ∷ x₂ ∷ y₃ ∷ x₃ ∷ P) (x₀ ∷ x₁ ∷ (M ++ y₀ ∷ y₁ ∷ y₂ ∷ y₃ ∷ R))
                  t (x₀ ∷ (M ++ y₀ ∷ y₁ ∷ y₂ ∷ y₃ ∷ R)) (a + 2) 1 x₁ (omega arith) refl)
                (run-then hash160
                  (pick-Runs hash160 (x₁ ∷ y₂ ∷ x₂ ∷ y₃ ∷ x₃ ∷ P)
                    (x₀ ∷ (M ++ y₀ ∷ y₁ ∷ y₂ ∷ y₃ ∷ R)) t b (1 + length M + 1) y₁ (omega arith)
                    (get_elem?-below (x₀ ∷ M) (y₀ ∷ y₁ ∷ y₂ ∷ y₃ ∷ R) 1 (1 + length M + 1)
                      (omega arith)))
                  (run-then hash160
                    (roll-Runs hash160 (y₁ ∷ x₁ ∷ y₂ ∷ x₂ ∷ y₃ ∷ x₃ ∷ P)
                      (x₀ ∷ (M ++ y₀ ∷ y₁ ∷ y₂ ∷ y₃ ∷ R)) t ((M ++ y₀ ∷ y₁ ∷ y₂ ∷ y₃ ∷ R)) (a + 3) 0
                      x₀ (omega arith) refl)
                    (pick-Runs hash160 (x₀ ∷ y₁ ∷ x₁ ∷ y₂ ∷ x₂ ∷ y₃ ∷ x₃ ∷ P)
                      ((M ++ y₀ ∷ y₁ ∷ y₂ ∷ y₃ ∷ R)) t b (0 + length M + 0) y₀ (omega arith)
                      (get_elem?-below (M) (y₀ ∷ y₁ ∷ y₂ ∷ y₃ ∷ R) 0 (0 + length M + 0)
                        (omega arith)))))))))

-- The bytes of two words, taken in turns.
abbrev pub zipped_words : ℕ → ℕ → Stack → Stack
zipped_words x y s =
    zipped (byte (x % 256)) (byte (x / 256 % 256)) (byte (x / 2 ^ 16 % 256))
      (byte (x / 2 ^ 24 % 256)) (byte (y % 256)) (byte (y / 256 % 256)) (byte (y / 2 ^ 16 % 256))
      (byte (y / 2 ^ 24 % 256)) s

module _ (hash160 : Bytes → Bytes) (core : Script) (p m r : List ℕ) (x y z : ℕ) (s t : Stack) where
  abbrev upper : ℕ
  upper = length p

  abbrev lower : ℕ
  lower = length p + 1 + length m

  abbrev CoreRuns : List ℕ → Type 0
  CoreRuns ws =
      Runs hash160 core (state (zipped_words x y (words ws s)) t) (state (words (z ∷ ws) s) t)

  places : (length (items p) ≡ 4 * length p) × (length (items m) ≡ 4 * length m)
  places = (length-items p, length-items m)

  below_m : words (m ++ r) s ≡ items m ++ words r s
  below_m = words-append m r s ∙ words-items m (words r s)

  below : (ws : List ℕ) → words (p ++ ws) s ≡ items p ++ words ws s
  below ws = words-append p ws s ∙ words-items p (words ws s)

  -- `u32_copy_zip` and a script for the zipped words: the upper word stays.
  pub u32_copy_zip-upper :
      CoreRuns (p ++ x ∷ (m ++ r))
      → Transforms hash160
          (u32_copy_zip upper lower >>= λ zip. some (zip ⨾ core))
          (p ++ x ∷ (m ++ y ∷ r))
          (z ∷ (p ++ x ∷ (m ++ r)))
          s
          t
  unfolding u32_copy_zip last_of
  u32_copy_zip-upper c =
      let test : ltb upper lower ≡ true = ground arith in
      let other : ltb lower upper ≡ false = ground arith in
      let differ : (upper == lower) ≡ false = ground arith in
      record {
        script = copy_zip_at (last_of upper) (last_of lower) ⨾ core;
        built = rw (test);
        effect =
            run-then hash160
              (rw (words_two p m r x y s, below (x ∷ (m ++ r)), below_m)
                (copy_zip_at-Runs hash160 (items p) (items m) (words r s) t _ _ _ _ _ _ _ _
                  (last_of upper) (last_of lower) (omega (arith, places)) (omega (arith, places))))
              c;
      }

  -- `u32_copy_zip` with the positions the other way round: the lower word stays.
  pub u32_copy_zip-lower :
      CoreRuns (p ++ (m ++ y ∷ r))
      → Transforms hash160
          (u32_copy_zip lower upper >>= λ zip. some (zip ⨾ core))
          (p ++ x ∷ (m ++ y ∷ r))
          (z ∷ (p ++ (m ++ y ∷ r)))
          s
          t
  unfolding u32_copy_zip last_of
  u32_copy_zip-lower c =
      let test : ltb upper lower ≡ true = ground arith in
      let other : ltb lower upper ≡ false = ground arith in
      let differ : (lower == upper) ≡ false = ground arith in
      record {
        script = zip_copy_at (last_of upper) (last_of lower) ⨾ core;
        built = rw (other, test);
        effect =
            run-then hash160
              (rw (words_two p m r x y s, below (m ++ y ∷ r), words_one m r y s)
                (zip_copy_at-Runs hash160 (items p) (items m) (words r s) t _ _ _ _ _ _ _ _
                  (last_of upper) (last_of lower) (omega (arith, places)) (omega (arith, places))))
              c;
      }

  -- `u32_zip`: neither stays.
  pub u32_zip_both :
      CoreRuns (p ++ (m ++ r))
      → Transforms hash160
          (u32_zip upper lower >>= λ zip. some (zip ⨾ core))
          (p ++ x ∷ (m ++ y ∷ r))
          (z ∷ (p ++ (m ++ r)))
          s
          t
  unfolding u32_zip last_of
  u32_zip_both c =
      let test : ltb upper lower ≡ true = ground arith in
      let other : ltb lower upper ≡ false = ground arith in
      let differ : (upper == lower) ≡ false = ground arith in
      record {
        script = zip_at (last_of upper) (last_of lower) ⨾ core;
        built = rw (differ, other);
        effect =
            run-then hash160
              (rw (words_two p m r x y s, below (m ++ r), below_m)
                (zip_at-Runs hash160 (items p) (items m) (words r s) t _ _ _ _ _ _ _ _
                  (last_of upper) (last_of lower) (omega (arith, places)) (omega (arith, places))))
              c;
      }
