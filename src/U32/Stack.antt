-- ===== src/U32/Stack.antt =====
-- Words on the stack, and where OP_PICK and OP_ROLL find an element.
use bit_vm.Prelude.{
  ℕ, zero, suc, ◌+◌, ◌*◌, ◌/◌, ◌%◌, ◌^◌, ◌<◌, ◌≡◌, refl, ap, ◌∙◌, Option, some, List, [], ◌∷◌, ◌++◌,
  arith, length, get_elem?,
}
use bit_vm.Prelude.Int.{pos}
use bit_vm.Hashing.{Bytes}
use bit_vm.Script.Defs.{Item, num, Stack, push, op_pick, op_roll, Script, state, take_out, run}
use bit_vm.Script.Run.{Runs}

abbrev pub byte : ℕ → Item
byte n = num (pos n)

-- A word's four bytes, the least significant on top.
abbrev pub word : ℕ → Stack
word x =
    byte (x % 256) ∷ byte (x / 256 % 256) ∷ byte (x / 2 ^ 16 % 256) ∷ byte (x / 2 ^ 24 % 256) ∷ []

-- A word is determined by its four bytes.
pub word_of :
    (v z₀ z₁ z₂ z₃ : ℕ)
    → z₀ < 256
    → z₁ < 256
    → z₂ < 256
    → z₃ < 256
    → v ≡ z₀ + z₁ * 256 + z₂ * 2 ^ 16 + z₃ * 2 ^ 24
    → word v ≡ byte z₀ ∷ byte z₁ ∷ byte z₂ ∷ byte z₃ ∷ []
word_of v z₀ z₁ z₂ z₃ h₀ h₁ h₂ h₃ e =
    λ i. byte (e₀ i) ∷ byte (e₁ i) ∷ byte (e₂ i) ∷ byte (e₃ i) ∷ []
  where
    e₀ : v % 256 ≡ z₀
    e₀ = omega arith

    e₁ : v / 256 % 256 ≡ z₁
    e₁ = omega arith

    e₂ : v / 2 ^ 16 % 256 ≡ z₂
    e₂ = omega arith

    e₃ : v / 2 ^ 24 % 256 ≡ z₃
    e₃ = omega arith

-- Words from the top down, on a rest.
abbrev pub words : List ℕ → Stack → Stack
words [] s = s
words (x ∷ xs) s = word x ++ words xs s

pub words-append : (xs ys : List ℕ) (s : Stack) → words (xs ++ ys) s ≡ words xs (words ys s)
words-append [] ys s = refl
words-append (x ∷ xs) ys s = ap (λ t. word x ++ t) (words-append xs ys s)

-- The items of words alone.
abbrev pub items : List ℕ → Stack
items xs = words xs []

pub words-items : (xs : List ℕ) (s : Stack) → words xs s ≡ items xs ++ s
words-items [] s = refl
words-items (x ∷ xs) s = ap (λ t. word x ++ t) (words-items xs s)

pub length-items : (xs : List ℕ) → length (items xs) ≡ 4 * length xs
length-items [] = refl
length-items (x ∷ xs) = omega (arith, length-items xs)

-- Two words of a stack, and what stands above, between and below them.
pub words_two :
    (p m r : List ℕ) (x y : ℕ) (s : Stack)
    → words (p ++ x ∷ (m ++ y ∷ r)) s ≡ items p ++ (word x ++ (items m ++ (word y ++ words r s)))
words_two p m r x y s =
    words-append p (x ∷ (m ++ y ∷ r)) s
    ∙ words-items p (word x ++ words (m ++ y ∷ r) s)
    ∙ ap (λ u. items p ++ (word x ++ u))
        (words-append m (y ∷ r) s ∙ words-items m (word y ++ words r s))

pub words_one :
    (p r : List ℕ) (x : ℕ) (s : Stack) → words (p ++ x ∷ r) s ≡ items p ++ (word x ++ words r s)
words_one p r x s = words-append p (x ∷ r) s ∙ words-items p (word x ++ words r s)

-- The element `k` places below a prefix.
pub get_elem?-below :
    (p s : Stack) (k n : ℕ) → n ≡ length p + k → get_elem? (p ++ s) n ≡ get_elem? s k
get_elem?-below [] s k n e = ap (get_elem? s) (omega arith)
get_elem?-below (x ∷ p) s k zero e = absurd (omega arith)
get_elem?-below (x ∷ p) s k (suc n) e = get_elem?-below p s k n (omega arith)

pub take_out-below :
    (p s s' : Stack) (k n : ℕ) (y : Item)
    → n ≡ length p + k
    → take_out k s ≡ some (y, s')
    → take_out n (p ++ s) ≡ some (y, p ++ s')
unfolding take_out
take_out-below [] s s' k n y e found = let m : n ≡ k = omega arith in rw m found
take_out-below (x ∷ p) s s' k zero y e found = absurd (omega arith)
take_out-below (x ∷ p) s s' k (suc n) y e found =
    rw (take_out-below p s s' k n y (omega arith) found)

unfoldable pub roll : ℕ → Script
roll n = push (pos n) ∷ op_roll ∷ []

unfoldable pub pick : ℕ → Script
pick n = push (pos n) ∷ op_pick ∷ []

module _ (hash160 : Bytes → Bytes) where
  -- A script that may not exist exists and takes a stack of words to another, whatever lies below
  -- them and on the alternative stack.
  pub record Transforms (o : Option Script) (ws ws' : List ℕ) (s t : Stack) : Type 0 where
    pub script : Script
    pub built : o ≡ some script
    pub effect : Runs hash160 script (state (words ws s) t) (state (words ws' s) t)

  -- OP_ROLL takes the element `k` places below `p`, and OP_PICK copies it.
  pub roll-Runs :
      (p s t s' : Stack) (n k : ℕ) (y : Item)
      → n ≡ length p + k
      → take_out k s ≡ some (y, s')
      → Runs hash160 (roll n) (state (p ++ s) t) (state (y ∷ p ++ s') t)
  unfolding roll run
  roll-Runs p s t s' n k y e found = record { runs = rw (take_out-below p s s' k n y e found) }

  pub pick-Runs :
      (p s t : Stack) (n k : ℕ) (y : Item)
      → n ≡ length p + k
      → get_elem? s k ≡ some y
      → Runs hash160 (pick n) (state (p ++ s) t) (state (y ∷ p ++ s) t)
  unfolding pick run
  pick-Runs p s t n k y e found = record { runs = rw (get_elem?-below p s k n e, found) }
