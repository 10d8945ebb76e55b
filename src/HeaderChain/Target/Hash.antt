-- ===== src/HeaderChain/Target/Hash.antt =====
-- The hash check compares numbers.
use bit_vm.Prelude.{
  ℕ, ◌+◌, ◌*◌, ◌^◌, ◌≤◌, ◌<◌, ◌≡◌, refl, ap, ◌∙◌, sym, ◌↔◌, some, [], ◌∷◌, reverse, length,
  length-append, All, All-append, arith,
}
use mathlib.Core.List.{reverse-cons}
use bit_vm.Hashing.{Bytes}
use bit_vm.Words.Bytes.{be_value, IsByte, be_value-lt}
use bit_vm.HeaderChain.Target.Defs.{compare_bytes, check_hash_valid}

lex_lt : (h t p x y : ℕ) → x < p → h < t → h * p + x < t * p + y
lex_lt h t p x y b lt = grind arith

-- The most significant byte decides, unless it is equal.
be_value-cons-lt :
    (h t : ℕ) (hs ts : Bytes)
    → length hs ≡ length ts
    → All IsByte hs
    → h < t
    → be_value (h ∷ hs) < be_value (t ∷ ts)
unfolding be_value
be_value-cons-lt h t hs ts e b lt =
    rw (sym e) (lex_lt h t (256 ^ length hs) (be_value hs) (be_value ts) (be_value-lt hs b) lt)

be_value-cons_le :
    (b : ℕ) (xs ys : Bytes)
    → length xs ≡ length ys
    → (be_value (b ∷ xs) ≤ be_value (b ∷ ys)) ↔ (be_value xs ≤ be_value ys)
unfolding be_value
be_value-cons_le b xs ys e = rw (sym e) (λ h. omega arith, λ h. omega arith)

compare_bytes_iff :
    (hs ts : Bytes)
    → length hs ≡ length ts
    → All IsByte hs
    → All IsByte ts
    → (compare_bytes hs ts ≡ some tt) ↔ (be_value hs ≤ be_value ts)
unfolding compare_bytes
compare_bytes_iff [] [] e b c = (λ _. omega arith, λ _. refl)
compare_bytes_iff [] (t ∷ ts) e b c = absurd (omega arith)
compare_bytes_iff (h ∷ hs) [] e b c = absurd (omega arith)
compare_bytes_iff (h ∷ hs) (t ∷ ts) e b c = ground (
  arith,
  be_value-cons-lt h t hs ts,
  be_value-cons-lt t h ts hs,
  be_value-cons_le h hs ts,
  compare_bytes_iff hs ts,
)

reverse-All : (xs : Bytes) → All IsByte xs → All IsByte (reverse xs)
reverse-All [] h = tt
reverse-All (x ∷ xs) h =
    rw reverse-cons (All-append IsByte (reverse xs) (x ∷ []) (reverse-All xs h.1) (h.0, tt))

length-reverse : (xs : Bytes) → length (reverse xs) ≡ length xs
length-reverse [] = refl
length-reverse (x ∷ xs) =
    ap length (reverse-cons x xs)
    ∙ omega (arith, length-append (reverse xs) (x ∷ []), length-reverse xs)

-- `check_hash_valid` of two strings of 32 bytes returns exactly when the hash, read as a
-- little-endian number, is at most the target, read as a big-endian number.
pub check_hash_valid_iff :
    (hash target : Bytes)
    → length hash ≡ 32
    → length target ≡ 32
    → All IsByte hash
    → All IsByte target
    → (check_hash_valid hash target ≡ some tt) ↔ (be_value (reverse hash) ≤ be_value target)
unfolding check_hash_valid
check_hash_valid_iff hash target e f b c =
    compare_bytes_iff (reverse hash) target (length-reverse hash ∙ e ∙ sym f) (reverse-All hash b) c
