-- ===== src/Words/Bytes.antt =====
-- Big- and little-endian byte strings of fixed length.
use native.Mathlib.Nat.{pow-suc, one-le-pow, mod-eq_of_lt}
use bit_vm.Prelude.Bits.{mod-mul}
use bit_vm.Prelude.{
  ℕ, zero, suc, ◌+◌, ◌*◌, ◌/◌, ◌%◌, ◌^◌, ◌<◌, ◌≡◌, refl, sym, ap, ◌∙◌, List, [], ◌∷◌, length,
  get_elem?, some, All, arith,
}

-- The number that bytes stand for, the most significant first.
unfoldable pub be_value : List ℕ → ℕ
be_value [] = 0
be_value (b ∷ bs) = b * 256 ^ length bs + be_value bs

-- The `width` low bytes of a number, the most significant first.
unfoldable pub be_bytes : ℕ → ℕ → List ℕ
be_bytes zero n = []
be_bytes (suc width) n = (n / 256 ^ width % 256) ∷ be_bytes width n

-- `to_le_bytes`: the least significant first.
unfoldable pub le_bytes : ℕ → ℕ → List ℕ
le_bytes zero n = []
le_bytes (suc width) n = (n % 256) ∷ le_bytes width (n / 256)

abbrev pub IsByte : ℕ → Type 0
IsByte b = b < 256

pub pow_pos : (k : ℕ) → 0 < 256 ^ k
pow_pos k = one-le-pow k 256 (omega arith)

pub be_value-lt : (bs : List ℕ) → All IsByte bs → be_value bs < 256 ^ length bs
unfolding be_value
be_value-lt [] h = omega arith
be_value-lt (b ∷ bs) h = grind (arith, pow-suc 256 (length bs), be_value-lt bs h.1)

pub length-be_bytes : (w n : ℕ) → length (be_bytes w n) ≡ w
unfolding be_bytes
length-be_bytes zero n = refl
length-be_bytes (suc w) n = ap suc (length-be_bytes w n)

pub be_bytes-All : (w n : ℕ) → All IsByte (be_bytes w n)
unfolding be_bytes
be_bytes-All zero n = tt
be_bytes-All (suc w) n = (omega arith, be_bytes-All w n)

pub be_value-be_bytes : (w n : ℕ) → be_value (be_bytes w n) ≡ n % 256 ^ w
unfolding be_value be_bytes
be_value-be_bytes zero n = omega arith
be_value-be_bytes (suc w) n =
    rw (length-be_bytes w n, be_value-be_bytes w n, pow-suc 256 w)
      (sym (mod-mul n (256 ^ w) 256 (pow_pos w) (omega arith)))

pub be_bytes_lt : (w n : ℕ) → n < 256 ^ w → be_value (be_bytes w n) ≡ n
be_bytes_lt w n h = be_value-be_bytes w n ∙ mod-eq_of_lt h

pub get_elem?-be_bytes :
    (w n j k : ℕ) → j + suc k ≡ w → get_elem? (be_bytes w n) j ≡ some (n / 256 ^ k % 256)
unfolding be_bytes
get_elem?-be_bytes zero n j k e = absurd (omega arith)
get_elem?-be_bytes (suc w) n zero k e = ap (λ (t : ℕ). some (n / 256 ^ t % 256)) (omega arith)
get_elem?-be_bytes (suc w) n (suc j) k e = get_elem?-be_bytes w n j k (omega arith)
