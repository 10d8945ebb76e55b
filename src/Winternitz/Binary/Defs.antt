-- ===== src/Winternitz/Binary/Defs.antt =====
-- The script of BinarysearchVerifier::verify_digits.
use bit_vm.Prelude.{ℕ, zero, suc, ◌^◌, Option, some, List, [], ◌∷◌, ◌>>=◌, get_elem?}
use bit_vm.Prelude.Int.{pos}
use bit_vm.Hashing.{Bytes}
use bit_vm.Script.Defs.{
  push, push_bytes, op_if, op_endif, op_toaltstack, op_dup, op_2dup, op_drop, op_swap, op_size,
  op_sub, op_greaterthanorequal, op_equalverify, op_hash160, Script,
}
use bit_vm.Script.Run.{◌⨾◌, repeat}
use bit_vm.Winternitz.Defs.{Parameters, max_digit, total_digit_len}

-- One round of the loop over the bits.
unfoldable pub search_bit : ℕ → Script
unfolding repeat
search_bit zero = op_if ∷ op_hash160 ∷ op_endif ∷ []
search_bit (suc k) =
    push (pos (2 ^ suc k)) ∷ op_2dup ∷ op_greaterthanorequal ∷ op_if ∷ op_sub ∷ op_swap ∷ []
    ⨾ repeat (2 ^ suc k) (op_hash160 ∷ [])
    ⨾ op_swap ∷ op_dup ∷ op_endif ∷ op_drop ∷ []

-- The loop, from the highest of `bits` bits down.
unfoldable pub search_bits : ℕ → Script
search_bits zero = []
search_bits (suc bit) = search_bit bit ⨾ search_bits bit

-- The body of the loop over the digits.
unfoldable pub verify_digit : Parameters → Bytes → Script
verify_digit ps public_key =
    op_swap
      ∷ op_size
      ∷ push (pos 20)
      ∷ op_equalverify
      ∷ op_swap
      ∷ op_dup
      ∷ op_toaltstack
      ∷ push (pos (max_digit ps))
      ∷ op_swap
      ∷ op_sub
      ∷ []
    ⨾ search_bits ps.log2_base
    ⨾ push_bytes public_key ∷ op_equalverify ∷ []

-- The first `n` keys, the last of them first.
unfoldable pub verify_from : Parameters → List Bytes → ℕ → Option Script
unfolding verify_digit
verify_from ps public_key zero = some []
verify_from ps public_key (suc n) = do
  key ← get_elem? public_key n
  rest ← verify_from ps public_key n
  some (verify_digit ps key ⨾ rest)

-- `none`: the public key has too few elements.
unfoldable pub verify_digits : Parameters → List Bytes → Option Script
unfolding verify_from
verify_digits ps public_key = verify_from ps public_key (total_digit_len ps)
