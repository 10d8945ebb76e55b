-- ===== src/Winternitz/Verify/Defs.antt =====
-- `verify_checksum`, `checksig_verify` and `digits_to_number`.
use bit_vm.Prelude.{ℕ, ◌-◌, ◌*◌, ◌/◌, ◌%◌, Option, some, List, [], ◌∷◌, ◌==◌, if◌then◌else◌, ◌>>=◌}
use bit_vm.Prelude.Int.{pos}
use bit_vm.Hashing.{Bytes}
use bit_vm.Script.Defs.{
  push, op_toaltstack, op_fromaltstack, op_dup, op_drop, op_2drop, op_tuck, op_add, op_sub,
  op_negate, op_equalverify, Script,
}
use bit_vm.Script.Run.{◌⨾◌, repeat}
use bit_vm.Winternitz.Defs.{Parameters, max_digit}
use bit_vm.Winternitz.Binary.Defs.{verify_digits}

-- Multiplying by 2^bits.
unfoldable pub doublings : ℕ → Script
unfolding repeat
doublings bits = repeat bits (op_dup ∷ op_add ∷ [])

abbrev pub add_digit : Parameters → Script
add_digit ps = doublings ps.log2_base ⨾ op_fromaltstack ∷ op_add ∷ []

unfoldable pub verify_checksum : Parameters → Script
unfolding repeat doublings
verify_checksum ps =
    op_fromaltstack ∷ op_dup ∷ op_negate ∷ []
    ⨾ repeat (ps.message_digit_len - 1) (op_fromaltstack ∷ op_tuck ∷ op_sub ∷ [])
    ⨾ push (pos (max_digit ps * ps.message_digit_len)) ∷ op_add ∷ op_fromaltstack ∷ []
    ⨾ repeat (ps.checksum_digit_len - 1) (add_digit ps)
    ⨾ op_equalverify ∷ []

-- `checksig_verify` with VoidConverter, whose script is empty.
unfoldable pub checksig_verify : Parameters → List Bytes → Option Script
unfolding verify_digits verify_checksum
checksig_verify ps public_key = do
  verify ← verify_digits ps public_key
  some (verify ⨾ verify_checksum ps ⨾ [])

unfoldable pub checksig_verify_and_clear_stack : Parameters → List Bytes → Option Script
unfolding verify_digits verify_checksum repeat
checksig_verify_and_clear_stack ps public_key = do
  verify ← verify_digits ps public_key
  some (
      verify
      ⨾ verify_checksum ps
      ⨾ repeat (ps.message_digit_len / 2) (op_2drop ∷ [])
      ⨾ (if ps.message_digit_len % 2 == 1 then op_drop ∷ [] else []))

unfoldable pub digits_to_number : ℕ → ℕ → Script
unfolding repeat doublings
digits_to_number n_digits log2_base =
    repeat (n_digits - 1) (op_toaltstack ∷ [])
    ⨾ repeat (n_digits - 1) (doublings log2_base ⨾ op_fromaltstack ∷ op_add ∷ [])
