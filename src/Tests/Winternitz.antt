-- ===== src/Tests/Winternitz.antt =====
-- Winternitz signatures of two digits of four bits, with a toy hash of 20 bytes.
use bit_vm.Prelude.{ℕ, ◌+◌, ◌-◌, ◌%◌, ◌^◌, ◌≤◌, ◌<◌, ◌≡◌, refl, some, List, [], ◌∷◌, arith, length}
use bit_vm.Winternitz.Verify.Signature.{split, recover, checksig_verify-recover}
use bit_vm.Winternitz.Verify.Digits.{pile, read_digit, read_from}
use bit_vm.Winternitz.Verify.Clear.{checksig_verify_and_clear_stack-recover}
use bit_vm.Script.Run.{◌⨾◌, repeat}
use bit_vm.Hashing.{Bytes}
use bit_vm.Script.Defs.{Item, str, Stack, op_2drop, Script, state, run}
use bit_vm.U32.Stack.{byte}
use bit_vm.Winternitz.Digits.{
  log_base_ceil, checksum_to_digits, number_from, sum, log_base_ceil_least,
}
use bit_vm.Winternitz.Defs.{
  Parameters, new_parameters, index_bytes, add_message_checksum, hash_times, secret_key_for_digit,
  digit_signature, public_key_for_digit, public_keys_from, generate_public_key, sign_digits,
}
use bit_vm.Winternitz.Checksum.{
  IsValid, new_parameters-IsValid, IsMessage, AllLe, add_message_checksum-AllLe,
}
use bit_vm.Winternitz.Binary.Defs.{verify_digit, verify_from, verify_digits}
use bit_vm.Winternitz.Binary.Digit.{verify_digit-accepts}
use bit_vm.Winternitz.Verify.Defs.{
  verify_checksum, checksig_verify, checksig_verify_and_clear_stack, digits_to_number,
}
use bit_vm.Winternitz.Verify.Sum.{turned}
use bit_vm.Winternitz.Verify.Signed.{signature_pairs, checksig_verify-sign_digits}
use bit_vm.Winternitz.Verify.Number.{digits_to_number-checksum_to_digits}

abbrev zeros : Bytes
zeros = 0 ∷ 0 ∷ 0 ∷ 0 ∷ 0 ∷ 0 ∷ 0 ∷ 0 ∷ 0 ∷ 0 ∷ 0 ∷ 0 ∷ 0 ∷ 0 ∷ 0 ∷ 0 ∷ 0 ∷ 0 ∷ 0 ∷ []

abbrev toy_hash : Bytes → Bytes
toy_hash b = ((sum b + length b) % 256) ∷ zeros

length-toy_hash : (b : Bytes) → length (toy_hash b) ≡ 20
length-toy_hash b = refl

abbrev two_digits : Parameters
two_digits = record { message_digit_len = 2; log2_base = 4; checksum_digit_len = 2 }

two_digits-IsValid : IsValid two_digits
two_digits-IsValid = record {
  base = (omega arith, omega arith);
  digits = (omega arith, omega arith);
  enough = omega arith;
  few = omega arith;
  some_digit = omega arith;
}

abbrev message : List ℕ
message = 3 ∷ 12 ∷ []

message-IsMessage : IsMessage two_digits message
message-IsMessage = (refl, (omega arith, (omega arith, tt)))

log_base_ceil_least_example :
    (r : ℕ) × (log_base_ceil 31 16 ≡ some r) × (31 ≤ 16 ^ r) × (0 < r → 16 ^ (r - 1) < 31)
log_base_ceil_least_example = log_base_ceil_least 31 16 (omega arith) (omega arith)

new_parameters-IsValid_example : (ps : Parameters) × (new_parameters 2 4 ≡ some ps) × IsValid ps
new_parameters-IsValid_example =
    new_parameters-IsValid 2 4 (omega arith) (omega arith) (omega arith) (omega arith)

same_digits :
    AllLe (add_message_checksum two_digits message) (add_message_checksum two_digits message)
unfolding add_message_checksum
same_digits = (omega arith, (omega arith, (omega arith, (omega arith, tt))))

add_message_checksum-AllLe_example : 3 ∷ 12 ∷ [] ≡ message
add_message_checksum-AllLe_example =
    add_message_checksum-AllLe two_digits message message two_digits-IsValid message-IsMessage
      message-IsMessage same_digits

abbrev keys : List Bytes
keys = generate_public_key toy_hash two_digits (7 ∷ [])

abbrev pairs : List (Item × Item)
pairs = signature_pairs toy_hash two_digits (7 ∷ []) 0 (3 ∷ 12 ∷ 0 ∷ 15 ∷ []) []

verify_digit-accepts_example :
    run toy_hash
      (verify_digit two_digits (public_key_for_digit toy_hash two_digits (7 ∷ []) 0))
      (state (byte 3 ∷ str (digit_signature toy_hash (7 ∷ []) 0 3) ∷ []) [])
    ≡ some (state [] (byte 3 ∷ []))
unfolding public_key_for_digit digit_signature secret_key_for_digit index_bytes hash_times sum
verify_digit-accepts_example =
    verify_digit-accepts toy_hash two_digits (public_key_for_digit toy_hash two_digits (7 ∷ []) 0)
      (byte 3) (str (digit_signature toy_hash (7 ∷ []) 0 3)) [] [] two_digits-IsValid

digits_to_number-checksum_to_digits_example :
    run toy_hash (digits_to_number 7 4) (state (turned (checksum_to_digits 0xABCDE 16 7) []) [])
    ≡ some (state (byte 0xABCDE ∷ []) [])
digits_to_number-checksum_to_digits_example =
    digits_to_number-checksum_to_digits toy_hash two_digits 7 0xABCDE [] [] two_digits-IsValid
      (omega arith) (omega arith) (omega arith)

checksig_verify-sign_digits_example :
    (script : Script) × (w : Stack) × (checksig_verify two_digits keys ≡ some script)
    × (sign_digits toy_hash two_digits (7 ∷ []) message [] ≡ some w)
    × (run toy_hash script (state w []) ≡ some (state (byte 12 ∷ byte 3 ∷ []) []))
checksig_verify-sign_digits_example =
    checksig_verify-sign_digits toy_hash two_digits (7 ∷ []) length-toy_hash message [] []
      two_digits-IsValid message-IsMessage

abbrev script : Script
script =
    verify_digit two_digits (public_key_for_digit toy_hash two_digits (7 ∷ []) 3)
    ⨾ verify_digit two_digits (public_key_for_digit toy_hash two_digits (7 ∷ []) 2)
    ⨾ verify_digit two_digits (public_key_for_digit toy_hash two_digits (7 ∷ []) 1)
    ⨾ verify_digit two_digits (public_key_for_digit toy_hash two_digits (7 ∷ []) 0)
    ⨾ []

script_verified : checksig_verify two_digits keys ≡ some (script ⨾ verify_checksum two_digits ⨾ [])
unfolding checksig_verify verify_digits verify_from generate_public_key public_keys_from
script_verified = refl

script_cleared :
    checksig_verify_and_clear_stack two_digits keys
    ≡ some (script ⨾ verify_checksum two_digits ⨾ op_2drop ∷ [])
unfolding checksig_verify_and_clear_stack verify_digits verify_from generate_public_key
    public_keys_from repeat
script_cleared = refl

checksig_verify-recover_example :
    run toy_hash (script ⨾ verify_checksum two_digits ⨾ []) (state (pile pairs []) [])
    ≡ some (state (byte 12 ∷ byte 3 ∷ []) [])
unfolding recover read_from read_digit generate_public_key public_keys_from public_key_for_digit
    digit_signature signature_pairs secret_key_for_digit index_bytes hash_times sum number_from
    split
checksig_verify-recover_example =
    checksig_verify-recover toy_hash two_digits keys pairs [] []
      (script ⨾ verify_checksum two_digits ⨾ []) two_digits-IsValid refl script_verified

checksig_verify_and_clear_stack-recover_example :
    run toy_hash (script ⨾ verify_checksum two_digits ⨾ op_2drop ∷ []) (state (pile pairs []) [])
    ≡ some (state [] [])
unfolding recover read_from read_digit generate_public_key public_keys_from public_key_for_digit
    digit_signature signature_pairs secret_key_for_digit index_bytes hash_times sum number_from
    split
checksig_verify_and_clear_stack-recover_example =
    checksig_verify_and_clear_stack-recover toy_hash two_digits keys pairs [] []
      (script ⨾ verify_checksum two_digits ⨾ op_2drop ∷ []) two_digits-IsValid refl script_cleared
