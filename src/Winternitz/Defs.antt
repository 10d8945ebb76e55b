-- ===== src/Winternitz/Defs.antt =====
-- winternitz.rs: parameters, keys, signatures and checksums. Arithmetic on `u32` wraps, as in a
-- release build; debug assertions are left out.
use bit_vm.Prelude.{
  ℕ, zero, suc, ◌+◌, ◌-◌, ◌*◌, ◌/◌, ◌%◌, ◌^◌, ◌&&◌, not, Option, some, List, [], ◌∷◌, ◌++◌, leb,
  ◌==◌, if◌then◌else◌, ◌>>=◌, ◌>>◌, assert, get_elem?,
}
use bit_vm.Hashing.{Bytes}
use bit_vm.Script.Defs.{Item, num, str, Stack}
use bit_vm.Winternitz.Digits.{log_base_ceil, checksum_to_digits, sum}
use bit_vm.U32.Std.Compress.{as_i32}

pub record Parameters : Type 0 where
  pub message_digit_len : ℕ
  pub log2_base : ℕ
  pub checksum_digit_len : ℕ

-- `none`: the assertion on `log2_base` fails.
unfoldable pub new_parameters : ℕ → ℕ → Option Parameters
unfolding log_base_ceil
new_parameters message_digit_len log2_base = do
  assert (leb 4 log2_base && leb log2_base 8)
  len ← log_base_ceil (((2 ^ log2_base - 1) * message_digit_len + 1) % 2 ^ 32) (2 ^ log2_base)
  some (record {
    message_digit_len = message_digit_len;
    log2_base = log2_base;
    checksum_digit_len = len;
  })

unfoldable pub new_by_bit_length : ℕ → ℕ → Option Parameters
unfolding new_parameters
new_by_bit_length message_n_bits log2_base = do
  assert (not (log2_base == 0))
  new_parameters ((message_n_bits + log2_base - 1) / log2_base) log2_base

abbrev pub max_digit : Parameters → ℕ
max_digit ps = 2 ^ ps.log2_base - 1

abbrev pub total_digit_len : Parameters → ℕ
total_digit_len ps = ps.message_digit_len + ps.checksum_digit_len

abbrev pub message_byte_len : Parameters → ℕ
message_byte_len ps = (ps.message_digit_len * ps.log2_base + 7) / 8

-- The bytes that the loop of `secret_key_for_digit` pushes, the lowest first; a `u32` has four.
unfoldable pub index_bytes : ℕ → ℕ → Bytes
index_bytes zero digit_index = []
index_bytes (suc fuel) digit_index =
    if digit_index == 0 then [] else (digit_index % 256) ∷ index_bytes fuel (digit_index / 256)

unfoldable pub checksum : Parameters → List ℕ → ℕ
unfolding sum
checksum ps message_digits =
    let total : ℕ = sum message_digits % 2 ^ 32 in
    (max_digit ps * ps.message_digit_len + 2 ^ 32 - total) % 2 ^ 32

unfoldable pub add_message_checksum : Parameters → List ℕ → List ℕ
unfolding checksum checksum_to_digits
add_message_checksum ps message_digits =
    message_digits
    ++ checksum_to_digits (checksum ps message_digits) (max_digit ps + 1) ps.checksum_digit_len

-- A digit cast to `i32`, in its minimal encoding as a script number.
unfoldable pub bitcoin_representation : ℕ → Item
unfolding as_i32
bitcoin_representation x = num (as_i32 x)

module _ (hash160 : Bytes → Bytes) where
  -- `hash160` applied `n` times.
  unfoldable pub hash_times : ℕ → Bytes → Bytes
  hash_times zero hash = hash
  hash_times (suc n) hash = hash_times n (hash160 hash)

  unfoldable pub secret_key_for_digit : Bytes → ℕ → Bytes
  unfolding index_bytes
  secret_key_for_digit secret_key digit_index = hash160 (secret_key ++ index_bytes 4 digit_index)

  unfoldable pub digit_signature : Bytes → ℕ → ℕ → Bytes
  unfolding secret_key_for_digit hash_times
  digit_signature secret_key digit_index message_digit =
      hash_times message_digit (secret_key_for_digit secret_key digit_index)

  -- The warning about repetitive hashes is only printed.
  unfoldable pub public_key_for_digit : Parameters → Bytes → ℕ → Bytes
  unfolding secret_key_for_digit hash_times
  public_key_for_digit ps secret_key digit_index =
      hash_times (max_digit ps) (secret_key_for_digit secret_key digit_index)

  -- The keys of `n` digits from the digit `i` on.
  unfoldable pub public_keys_from : Parameters → Bytes → ℕ → ℕ → List Bytes
  unfolding public_key_for_digit
  public_keys_from ps secret_key i zero = []
  public_keys_from ps secret_key i (suc n) =
      public_key_for_digit ps secret_key i ∷ public_keys_from ps secret_key (i + 1) n

  unfoldable pub generate_public_key : Parameters → Bytes → List Bytes
  unfolding public_keys_from
  generate_public_key ps secret_key = public_keys_from ps secret_key 0 (total_digit_len ps)

  -- The loop of `sign_digits` over `n` digits from the digit `i` on; `none` is an index out of range.
  -- The last element of the witness is the top of the stack, so the witness is read onto a stack.
  unfoldable pub sign_from : Bytes → List ℕ → ℕ → ℕ → Stack → Option Stack
  unfolding digit_signature bitcoin_representation
  sign_from secret_key digits i zero result = some result
  sign_from secret_key digits i (suc n) result = do
    digit ← get_elem? digits i
    sign_from secret_key digits (i + 1) n
        (bitcoin_representation digit ∷ str (digit_signature secret_key i digit) ∷ result)

  -- `Verifier::sign_digits`, onto a stack.
  unfoldable pub sign_digits : Parameters → Bytes → List ℕ → Stack → Option Stack
  unfolding sign_from add_message_checksum
  sign_digits ps secret_key message_digits s =
      sign_from secret_key (add_message_checksum ps message_digits) 0 (total_digit_len ps) s
