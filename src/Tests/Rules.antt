-- ===== src/Tests/Rules.antt =====
-- The consensus rules on concrete targets and timestamps.
use bit_vm.Prelude.{
  ℕ, ◌+◌, ◌*◌, ◌/◌, ◌^◌, ◌≤◌, ◌<◌, min, ◌≡◌, refl, ◌↔◌, true, some, List, [], ◌∷◌, reverse, arith,
}
use bit_vm.Words.Bytes.{be_value, be_bytes, length-be_bytes, be_bytes-All}
use bit_vm.HeaderChain.Network.{mainnet, network_constants, expected_epoch_timespan}
use bit_vm.HeaderChain.Target.Defs.{
  check_hash_valid, clamp_timespan, bits_to_target, target_to_bits, calculate_new_difficulty,
}
use bit_vm.HeaderChain.Target.Hash.{check_hash_valid_iff}
use bit_vm.HeaderChain.Target.Compact.{target_to_bits-bits_to_target, bits_to_target-target_to_bits}
use bit_vm.HeaderChain.Target.Retarget.{
  timespan, target_of, calculate_new_difficulty_value, calculate_new_difficulty_backwards,
}
use bit_vm.HeaderChain.Timestamp.Defs.{validate_timestamp}
use bit_vm.HeaderChain.Timestamp.Median.{count_below, validate_timestamp_iff}
use bit_vm.Hashing.{Bytes}
use bit_vm.Tests.Reference.{reference}

abbrev low_hash : Bytes
low_hash = be_bytes 32 (0xC8FFFE01 * 256 ^ 28)

abbrev target : Bytes
target = be_bytes 32 0x01FF0000

check_hash_valid_iff_example :
    (check_hash_valid low_hash target ≡ some tt) ↔ (be_value (reverse low_hash) ≤ be_value target)
check_hash_valid_iff_example =
    check_hash_valid_iff low_hash target (length-be_bytes 32 (0xC8FFFE01 * 256 ^ 28))
      (length-be_bytes 32 0x01FF0000) (be_bytes-All 32 (0xC8FFFE01 * 256 ^ 28))
      (be_bytes-All 32 0x01FF0000)

target_to_bits-bits_to_target_example :
    target_to_bits reference (bits_to_target reference (0x1B * 2 ^ 24 + 0x0404CB))
    ≡ some (0x1B * 2 ^ 24 + 0x0404CB)
target_to_bits-bits_to_target_example =
    target_to_bits-bits_to_target reference 0x1B 0x0404CB (omega arith) (omega arith) (omega arith)
      (omega arith)

bits_to_target-target_to_bits_example :
    (bits k : ℕ) × (target_to_bits reference (be_bytes 32 0x0404CB1234) ≡ some bits)
    × (bits_to_target reference bits ≡ be_bytes 32 (0x0404CB1234 / 256 ^ k * 256 ^ k))
    × (2 ^ 15 * 256 ^ k ≤ 0x0404CB1234)
    × (0x0404CB1234 < 2 ^ 23 * 256 ^ k)
bits_to_target-target_to_bits_example =
    bits_to_target-target_to_bits reference 0x0404CB1234 (omega arith) (omega arith)

abbrev old_bits : ℕ
old_bits = 0x1B0404CB

old_target : target_of reference old_bits ≡ 0x0404CB * 256 ^ 24
unfolding be_value bits_to_target be_bytes
old_target = refl

calculate_new_difficulty_value_example :
    (be_value (calculate_new_difficulty reference mainnet 1000 601000 old_bits)
      ≡ min
          (target_of reference old_bits
            * clamp_timespan (timespan 1000 601000)
            / expected_epoch_timespan)
          (network_constants mainnet).max_target)
    × (target_of reference old_bits / 4
        ≤ target_of reference old_bits
          * clamp_timespan (timespan 1000 601000)
          / expected_epoch_timespan)
    × (target_of reference old_bits
          * clamp_timespan (timespan 1000 601000)
          / expected_epoch_timespan
        ≤ 4 * target_of reference old_bits)
calculate_new_difficulty_value_example =
    calculate_new_difficulty_value reference mainnet 1000 601000 old_bits
      (omega (arith, old_target))

calculate_new_difficulty_backwards_example :
    calculate_new_difficulty reference mainnet 1000 999 old_bits
    ≡ calculate_new_difficulty reference mainnet 0 (expected_epoch_timespan * 4) old_bits
calculate_new_difficulty_backwards_example =
    calculate_new_difficulty_backwards reference mainnet 1000 999 old_bits (omega arith)
      (omega arith) (omega arith)

abbrev timestamps : List ℕ
timestamps = 9 ∷ 3 ∷ 7 ∷ 1 ∷ 11 ∷ 5 ∷ 2 ∷ 10 ∷ 4 ∷ 8 ∷ 6 ∷ []

validate_timestamp_iff_example :
    (validate_timestamp 7 timestamps ≡ true) ↔ (6 ≤ count_below 7 timestamps)
validate_timestamp_iff_example = validate_timestamp_iff 7 timestamps refl
