-- ===== src/HeaderChain/Target/Defs.antt =====
-- `bits_to_target`, `target_to_bits`, `calculate_new_difficulty`, `check_hash_valid` and
-- `calculate_work`.
use bit_vm.Prelude.{
  ℕ, ◌+◌, ◌-◌, ◌*◌, ◌/◌, ◌%◌, ◌^◌, bit_and, Option, none, some, [], ◌∷◌, get_elem?, reverse, ltb,
  leb, ◌==◌, if◌then◌else◌, ◌>>=◌,
}
use bit_vm.Hashing.{Bytes}
use bit_vm.Words.Bytes.{be_value}
use bit_vm.Words.U256.{U256}
use bit_vm.HeaderChain.Network.{Network, network_constants, expected_epoch_timespan}

-- The loop of `check_hash_valid`, over the hash from its last byte backwards and the target from
-- its first byte on. `none` is the panic "Hash is not valid".
unfoldable pub compare_bytes : Bytes → Bytes → Option (Unit {0})
compare_bytes [] target = some tt
compare_bytes (h ∷ hash) [] = some tt
compare_bytes (h ∷ hash) (t ∷ target) =
    if ltb h t then some tt else if ltb t h then none else compare_bytes hash target

unfoldable pub check_hash_valid : Bytes → Bytes → Option (Unit {0})
unfolding compare_bytes
check_hash_valid hash target_bytes = compare_bytes (reverse hash) target_bytes

-- The clamped timespan of an epoch.
unfoldable pub clamp_timespan : ℕ → ℕ
clamp_timespan actual =
    if ltb actual (expected_epoch_timespan / 4)
    then expected_epoch_timespan / 4
    else if ltb (expected_epoch_timespan * 4) actual
    then expected_epoch_timespan * 4
    else actual

module _ (u : U256) where
  unfoldable pub bits_to_target : ℕ → Bytes
  bits_to_target bits =
      let size = bits / 2 ^ 24 in
      let mantissa = bit_and bits 0x00ffffff in
      u.to_be_bytes
        (if leb size 3 then mantissa / 2 ^ (8 * (3 - size)) else u.shl mantissa (8 * (size - 3)))

  -- `target[size - 1]` is out of range at size 0.
  unfoldable pub target_to_bits : Bytes → Option ℕ
  target_to_bits target =
      let size = (263 - u.bits (u.from_be_bytes target)) / 8 in
      do
        b1 ← if size == 0 then none else get_elem? target (size - 1)
        b2 ← get_elem? target size
        b3 ← get_elem? target (size + 1)
        some (be_value ((33 - size) ∷ b1 ∷ b2 ∷ b3 ∷ []))

  unfoldable pub calculate_new_difficulty : Network → ℕ → ℕ → ℕ → Bytes
  unfolding clamp_timespan
  calculate_new_difficulty net epoch_start_time last_timestamp current_target =
      let actual_timespan =
        clamp_timespan ((last_timestamp + 2 ^ 32 - epoch_start_time) % 2 ^ 32) in
      let new_target =
        u.wrapping_div
          (u.wrapping_mul (u.from_be_bytes (bits_to_target current_target)) actual_timespan)
          expected_epoch_timespan in
      let max_target = (network_constants net).max_target in
      u.to_be_bytes (if ltb max_target new_target then max_target else new_target)

  unfoldable pub calculate_work : Bytes → ℕ
  calculate_work target = u.wrapping_div (2 ^ 256 - 1) (u.saturating_add (u.from_be_bytes target) 1)
