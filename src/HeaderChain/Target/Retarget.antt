-- ===== src/HeaderChain/Target/Retarget.antt =====
-- The new target at the end of an epoch, and the work of a target.
use native.Mathlib.Nat.{mod-eq_of_lt, mul-le-mul_left}
use bit_vm.Prelude.{
  ℕ, ◌+◌, ◌-◌, ◌*◌, ◌/◌, ◌%◌, ◌^◌, ◌≤◌, ◌<◌, ◌≡◌, ap, ◌∙◌, min, ltb, if◌then◌else◌, arith,
}
use bit_vm.Words.Bytes.{be_value, be_bytes, be_bytes_lt, length-be_bytes, be_bytes-All}
use bit_vm.Words.U256.{U256}
use bit_vm.HeaderChain.Network.{
  Network, mainnet, testnet4, signet, regtest, network_constants, expected_epoch_timespan,
}
use bit_vm.HeaderChain.Target.Defs.{
  bits_to_target, clamp_timespan, calculate_new_difficulty, calculate_work,
}

-- The seconds from the first to the last block of an epoch, as the code computes them.
abbrev pub timespan : ℕ → ℕ → ℕ
timespan epoch_start_time last_timestamp = (last_timestamp + 2 ^ 32 - epoch_start_time) % 2 ^ 32

pub clamp_timespan_bounds :
    (t : ℕ)
    → (expected_epoch_timespan / 4 ≤ clamp_timespan t)
      × (clamp_timespan t ≤ expected_epoch_timespan * 4)
unfolding clamp_timespan
clamp_timespan_bounds t = ground arith

max_target_lt : (net : Network) → (network_constants net).max_target < 2 ^ 256
unfolding network_constants
max_target_lt mainnet = omega arith
max_target_lt testnet4 = omega arith
max_target_lt signet = omega arith
max_target_lt regtest = omega arith

scale_bounds :
    (old span : ℕ)
    → expected_epoch_timespan / 4 ≤ span
    → span ≤ expected_epoch_timespan * 4
    → (old / 4 ≤ old * span / expected_epoch_timespan)
      × (old * span / expected_epoch_timespan ≤ 4 * old)
      × (old * span ≤ old * (expected_epoch_timespan * 4))
scale_bounds old span lo hi =
    let low : old * (expected_epoch_timespan / 4) ≤ old * span = mul-le-mul_left old lo in
    let high : old * span ≤ old * (expected_epoch_timespan * 4) = mul-le-mul_left old hi in
    (omega (arith, low), omega (arith, high), high)

abbrev cap_at : ℕ → ℕ → ℕ
cap_at limit n = if ltb limit n then limit else n

cap_at_lem : (limit n : ℕ) → cap_at limit n ≡ min n limit
cap_at_lem limit n = ground arith

module _ (u : U256) where
  -- The target that compact bits stand for, as a number.
  abbrev pub target_of : ℕ → ℕ
  target_of bits = u.from_be_bytes (bits_to_target u bits)

  scaled :
      (old span : ℕ)
      → expected_epoch_timespan / 4 ≤ span
      → span ≤ expected_epoch_timespan * 4
      → old * (expected_epoch_timespan * 4) < 2 ^ 256
      → u.wrapping_div (u.wrapping_mul old span) expected_epoch_timespan
        ≡ old * span / expected_epoch_timespan
  scaled old span lo hi h =
      let top = (scale_bounds old span lo hi).2 in
      let exact : old * span % 2 ^ 256 ≡ old * span = mod-eq_of_lt (omega (arith, top)) in
      ap (λ (t : ℕ). u.wrapping_div t expected_epoch_timespan)
        (u.wrapping_mul_value old span (omega arith) (omega arith) ∙ exact)
      ∙ u.wrapping_div_value (old * span) expected_epoch_timespan (omega (arith, top)) (omega arith)
          (omega arith)

  -- If the old target is small enough that its product with four epochs does not overflow 256
  -- bits, the new target is the old one times the clamped timespan over the expected one, but at
  -- most the network's limit; and before that limit it lies between a quarter of the old target and
  -- four times it.
  pub calculate_new_difficulty_value :
      (net : Network) (epoch_start_time last_timestamp bits : ℕ)
      → target_of bits * (expected_epoch_timespan * 4) < 2 ^ 256
      → (be_value (calculate_new_difficulty u net epoch_start_time last_timestamp bits)
          ≡ min
              (target_of bits
                * clamp_timespan (timespan epoch_start_time last_timestamp)
                / expected_epoch_timespan)
              (network_constants net).max_target)
        × (target_of bits / 4
            ≤ target_of bits
              * clamp_timespan (timespan epoch_start_time last_timestamp)
              / expected_epoch_timespan)
        × (target_of bits
              * clamp_timespan (timespan epoch_start_time last_timestamp)
              / expected_epoch_timespan
            ≤ 4 * target_of bits)
  calculate_new_difficulty_value net start last bits h = (value, bounds.0, bounds.1)
    where
      span : ℕ
      span = clamp_timespan (timespan start last)

      new : ℕ
      new = target_of bits * span / expected_epoch_timespan

      limit : ℕ
      limit = (network_constants net).max_target

      in_range : (expected_epoch_timespan / 4 ≤ span) × (span ≤ expected_epoch_timespan * 4)
      in_range = clamp_timespan_bounds (timespan start last)

      bounds :
          (target_of bits / 4 ≤ new)
          × (new ≤ 4 * target_of bits)
          × (target_of bits * span ≤ target_of bits * (expected_epoch_timespan * 4))
      bounds = scale_bounds (target_of bits) span in_range.0 in_range.1

      fits : cap_at limit new < 2 ^ 256
      fits = rw cap_at_lem (omega (arith, max_target_lt net))

      value : be_value (calculate_new_difficulty u net start last bits) ≡ min new limit
      value =
          unfold calculate_new_difficulty in
          ap (λ (t : ℕ). be_value (u.to_be_bytes (cap_at limit t)))
            (scaled (target_of bits) span in_range.0 in_range.1 h)
          ∙ ap be_value (u.to_be_bytes_value (cap_at limit new) fits)
          ∙ be_bytes_lt 32 (cap_at limit new) fits
          ∙ cap_at_lem limit new

  -- If the last timestamp of an epoch lies before its first one, by at most 2^32 less four epochs,
  -- the new target is the one for the longest timespan that is allowed, four epochs.
  pub calculate_new_difficulty_backwards :
      (net : Network) (epoch_start_time last_timestamp bits : ℕ)
      → epoch_start_time < 2 ^ 32
      → last_timestamp < epoch_start_time
      → epoch_start_time - last_timestamp ≤ 2 ^ 32 - expected_epoch_timespan * 4
      → calculate_new_difficulty u net epoch_start_time last_timestamp bits
        ≡ calculate_new_difficulty u net 0 (expected_epoch_timespan * 4) bits
  unfolding calculate_new_difficulty
  calculate_new_difficulty_backwards net start last bits h₁ h₂ h₃ =
      ap
        (λ (t : ℕ). u.to_be_bytes (
          cap_at (network_constants net).max_target
            (u.wrapping_div (u.wrapping_mul (target_of bits) t) expected_epoch_timespan)))
        longest
    where
      longest :
          clamp_timespan (timespan start last)
          ≡ clamp_timespan (timespan 0 (expected_epoch_timespan * 4))
      longest = unfold clamp_timespan in ground arith

  -- The work of a target below 2^256 is 2^256 - 1 divided by the target plus one, the sum cut off
  -- at 2^256 - 1.
  pub calculate_work_value :
      (target : ℕ)
      → target < 2 ^ 256
      → calculate_work u (be_bytes 32 target) ≡ (2 ^ 256 - 1) / min (target + 1) (2 ^ 256 - 1)
  unfolding calculate_work
  calculate_work_value target h =
      ap (λ (t : ℕ). u.wrapping_div (2 ^ 256 - 1) t)
        (ap (λ (t : ℕ). u.saturating_add t 1) back
          ∙ u.saturating_add_value target 1 h (omega arith))
      ∙ u.wrapping_div_value (2 ^ 256 - 1) (min (target + 1) (2 ^ 256 - 1)) (omega arith)
          (omega arith) (omega arith)
    where
      back : u.from_be_bytes (be_bytes 32 target) ≡ target
      back =
          u.from_be_bytes_value (be_bytes 32 target) (length-be_bytes 32 target)
            (be_bytes-All 32 target)
          ∙ be_bytes_lt 32 target h
