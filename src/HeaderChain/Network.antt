-- ===== src/HeaderChain/Network.antt =====
-- The constants of the four networks.
use bit_vm.Prelude.{ℕ, ◌*◌, Bool, true, false, ◌∷◌, replicate}
use bit_vm.Hashing.{Bytes}

pub data Network : Type 0 where
  mainnet testnet4 signet regtest : Network

pub record NetworkConstants : Type 0 where
  pub max_bits : ℕ
  pub max_target : ℕ
  pub max_target_bytes : Bytes

unfoldable pub network_constants : Network → NetworkConstants
network_constants mainnet = record {
  max_bits = 0x1D00FFFF;
  max_target = 0x00000000FFFF0000000000000000000000000000000000000000000000000000;
  max_target_bytes = 0 ∷ 0 ∷ 0 ∷ 0 ∷ 255 ∷ 255 ∷ replicate 26 0;
}
network_constants testnet4 = record {
  max_bits = 0x1D00FFFF;
  max_target = 0x00000000FFFF0000000000000000000000000000000000000000000000000000;
  max_target_bytes = 0 ∷ 0 ∷ 0 ∷ 0 ∷ 255 ∷ 255 ∷ replicate 26 0;
}
network_constants signet = record {
  max_bits = 0x1E0377AE;
  max_target = 0x00000377AE000000000000000000000000000000000000000000000000000000;
  max_target_bytes = 0 ∷ 0 ∷ 3 ∷ 119 ∷ 174 ∷ replicate 27 0;
}
network_constants regtest = record {
  max_bits = 0x207FFFFF;
  max_target = 0x7FFFFF0000000000000000000000000000000000000000000000000000000000;
  max_target_bytes = 127 ∷ 255 ∷ 255 ∷ replicate 29 0;
}

unfoldable pub is_regtest : Network → Bool
is_regtest regtest = true
is_regtest _ = false

unfoldable pub is_testnet4 : Network → Bool
is_testnet4 testnet4 = true
is_testnet4 _ = false

abbrev pub minimum_work_testnet : ℕ
minimum_work_testnet = 0x0000000000000000000000000000000000000000000000000000000100010001

abbrev pub expected_epoch_timespan : ℕ
expected_epoch_timespan = 60 * 60 * 24 * 14

abbrev pub blocks_per_epoch : ℕ
blocks_per_epoch = 2016
