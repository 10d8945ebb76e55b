-- ===== src/HeaderChain/State/Step.antt =====
-- What one accepted header does to the loop's variables.
use bit_vm.Prelude.{
  ℕ, ◌+◌, ◌%◌, ◌^◌, ◌≡◌, refl, subst, true, some, set, ◌==◌, ==_iff, if◌then◌else◌, >>=-eq-some,
  some_inj, assert, assert-eq-some, bytes_eq, bytes_eq→eq,
}
use bit_vm.Hashing.{Bytes}
use bit_vm.Words.U256.{U256}
use bit_vm.Mmr.Defs.{MmrGuest, append_guest}
use bit_vm.HeaderChain.Network.{Network, network_constants, is_regtest, is_testnet4}
use bit_vm.HeaderChain.Target.Defs.{check_hash_valid}
use bit_vm.HeaderChain.Timestamp.Defs.{validate_timestamp}
use bit_vm.HeaderChain.State.Defs.{
  CircuitBlockHeader, Progress, compute_block_hash, Demand, demand, accept, retarget, apply_block,
  epoch_start, advance,
}

module _ (sha256 : Bytes → Bytes) (u : U256) (net : Network) where
  abbrev pub next_height : Progress → ℕ
  next_height p = (p.state.block_height + 1) % 2 ^ 32

  -- What a header that is not refused has met, and the state after it.
  pub record Applied (p : Progress) (h : CircuitBlockHeader) (p' : Progress) : Type 0 where
    pub linked : h.prev_block_hash ≡ p.state.best_block_hash
    pub bits_as_expected : h.bits ≡ (
        if is_regtest net
        then (network_constants net).max_bits
        else (demand sha256 u net p (next_height p) h).expected_bits)
    pub hash_valid :
        check_hash_valid
          (compute_block_hash sha256 h)
          (demand sha256 u net p (next_height p) h).target_to_use
        ≡ some tt
    pub time_valid : validate_timestamp h.time p.state.prev_11_timestamps ≡ true
    pub height : p'.state.block_height ≡ next_height p
    pub best : p'.state.best_block_hash ≡ compute_block_hash sha256 h
    pub timestamps :
        p'.state.prev_11_timestamps ≡ set p.state.prev_11_timestamps (next_height p % 11) h.time
    pub mountain :
        append_guest sha256 p.state.block_hashes_mmr (compute_block_hash sha256 h)
        ≡ some p'.state.block_hashes_mmr
    pub work :
        p'.current_work
        ≡ u.wrapping_add p.current_work (demand sha256 u net p (next_height p) h).work_to_add
    pub retargeted :
        retarget sha256 u net p
          (next_height p)
          (epoch_start sha256 u net p (next_height p) h)
          h.time
        ≡ some (p'.current_target_bytes, p'.state.current_target_bits)
    pub last_time : p'.last_block_time ≡ (if is_testnet4 net then h.time else p.last_block_time)
    pub same_total : p'.state.total_work ≡ p.state.total_work

  accept_lem :
      (p : Progress) (d : Demand sha256 u net) (h : CircuitBlockHeader)
      → accept sha256 u net p d h ≡ some tt
      → (h.prev_block_hash ≡ p.state.best_block_hash)
        × (h.bits ≡ (if is_regtest net then (network_constants net).max_bits else d.expected_bits))
        × (check_hash_valid (compute_block_hash sha256 h) d.target_to_use ≡ some tt)
        × (validate_timestamp h.time p.state.prev_11_timestamps ≡ true)
  unfolding accept
  accept_lem p d h e =
      let (_, linked, e₁) =
        >>=-eq-some (assert (bytes_eq h.prev_block_hash p.state.best_block_hash)) _ e in
      let (_, bits, e₂) = >>=-eq-some (assert (h.bits == wanted)) _ e₁ in
      let (_, valid, e₃) =
        >>=-eq-some (check_hash_valid (compute_block_hash sha256 h) d.target_to_use) _ e₂ in
      (
        bytes_eq→eq h.prev_block_hash p.state.best_block_hash (assert-eq-some _ linked),
        (==_iff h.bits wanted).0 (assert-eq-some _ bits),
        valid,
        assert-eq-some _ e₃,
      )
    where
      wanted : ℕ
      wanted = if is_regtest net then (network_constants net).max_bits else d.expected_bits

  advance-Applied :
      (p : Progress) (h : CircuitBlockHeader) (mmr : MmrGuest) (target : Bytes × ℕ)
      → accept sha256 u net p (demand sha256 u net p (next_height p) h) h ≡ some tt
      → append_guest sha256 p.state.block_hashes_mmr (compute_block_hash sha256 h) ≡ some mmr
      → retarget sha256 u net p
          (next_height p)
          (epoch_start sha256 u net p (next_height p) h)
          h.time
        ≡ some target
      → Applied p h (advance sha256 u net p (next_height p) h mmr target)
  unfolding advance
  advance-Applied p h mmr target accepted appended retargeted =
      let (linked, bits, valid, time) =
        accept_lem p (demand sha256 u net p (next_height p) h) h accepted in
      record {
        linked = linked;
        bits_as_expected = bits;
        hash_valid = valid;
        time_valid = time;
        height = refl;
        best = refl;
        timestamps = refl;
        mountain = appended;
        work = refl;
        retargeted = retargeted;
        last_time = refl;
        same_total = refl;
      }

  pub apply_block-Applied :
      (p : Progress) (h : CircuitBlockHeader) (p' : Progress)
      → apply_block sha256 u net p h ≡ some p'
      → Applied p h p'
  unfolding apply_block
  apply_block-Applied p h p' e =
      let (_, accepted, e₁) =
        >>=-eq-some (accept sha256 u net p (demand sha256 u net p (next_height p) h) h) _ e in
      let (mmr, appended, e₂) =
        >>=-eq-some (append_guest sha256 p.state.block_hashes_mmr (compute_block_hash sha256 h)) _
          e₁ in
      let (target, retargeted, e₃) =
        >>=-eq-some
          (retarget sha256 u net p (next_height p) (epoch_start sha256 u net p (next_height p) h)
            h.time)
          _ e₂ in
      subst (Applied p h) (some_inj e₃)
        (advance-Applied p h mmr target accepted appended retargeted)
