-- ===== src/Bridge/PegOut/Defs.antt =====
-- The peg-out graph: its transactions, of a type `T`, the event of the other chain, and the timelocks
-- of its connectors. The fields that no operation here reads are left out.
use bit_vm.Prelude.{ℕ, Bool, true, false, Option, none, some}
use bit_vm.Hashing.{Bytes}

-- What the graphs use of a pre-signed transaction: its id, and its copy, which is what the transactions'
-- `finalize` gives.
pub record Transactions (T X : Type 0) : Type 0 where
  pub compute_txid : T → Bytes
  pub finalize : T → X

pub record PegOutGraph (T Event : Type 0) : Type 0 where
  pub id : Bytes
  pub n_of_n_presigned : Bool
  pub peg_in_confirm_txid : Bytes
  pub peg_out_chain_event : Option Event
  pub peg_out_transaction : Option T
  pub peg_out_confirm_transaction : T
  pub assert_initial_transaction : T
  pub assert_commit_1_transaction : T
  pub assert_commit_2_transaction : T
  pub assert_final_transaction : T
  pub challenge_transaction : T
  pub disprove_chain_transaction : T
  pub disprove_transaction : T
  pub kick_off_1_transaction : T
  pub kick_off_2_transaction : T
  pub kick_off_timeout_transaction : T
  pub start_time_transaction : T
  pub start_time_timeout_transaction : T
  pub take_1_transaction : T
  pub take_2_transaction : T
  -- connector_1.num_blocks_timelock_leaf_0, leaf_1 and leaf_2, and those of connectors 3, 4 and b.
  pub timelock_leaf_0 : ℕ
  pub timelock_leaf_1 : ℕ
  pub timelock_leaf_2 : ℕ
  pub timelock_3 : ℕ
  pub timelock_4 : ℕ
  pub timelock_b : ℕ

-- The transactions' `sign`, with the context, secrets and proof that a call of it is given. It is not
-- modelled; `none` is that it panics.
pub record Signing (T Event : Type 0) : Type 0 where
  pub sign_kick_off_1 : T → Bytes → Event → Option T
  pub sign_start_time : T → Option T
  pub sign_kick_off_2 : T → Option T
  pub sign_assert_commit_1 : T → Option T
  pub sign_assert_commit_2 : T → Option T
  pub sign_take_2 : T → Option T

abbrev pub is_some_of : {A : Type 0} → Option A → Bool
is_some_of (some a) = true
is_some_of none = false

abbrev pub is_peg_out_initiated : {T Event : Type 0} → PegOutGraph T Event → Bool
is_peg_out_initiated g = is_some_of g.peg_out_chain_event
