-- ===== src/Bridge/PegIn/Defs.antt =====
-- The peg-in graph: its transactions, of a type `T`, and the timelock of connector z; its statuses and
-- operations. The fields that none of these reads are left out.
use bit_vm.Prelude.{
  ℕ, Bool, true, false, ◌&&◌, not, Option, none, some, List, [], ◌∷◌, ltb, if◌then◌else◌, length,
  bytes_eq,
}
use bit_vm.Hashing.{Bytes}
use bit_vm.Bridge.PegOut.Operations.{status_of, unconfirmed}
use bit_vm.Bridge.Base.{
  Result, ok, TxStatus, Client, named_peg_in_deposit, Error, verify_if_not_mined, is_ok_confirmed,
  height_of, is_matured, ◌⟫◌, if_confirmed,
}
use bit_vm.Bridge.PegOut.Defs.{Transactions}

pub record PegInGraph (T : Type 0) : Type 0 where
  pub peg_in_deposit_transaction : T
  pub peg_in_refund_transaction : T
  pub peg_in_confirm_transaction : T
  pub num_blocks_timelock_0 : ℕ
  pub id : Bytes
  pub peg_out_graphs : List Bytes

pub data PegInDepositorStatus : Type 0 where
  peg_in_deposit_wait peg_in_confirm_wait peg_in_confirm_complete : PegInDepositorStatus
  peg_in_refund_available peg_in_refund_complete : PegInDepositorStatus

pub data PegInVerifierStatus : Type 0 where
  awaiting_deposit awaiting_peg_out_creation awaiting_nonces : PegInVerifierStatus
  awaiting_signatures ready_to_submit complete : PegInVerifierStatus
  pending_our_nonces pending_our_signature : List Bytes → PegInVerifierStatus

pub data PegInOperatorStatus : Type 0 where
  peg_in_wait peg_in_confirm_available peg_in_complete : PegInOperatorStatus

-- What the confirm transaction tells of the verifiers' signatures and nonces: has_nonce_of and
-- has_signatures_for the verifier, has_all_nonces and has_all_signatures.
pub record Collected : Type 0 where
  pub has_nonce_of : Bool
  pub has_all_nonces : Bool
  pub has_signatures_for : Bool
  pub has_all_signatures : Bool

abbrev pub ids_eq : List Bytes → List Bytes → Bool
ids_eq [] [] = true
ids_eq [] (y ∷ ys) = false
ids_eq (x ∷ xs) [] = false
ids_eq (x ∷ xs) (y ∷ ys) = bytes_eq x y && ids_eq xs ys

abbrev pub num_required_operators : ℕ
num_required_operators = 1

module _ {E T X : Type 0} (tx : Transactions T X) (client : Client E) (g : PegInGraph T) where
  unfoldable pub interpret_depositor_status :
      Result TxStatus E → Result TxStatus E → Result TxStatus E → Result ℕ E → PegInDepositorStatus
  unfolding is_matured
  interpret_depositor_status deposit_status confirm_status refund_status blockchain_height =
      if is_ok_confirmed deposit_status
      then (if is_ok_confirmed confirm_status
          then peg_in_confirm_complete
          else if is_matured (height_of deposit_status) g.num_blocks_timelock_0 blockchain_height
          then (if is_ok_confirmed refund_status
              then peg_in_refund_complete
              else peg_in_refund_available)
          else peg_in_confirm_wait)
      else peg_in_deposit_wait

  unfoldable pub depositor_status : PegInDepositorStatus
  unfolding interpret_depositor_status
  depositor_status =
      interpret_depositor_status (status_of tx client g.peg_in_deposit_transaction)
        (status_of tx client g.peg_in_confirm_transaction)
        (status_of tx client g.peg_in_refund_transaction) client.get_height

  -- The ids are those of the peg-out graphs that the caller supplies, and `sorted` sorts them; if they
  -- are not the ids that the graph expects, the call panics, here `none`.
  unfoldable pub verifier_status :
      (List Bytes → List Bytes) → List Bytes → Collected → Option PegInVerifierStatus
  verifier_status sorted peg_out_ids confirm =
      if ids_eq (sorted peg_out_ids) (sorted g.peg_out_graphs)
      then some (
          if not (is_ok_confirmed (status_of tx client g.peg_in_deposit_transaction))
          then awaiting_deposit
          else if ltb (length peg_out_ids) num_required_operators
          then awaiting_peg_out_creation
          else if is_ok_confirmed (status_of tx client g.peg_in_confirm_transaction)
          then complete
          else if not confirm.has_nonce_of
          then pending_our_nonces (g.id ∷ [])
          else if not confirm.has_all_nonces
          then awaiting_nonces
          else if not confirm.has_signatures_for
          then pending_our_signature (g.id ∷ [])
          else if not confirm.has_all_signatures
          then awaiting_signatures
          else ready_to_submit)
      else none

  unfoldable pub operator_status : Collected → PegInOperatorStatus
  operator_status confirm =
      if is_ok_confirmed (status_of tx client g.peg_in_deposit_transaction)
      then (if is_ok_confirmed (status_of tx client g.peg_in_confirm_transaction)
          then peg_in_complete
          else if confirm.has_all_signatures
          then peg_in_confirm_available
          else peg_in_wait)
      else peg_in_wait

  unfoldable pub deposit : Result X (Error E)
  unfolding verify_if_not_mined
  deposit =
      verify_if_not_mined client (tx.compute_txid g.peg_in_deposit_transaction)
      ⟫ ok (tx.finalize g.peg_in_deposit_transaction)

  unfoldable pub confirm : Result X (Error E)
  unfolding verify_if_not_mined
  confirm =
      verify_if_not_mined client (tx.compute_txid g.peg_in_confirm_transaction)
      ⟫ if_confirmed (status_of tx client g.peg_in_deposit_transaction)
          (unconfirmed tx client named_peg_in_deposit g.peg_in_deposit_transaction)
          λ s. ok (tx.finalize g.peg_in_confirm_transaction)

  unfoldable pub refund : Result X (Error E)
  unfolding verify_if_not_mined
  refund =
      verify_if_not_mined client (tx.compute_txid g.peg_in_refund_transaction)
      ⟫ if_confirmed (status_of tx client g.peg_in_deposit_transaction)
          (unconfirmed tx client named_peg_in_deposit g.peg_in_deposit_transaction)
          λ s. ok (tx.finalize g.peg_in_refund_transaction)
