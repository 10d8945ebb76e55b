-- ===== src/Bridge/PegIn/Refund.antt =====
-- The depositor, the verifiers and the operator at a peg-in.
use bit_vm.Prelude.{◌≡◌, Bool, true, false, some, List, ◌∷◌, arith}
use bit_vm.Hashing.{Bytes}
use bit_vm.Bridge.Base.{ok, TxStatus, Client, is_confirmed, verify_if_not_mined}
use bit_vm.Bridge.PegOut.Defs.{Transactions}
use bit_vm.Bridge.PegIn.Defs.{
  PegInGraph, PegInDepositorStatus, peg_in_confirm_complete, peg_in_refund_available,
  PegInVerifierStatus, complete, PegInOperatorStatus, peg_in_confirm_available, peg_in_complete,
  Collected, interpret_depositor_status, depositor_status, verifier_status, operator_status,
  confirm, refund,
}

abbrev pub depositor_done : PegInDepositorStatus → Bool
depositor_done peg_in_confirm_complete = true
depositor_done _ = false

abbrev pub operator_done : PegInOperatorStatus → Bool
operator_done peg_in_complete = true
operator_done _ = false

abbrev pub verifier_done : PegInVerifierStatus → Bool
verifier_done complete = true
verifier_done _ = false

module _ {E T X : Type 0} (tx : Transactions T X) (client : Client E) (g : PegInGraph T) where
  -- The depositor's and the operator's status agree on whether the peg-in is complete, and so does a
  -- verifier's that is given a peg-out graph.
  pub depositor_status-operator_status :
      (sorted : List Bytes → List Bytes) (id : Bytes) (ids : List Bytes) (confirm : Collected)
      (st : PegInVerifierStatus)
      → verifier_status tx client g sorted (id ∷ ids) confirm ≡ some st
      → (operator_done (operator_status tx client g confirm)
          ≡ depositor_done (depositor_status tx client g))
        × (verifier_done st ≡ depositor_done (depositor_status tx client g))
  unfolding verifier_status operator_status depositor_status interpret_depositor_status
  depositor_status-operator_status sorted id ids confirm st h = (ground arith, ground (arith, h))

  -- If the client answers for every transaction, a depositor who is offered a refund gets it, and an
  -- operator who is offered the confirm transaction gets that.
  pub depositor_status-refund :
      (confirms : Collected)
      → ((txid : Bytes) → (s : TxStatus) × (client.get_tx_status txid ≡ ok s))
      → (depositor_status tx client g ≡ peg_in_refund_available
          → refund tx client g ≡ ok (tx.finalize g.peg_in_refund_transaction))
        × (operator_status tx client g confirms ≡ peg_in_confirm_available
            → confirm tx client g ≡ ok (tx.finalize g.peg_in_confirm_transaction))
  unfolding depositor_status interpret_depositor_status operator_status refund confirm
      verify_if_not_mined is_confirmed
  depositor_status-refund confirms answers =
      let (d, ed) = answers (tx.compute_txid g.peg_in_deposit_transaction) in
      let (c, ec) = answers (tx.compute_txid g.peg_in_confirm_transaction) in
      let (r, er) = answers (tx.compute_txid g.peg_in_refund_transaction) in
      rw (ed, ec, er) (λ h. ground (arith, h), λ h. ground (arith, h))
