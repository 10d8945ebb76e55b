-- ===== src/Bridge/PegOut/Agreement.antt =====
-- The operator and the verifiers see the same end of a peg-out.
use bit_vm.Prelude.{◌≡◌, arith}
use bit_vm.Bridge.Base.{Client}
use bit_vm.Bridge.PegOut.Defs.{Transactions, PegOutGraph}
use bit_vm.Bridge.PegOut.Status.{
  PegOutVerifierStatus, peg_out_verifier_complete, peg_out_verifier_failed, PegOutOperatorStatus,
  peg_out_complete, peg_out_failed, challenged_status, kicked_off_status, starting_status,
  paid_status, signed_status,
}

-- How a peg-out ends, by the status that is shown.
pub data Ending : Type 0 where
  reimbursed failed still_open : Ending

abbrev pub operator_ending : PegOutOperatorStatus → Ending
operator_ending peg_out_complete = reimbursed
operator_ending peg_out_failed = failed
operator_ending _ = still_open

abbrev pub verifier_ending : PegOutVerifierStatus → Ending
verifier_ending peg_out_verifier_complete = reimbursed
verifier_ending peg_out_verifier_failed = failed
verifier_ending _ = still_open

module _ {E T X Event : Type 0} (tx : Transactions T X) (client : Client E)
    (g : PegOutGraph T Event) where
  challenged_status-still_open : operator_ending (challenged_status tx client g) ≡ still_open
  unfolding challenged_status
  challenged_status-still_open = ground arith

  -- Once the peg-out is confirmed, the operator's status and the verifiers' status of a signed graph
  -- show the same ending: reimbursed, failed or still open.
  pub paid_status-signed_status :
      operator_ending (paid_status tx client g) ≡ verifier_ending (signed_status tx client g)
  unfolding paid_status signed_status starting_status kicked_off_status
  paid_status-signed_status = ground (arith, challenged_status-still_open)
