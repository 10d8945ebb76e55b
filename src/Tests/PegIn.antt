-- ===== src/Tests/PegIn.antt =====
-- A peg-in of transactions that are their own ids: the deposit is 1, the confirm transaction 2.
use bit_vm.Prelude.{ℕ, ◌≡◌, refl, true, false, none, some, [], ◌∷◌, leb}
use bit_vm.Hashing.{Bytes}
use bit_vm.Bridge.Base.{ok, TxStatus, Client}
use bit_vm.Bridge.PegOut.Defs.{Transactions}
use bit_vm.Bridge.PegIn.Defs.{
  PegInGraph, peg_in_refund_available, complete, peg_in_confirm_available, Collected,
  depositor_status, verifier_status, operator_status, confirm, refund,
}
use bit_vm.Bridge.PegIn.Refund.{
  depositor_done, operator_done, verifier_done, depositor_status-operator_status,
  depositor_status-refund,
}

abbrev transactions : Transactions Bytes Bytes
transactions = record { compute_txid = λ t. t; finalize = λ t. 0 ∷ t }

-- The first `n` transactions are confirmed, at height 100; the chain's height is 200.
abbrev client_at : ℕ → Client ℕ
client_at n = record { get_tx_status = λ txid. ok (status txid); get_height = ok 200 }
  where
    status : Bytes → TxStatus
    status (k ∷ []) = record { confirmed = leb k n; block_height = some 100 }
    status _ = record { confirmed = false; block_height = none }

abbrev peg_in_graph : PegInGraph Bytes
peg_in_graph = record {
  peg_in_deposit_transaction = 1 ∷ [];
  peg_in_refund_transaction = 3 ∷ [];
  peg_in_confirm_transaction = 2 ∷ [];
  num_blocks_timelock_0 = 20;
  id = 9 ∷ [];
  peg_out_graphs = (5 ∷ []) ∷ [];
}

abbrev signed : Collected
signed = record {
  has_nonce_of = true;
  has_all_nonces = true;
  has_signatures_for = true;
  has_all_signatures = true;
}

verifier_status_complete :
    verifier_status transactions (client_at 2) peg_in_graph (λ ids. ids) ((5 ∷ []) ∷ []) signed
    ≡ some complete
unfolding verifier_status
verifier_status_complete = refl

depositor_status-operator_status_example :
    (operator_done (operator_status transactions (client_at 2) peg_in_graph signed)
      ≡ depositor_done (depositor_status transactions (client_at 2) peg_in_graph))
    × (verifier_done complete
        ≡ depositor_done (depositor_status transactions (client_at 2) peg_in_graph))
depositor_status-operator_status_example =
    depositor_status-operator_status transactions (client_at 2) peg_in_graph (λ ids. ids) (5 ∷ [])
      [] signed complete verifier_status_complete

depositor_status-refund_example :
    (depositor_status transactions (client_at 1) peg_in_graph ≡ peg_in_refund_available
      → refund transactions (client_at 1) peg_in_graph ≡ ok (0 ∷ 3 ∷ []))
    × (operator_status transactions (client_at 1) peg_in_graph signed ≡ peg_in_confirm_available
        → confirm transactions (client_at 1) peg_in_graph ≡ ok (0 ∷ 2 ∷ []))
depositor_status-refund_example =
    depositor_status-refund transactions (client_at 1) peg_in_graph signed (λ txid. (_, refl))
