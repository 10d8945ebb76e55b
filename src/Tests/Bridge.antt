-- ===== src/Tests/Bridge.antt =====
-- A peg-in and a peg-out of transactions that are their own ids, numbered in the order in which they
-- are confirmed.
use bit_vm.Prelude.{ℕ, ◌≡◌, refl, true, false, none, some, List, [], ◌∷◌, arith, leb, length}
use bit_vm.Bridge.PegOut.Assertions.{taken, take_1}
use bit_vm.Bridge.Client.Process.{Broadcasts, signing, operator_status-process}
use bit_vm.Bridge.Client.Defs.{Secrets, BitVmClient, Signer, Network, process}
use bit_vm.Bridge.Transactions.{InputWithScript, Builder, IsBuilder, total_amount}
use bit_vm.Bridge.PegOut.Seen.{is_refused, Signs}
use bit_vm.Hashing.{Bytes}
use bit_vm.Bridge.Base.{
  ok, TxStatus, Client, is_confirmed, verify_if_not_mined, is_ok_confirmed, is_ok_unconfirmed,
  is_matured,
}
use bit_vm.Bridge.PegOut.Defs.{Transactions, PegOutGraph}
use bit_vm.Bridge.PegOut.Operations.{status_of}
use bit_vm.Bridge.PegOut.Status.{
  peg_out_kick_off_2_available, is_seen, is_ripe, peg_out_status, starting_status, paid_status,
  operator_status, signed_status,
}
use bit_vm.Bridge.PegOut.Verifier.{respond, signed_status-respond}
use bit_vm.Bridge.PegOut.Agreement.{operator_ending, verifier_ending, paid_status-signed_status}
use bit_vm.Bridge.PegOut.Take.{take_1_safe}

abbrev transactions : Transactions Bytes Bytes
transactions = record { compute_txid = λ t. t; finalize = λ t. 0 ∷ t }

-- The first `n` transactions are confirmed, at height 100; the chain's height is 200.
abbrev client_at : ℕ → Client ℕ
client_at n = record { get_tx_status = λ txid. ok (status txid); get_height = ok 200 }
  where
    status : Bytes → TxStatus
    status (k ∷ []) = record { confirmed = leb k n; block_height = some 100 }
    status _ = record { confirmed = false; block_height = none }

answered : (n : ℕ) (txid : Bytes) → (s : TxStatus) × ((client_at n).get_tx_status txid ≡ ok s)
answered n txid = (_, refl)

abbrev peg_out_graph : PegOutGraph Bytes ℕ
peg_out_graph = record {
  id = 15 ∷ [];
  n_of_n_presigned = true;
  peg_in_confirm_txid = 1 ∷ [];
  peg_out_chain_event = some 7;
  peg_out_transaction = some (2 ∷ []);
  peg_out_confirm_transaction = 3 ∷ [];
  assert_initial_transaction = 10 ∷ [];
  assert_commit_1_transaction = 11 ∷ [];
  assert_commit_2_transaction = 12 ∷ [];
  assert_final_transaction = 13 ∷ [];
  challenge_transaction = 9 ∷ [];
  disprove_chain_transaction = 21 ∷ [];
  disprove_transaction = 22 ∷ [];
  kick_off_1_transaction = 4 ∷ [];
  kick_off_2_transaction = 6 ∷ [];
  kick_off_timeout_transaction = 23 ∷ [];
  start_time_transaction = 5 ∷ [];
  start_time_timeout_transaction = 24 ∷ [];
  take_1_transaction = 8 ∷ [];
  take_2_transaction = 14 ∷ [];
  timelock_leaf_0 = 10;
  timelock_leaf_1 = 60;
  timelock_leaf_2 = 30;
  timelock_3 = 20;
  timelock_4 = 20;
  timelock_b = 5;
}

-- A context is a number, and so is a secret; a transaction is signed as it is.
abbrev signer : Signer Bytes ℕ ℕ ℕ
signer = record {
  operator_public_key = λ ctx. ctx ∷ [];
  kick_off_1_sign = λ ctx w w' t txid e. some t;
  start_time_sign = λ ctx w t. some t;
  kick_off_2_sign = λ ctx w w' t. some t;
  assert_commit_1_sign = λ s t. some t;
  assert_commit_2_sign = λ s t. some t;
  take_2_sign = λ ctx t. some t;
}

abbrev secrets : Secrets ℕ
secrets m = some 4

abbrev operator : BitVmClient Bytes ℕ ℕ ℕ
operator = record {
  peg_out_graphs = peg_out_graph ∷ [];
  operator_context = some 3;
  commitment_secrets = λ key id. some secrets;
}

abbrev network : Network ℕ Bytes
network = record { get_tx = λ txid. ok none; broadcast = λ x. ok tt }

signs :
    Signs (signing transactions (client_at 5) network (λ x. x) signer operator 3 secrets (λ m. 4))
signs = record {
  signs_kick_off_1 = λ t txid e. (t, refl);
  signs_start_time = λ t. (t, refl);
  signs_kick_off_2 = λ t. (t, refl);
  signs_assert_commit_1 = λ t. (t, refl);
  signs_assert_commit_2 = λ t. (t, refl);
  signs_take_2 = λ t. (t, refl);
}

operator_status_started :
    operator_status transactions (client_at 5) peg_out_graph ≡ some peg_out_kick_off_2_available
unfolding operator_status paid_status starting_status peg_out_status is_matured
operator_status_started = refl

operator_status-process_example :
    Broadcasts transactions
      (client_at 5)
      network
      (λ x. x)
      signer
      operator
      (process transactions
        (client_at 5)
        network
        (λ x. x)
        signer
        operator
        (15 ∷ [])
        peg_out_kick_off_2_available)
operator_status-process_example =
    operator_status-process transactions (client_at 5) network (λ x. x) signer operator 3 secrets
      (λ m. 4) peg_out_graph refl refl refl (λ m f. refl) peg_out_kick_off_2_available signs
      (answered 5) (λ h. refl) refl (λ _. refl) operator_status_started

-- A transaction has an input for each of its bytes, and two outputs.
abbrev builder : Builder Bytes
builder = record {
  input_len = length;
  output_len = λ t. 2;
  push_input = λ t o. 0 ∷ t;
  push_output = λ t v s. t;
  set_script_pubkey = λ t n s. t;
  dust_relay_tx_fee = 3000;
  populate_p2wsh_witness = λ t n i. some t;
}

builder-IsBuilder : IsBuilder builder
builder-IsBuilder = record {
  push_input_len = λ t o. omega arith;
  push_output_len = λ t v s. refl;
  set_script_pubkey_len = λ t n s. refl;
  populate_len = λ t n i h. (t, refl, refl);
}

abbrev payment : List InputWithScript
payment = record { outpoint = 30 ∷ []; amount = 1000; script = 31 ∷ [] } ∷ []

payment_total : total_amount payment ≡ 1000
unfolding total_amount
payment_total = refl

signed_status-respond_example :
    is_refused (
      respond transactions
        (client_at 4)
        builder
        600
        payment
        (32 ∷ [])
        peg_out_graph
        (signed_status transactions (client_at 4) peg_out_graph))
    ≡ false
signed_status-respond_example =
    signed_status-respond transactions (client_at 4) peg_out_graph builder 600 payment (32 ∷ [])
      (answered 4) builder-IsBuilder refl (omega arith) (omega (arith, payment_total))
      (omega (arith, payment_total)) (omega arith) (omega arith)

paid_status-signed_status_example :
    operator_ending (paid_status transactions (client_at 8) peg_out_graph)
    ≡ verifier_ending (signed_status transactions (client_at 8) peg_out_graph)
paid_status-signed_status_example =
    paid_status-signed_status transactions (client_at 8) peg_out_graph

take_1_taken : take_1 transactions (client_at 6) peg_out_graph ≡ ok (peg_out_graph, 0 ∷ 8 ∷ [])
unfolding take_1 taken verify_if_not_mined is_confirmed is_matured
take_1_taken = refl

take_1_safe_example :
    (is_ok_unconfirmed (status_of transactions (client_at 6) (8 ∷ [])) ≡ true)
    × (is_ok_unconfirmed (status_of transactions (client_at 6) (9 ∷ [])) ≡ true)
    × (is_ok_unconfirmed (status_of transactions (client_at 6) (10 ∷ [])) ≡ true)
    × (is_ok_unconfirmed (status_of transactions (client_at 6) (21 ∷ [])) ≡ true)
    × (is_ok_confirmed ((client_at 6).get_tx_status (1 ∷ [])) ≡ true)
    × (is_seen transactions (client_at 6) peg_out_graph (4 ∷ []) ≡ true)
    × (is_seen transactions (client_at 6) peg_out_graph (6 ∷ []) ≡ true)
    × (is_ripe transactions (client_at 6) peg_out_graph (6 ∷ []) 20 ≡ true)
take_1_safe_example =
    take_1_safe transactions (client_at 6) peg_out_graph (peg_out_graph, 0 ∷ 8 ∷ []) take_1_taken
