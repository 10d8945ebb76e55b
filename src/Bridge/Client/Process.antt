-- ===== src/Bridge/Client/Process.antt =====
-- What process_peg_outs does for an operator whose client has what it needs.
use bit_vm.Prelude.{◌≡◌, refl, Bool, true, false, Option, none, some}
use bit_vm.Bridge.PegOut.Assertions.{assert_initial, assert_final, take_1}
use bit_vm.Bridge.PegOut.Operations.{Outcome, peg_out_confirm}
use bit_vm.Hashing.{Bytes}
use bit_vm.Bridge.Base.{ok, err, TxStatus, Client, is_ok_confirmed}
use bit_vm.Bridge.PegOut.Defs.{Transactions, PegOutGraph, Signing}
use bit_vm.Bridge.PegOut.Status.{
  PegOutOperatorStatus, peg_out_wait, peg_out_complete, peg_out_failed, peg_out_start_peg_out,
  peg_out_peg_out_confirm_available, peg_out_kick_off_1_available, peg_out_start_time_available,
  peg_out_kick_off_2_available, peg_out_assert_initial_available, peg_out_assert_commit_1_available,
  peg_out_assert_commit_2_available, peg_out_assert_final_available, peg_out_take_1_available,
  peg_out_take_2_available, is_seen, operator_status, operation,
}
use bit_vm.Bridge.PegOut.Seen.{is_refused, Signs}
use bit_vm.Bridge.PegOut.Progress.{operator_status-operation}
use bit_vm.Bridge.Client.Defs.{
  CommitmentMessageId, peg_out_tx_id_source_network, peg_out_tx_id_destination_network,
  start_time_message, superblock_message, superblock_hash_message, groth16_intermediate_values,
  Secrets, BitVmClient, Signer, Network, broadcast_tx, find_peg_out, Call, sent,
  broadcast_peg_out_confirm, broadcast_kick_off_1, broadcast_start_time, broadcast_kick_off_2,
  broadcast_assert_initial, broadcast_assert_commit_1, broadcast_assert_commit_2,
  broadcast_assert_final, broadcast_take_1, broadcast_take_2, process,
}

-- The messages that are signed one by one.
abbrev pub is_fixed : CommitmentMessageId → Bool
is_fixed (groth16_intermediate_values name len) = false
is_fixed _ = true

module _ {E T X Event C W : Type 0} (tx : Transactions T X) (client : Client E)
    (network : Network E X) (compute_txid : X → Bytes) (signer : Signer T Event C W)
    (c : BitVmClient T Event C W) where
  -- A call that is made comes to the broadcast of a transaction.
  abbrev pub Broadcasts : Option (Call tx client network compute_txid signer) → Type 0
  Broadcasts none = Unit {0}
  Broadcasts (some r) =
      (c' : BitVmClient T Event C W) × (x : X) × (r
        ≡ some (c', broadcast_tx client network compute_txid x))

  sent-Broadcasts :
      (id : Bytes) (r : Option (Outcome tx client Event))
      → is_refused (some r) ≡ false
      → Broadcasts (some (sent tx client network compute_txid signer c id r))
  sent-Broadcasts id none h = cc
  sent-Broadcasts id (some (ok (g, x))) h = (_, x, refl)
  sent-Broadcasts id (some (err e)) h = cc

  module _ (ctx : C) (secrets : Secrets W) (secret : CommitmentMessageId → W) where
    abbrev pub signing : Signing T Event
    signing = record {
      sign_kick_off_1 =
          signer.kick_off_1_sign ctx (secret peg_out_tx_id_source_network)
            (secret peg_out_tx_id_destination_network);
      sign_start_time = signer.start_time_sign ctx (secret start_time_message);
      sign_kick_off_2 =
          signer.kick_off_2_sign ctx (secret superblock_message) (secret superblock_hash_message);
      sign_assert_commit_1 = signer.assert_commit_1_sign secrets;
      sign_assert_commit_2 = signer.assert_commit_2_sign secrets;
      sign_take_2 = signer.take_2_sign ctx;
    }

    module _ (g : PegOutGraph T Event) (has_graph : find_peg_out c.peg_out_graphs g.id ≡ some g)
        (has_context : c.operator_context ≡ some ctx)
        (has_secrets : c.commitment_secrets (signer.operator_public_key ctx) g.id ≡ some secrets)
        (has_secret : (m : CommitmentMessageId)
          → is_fixed m ≡ true
          → secrets m ≡ some (secret m)) where
      process-operation :
          (st : PegOutOperatorStatus)
          → is_refused (operation tx client g signing st) ≡ false
          → Broadcasts (process tx client network compute_txid signer c g.id st)
      unfolding broadcast_peg_out_confirm broadcast_kick_off_1 broadcast_start_time
          broadcast_kick_off_2 broadcast_assert_initial broadcast_assert_commit_1
          broadcast_assert_commit_2 broadcast_assert_final broadcast_take_1 broadcast_take_2
      process-operation peg_out_wait h = tt
      process-operation peg_out_complete h = tt
      process-operation peg_out_failed h = tt
      process-operation peg_out_start_peg_out h = tt
      process-operation peg_out_peg_out_confirm_available h =
          simp has_graph (sent-Broadcasts g.id (some (peg_out_confirm tx client g)) h)
      process-operation peg_out_assert_initial_available h =
          simp has_graph (sent-Broadcasts g.id (some (assert_initial tx client g)) h)
      process-operation peg_out_assert_final_available h =
          simp has_graph (sent-Broadcasts g.id (some (assert_final tx client g)) h)
      process-operation peg_out_take_1_available h =
          simp has_graph (sent-Broadcasts g.id (some (take_1 tx client g)) h)
      process-operation peg_out_take_2_available h =
          simp (has_graph, has_context) (sent-Broadcasts g.id _ h)
      process-operation peg_out_assert_commit_1_available h =
          simp (has_graph, has_context, has_secrets) (sent-Broadcasts g.id _ h)
      process-operation peg_out_assert_commit_2_available h =
          simp (has_graph, has_context, has_secrets) (sent-Broadcasts g.id _ h)
      process-operation peg_out_start_time_available h =
          simp (has_graph, has_context, has_secrets, has_secret start_time_message refl)
            (sent-Broadcasts g.id _ h)
      process-operation peg_out_kick_off_1_available h =
          simp
            (
              has_graph,
              has_context,
              has_secrets,
              has_secret peg_out_tx_id_source_network refl,
              has_secret peg_out_tx_id_destination_network refl,
            )
            (sent-Broadcasts g.id _ h)
      process-operation peg_out_kick_off_2_available h =
          simp
            (
              has_graph,
              has_context,
              has_secrets,
              has_secret superblock_message refl,
              has_secret superblock_hash_message refl,
            )
            (sent-Broadcasts g.id _ h)

      -- If the client has the graph, the operator's context and the secrets for it, signing does not
      -- panic, Esplora answers for every transaction, the peg-in is confirmed, kick-off 2 is only
      -- confirmed after kick-off 1, and the initial assert only after a challenge, then the call that
      -- `process_peg_outs` makes for the operator's status, if any, comes to the broadcast of a
      -- transaction, with no panic or error before.
      pub operator_status-process :
          (st : PegOutOperatorStatus)
          → Signs signing
          → ((txid : Bytes) → (s : TxStatus) × (client.get_tx_status txid ≡ ok s))
          → (is_seen tx client g g.kick_off_2_transaction ≡ true
              → is_seen tx client g g.kick_off_1_transaction ≡ true)
          → is_ok_confirmed (client.get_tx_status g.peg_in_confirm_txid) ≡ true
          → (is_seen tx client g g.challenge_transaction ≡ false
              → is_seen tx client g g.assert_initial_transaction ≡ false)
          → operator_status tx client g ≡ some st
          → Broadcasts (process tx client network compute_txid signer c g.id st)
      operator_status-process st signs answers in_order pegged_in unasserted h =
          process-operation st (
            operator_status-operation tx client g signing signs answers in_order pegged_in
              unasserted st h)
