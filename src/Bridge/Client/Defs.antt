-- ===== src/Bridge/Client/Defs.antt =====
-- The client's graphs, its operator's context `C` and commitment secrets, and the calls that
-- process_peg_outs makes. A secret for one message is a `W`; `none` is a panic.
use bit_vm.Prelude.{
  ℕ, Bool, true, false, Option, none, some, List, [], ◌∷◌, if◌then◌else◌, bytes_eq,
}
use bit_vm.Bridge.PegOut.Assertions.{
  assert_initial, assert_commit_1, assert_commit_2, assert_final, take_1, take_2,
}
use bit_vm.Hashing.{Bytes}
use bit_vm.Bridge.Base.{
  Result, ok, err, Client, Error, esplora, peg_out_graph_not_found, operator_context_not_defined,
  is_confirmed,
}
use bit_vm.Bridge.PegOut.Defs.{Transactions, PegOutGraph}
use bit_vm.Bridge.PegOut.Operations.{Outcome, peg_out_confirm, kick_off_1, start_time, kick_off_2}
use bit_vm.Bridge.PegOut.Status.{
  PegOutOperatorStatus, peg_out_peg_out_confirm_available, peg_out_kick_off_1_available,
  peg_out_start_time_available, peg_out_kick_off_2_available, peg_out_assert_initial_available,
  peg_out_assert_commit_1_available, peg_out_assert_commit_2_available,
  peg_out_assert_final_available, peg_out_take_1_available, peg_out_take_2_available,
}

pub data CommitmentMessageId : Type 0 where
  peg_out_tx_id_source_network peg_out_tx_id_destination_network : CommitmentMessageId
  start_time_message superblock_message superblock_hash_message : CommitmentMessageId
  groth16_intermediate_values : Bytes → ℕ → CommitmentMessageId

-- The secrets of one graph, by message. A commitment of an assert takes them all.
abbrev pub Secrets : Type 0 → Type 0
Secrets W = CommitmentMessageId → Option W

-- `commitment_secrets` is a map by the operator's public key and the graph's id. Private data and
-- contexts that no operation here reads are left out.
pub record BitVmClient (T Event C W : Type 0) : Type 0 where
  pub peg_out_graphs : List (PegOutGraph T Event)
  pub operator_context : Option C
  pub commitment_secrets : Bytes → Bytes → Option (Secrets W)

-- The transactions' `sign`, which is not modelled, and the operator's public key.
pub record Signer (T Event C W : Type 0) : Type 0 where
  pub operator_public_key : C → Bytes
  pub kick_off_1_sign : C → W → W → T → Bytes → Event → Option T
  pub start_time_sign : C → W → T → Option T
  pub kick_off_2_sign : C → W → W → T → Option T
  pub assert_commit_1_sign : Secrets W → T → Option T
  pub assert_commit_2_sign : Secrets W → T → Option T
  pub take_2_sign : C → T → Option T

-- What else the Esplora client answers: whether it knows a transaction, and whether it takes one.
pub record Network (E X : Type 0) : Type 0 where
  pub get_tx : Bytes → Result (Option X) E
  pub broadcast : X → Result (Unit {0}) E

pub data Message : Type 0 where
  already_broadcasted broadcasted_successfully mined_successfully : Message

module _ {E X : Type 0} (client : Client E) (network : Network E X) (compute_txid : X → Bytes) where
  unfoldable pub broadcast_and_verify : X → Result Message (Error E)
  unfolding is_confirmed
  broadcast_and_verify transaction = known (network.get_tx (compute_txid transaction))
    where
      verified : Result (Unit {0}) E → Result Bool E → Result Message (Error E)
      verified (ok u) (ok false) = ok broadcasted_successfully
      verified (ok u) (ok true) = ok mined_successfully
      verified (ok u) (err e) = ok broadcasted_successfully
      verified (err e) (ok true) = ok mined_successfully
      verified (err e) (ok false) = err (esplora e)
      verified (err e) (err f) = err (esplora e)

      sent : Result Message (Error E)
      sent =
          verified (network.broadcast transaction) (is_confirmed client (compute_txid transaction))

      known : Result (Option X) E → Result Message (Error E)
      known (ok (some t)) = ok already_broadcasted
      known (ok none) = sent
      known (err e) = sent

  -- The status is only printed.
  unfoldable pub broadcast_tx : X → Result Bytes (Error E)
  unfolding broadcast_and_verify
  broadcast_tx transaction = result (broadcast_and_verify transaction)
    where
      result : Result Message (Error E) → Result Bytes (Error E)
      result (ok status) = ok (compute_txid transaction)
      result (err e) = err e

module _ {T Event : Type 0} where
  abbrev pub find_peg_out : List (PegOutGraph T Event) → Bytes → Option (PegOutGraph T Event)
  find_peg_out [] id = none
  find_peg_out (g ∷ gs) id = if bytes_eq g.id id then some g else find_peg_out gs id

  -- What the mutable borrow of that graph changes.
  abbrev pub put_peg_out :
      List (PegOutGraph T Event) → Bytes → PegOutGraph T Event → List (PegOutGraph T Event)
  put_peg_out [] id g' = []
  put_peg_out (g ∷ gs) id g' = if bytes_eq g.id id then g' ∷ gs else g ∷ put_peg_out gs id g'

module _ {E T X Event C W : Type 0} (tx : Transactions T X) (client : Client E)
    (network : Network E X) (compute_txid : X → Bytes) (signer : Signer T Event C W) where
  -- The client afterwards and the result of the call.
  abbrev pub Call : Type 0
  Call = Option (BitVmClient T Event C W × Result Bytes (Error E))

  -- `?` on the graph's operation, then the broadcast.
  abbrev pub sent : BitVmClient T Event C W → Bytes → Option (Outcome tx client Event) → Call
  sent c id none = none
  sent c id (some (err e)) = some (c, err e)
  sent c id (some (ok (g, x))) = some (
    record c { peg_out_graphs = put_peg_out c.peg_out_graphs id g },
    broadcast_tx client network compute_txid x,
  )

  module _ (c : BitVmClient T Event C W) (id : Bytes) where
    -- `find_peg_out_or_fail`, then the rest.
    abbrev with_graph : (PegOutGraph T Event → Call) → Call
    with_graph use_graph = go (find_peg_out c.peg_out_graphs id)
      where
        go : Option (PegOutGraph T Event) → Call
        go none = some (c, err (peg_out_graph_not_found id))
        go (some g) = use_graph g

    -- `operator_context.as_ref().unwrap()`
    abbrev unwrapped_context : (C → Call) → Call
    unwrapped_context use_context = go c.operator_context
      where
        go : Option C → Call
        go none = none
        go (some ctx) = use_context ctx

    -- `if self.operator_context.is_some()`
    abbrev checked_context : (C → Call) → Call
    checked_context use_context = go c.operator_context
      where
        go : Option C → Call
        go none = some (c, err operator_context_not_defined)
        go (some ctx) = use_context ctx

    -- `commitment_secrets[&operator_public_key][peg_out_graph_id]`
    abbrev secrets_of : C → (Secrets W → Call) → Call
    secrets_of ctx use_secrets = go (c.commitment_secrets (signer.operator_public_key ctx) id)
      where
        go : Option (Secrets W) → Call
        go none = none
        go (some s) = use_secrets s

    abbrev secret_of : Secrets W → CommitmentMessageId → (W → Call) → Call
    secret_of s message use_secret = go (s message)
      where
        go : Option W → Call
        go none = none
        go (some w) = use_secret w

    unfoldable pub broadcast_peg_out_confirm : Call
    unfolding broadcast_tx
    broadcast_peg_out_confirm = with_graph λ g. sent c id (some (peg_out_confirm tx client g))

    unfoldable pub broadcast_kick_off_1 : Call
    broadcast_kick_off_1 = with_graph λ g. checked_context λ ctx. secrets_of ctx λ s.
        secret_of s peg_out_tx_id_source_network λ w.
          secret_of s peg_out_tx_id_destination_network
            λ w'. sent c id (kick_off_1 tx client (signer.kick_off_1_sign ctx w w') g)

    unfoldable pub broadcast_start_time : Call
    broadcast_start_time = with_graph λ g. checked_context λ ctx. secrets_of ctx λ s.
        secret_of s start_time_message
          λ w. sent c id (start_time tx client (signer.start_time_sign ctx w) g)

    unfoldable pub broadcast_kick_off_2 : Call
    broadcast_kick_off_2 = with_graph λ g. unwrapped_context λ ctx. secrets_of ctx λ s.
        secret_of s superblock_message λ w.
          secret_of s superblock_hash_message
            λ w'. sent c id (kick_off_2 tx client (signer.kick_off_2_sign ctx w w') g)

    unfoldable pub broadcast_assert_initial : Call
    broadcast_assert_initial = with_graph λ g. sent c id (some (assert_initial tx client g))

    unfoldable pub broadcast_assert_commit_1 : Call
    broadcast_assert_commit_1 = with_graph λ g. unwrapped_context λ ctx.
        secrets_of ctx λ s. sent c id (assert_commit_1 tx client (signer.assert_commit_1_sign s) g)

    unfoldable pub broadcast_assert_commit_2 : Call
    broadcast_assert_commit_2 = with_graph λ g. unwrapped_context λ ctx.
        secrets_of ctx λ s. sent c id (assert_commit_2 tx client (signer.assert_commit_2_sign s) g)

    unfoldable pub broadcast_assert_final : Call
    broadcast_assert_final = with_graph λ g. sent c id (some (assert_final tx client g))

    unfoldable pub broadcast_take_1 : Call
    broadcast_take_1 = with_graph λ g. sent c id (some (take_1 tx client g))

    unfoldable pub broadcast_take_2 : Call
    broadcast_take_2 =
        with_graph
          λ g. unwrapped_context λ ctx. sent c id (take_2 tx client (signer.take_2_sign ctx) g)

    -- The match of process_peg_outs on the status of the graph `id`; `none` is its last arm.
    abbrev pub process : PegOutOperatorStatus → Option Call
    process peg_out_start_time_available = some broadcast_start_time
    process peg_out_peg_out_confirm_available = some broadcast_peg_out_confirm
    process peg_out_kick_off_1_available = some broadcast_kick_off_1
    process peg_out_kick_off_2_available = some broadcast_kick_off_2
    process peg_out_assert_initial_available = some broadcast_assert_initial
    process peg_out_assert_commit_1_available = some broadcast_assert_commit_1
    process peg_out_assert_commit_2_available = some broadcast_assert_commit_2
    process peg_out_assert_final_available = some broadcast_assert_final
    process peg_out_take_1_available = some broadcast_take_1
    process peg_out_take_2_available = some broadcast_take_2
    process _ = none
