-- ===== src/Bridge/PegOut/Operations.antt =====
-- The operations of the peg-out graph. Each gives the graph afterwards and the final transaction, or
-- an error; an operation that fails leaves the graph as it was. Where an operation signs or extends a
-- transaction, `none` is that this panics.
use bit_vm.Prelude.{false, Option, none, some}
use bit_vm.Hashing.{Bytes}
use bit_vm.Bridge.Base.{
  Result, ok, err, TxStatus, Client, TxName, named_peg_out, named_peg_out_confirm, named_kick_off_1,
  NamedTx, preceding_tx_not_created, Error, graph, peg_out_not_initiated, verify_if_not_mined, ◌⟫◌,
  if_confirmed, if_matured,
}
use bit_vm.Bridge.PegOut.Defs.{Transactions, PegOutGraph}

module _ {E T X : Type 0} (tx : Transactions T X) (client : Client E) where
  abbrev pub Outcome : Type 0 → Type 0
  Outcome Event = Result (PegOutGraph T Event × X) (Error E)

  abbrev pub status_of : T → Result TxStatus E
  status_of t = client.get_tx_status (tx.compute_txid t)

  abbrev pub unmined : T → Result (Unit {0}) (Error E)
  unmined t = verify_if_not_mined client (tx.compute_txid t)

  abbrev pub unconfirmed : TxName → T → NamedTx
  unconfirmed name t = record { txid = tx.compute_txid t; name = name; confirmed = false }

  module _ {Event : Type 0} where
    -- What follows the checks of an operation.
    abbrev pub checked :
        Result (Unit {0}) (Error E) → Option (Outcome Event) → Option (Outcome Event)
    checked (ok u) r = r
    checked (err e) r = some (err e)

    abbrev pub signed_with : Option T → (T → PegOutGraph T Event) → Option (Outcome Event)
    signed_with none put = none
    signed_with (some t) put = some (ok (put t, tx.finalize t))

    -- The same with a `finalize` that can panic.
    abbrev pub added_with :
        (T → Option X) → Option T → (T → PegOutGraph T Event) → Option (Outcome Event)
    added_with finalize none put = none
    added_with finalize (some t) put = finalized (finalize t)
      where
        finalized : Option X → Option (Outcome Event)
        finalized none = none
        finalized (some x) = some (ok (put t, x))

    -- `PegOutTransaction::new` with the operator's context and input.
    unfoldable pub peg_out : (Event → Option T) → PegOutGraph T Event → Option (Outcome Event)
    unfolding verify_if_not_mined
    peg_out new_peg_out g = pay g.peg_out_chain_event g.peg_out_transaction
      where
        pay : Option Event → Option T → Option (Outcome Event)
        pay none t = some (err peg_out_not_initiated)
        pay (some event) (some t) = some (unmined t ⟫ ok (g, tx.finalize t))
        pay (some event) none =
            signed_with (new_peg_out event) λ t. record g { peg_out_transaction = some t }

    unfoldable pub peg_out_confirm : PegOutGraph T Event → Outcome Event
    unfolding verify_if_not_mined
    peg_out_confirm g = unmined g.peg_out_confirm_transaction ⟫ confirm g.peg_out_transaction
      where
        confirm : Option T → Outcome Event
        confirm none = err (graph (preceding_tx_not_created named_peg_out))
        confirm (some t) =
            if_confirmed (status_of t) (unconfirmed named_peg_out t)
              λ s. ok (g, tx.finalize g.peg_out_confirm_transaction)

    -- Both `unwrap`s can panic.
    unfoldable pub kick_off_1 :
        (T → Bytes → Event → Option T) → PegOutGraph T Event → Option (Outcome Event)
    unfolding verify_if_not_mined
    kick_off_1 sign g =
        checked
          (unmined g.kick_off_1_transaction
            ⟫ if_confirmed (status_of g.peg_out_confirm_transaction)
                (unconfirmed named_peg_out_confirm g.peg_out_confirm_transaction) λ s. ok tt)
          (signed g.peg_out_transaction g.peg_out_chain_event)
      where
        signed : Option T → Option Event → Option (Outcome Event)
        signed (some t) (some event) =
            signed_with (sign g.kick_off_1_transaction (tx.compute_txid t) event)
              λ t. record g { kick_off_1_transaction = t }
        signed (some t) none = none
        signed none event = none

    unfoldable pub challenge :
        (T → Option T) → (T → Option X) → PegOutGraph T Event → Option (Outcome Event)
    unfolding verify_if_not_mined
    challenge add_inputs_and_output finalize g =
        checked
          (unmined g.challenge_transaction
            ⟫ if_confirmed (status_of g.kick_off_1_transaction)
                (unconfirmed named_kick_off_1 g.kick_off_1_transaction) λ s. ok tt)
          (added_with finalize (add_inputs_and_output g.challenge_transaction)
            λ t. record g { challenge_transaction = t })

    unfoldable pub start_time : (T → Option T) → PegOutGraph T Event → Option (Outcome Event)
    unfolding verify_if_not_mined
    start_time sign g =
        checked
          (unmined g.start_time_transaction
            ⟫ if_confirmed (status_of g.kick_off_1_transaction)
                (unconfirmed named_kick_off_1 g.kick_off_1_transaction) λ s. ok tt)
          (signed_with (sign g.start_time_transaction) λ t. record g { start_time_transaction = t })

    -- `add_output` sets the transaction's output, `finalize` checks that it has one.
    unfoldable pub start_time_timeout :
        (T → Option T) → (T → Option X) → PegOutGraph T Event → Option (Outcome Event)
    unfolding verify_if_not_mined if_matured
    start_time_timeout add_output finalize g =
        checked
          (unmined g.start_time_timeout_transaction
            ⟫ if_matured (status_of g.kick_off_1_transaction) named_kick_off_1
                (tx.compute_txid g.kick_off_1_transaction) g.timelock_leaf_2 client.get_height
                (ok tt))
          (added_with finalize (add_output g.start_time_timeout_transaction)
            λ t. record g { start_time_timeout_transaction = t })

    unfoldable pub kick_off_2 : (T → Option T) → PegOutGraph T Event → Option (Outcome Event)
    unfolding verify_if_not_mined if_matured
    kick_off_2 sign g =
        checked
          (unmined g.kick_off_2_transaction
            ⟫ if_matured (status_of g.kick_off_1_transaction) named_kick_off_1
                (tx.compute_txid g.kick_off_1_transaction) g.timelock_leaf_0 client.get_height
                (ok tt))
          (signed_with (sign g.kick_off_2_transaction) λ t. record g { kick_off_2_transaction = t })

    -- `add_output` sets the transaction's output, `finalize` checks that it has one.
    unfoldable pub kick_off_timeout :
        (T → Option T) → (T → Option X) → PegOutGraph T Event → Option (Outcome Event)
    unfolding verify_if_not_mined if_matured
    kick_off_timeout add_output finalize g =
        checked
          (unmined g.kick_off_timeout_transaction
            ⟫ if_matured (status_of g.kick_off_1_transaction) named_kick_off_1
                (tx.compute_txid g.kick_off_1_transaction) g.timelock_leaf_1 client.get_height
                (ok tt))
          (added_with finalize (add_output g.kick_off_timeout_transaction)
            λ t. record g { kick_off_timeout_transaction = t })
