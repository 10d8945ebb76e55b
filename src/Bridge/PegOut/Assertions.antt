-- ===== src/Bridge/PegOut/Assertions.antt =====
-- The operations of the peg-out graph that assert and that take.
use bit_vm.Prelude.{◌&&◌, Option, none, some, [], ◌∷◌, if◌then◌else◌}
use bit_vm.Bridge.Base.{
  Result, ok, err, TxStatus, Client, named_peg_in_confirm, named_kick_off_1, named_kick_off_2,
  named_assert_initial, named_assert_final, preceding_tx_not_confirmed,
  preceding_tx_timelock_not_met, Error, esplora, graph, verify_if_not_mined, is_matured, ◌⟫◌,
  if_confirmed, if_matured,
}
use bit_vm.Bridge.PegOut.Defs.{Transactions, PegOutGraph}
use bit_vm.Bridge.PegOut.Operations.{Outcome, status_of, unmined, unconfirmed, checked, signed_with}

module _ {E T X : Type 0} (tx : Transactions T X) (client : Client E) where
  module _ {Event : Type 0} where
    unfoldable pub assert_initial : PegOutGraph T Event → Outcome tx client Event
    unfolding verify_if_not_mined if_matured
    assert_initial g =
        unmined tx client g.assert_initial_transaction
        ⟫ if_matured (status_of tx client g.kick_off_2_transaction) named_kick_off_2
            (tx.compute_txid g.kick_off_2_transaction) g.timelock_b client.get_height
            (ok (g, tx.finalize g.assert_initial_transaction))

    unfoldable pub assert_commit_1 :
        (T → Option T) → PegOutGraph T Event → Option (Outcome tx client Event)
    unfolding verify_if_not_mined
    assert_commit_1 sign g =
        checked tx client
          (unmined tx client g.assert_commit_1_transaction
            ⟫ if_confirmed (status_of tx client g.assert_initial_transaction)
                (unconfirmed tx client named_assert_initial g.assert_initial_transaction)
                λ s. ok tt)
          (signed_with tx client (sign g.assert_commit_1_transaction)
            λ t. record g { assert_commit_1_transaction = t })

    unfoldable pub assert_commit_2 :
        (T → Option T) → PegOutGraph T Event → Option (Outcome tx client Event)
    unfolding verify_if_not_mined
    assert_commit_2 sign g =
        checked tx client
          (unmined tx client g.assert_commit_2_transaction
            ⟫ if_confirmed (status_of tx client g.assert_initial_transaction)
                (unconfirmed tx client named_assert_initial g.assert_initial_transaction)
                λ s. ok tt)
          (signed_with tx client (sign g.assert_commit_2_transaction)
            λ t. record g { assert_commit_2_transaction = t })

    unfoldable pub assert_commits :
        (T → Option T)
        → (T → Option T)
        → PegOutGraph T Event
        → Option (Result (PegOutGraph T Event × X × X) (Error E))
    unfolding verify_if_not_mined
    assert_commits sign_1 sign_2 g =
        go
          (unmined tx client g.assert_commit_1_transaction
            ⟫ unmined tx client g.assert_commit_2_transaction
            ⟫ if_confirmed (status_of tx client g.assert_initial_transaction)
                (unconfirmed tx client named_assert_initial g.assert_initial_transaction)
                λ s. ok tt)
          (sign_1 g.assert_commit_1_transaction) (sign_2 g.assert_commit_2_transaction)
      where
        go :
            Result (Unit {0}) (Error E)
            → Option T
            → Option T
            → Option (Result (PegOutGraph T Event × X × X) (Error E))
        go (err e) t₁ t₂ = some (err e)
        go (ok u) none t₂ = none
        go (ok u) (some t₁) none = none
        go (ok u) (some t₁) (some t₂) = some (
            ok (
              record g { assert_commit_1_transaction = t₁; assert_commit_2_transaction = t₂ },
              tx.finalize t₁,
              tx.finalize t₂,
            ))

    unfoldable pub assert_final : PegOutGraph T Event → Outcome tx client Event
    unfolding verify_if_not_mined
    assert_final g =
        unmined tx client g.assert_final_transaction
        ⟫ if_confirmed (status_of tx client g.assert_initial_transaction)
            (unconfirmed tx client named_assert_initial g.assert_initial_transaction)
            λ s. ok (g, tx.finalize g.assert_final_transaction)

    -- The match on the three statuses of `take_1`.
    unfoldable pub taken :
        PegOutGraph T Event
        → Result TxStatus E
        → Result TxStatus E
        → Result TxStatus E
        → Outcome tx client Event
    unfolding is_matured
    taken g (ok pic) (ok ko1) (ok ko2) =
        if pic.confirmed && ko1.confirmed && ko2.confirmed
        then (if is_matured ko2.block_height g.timelock_3 client.get_height
            then ok (g, tx.finalize g.take_1_transaction)
            else err (
                graph (
                  preceding_tx_timelock_not_met (record {
                    txid = tx.compute_txid g.kick_off_2_transaction;
                    name = named_kick_off_2;
                    confirmed = ko2.confirmed;
                  }))))
        else err (
            graph (
              preceding_tx_not_confirmed (
                record {
                  txid = g.peg_in_confirm_txid;
                  name = named_peg_in_confirm;
                  confirmed = pic.confirmed;
                }
                ∷ record {
                  txid = tx.compute_txid g.kick_off_1_transaction;
                  name = named_kick_off_1;
                  confirmed = ko1.confirmed;
                }
                ∷ record {
                  txid = tx.compute_txid g.kick_off_2_transaction;
                  name = named_kick_off_2;
                  confirmed = ko2.confirmed;
                }
                ∷ [])))
    taken g (err e) ko1 ko2 = err (esplora e)
    taken g (ok pic) (err e) ko2 = err (esplora e)
    taken g (ok pic) (ok ko1) (err e) = err (esplora e)

    unfoldable pub take_1 : PegOutGraph T Event → Outcome tx client Event
    unfolding verify_if_not_mined taken
    take_1 g =
        unmined tx client g.take_1_transaction
        ⟫ unmined tx client g.challenge_transaction
        ⟫ unmined tx client g.assert_initial_transaction
        ⟫ unmined tx client g.disprove_chain_transaction
        ⟫ taken g (client.get_tx_status g.peg_in_confirm_txid)
            (status_of tx client g.kick_off_1_transaction)
            (status_of tx client g.kick_off_2_transaction)

    unfoldable pub take_2 : (T → Option T) → PegOutGraph T Event → Option (Outcome tx client Event)
    unfolding verify_if_not_mined is_matured
    take_2 sign g =
        checked tx client
          (unmined tx client g.take_2_transaction
            ⟫ unmined tx client g.take_1_transaction
            ⟫ unmined tx client g.disprove_transaction
            ⟫ ready (client.get_tx_status g.peg_in_confirm_txid)
                (status_of tx client g.assert_final_transaction))
          (signed_with tx client (sign g.take_2_transaction)
            λ t. record g { take_2_transaction = t })
      where
        ready : Result TxStatus E → Result TxStatus E → Result (Unit {0}) (Error E)
        ready (ok pic) (ok final) =
            if pic.confirmed && final.confirmed
            then (if is_matured final.block_height g.timelock_4 client.get_height
                then ok tt
                else err (
                    graph (
                      preceding_tx_timelock_not_met (record {
                        txid = tx.compute_txid g.assert_final_transaction;
                        name = named_assert_final;
                        confirmed = final.confirmed;
                      }))))
            else err (
                graph (
                  preceding_tx_not_confirmed (
                    record {
                      txid = g.peg_in_confirm_txid;
                      name = named_peg_in_confirm;
                      confirmed = pic.confirmed;
                    }
                    ∷ record {
                      txid = tx.compute_txid g.assert_final_transaction;
                      name = named_assert_final;
                      confirmed = final.confirmed;
                    }
                    ∷ [])))
        ready (err e) final = err (esplora e)
        ready (ok pic) (err e) = err (esplora e)
