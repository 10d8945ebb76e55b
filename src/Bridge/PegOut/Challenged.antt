-- ===== src/Bridge/PegOut/Challenged.antt =====
-- What the operator is offered after a challenge is not refused.
use bit_vm.Prelude.{◌≡◌, refl, true, false}
use bit_vm.Bridge.PegOut.Assertions.{
  assert_initial, assert_commit_1, assert_commit_2, assert_final, take_2,
}
use bit_vm.Bridge.PegOut.Seen.{branch, and_false, is_refused, Signs, unseen, seen, ripe}
use bit_vm.Bridge.PegOut.Defs.{Transactions, PegOutGraph, Signing}
use bit_vm.Bridge.PegOut.Status.{
  PegOutOperatorStatus, peg_out_assert_commit_1_available, peg_out_assert_commit_2_available,
  peg_out_assert_final_available, is_seen, challenged_status, operation,
}
use bit_vm.Bridge.Base.{ok, TxStatus, Client, is_ok_confirmed, if_matured}
use bit_vm.Hashing.{Bytes}

module _ {E T X Event : Type 0} (tx : Transactions T X) (client : Client E)
    (g : PegOutGraph T Event) (signing : Signing T Event) where
  pub record Allowed (st : PegOutOperatorStatus) : Type 0 where
    pub allowed : is_refused (operation tx client g signing st) ≡ false

  module _ (signs : Signs signing)
      (answers : (txid : Bytes) → (s : TxStatus) × (client.get_tx_status txid ≡ ok s))
      (pegged_in : is_ok_confirmed (client.get_tx_status g.peg_in_confirm_txid) ≡ true) where
    pub challenged_status-Allowed :
        is_seen tx client g g.kick_off_2_transaction ≡ true
        → is_seen tx client g g.take_1_transaction ≡ false
        → is_seen tx client g g.take_2_transaction ≡ false
        → is_seen tx client g g.disprove_transaction ≡ false
        → Allowed (challenged_status tx client g)
    unfolding challenged_status take_2 assert_initial assert_commit_1 assert_commit_2 assert_final
        if_matured
    challenged_status-Allowed k t₁ t₂ d =
        branch Allowed
          (λ final.
            branch Allowed
              (λ over.
                let (h, e, m) =
                  ripe tx client g answers g.assert_final_transaction g.timelock_4 final over in
                let (h', e') = seen tx client g answers g.peg_in_confirm_txid pegged_in in
                record {
                  allowed =
                      rw
                        (
                          unseen tx client g answers g.take_2_transaction t₂,
                          unseen tx client g answers g.take_1_transaction t₁,
                          unseen tx client g answers g.disprove_transaction d,
                          e,
                          e',
                          (signs.signs_take_2 g.take_2_transaction).1,
                          m,
                        )
                        refl;
                })
              (λ _. record { allowed = refl }))
          (λ not_final.
            branch Allowed
              (λ over.
                branch Allowed
                  (λ initial.
                    branch Allowed {x = peg_out_assert_final_available}
                      (λ both. record {
                        allowed =
                            rw
                              (
                                unseen tx client g answers g.assert_final_transaction not_final,
                                (seen tx client g answers _ initial).1,
                              )
                              refl;
                      })
                      (λ not_both.
                        branch Allowed {x = peg_out_assert_commit_2_available}
                          {y = peg_out_assert_commit_1_available}
                          (λ first. record {
                            allowed =
                                rw
                                  (
                                    unseen tx client g answers g.assert_commit_2_transaction (
                                        and_false
                                          (is_seen tx client g g.assert_commit_1_transaction)
                                          (is_seen tx client g g.assert_commit_2_transaction)
                                          not_both first),
                                    (seen tx client g answers _ initial).1,
                                    (signs.signs_assert_commit_2 g.assert_commit_2_transaction).1,
                                  )
                                  refl;
                          })
                          (λ not_first. record {
                            allowed =
                                rw
                                  (
                                    unseen tx client g answers g.assert_commit_1_transaction
                                        not_first,
                                    (seen tx client g answers _ initial).1,
                                    (signs.signs_assert_commit_1 g.assert_commit_1_transaction).1,
                                  )
                                  refl;
                          })))
                  (λ not_initial.
                    let (h, e, m) =
                      ripe tx client g answers g.kick_off_2_transaction g.timelock_b k over in
                    record {
                      allowed =
                          rw
                            (
                              unseen tx client g answers g.assert_initial_transaction not_initial,
                              e,
                              m,
                            )
                            refl;
                    }))
              (λ _. record { allowed = refl }))
