-- ===== src/Bridge/PegOut/Progress.antt =====
-- What the operator is offered is not refused.
use bit_vm.Prelude.{
  ◌≡◌, refl, subst, inl, inr, true, false, ◌&&◌, ◌||◌, Option, none, some, Bool-cases, Option-cases,
  some_inj,
}
use bit_vm.Bridge.PegOut.Assertions.{take_1}
use bit_vm.Bridge.PegOut.Seen.{branch, or_false, and_true, is_refused, Signs, unseen, seen, ripe}
use bit_vm.Bridge.PegOut.Operations.{peg_out_confirm, kick_off_1, start_time, kick_off_2}
use bit_vm.Bridge.PegOut.Defs.{Transactions, PegOutGraph, Signing, is_some_of}
use bit_vm.Bridge.PegOut.Status.{
  PegOutOperatorStatus, peg_out_wait, peg_out_failed, peg_out_start_peg_out,
  peg_out_peg_out_confirm_available, peg_out_kick_off_1_available, peg_out_start_time_available,
  peg_out_kick_off_2_available, peg_out_take_1_available, is_seen, peg_out_status,
  kicked_off_status, starting_status, paid_status, operator_status, operation,
}
use bit_vm.Bridge.Base.{ok, TxStatus, Client, is_ok_confirmed, if_matured}
use bit_vm.Hashing.{Bytes}
use bit_vm.Bridge.PegOut.Challenged.{Allowed, challenged_status-Allowed}

module _ {E T X Event : Type 0} (tx : Transactions T X) (client : Client E)
    (g : PegOutGraph T Event) (signing : Signing T Event) where
  module _ (signs : Signs signing)
      (answers : (txid : Bytes) → (s : TxStatus) × (client.get_tx_status txid ≡ ok s)) where
    abbrev Offered : PegOutOperatorStatus → Type 0
    Offered = Allowed tx client g signing

    module _
        (in_order : is_seen tx client g g.kick_off_2_transaction ≡ true
          → is_seen tx client g g.kick_off_1_transaction ≡ true)
        (pegged_in : is_ok_confirmed (client.get_tx_status g.peg_in_confirm_txid) ≡ true)
        (unasserted : is_seen tx client g g.challenge_transaction ≡ false
          → is_seen tx client g g.assert_initial_transaction ≡ false) where
      kicked_off_status-Allowed :
          is_seen tx client g g.kick_off_2_transaction ≡ true
          → Offered (kicked_off_status tx client g)
      unfolding kicked_off_status take_1
      kicked_off_status-Allowed k =
          branch Offered (λ _. record { allowed = refl })
            (λ not_taken.
              let (t₁, t₂) =
                or_false (is_seen tx client g g.take_1_transaction)
                  (is_seen tx client g g.take_2_transaction) not_taken in
              branch Offered (λ _. record { allowed = refl })
                (λ not_disproved.
                  let (dc, d) =
                    or_false (is_seen tx client g g.disprove_chain_transaction)
                      (is_seen tx client g g.disprove_transaction) not_disproved in
                  branch Offered
                    (λ _.
                      challenged_status-Allowed tx client g signing signs answers pegged_in k t₁ t₂
                        d)
                    (λ unchallenged.
                      branch Offered {x = peg_out_take_1_available} {y = peg_out_wait}
                        (λ over.
                          let (h, e, m) =
                            ripe tx client g answers g.kick_off_2_transaction g.timelock_3 k over in
                          record {
                            allowed =
                                rw
                                  (
                                    unseen tx client g answers g.take_1_transaction t₁,
                                    unseen tx client g answers g.challenge_transaction unchallenged,
                                    unseen tx client g answers g.assert_initial_transaction
                                        (unasserted unchallenged),
                                    unseen tx client g answers g.disprove_chain_transaction dc,
                                    (seen tx client g answers g.peg_in_confirm_txid pegged_in).1,
                                    (seen tx client g answers
                                        (tx.compute_txid g.kick_off_1_transaction) (in_order k)).1,
                                    e,
                                    m,
                                  )
                                  refl;
                          })
                        (λ _. record { allowed = refl }))))

      starting_status-Allowed :
          is_seen tx client g g.kick_off_2_transaction ≡ false
          → is_seen tx client g g.kick_off_1_transaction ≡ true
          → Offered (starting_status tx client g)
      unfolding starting_status start_time kick_off_2 if_matured
      starting_status-Allowed not_k₂ k₁ =
          let waiting : is_seen tx client g g.start_time_transaction ≡ false
              → Offered peg_out_start_time_available =
            λ not_started. record {
              allowed =
                  rw
                    (
                      unseen tx client g answers g.start_time_transaction not_started,
                      (seen tx client g answers (tx.compute_txid g.kick_off_1_transaction) k₁).1,
                      (signs.signs_start_time g.start_time_transaction).1,
                    )
                    refl;
            } in
          branch Offered
            {b = is_seen tx client g g.start_time_timeout_transaction
              || is_seen tx client g g.kick_off_timeout_transaction}
            {x = peg_out_failed} (λ _. record { allowed = refl })
            (λ _.
              branch Offered
                (λ _.
                  branch Offered {x = peg_out_kick_off_2_available} {y = peg_out_wait}
                    (λ over.
                      let (h, e, m) =
                        ripe tx client g answers g.kick_off_1_transaction g.timelock_leaf_0 k₁
                          over in
                      record {
                        allowed =
                            rw
                              (
                                unseen tx client g answers g.kick_off_2_transaction not_k₂,
                                e,
                                m,
                                (signs.signs_kick_off_2 g.kick_off_2_transaction).1,
                              )
                              refl;
                      })
                    (λ _. record { allowed = refl }))
                waiting)

      paid_status-Allowed :
          (t : T) (event : Event)
          → g.peg_out_transaction ≡ some t
          → g.peg_out_chain_event ≡ some event
          → is_seen tx client g t ≡ true
          → Offered (paid_status tx client g)
      unfolding paid_status kick_off_1 peg_out_confirm
      paid_status-Allowed t event has_peg_out initiated paid =
          branch Offered kicked_off_status-Allowed (λ not_k₂.
            branch Offered (starting_status-Allowed not_k₂) (λ not_k₁.
              branch Offered {x = peg_out_kick_off_1_available}
                {y = peg_out_peg_out_confirm_available}
                (λ confirmed. record {
                  allowed =
                      rw
                        (
                          unseen tx client g answers g.kick_off_1_transaction not_k₁,
                          (seen tx client g answers (tx.compute_txid g.peg_out_confirm_transaction)
                              confirmed).1,
                          has_peg_out,
                          initiated,
                          (signs.signs_kick_off_1 g.kick_off_1_transaction (tx.compute_txid t)
                              event).1,
                        )
                        refl;
                })
                (λ not_confirmed. record {
                  allowed =
                      rw
                        (
                          unseen tx client g answers g.peg_out_confirm_transaction not_confirmed,
                          has_peg_out,
                          (seen tx client g answers (tx.compute_txid t) paid).1,
                        )
                        refl;
                })))

      initiated_event :
          (o : Option Event) → is_some_of o ≡ true → (event : Event) × (o ≡ some event)
      initiated_event none h = cc
      initiated_event (some event) h = (event, refl)

      -- The operation of the graph that the operator's status offers neither panics nor fails.
      pub operator_status-operation :
          (st : PegOutOperatorStatus)
          → operator_status tx client g ≡ some st
          → is_refused (operation tx client g signing st) ≡ false
      unfolding operator_status peg_out_status
      operator_status-operation st h =
          elim (Bool-cases (g.n_of_n_presigned && is_some_of g.peg_out_chain_event)) [
            | inl ready ↦ elim (Option-cases g.peg_out_transaction) [
              | inl no_peg_out ↦ start (some_inj (rw (ready, no_peg_out) at h))
              | inr (t, found) ↦
                  let (s, e) = answers (tx.compute_txid t) in
                  let (event, initiated) =
                    initiated_event g.peg_out_chain_event (and_true g.n_of_n_presigned _ ready) in
                  elim (Bool-cases s.confirmed) [
                    | inl paid ↦
                        (subst Offered (some_inj (rw (ready, found, e, paid) at h))
                          (paid_status-Allowed t event found initiated (rw e paid))).allowed
                    | inr unpaid ↦ start (some_inj (rw (ready, found, e, unpaid) at h))
                  ]
            ]
            | inr not_ready ↦ wait (some_inj (rw not_ready at h))
          ]
        where
          start : peg_out_start_peg_out ≡ st → is_refused (operation tx client g signing st) ≡ false
          start same = rw (← same) refl

          wait : peg_out_wait ≡ st → is_refused (operation tx client g signing st) ≡ false
          wait same = rw (← same) refl
