-- ===== src/Bridge/PegOut/Status.antt =====
-- What a peg-out graph offers to its operator, its verifiers and the withdrawer, and the
-- operations behind the operator's. `none`: an `unwrap` panics.
use bit_vm.Prelude.{ℕ, Bool, false, ◌&&◌, ◌||◌, not, Option, none, some, if◌then◌else◌, ◌>>=◌}
use bit_vm.Bridge.PegOut.Assertions.{
  assert_initial, assert_commit_1, assert_commit_2, assert_final, take_1, take_2,
}
use bit_vm.Bridge.Base.{
  Result, ok, err, TxStatus, Client, is_ok_confirmed, is_ok_unconfirmed, height_of, is_matured,
}
use bit_vm.Bridge.PegOut.Defs.{Transactions, PegOutGraph, Signing, is_peg_out_initiated}
use bit_vm.Bridge.PegOut.Operations.{
  Outcome, status_of, peg_out_confirm, kick_off_1, start_time, kick_off_2,
}

pub data PegOutWithdrawerStatus : Type 0 where
  peg_out_not_started peg_out_withdrawer_wait peg_out_withdrawer_complete : PegOutWithdrawerStatus

pub data PegOutVerifierStatus : Type 0 where
  peg_out_pending_nonces peg_out_awaiting_nonces : PegOutVerifierStatus
  peg_out_pending_signatures peg_out_awaiting_signatures : PegOutVerifierStatus
  peg_out_verifier_complete peg_out_verifier_wait peg_out_challenge_available : PegOutVerifierStatus
  peg_out_start_time_timeout_available peg_out_kick_off_timeout_available : PegOutVerifierStatus
  peg_out_disprove_chain_available peg_out_disprove_available peg_out_verifier_failed :
      PegOutVerifierStatus

pub data PegOutOperatorStatus : Type 0 where
  peg_out_wait peg_out_complete peg_out_failed peg_out_start_peg_out : PegOutOperatorStatus
  peg_out_peg_out_confirm_available peg_out_kick_off_1_available : PegOutOperatorStatus
  peg_out_start_time_available peg_out_kick_off_2_available : PegOutOperatorStatus
  peg_out_assert_initial_available peg_out_assert_commit_1_available : PegOutOperatorStatus
  peg_out_assert_commit_2_available peg_out_assert_final_available : PegOutOperatorStatus
  peg_out_take_1_available peg_out_take_2_available : PegOutOperatorStatus

abbrev pub interpret_withdrawer_status :
    {E : Type 0} → Option (Result TxStatus E) → PegOutWithdrawerStatus
interpret_withdrawer_status (some status) =
    if is_ok_confirmed status then peg_out_withdrawer_complete else peg_out_withdrawer_wait
interpret_withdrawer_status none = peg_out_not_started

-- `is_some_and(|status| status.unwrap().confirmed)`
abbrev pub is_some_confirmed : {E : Type 0} → Option (Result TxStatus E) → Option Bool
is_some_confirmed none = some false
is_some_confirmed (some (ok status)) = some status.confirmed
is_some_confirmed (some (err e)) = none

module _ {E T X Event : Type 0} (tx : Transactions T X) (client : Client E)
    (g : PegOutGraph T Event) where
  -- The transaction `t` is confirmed, as far as the client tells.
  abbrev pub is_seen : T → Bool
  is_seen t = is_ok_confirmed (status_of tx client t)

  -- It is confirmed, and `timelock` blocks have passed.
  abbrev pub is_ripe : T → ℕ → Bool
  is_ripe t timelock = is_matured (height_of (status_of tx client t)) timelock client.get_height

  unfoldable pub peg_out_status : Option (Result TxStatus E)
  peg_out_status = status_of_any g.peg_out_transaction
    where
      status_of_any : Option T → Option (Result TxStatus E)
      status_of_any (some t) = some (status_of tx client t)
      status_of_any none = none

  unfoldable pub withdrawer_status : PegOutWithdrawerStatus
  unfolding peg_out_status
  withdrawer_status = interpret_withdrawer_status peg_out_status

  -- After a challenge.
  unfoldable pub challenged_status : PegOutOperatorStatus
  unfolding is_matured
  challenged_status =
      if is_seen g.assert_final_transaction
      then (if is_ripe g.assert_final_transaction g.timelock_4
          then peg_out_take_2_available
          else peg_out_wait)
      else if is_ripe g.kick_off_2_transaction g.timelock_b
      then (if is_seen g.assert_initial_transaction
          then (if is_seen g.assert_commit_1_transaction && is_seen g.assert_commit_2_transaction
              then peg_out_assert_final_available
              else if is_seen g.assert_commit_1_transaction
              then peg_out_assert_commit_2_available
              else peg_out_assert_commit_1_available)
          else peg_out_assert_initial_available)
      else peg_out_wait

  -- Once kick-off 2 is confirmed.
  unfoldable pub kicked_off_status : PegOutOperatorStatus
  unfolding challenged_status
  kicked_off_status =
      if is_seen g.take_1_transaction || is_seen g.take_2_transaction
      then peg_out_complete
      else if is_seen g.disprove_chain_transaction || is_seen g.disprove_transaction
      then peg_out_failed
      else if is_seen g.challenge_transaction
      then challenged_status
      else if is_ripe g.kick_off_2_transaction g.timelock_3
      then peg_out_take_1_available
      else peg_out_wait

  -- Once kick-off 1 is.
  unfoldable pub starting_status : PegOutOperatorStatus
  unfolding is_matured
  starting_status =
      if is_seen g.start_time_timeout_transaction || is_seen g.kick_off_timeout_transaction
      then peg_out_failed
      else if is_seen g.start_time_transaction
      then (if is_ripe g.kick_off_1_transaction g.timelock_leaf_0
          then peg_out_kick_off_2_available
          else peg_out_wait)
      else peg_out_start_time_available

  -- Once the peg-out is.
  unfoldable pub paid_status : PegOutOperatorStatus
  unfolding kicked_off_status starting_status
  paid_status =
      if is_seen g.kick_off_2_transaction
      then kicked_off_status
      else if is_seen g.kick_off_1_transaction
      then starting_status
      else if is_seen g.peg_out_confirm_transaction
      then peg_out_kick_off_1_available
      else peg_out_peg_out_confirm_available

  unfoldable pub operator_status : Option PegOutOperatorStatus
  unfolding paid_status peg_out_status
  operator_status =
      if g.n_of_n_presigned && is_peg_out_initiated g
      then is_some_confirmed peg_out_status
        >>= (λ paid. some (if paid then paid_status else peg_out_start_peg_out))
      else some peg_out_wait

  -- The verifier's status of a graph that is signed.
  unfoldable pub signed_status : PegOutVerifierStatus
  unfolding is_matured
  signed_status =
      if is_seen g.kick_off_2_transaction
      then (if is_seen g.take_1_transaction || is_seen g.take_2_transaction
          then peg_out_verifier_complete
          else if is_seen g.disprove_transaction || is_seen g.disprove_chain_transaction
          then peg_out_verifier_failed
          else if is_seen g.assert_final_transaction
          then peg_out_disprove_available
          else peg_out_disprove_chain_available)
      else if is_seen g.kick_off_1_transaction
      then (if is_seen g.start_time_timeout_transaction || is_seen g.kick_off_timeout_transaction
          then peg_out_verifier_failed
          else if is_ok_unconfirmed (status_of tx client g.start_time_transaction)
          then (if is_ripe g.kick_off_1_transaction g.timelock_leaf_2
              then peg_out_start_time_timeout_available
              else peg_out_verifier_wait)
          else if is_ripe g.kick_off_1_transaction g.timelock_leaf_1
          then peg_out_kick_off_timeout_available
          else if is_ok_unconfirmed (status_of tx client g.challenge_transaction)
          then peg_out_challenge_available
          else peg_out_verifier_wait)
      else peg_out_verifier_wait

  -- The arguments are has_all_nonces_of, has_all_nonces, has_all_signatures_of and
  -- has_all_signatures of the graph, for the verifier.
  unfoldable pub verifier_status : Bool → Bool → Bool → Bool → PegOutVerifierStatus
  unfolding signed_status
  verifier_status our_nonces all_nonces our_signatures all_signatures =
      if g.n_of_n_presigned
      then signed_status
      else if not our_nonces
      then peg_out_pending_nonces
      else if not all_nonces
      then peg_out_awaiting_nonces
      else if not our_signatures
      then peg_out_pending_signatures
      else if not all_signatures
      then peg_out_awaiting_signatures
      else peg_out_verifier_wait

  -- The operation behind each status of the operator that the client acts on.
  abbrev pub operation :
      Signing T Event → PegOutOperatorStatus → Option (Option (Outcome tx client Event))
  operation signing peg_out_start_time_available =
      some (start_time tx client signing.sign_start_time g)
  operation signing peg_out_peg_out_confirm_available = some (some (peg_out_confirm tx client g))
  operation signing peg_out_kick_off_1_available =
      some (kick_off_1 tx client signing.sign_kick_off_1 g)
  operation signing peg_out_kick_off_2_available =
      some (kick_off_2 tx client signing.sign_kick_off_2 g)
  operation signing peg_out_assert_initial_available = some (some (assert_initial tx client g))
  operation signing peg_out_assert_commit_1_available =
      some (assert_commit_1 tx client signing.sign_assert_commit_1 g)
  operation signing peg_out_assert_commit_2_available =
      some (assert_commit_2 tx client signing.sign_assert_commit_2 g)
  operation signing peg_out_assert_final_available = some (some (assert_final tx client g))
  operation signing peg_out_take_1_available = some (some (take_1 tx client g))
  operation signing peg_out_take_2_available = some (take_2 tx client signing.sign_take_2 g)
  operation signing _ = none
