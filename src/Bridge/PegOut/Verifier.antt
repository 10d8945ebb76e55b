-- ===== src/Bridge/PegOut/Verifier.antt =====
-- What the verifiers are offered is not refused.
use bit_vm.Prelude.{
  ℕ, ◌^◌, ◌≤◌, ◌<◌, ◌≡◌, refl, Bool, true, false, ◌||◌, not, Option, none, some, List,
  if◌then◌else◌, length,
}
use bit_vm.Hashing.{Bytes}
use bit_vm.Bridge.Base.{
  Result, ok, err, TxStatus, Client, is_ok_confirmed, is_ok_unconfirmed, if_matured,
}
use bit_vm.Bridge.Transactions.{
  InputWithScript, Builder, add_inputs_and_output, add_output, finalize_challenge, finalize_timeout,
  IsBuilder, total_amount, add_inputs_and_output-finalize, add_output-finalize,
}
use bit_vm.Bridge.PegOut.Defs.{Transactions, PegOutGraph}
use bit_vm.Bridge.PegOut.Operations.{
  Outcome, status_of, challenge, start_time_timeout, kick_off_timeout,
}
use bit_vm.Bridge.PegOut.Status.{
  PegOutVerifierStatus, peg_out_verifier_complete, peg_out_verifier_wait,
  peg_out_challenge_available, peg_out_start_time_timeout_available,
  peg_out_kick_off_timeout_available, peg_out_disprove_chain_available, peg_out_disprove_available,
  peg_out_verifier_failed, is_seen, is_ripe, signed_status,
}
use bit_vm.Bridge.PegOut.Seen.{branch, or_false, is_refused, unseen, seen, ripe}

-- The operations of the challenge and of the two timeouts, for inputs that pay and an output's script.
abbrev pub respond :
    {E T X Event : Type 0} (tx : Transactions T X) (client : Client E)
    → Builder T
    → ℕ
    → List InputWithScript
    → Bytes
    → PegOutGraph T Event
    → PegOutVerifierStatus
    → Option (Option (Outcome tx client Event))
respond tx client build crowdfunding inputs script g peg_out_challenge_available = some (
    challenge tx client (add_inputs_and_output build crowdfunding inputs script)
      (finalize_challenge build tx) g)
respond tx client build crowdfunding inputs script g peg_out_start_time_timeout_available =
    some (start_time_timeout tx client (add_output build script) (finalize_timeout build tx) g)
respond tx client build crowdfunding inputs script g peg_out_kick_off_timeout_available =
    some (kick_off_timeout tx client (add_output build script) (finalize_timeout build tx) g)
respond tx client build crowdfunding inputs script g _ = none

not-true : (s : Bool) → not s ≡ true → s ≡ false
not-true true h = cc
not-true false h = refl

module _ {E T X Event : Type 0} (tx : Transactions T X) (client : Client E)
    (g : PegOutGraph T Event) (build : Builder T) (crowdfunding : ℕ) (inputs : List InputWithScript)
    (script : Bytes) where
  record Allowed (st : PegOutVerifierStatus) : Type 0 where
    allowed : is_refused (respond tx client build crowdfunding inputs script g st) ≡ false

  unconfirmed_unseen :
      (t : T) → is_ok_unconfirmed (status_of tx client t) ≡ true → is_seen tx client g t ≡ false
  unconfirmed_unseen t h = not_confirmed (status_of tx client t) h
    where
      not_confirmed :
          (r : Result TxStatus E) → is_ok_unconfirmed r ≡ true → is_ok_confirmed r ≡ false
      not_confirmed (ok s) h = not-true s.confirmed h
      not_confirmed (err e) h = refl

  module _ (answers : (txid : Bytes) → (s : TxStatus) × (client.get_tx_status txid ≡ ok s))
      (laws : IsBuilder build) (one_input : build.input_len g.challenge_transaction ≡ 1)
      (some_input : 0 < length inputs) (enough : crowdfunding ≤ total_amount inputs)
      (small : total_amount inputs < 2 ^ 64)
      (start_outputs : 1 < build.output_len g.start_time_timeout_transaction)
      (kick_off_outputs : 1 < build.output_len g.kick_off_timeout_transaction) where
    kicked_off :
        is_seen tx client g g.kick_off_1_transaction ≡ true
        → is_seen tx client g g.start_time_timeout_transaction ≡ false
        → is_seen tx client g g.kick_off_timeout_transaction ≡ false
        → Allowed (
            if is_ok_unconfirmed (status_of tx client g.start_time_transaction)
            then (if is_ripe tx client g g.kick_off_1_transaction g.timelock_leaf_2
                then peg_out_start_time_timeout_available
                else peg_out_verifier_wait)
            else if is_ripe tx client g g.kick_off_1_transaction g.timelock_leaf_1
            then peg_out_kick_off_timeout_available
            else if is_ok_unconfirmed (status_of tx client g.challenge_transaction)
            then peg_out_challenge_available
            else peg_out_verifier_wait)
    unfolding challenge start_time_timeout kick_off_timeout if_matured
    kicked_off k s t =
        let wait : Allowed peg_out_verifier_wait = record { allowed = refl } in
        let start : is_ripe tx client g g.kick_off_1_transaction g.timelock_leaf_2 ≡ true
            → Allowed peg_out_start_time_timeout_available =
          λ over.
            let (h, e, m) =
              ripe tx client g answers g.kick_off_1_transaction g.timelock_leaf_2 k over in
            let (t', x, added, final) =
              add_output-finalize build laws tx script g.start_time_timeout_transaction
                start_outputs in
            record {
              allowed =
                  rw
                    (
                      unseen tx client g answers g.start_time_timeout_transaction s,
                      e,
                      m,
                      added,
                      final,
                    )
                    refl;
            } in
        let timeout : is_ripe tx client g g.kick_off_1_transaction g.timelock_leaf_1 ≡ true
            → Allowed peg_out_kick_off_timeout_available =
          λ over.
            let (h, e, m) =
              ripe tx client g answers g.kick_off_1_transaction g.timelock_leaf_1 k over in
            let (t', x, added, final) =
              add_output-finalize build laws tx script g.kick_off_timeout_transaction
                kick_off_outputs in
            record {
              allowed =
                  rw
                    (
                      unseen tx client g answers g.kick_off_timeout_transaction t,
                      e,
                      m,
                      added,
                      final,
                    )
                    refl;
            } in
        let dispute : is_ok_unconfirmed (status_of tx client g.challenge_transaction) ≡ true
            → Allowed peg_out_challenge_available =
          λ u.
            let (t', x, added, final) =
              add_inputs_and_output-finalize build laws tx crowdfunding inputs script
                g.challenge_transaction one_input some_input enough small in
            record {
              allowed =
                  rw
                    (
                      unseen tx client g answers g.challenge_transaction
                          (unconfirmed_unseen g.challenge_transaction u),
                      (seen tx client g answers (tx.compute_txid g.kick_off_1_transaction) k).1,
                      added,
                      final,
                    )
                    refl;
            } in
        branch Allowed (λ _. branch Allowed start (λ _. wait))
          (λ _. branch Allowed timeout (λ _. branch Allowed dispute (λ _. wait)))

    -- If the client answers for every transaction, the challenge has its one input and is given others
    -- that pay the crowdfunding amount, with a sum that is a u64 and signatures that can be made, and
    -- the timeouts have two outputs, then the operation that a verifier's status offers of the
    -- challenge and the two timeouts neither panics nor fails.
    pub signed_status-respond :
        is_refused
          (respond tx client build crowdfunding inputs script g (signed_status tx client g))
        ≡ false
    unfolding signed_status
    signed_status-respond = result.allowed
      where
        idle :
            {st : PegOutVerifierStatus}
            → respond tx client build crowdfunding inputs script g st ≡ none
            → Allowed st
        idle e = record { allowed = rw e refl }

        result : Allowed (signed_status tx client g)
        result =
            branch Allowed {b = is_seen tx client g g.kick_off_2_transaction}
              (λ _.
                branch Allowed
                  {b = is_seen tx client g g.take_1_transaction
                    || is_seen tx client g g.take_2_transaction}
                  {x = peg_out_verifier_complete} (λ _. idle refl)
                  (λ _.
                    branch Allowed
                      {b = is_seen tx client g g.disprove_transaction
                        || is_seen tx client g g.disprove_chain_transaction}
                      {x = peg_out_verifier_failed} (λ _. idle refl)
                      (λ _.
                        branch Allowed {x = peg_out_disprove_available}
                          {y = peg_out_disprove_chain_available} (λ _. idle refl)
                          (λ _. idle refl))))
              (λ _.
                branch Allowed {b = is_seen tx client g g.kick_off_1_transaction}
                  {y = peg_out_verifier_wait}
                  (λ k.
                    branch Allowed
                      {b = is_seen tx client g g.start_time_timeout_transaction
                        || is_seen tx client g g.kick_off_timeout_transaction}
                      {x = peg_out_verifier_failed} (λ _. idle refl)
                      (λ none_over.
                        let (s, t) =
                          or_false (is_seen tx client g g.start_time_timeout_transaction)
                            (is_seen tx client g g.kick_off_timeout_transaction) none_over in
                        kicked_off k s t))
                  (λ _. idle refl))
