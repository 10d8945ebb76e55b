-- ===== src/Bridge/PegOut/Take.antt =====
-- When the operator's takes succeed.
use bit_vm.Prelude.{◌≡◌, refl, inl, inr, Bool, true, false, ◌&&◌, Bool-cases}
use bit_vm.Bridge.PegOut.Assertions.{taken, take_1}
use bit_vm.Bridge.PegOut.Operations.{status_of, unmined}
use bit_vm.Bridge.PegOut.Defs.{Transactions, PegOutGraph}
use bit_vm.Bridge.PegOut.Status.{is_seen, is_ripe}
use bit_vm.Hashing.{Bytes}
use bit_vm.Bridge.Base.{
  Result, ok, err, TxStatus, Client, Error, is_confirmed, verify_if_not_mined, is_ok_confirmed,
  is_ok_unconfirmed, height_of, is_matured, ◌⟫◌,
}

module _ {E A : Type 0} (client : Client E) where
  -- A check that passes: the transaction is known not to be mined.
  passed :
      (txid : Bytes) (r : Result A (Error E)) (a : A)
      → (verify_if_not_mined client txid ⟫ r) ≡ ok a
      → (is_ok_unconfirmed (client.get_tx_status txid) ≡ true) × (r ≡ ok a)
  unfolding verify_if_not_mined is_confirmed
  passed txid r a h = go (client.get_tx_status txid) refl
    where
      go :
          (s : Result TxStatus E)
          → client.get_tx_status txid ≡ s
          → (is_ok_unconfirmed (client.get_tx_status txid) ≡ true) × (r ≡ ok a)
      go (err e) same = let k = rw same at h in cc
      go (ok s) same = elim (Bool-cases s.confirmed) [
        | inl mined ↦ let k = rw (same, mined) at h in cc
        | inr unmined ↦ (rw (same, unmined) refl, rw (same, unmined) at h)
      ]

and_true₂ : (a b : Bool) → (a && b) ≡ true → (a ≡ true) × (b ≡ true)
and_true₂ true b h = (refl, h)
and_true₂ false b h = cc

module _ {E T X Event : Type 0} (tx : Transactions T X) (client : Client E)
    (g : PegOutGraph T Event) where
  taken-ok :
      (pic ko1 ko2 : Result TxStatus E) (p : PegOutGraph T Event × X)
      → taken tx client g pic ko1 ko2 ≡ ok p
      → (is_ok_confirmed pic ≡ true)
        × (is_ok_confirmed ko1 ≡ true)
        × (is_ok_confirmed ko2 ≡ true)
        × (is_matured (height_of ko2) g.timelock_3 client.get_height ≡ true)
  unfolding taken
  taken-ok (ok pic) (ok ko1) (ok ko2) p h =
      elim (Bool-cases (pic.confirmed && ko1.confirmed && ko2.confirmed)) [
        | inl all_three ↦
            elim (Bool-cases (is_matured ko2.block_height g.timelock_3 client.get_height)) [
              | inl over ↦
                  let (ab, c) =
                    and_true₂ (pic.confirmed && ko1.confirmed) ko2.confirmed all_three in
                  let (a, b) = and_true₂ pic.confirmed ko1.confirmed ab in (a, b, c, over)
              | inr locked ↦ let k = rw (all_three, locked) at h in cc
            ]
        | inr not_all ↦ let k = rw not_all at h in cc
      ]
  taken-ok (err e) ko1 ko2 p h = cc
  taken-ok (ok pic) (err e) ko2 p h = cc
  taken-ok (ok pic) (ok ko1) (err e) p h = cc

  -- `take_1` only succeeds if the peg-in and both kick-offs are confirmed, the timelock on kick-off 2
  -- is over, and neither a challenge nor an initial assert, a chain disproof or `take_1` itself is
  -- confirmed.
  pub take_1_safe :
      (p : PegOutGraph T Event × X)
      → take_1 tx client g ≡ ok p
      → (is_ok_unconfirmed (status_of tx client g.take_1_transaction) ≡ true)
        × (is_ok_unconfirmed (status_of tx client g.challenge_transaction) ≡ true)
        × (is_ok_unconfirmed (status_of tx client g.assert_initial_transaction) ≡ true)
        × (is_ok_unconfirmed (status_of tx client g.disprove_chain_transaction) ≡ true)
        × (is_ok_confirmed (client.get_tx_status g.peg_in_confirm_txid) ≡ true)
        × (is_seen tx client g g.kick_off_1_transaction ≡ true)
        × (is_seen tx client g g.kick_off_2_transaction ≡ true)
        × (is_ripe tx client g g.kick_off_2_transaction g.timelock_3 ≡ true)
  unfolding take_1
  take_1_safe p h =
      let (a, h₁) = passed client _ _ p h in
      let (b, h₂) = passed client _ _ p h₁ in
      let (c, h₃) = passed client _ _ p h₂ in
      let (d, h₄) = passed client _ _ p h₃ in
      let (e₁, e₂, e₃, e₄) =
        taken-ok (client.get_tx_status g.peg_in_confirm_txid)
          (status_of tx client g.kick_off_1_transaction)
          (status_of tx client g.kick_off_2_transaction) p h₄ in
      (a, b, c, d, e₁, e₂, e₃, e₄)
