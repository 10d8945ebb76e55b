-- ===== src/Bridge/PegOut/Seen.antt =====
-- What a client that answers for every transaction tells of one.
use bit_vm.Prelude.{
  ℕ, ◌≡◌, refl, sym, ap, ◌∙◌, Bool, true, false, ◌&&◌, ◌||◌, Option, none, some, if◌then◌else◌,
}
use bit_vm.Bridge.PegOut.Operations.{status_of}
use bit_vm.Bridge.PegOut.Defs.{Transactions, PegOutGraph, Signing}
use bit_vm.Bridge.PegOut.Status.{is_seen, is_ripe}
use bit_vm.Bridge.Base.{
  Result, ok, err, TxStatus, Client, verify_if_not_mined, is_ok_confirmed, height_of, is_matured,
}
use bit_vm.Hashing.{Bytes}

pub branch :
    {A : Type 0} (P : A → Type 0) {b : Bool} {x y : A}
    → (b ≡ true → P x)
    → (b ≡ false → P y)
    → P (if b then x else y)
branch P {b = true} f g = f refl
branch P {b = false} f g = g refl

pub or_false : (a b : Bool) → (a || b) ≡ false → (a ≡ false) × (b ≡ false)
or_false true b h = cc
or_false false b h = (refl, h)

pub and_false : (a b : Bool) → (a && b) ≡ false → a ≡ true → b ≡ false
and_false true b h e = h
and_false false b h e = cc

pub and_true : (a b : Bool) → (a && b) ≡ true → b ≡ true
and_true true b h = h
and_true false b h = cc

-- An operation that is called panics or fails.
abbrev pub is_refused : {A F : Type 0} → Option (Option (Result A F)) → Bool
is_refused none = false
is_refused (some none) = true
is_refused (some (some (ok a))) = false
is_refused (some (some (err e))) = true

-- Signing does not panic.
pub record Signs {T Event : Type 0} (signing : Signing T Event) : Type 0 where
  pub signs_kick_off_1 :
      (t : T) (txid : Bytes) (event : Event)
      → (t' : T) × (signing.sign_kick_off_1 t txid event ≡ some t')
  pub signs_start_time : (t : T) → (t' : T) × (signing.sign_start_time t ≡ some t')
  pub signs_kick_off_2 : (t : T) → (t' : T) × (signing.sign_kick_off_2 t ≡ some t')
  pub signs_assert_commit_1 : (t : T) → (t' : T) × (signing.sign_assert_commit_1 t ≡ some t')
  pub signs_assert_commit_2 : (t : T) → (t' : T) × (signing.sign_assert_commit_2 t ≡ some t')
  pub signs_take_2 : (t : T) → (t' : T) × (signing.sign_take_2 t ≡ some t')

module _ {E T X Event : Type 0} (tx : Transactions T X) (client : Client E)
    (g : PegOutGraph T Event) where
  module _ (answers : (txid : Bytes) → (s : TxStatus) × (client.get_tx_status txid ≡ ok s)) where
    pub unseen :
        (t : T)
        → is_seen tx client g t ≡ false
        → verify_if_not_mined client (tx.compute_txid t) ≡ ok tt
    unfolding verify_if_not_mined
    unseen t h =
        let (s, e) = answers (tx.compute_txid t) in rw e (rw (sym (ap is_ok_confirmed e) ∙ h) refl)

    pub seen :
        (txid : Bytes)
        → is_ok_confirmed (client.get_tx_status txid) ≡ true
        → (h : Option ℕ) × (client.get_tx_status txid
            ≡ ok (record { confirmed = true; block_height = h }))
    seen txid h =
        let (s, e) = answers txid in
        (
          s.block_height,
          e
              ∙ ap (λ b. ok (record { confirmed = b; block_height = s.block_height }))
                  (sym (ap is_ok_confirmed e) ∙ h),
        )

    pub ripe :
        (t : T) (timelock : ℕ)
        → is_seen tx client g t ≡ true
        → is_ripe tx client g t timelock ≡ true
        → (h : Option ℕ) × (status_of tx client t
            ≡ ok (record { confirmed = true; block_height = h }))
          × (is_matured h timelock client.get_height ≡ true)
    ripe t timelock h r =
        let (height, e) = seen (tx.compute_txid t) h in
        (height, e, sym (ap (λ s. is_matured (height_of s) timelock client.get_height) e) ∙ r)
