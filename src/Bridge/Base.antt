-- ===== src/Bridge/Base.antt =====
-- bridge/src/error.rs and graphs/base.rs: errors, and what the Esplora client answers. The client is
-- a service: `Client` holds its answers at the time of one call.
use bit_vm.Prelude.{
  ℕ, ◌+◌, ◌%◌, ◌^◌, Bool, true, false, not, Option, none, some, List, [], ◌∷◌, leb, if◌then◌else◌,
}
use bit_vm.Hashing.{Bytes}

pub data Result {ℓ} (A F : Type ℓ) : Type ℓ where
  ok : A → Result A F
  err : F → Result A F

pub record TxStatus : Type 0 where
  pub confirmed : Bool
  pub block_height : Option ℕ

pub record Client (E : Type 0) : Type 0 where
  pub get_tx_status : Bytes → Result TxStatus E
  pub get_height : Result ℕ E

-- The names of the transactions that errors mention.
pub data TxName : Type 0 where
  named_peg_in_deposit named_peg_in_confirm named_peg_out named_peg_out_confirm : TxName
  named_kick_off_1 named_kick_off_2 named_assert_initial named_assert_final : TxName

pub record NamedTx : Type 0 where
  pub txid : Bytes
  pub name : TxName
  pub confirmed : Bool

pub data GraphError : Type 0 where
  preceding_tx_not_created : TxName → GraphError
  preceding_tx_not_confirmed : List NamedTx → GraphError
  preceding_tx_timelock_not_met : NamedTx → GraphError

-- The constructors of `Error` that the graphs' operations here return.
pub data Error (E : Type 0) : Type 0 where
  esplora : E → Error E
  graph : GraphError → Error E
  already_mined : Bytes → Error E
  peg_out_not_initiated : Error E
  peg_out_graph_not_found : Bytes → Error E
  operator_context_not_defined : Error E

module _ {E : Type 0} where
  unfoldable pub is_confirmed : Client E → Bytes → Result Bool E
  is_confirmed client txid = confirmed_of (client.get_tx_status txid)
    where
      confirmed_of : Result TxStatus E → Result Bool E
      confirmed_of (ok x) = ok x.confirmed
      confirmed_of (err e) = err e

  unfoldable pub verify_if_not_mined : Client E → Bytes → Result (Unit {0}) (Error E)
  unfolding is_confirmed
  verify_if_not_mined client txid = verified (is_confirmed client txid)
    where
      verified : Result Bool E → Result (Unit {0}) (Error E)
      verified (ok false) = ok tt
      verified (ok true) = err (already_mined txid)
      verified (err e) = err (esplora e)

  -- `is_ok_and(|status| status.confirmed)` and `is_ok_and(|status| !status.confirmed)`
  abbrev pub is_ok_confirmed : Result TxStatus E → Bool
  is_ok_confirmed (ok status) = status.confirmed
  is_ok_confirmed (err e) = false

  abbrev pub is_ok_unconfirmed : Result TxStatus E → Bool
  is_ok_unconfirmed (ok status) = not status.confirmed
  is_ok_unconfirmed (err e) = false

  -- `as_ref().unwrap().block_height`, only used on a confirmed status.
  abbrev pub height_of : Result TxStatus E → Option ℕ
  height_of (ok status) = status.block_height
  height_of (err e) = none

  -- A transaction's timelock has run out at the height of the chain. The sum of `u32` wraps.
  unfoldable pub is_matured : Option ℕ → ℕ → Result ℕ E → Bool
  is_matured (some block_height) timelock (ok height) =
      leb ((block_height + timelock) % 2 ^ 32) height
  is_matured (some block_height) timelock (err e) = false
  is_matured none timelock height = false

-- The `?` operator after a check.
infixr 25 ◌⟫◌
abbrev pub ◌⟫◌ : {A F : Type 0} → Result (Unit {0}) F → Result A F → Result A F
ok u ⟫ r = r
err e ⟫ r = err e

module _ {E A : Type 0} where
  -- The match on the status of a preceding transaction: its use where it is confirmed.
  abbrev pub if_confirmed :
      Result TxStatus E → NamedTx → (TxStatus → Result A (Error E)) → Result A (Error E)
  if_confirmed (ok status) tx use_status =
      if status.confirmed
      then use_status status
      else err (graph (preceding_tx_not_confirmed (tx ∷ [])))
  if_confirmed (err e) tx use_status = err (esplora e)

  -- The same with a timelock on it.
  unfoldable pub if_matured :
      Result TxStatus E → TxName → Bytes → ℕ → Result ℕ E → Result A (Error E) → Result A (Error E)
  unfolding is_matured
  if_matured status name txid timelock height result =
      if_confirmed status (record { txid = txid; name = name; confirmed = false })
        λ s.
          if is_matured s.block_height timelock height
          then result
          else err (
              graph (
                preceding_tx_timelock_not_met
                  (record { txid = txid; name = name; confirmed = true })))
