-- ===== src/Bridge/Transactions.antt =====
-- bridge/src/transactions: what the peg-out graph does to a transaction that others pay for.
use bit_vm.Prelude.{
  ℕ, ◌+◌, ◌-◌, ◌*◌, ◌/◌, ◌^◌, ◌≤◌, ◌<◌, ◌≡◌, refl, ap, ◌∙◌, inl, inr, true, false, ◌&&◌, not,
  Option, none, some, List, [], ◌∷◌, arith, ltb, leb, if◌then◌else◌, Bool-cases, ◌>>=◌, ◌>>◌,
  assert, length,
}
use bit_vm.Hashing.{Bytes}
use bit_vm.Bridge.PegOut.Defs.{Transactions}

pub record InputWithScript : Type 0 where
  pub outpoint : Bytes
  pub amount : ℕ
  pub script : Bytes

-- The inputs and outputs of a transaction of the crate bitcoin: their numbers, an input or an output
-- more, and a new script of an output; the crate's least fee rate for dust; and
-- `populate_p2wsh_witness`, which signs an input, where `none` is a panic.
pub record Builder (T : Type 0) : Type 0 where
  pub input_len : T → ℕ
  pub output_len : T → ℕ
  pub push_input : T → Bytes → T
  pub push_output : T → ℕ → Bytes → T
  pub set_script_pubkey : T → ℕ → Bytes → T
  pub dust_relay_tx_fee : ℕ
  pub populate_p2wsh_witness : T → ℕ → InputWithScript → Option T

-- `Amount` panics where a sum exceeds a u64.
unfoldable pub add_amounts : ℕ → List InputWithScript → Option ℕ
add_amounts total [] = some total
add_amounts total (i ∷ is) =
    if ltb (total + i.amount) (2 ^ 64) then add_amounts (total + i.amount) is else none

module _ {T : Type 0} (b : Builder T) where
  abbrev pub dust_amount : ℕ
  dust_amount = (43 + 67) * (b.dust_relay_tx_fee / 1000)

  -- The loop over the inputs.
  unfoldable pub add_inputs : List InputWithScript → T → Option T
  add_inputs [] t = some t
  add_inputs (i ∷ is) t = do
    t' ← b.populate_p2wsh_witness (b.push_input t i.outpoint) (b.input_len t) i
    add_inputs is t'

  -- The match on the order of the two amounts.
  unfoldable pub add_refund : ℕ → ℕ → Bytes → T → Option T
  add_refund total input_amount_crowdfunding output_script_pubkey t =
      if ltb total input_amount_crowdfunding
      then none
      else if ltb input_amount_crowdfunding total
          && leb dust_amount (total - input_amount_crowdfunding)
      then some (b.push_output t (total - input_amount_crowdfunding) output_script_pubkey)
      else some t

  unfoldable pub add_inputs_and_output : ℕ → List InputWithScript → Bytes → T → Option T
  unfolding add_amounts add_inputs add_refund
  add_inputs_and_output input_amount_crowdfunding inputs output_script_pubkey t = do
    assert (not (ltb 1 (b.input_len t)))
    total ← add_amounts 0 inputs
    t' ← add_refund total input_amount_crowdfunding output_script_pubkey t
    add_inputs inputs t'

  -- `add_output` of the two timeouts: an index that is out of range panics.
  unfoldable pub add_output : Bytes → T → Option T
  add_output output_script_pubkey t =
      if ltb 1 (b.output_len t) then some (b.set_script_pubkey t 1 output_script_pubkey) else none

  module _ {X : Type 0} (tx : Transactions T X) where
    unfoldable pub finalize_challenge : T → Option X
    finalize_challenge t = if ltb (b.input_len t) 2 then none else some (tx.finalize t)

    -- `finalize` of the two timeouts.
    unfoldable pub finalize_timeout : T → Option X
    finalize_timeout t = if ltb (b.output_len t) 2 then none else some (tx.finalize t)

-- The documented behaviour of the crate's vectors, and that signing an input that there is succeeds.
pub record IsBuilder {T : Type 0} (b : Builder T) : Type 0 where
  pub push_input_len : (t : T) (o : Bytes) → b.input_len (b.push_input t o) ≡ b.input_len t + 1
  pub push_output_len :
      (t : T) (v : ℕ) (s : Bytes) → b.input_len (b.push_output t v s) ≡ b.input_len t
  pub set_script_pubkey_len :
      (t : T) (n : ℕ) (s : Bytes) → b.output_len (b.set_script_pubkey t n s) ≡ b.output_len t
  pub populate_len :
      (t : T) (n : ℕ) (i : InputWithScript)
      → n < b.input_len t
      → (t' : T) × (b.populate_p2wsh_witness t n i ≡ some t') × (b.input_len t' ≡ b.input_len t)

unfoldable pub total_amount : List InputWithScript → ℕ
total_amount [] = 0
total_amount (i ∷ is) = i.amount + total_amount is

add_amounts-total_amount :
    (total : ℕ) (is : List InputWithScript)
    → total + total_amount is < 2 ^ 64
    → add_amounts total is ≡ some (total + total_amount is)
unfolding add_amounts total_amount
add_amounts-total_amount total [] h = ap some (omega arith)
add_amounts-total_amount total (i ∷ is) h =
    let fits : ltb (total + i.amount) (2 ^ 64) ≡ true = ground arith in
    rw fits (add_amounts-total_amount (total + i.amount) is (omega arith) ∙ ap some (omega arith))

module _ {T : Type 0} (b : Builder T) (laws : IsBuilder b) where
  add_inputs_lem :
      (is : List InputWithScript) (t : T)
      → (t' : T) × (add_inputs b is t ≡ some t') × (b.input_len t' ≡ b.input_len t + length is)
  unfolding add_inputs
  add_inputs_lem [] t = (t, refl, omega arith)
  add_inputs_lem (i ∷ is) t =
      let (t₁, e, l) =
        laws.populate_len (b.push_input t i.outpoint) (b.input_len t) i
          (omega (arith, laws.push_input_len t i.outpoint)) in
      let (t₂, f, m) = add_inputs_lem is t₁ in
      (t₂, rw e f, omega (arith, laws.push_input_len t i.outpoint, l, m))

  add_refund_lem :
      (total crowdfunding : ℕ) (script : Bytes) (t : T)
      → crowdfunding ≤ total
      → (t' : T) × (add_refund b total crowdfunding script t ≡ some t')
        × (b.input_len t' ≡ b.input_len t)
  unfolding add_refund
  add_refund_lem total crowdfunding script t h =
      let enough : ltb total crowdfunding ≡ false = ground arith in
      elim (Bool-cases (ltb crowdfunding total && leb (dust_amount b) (total - crowdfunding))) [
        | inl refunded ↦ (
          b.push_output t (total - crowdfunding) script,
          rw (enough, refunded) refl,
          laws.push_output_len t (total - crowdfunding) script,
        )
        | inr none_left ↦ (t, rw (enough, none_left) refl, refl)
      ]

  -- Inputs that pay enough are added to a challenge that has none yet, and then it can be finalized.
  pub add_inputs_and_output-finalize :
      {X : Type 0} (tx : Transactions T X) (crowdfunding : ℕ) (is : List InputWithScript)
      (script : Bytes) (t : T)
      → b.input_len t ≡ 1
      → 0 < length is
      → crowdfunding ≤ total_amount is
      → total_amount is < 2 ^ 64
      → (t' : T) × (x : X) × (add_inputs_and_output b crowdfunding is script t ≡ some t')
        × (finalize_challenge b tx t' ≡ some x)
  unfolding add_inputs_and_output finalize_challenge
  add_inputs_and_output-finalize tx crowdfunding is script t one some_input enough small =
      let (t₁, e, l) = add_refund_lem (total_amount is) crowdfunding script t enough in
      let (t₂, f, m) = add_inputs_lem is t₁ in
      let total : add_amounts 0 is ≡ some (total_amount is) =
        add_amounts-total_amount 0 is (omega arith) ∙ ap some (omega arith) in
      let first : ltb 1 (b.input_len t) ≡ false = ground (arith, one) in
      let two : ltb (b.input_len t₂) 2 ≡ false = ground (arith, one, l, m) in
      (t₂, tx.finalize t₂, rw (first, total, e) f, rw two refl)

  pub add_output-finalize :
      {X : Type 0} (tx : Transactions T X) (script : Bytes) (t : T)
      → 1 < b.output_len t
      → (t' : T) × (x : X) × (add_output b script t ≡ some t') × (finalize_timeout b tx t' ≡ some x)
  unfolding add_output finalize_timeout
  add_output-finalize tx script t h =
      let there : ltb 1 (b.output_len t) ≡ true = ground arith in
      let enough : ltb (b.output_len (b.set_script_pubkey t 1 script)) 2 ≡ false =
        ground (arith, laws.set_script_pubkey_len t 1 script) in
      (
        b.set_script_pubkey t 1 script,
        tx.finalize (b.set_script_pubkey t 1 script),
        rw there refl,
        rw enough refl,
      )
