-- ===== src/Winternitz/Verify/Checksum.antt =====
-- `verify_checksum` on the digits that `verify_digits` leaves.
use native.Mathlib.Nat.{mul-le-mul_left, mul-le-mul_right, le_trans, le_of_lt}
use bit_vm.Prelude.{
  ℕ, ◌+◌, ◌-◌, ◌*◌, ◌^◌, ◌≤◌, ◌<◌, ◌≡◌, sym, ap, ◌∙◌, subst, Bool, none, some, List, [], ◌∷◌, arith,
  ◌==◌, if◌then◌else◌, length, All,
}
use bit_vm.Prelude.Int.{ℤ, pos, ◌+ℤ◌, ◌-ℤ◌, magnitude}
use bit_vm.Script.Run.{repeat, Runs, run-after}
use bit_vm.Winternitz.Digits.{number_from, number, sum}
use bit_vm.Winternitz.Checksum.{IsValid, base_bounds, product_bounds, IsMessage, message_sum-le}
use bit_vm.Winternitz.Verify.Sum.{digits, turned, negated_size, number-Runs, sum-Runs}
use bit_vm.Hashing.{Bytes}
use bit_vm.Script.Defs.{
  num, Stack, push, op_fromaltstack, op_dup, op_tuck, op_add, op_sub, op_negate, op_equalverify,
  state, run,
}
use bit_vm.U32.Stack.{byte}
use bit_vm.Winternitz.Defs.{Parameters, max_digit}
use bit_vm.Winternitz.Verify.Defs.{add_digit, verify_checksum}

negated_plus : (M S : ℕ) → S ≤ M → (pos 0 -ℤ pos S) +ℤ pos M ≡ pos (M - S)
negated_plus M S h = ground arith

digit_bound : (m : ℕ) (ds : List ℕ) → m < 256 → All (λ d. d ≤ m) ds → All (λ d. d < 256) ds
digit_bound m [] h a = tt
digit_bound m (d ∷ ds) h a = (omega arith, digit_bound m ds h a.1)

-- Digits whose checksum is a given number.
abbrev pub sums_to : Parameters → List ℕ → List ℕ → Bool
sums_to ps ds cs = max_digit ps * ps.message_digit_len - sum ds == number (max_digit ps + 1) cs

module _ (hash160 : Bytes → Bytes) (ps : Parameters) (s t : Stack) where
  first-Runs :
      (d : ℕ) (u : Stack)
      → d < 256
      → Runs hash160
          (op_fromaltstack ∷ op_dup ∷ op_negate ∷ [])
          (state s (byte d ∷ u))
          (state (num (pos 0 -ℤ pos d) ∷ byte d ∷ s) u)
  unfolding run
  first-Runs d u h = record { runs = ground arith }

  total-Runs :
      (M c : ℕ) (z : ℤ) (r u : Stack)
      → M < 2 ^ 31
      → magnitude z < 2 ^ 31
      → Runs hash160
          (push (pos M) ∷ op_add ∷ op_fromaltstack ∷ [])
          (state (num z ∷ r) (byte c ∷ u))
          (state (byte c ∷ num (z +ℤ pos M) ∷ r) u)
  unfolding run
  total-Runs M c z r u h k = record { runs = ground arith }

  compared :
      (a b : ℕ) (r : Stack)
      → run hash160 (op_equalverify ∷ []) (state (byte a ∷ byte b ∷ r) t)
        ≡ (if b == a then some (state r t) else none)
  unfolding run
  compared a b r = ground arith

  module _ (v : IsValid ps) where
    bounds :
        (max_digit ps < 256)
        × (2 ^ ps.log2_base ≡ max_digit ps + 1)
        × (max_digit ps * ps.message_digit_len ≤ 255 * 2 ^ 15)
    bounds =
        let (lo, hi) = base_bounds ps.log2_base v.base.0 v.base.1 in
        (
          omega (arith, hi),
          omega (arith, lo),
          product_bounds (max_digit ps) ps.message_digit_len (omega (arith, hi)) v.digits.1,
        )

    -- The loop over the digits of the message but the first.
    summed :
        (d : ℕ) (ds : List ℕ) (u : Stack)
        → IsMessage ps (d ∷ ds)
        → Runs hash160
            (repeat (ps.message_digit_len - 1) (op_fromaltstack ∷ op_tuck ∷ op_sub ∷ []))
            (state (num (pos 0 -ℤ pos d) ∷ byte d ∷ s) (digits ds u))
            (state (num (pos 0 -ℤ pos (d + sum ds)) ∷ turned ds (byte d ∷ s)) u)
    unfolding sum
    summed d ds u m =
        let (top, base, room) = bounds in
        let below : d + sum ds ≤ max_digit ps * ps.message_digit_len =
          message_sum-le ps (d ∷ ds) m in
        let less : length ds ≡ ps.message_digit_len - 1 = omega (arith, m.0) in
        subst
          (λ (k : ℕ).
            Runs hash160 (repeat k (op_fromaltstack ∷ op_tuck ∷ op_sub ∷ []))
              (state (num (pos 0 -ℤ pos d) ∷ byte d ∷ s) (digits ds u))
              (state (num (pos 0 -ℤ pos (d + sum ds)) ∷ turned ds (byte d ∷ s)) u))
          less
          (sum-Runs hash160 d ds (byte d ∷ s) u (omega (arith, below, room))
            (digit_bound (max_digit ps) ds top m.1.1))

    -- The checksum that the message should have, and the first digit of the one it has.
    totalled :
        (S c : ℕ) (r u : Stack)
        → S ≤ max_digit ps * ps.message_digit_len
        → Runs hash160
            (push (pos (max_digit ps * ps.message_digit_len)) ∷ op_add ∷ op_fromaltstack ∷ [])
            (state (num (pos 0 -ℤ pos S) ∷ r) (byte c ∷ u))
            (state (byte c ∷ byte (max_digit ps * ps.message_digit_len - S) ∷ r) u)
    totalled S c r u below =
        let (top, base, room) = bounds in
        let M : ℕ = max_digit ps * ps.message_digit_len in
        subst
          (λ z.
            Runs hash160 (push (pos M) ∷ op_add ∷ op_fromaltstack ∷ [])
              (state (num (pos 0 -ℤ pos S) ∷ r) (byte c ∷ u)) (state (byte c ∷ num z ∷ r) u))
          (negated_plus M S below)
          (total-Runs M c (pos 0 -ℤ pos S) r u (omega (arith, room))
            (negated_size S (omega (arith, below, room))))

    -- The loop over the digits of the checksum but the first.
    numbered :
        (c : ℕ) (cs : List ℕ) (r : Stack)
        → length (c ∷ cs) ≡ ps.checksum_digit_len
        → All (λ d. d ≤ max_digit ps) (c ∷ cs)
        → Runs hash160
            (repeat (ps.checksum_digit_len - 1) (add_digit ps))
            (state (byte c ∷ r) (digits cs t))
            (state (byte (number_from (max_digit ps + 1) c cs) ∷ r) t)
    numbered c cs r e a =
        let (top, base, room) = bounds in
        let B : ℕ = max_digit ps + 1 in
        let less : length cs ≡ ps.checksum_digit_len - 1 = omega (arith, e) in
        let few : B ^ length cs < 2 ^ 23 =
          subst (λ (k : ℕ). B ^ k < 2 ^ 23) (sym less)
            (subst (λ (b : ℕ). b ^ (ps.checksum_digit_len - 1) < 2 ^ 23) base v.few) in
        let fits_number : (c + 1) * B ^ length cs ≤ 2 ^ 31 =
          le_trans (mul-le-mul_right (B ^ length cs) (omega (arith, top, a.0)))
            (le_trans (mul-le-mul_left 256 (le_of_lt few)) (omega arith)) in
        subst
          (λ (k : ℕ).
            Runs hash160 (repeat k (add_digit ps)) (state (byte c ∷ r) (digits cs t))
              (state (byte (number_from B c cs) ∷ r) t))
          less (number-Runs hash160 ps c cs r t v a.1 fits_number)

  -- On digits of the message and of the checksum, `verify_checksum` succeeds exactly when the checksum
  -- is the message's, and leaves the message's digits, the last on top.
  pub verify_checksum_lem :
      (ds cs : List ℕ)
      → IsValid ps
      → IsMessage ps ds
      → length cs ≡ ps.checksum_digit_len
      → All (λ d. d ≤ max_digit ps) cs
      → run hash160 (verify_checksum ps) (state s (digits ds (digits cs t)))
        ≡ (if sums_to ps ds cs then some (state (turned ds s) t) else none)
  unfolding verify_checksum number_from sum
  verify_checksum_lem [] cs v m e a = absurd (omega (arith, v.digits.0, m.0))
  verify_checksum_lem (d ∷ ds) [] v m e a = absurd (omega (arith, v.some_digit))
  verify_checksum_lem (d ∷ ds) (c ∷ cs) v m e a =
      let (top, _, _) = bounds v in
      let B : ℕ = max_digit ps + 1 in
      let below : d + sum ds ≤ max_digit ps * ps.message_digit_len = message_sum-le ps (d ∷ ds) m in
      let rest : Stack = turned ds (byte d ∷ s) in
      let right : ℕ = max_digit ps * ps.message_digit_len - (d + sum ds) in
      let first_digit : c ≡ 0 * B + c = omega arith in
      run-after hash160 _
        (first-Runs d (digits ds (byte c ∷ digits cs t)) (omega (arith, top, m.1.0)))
      ∙ run-after hash160 _ (summed v d ds (byte c ∷ digits cs t) m)
      ∙ run-after hash160 _ (totalled v (d + sum ds) c rest (digits cs t) below)
      ∙ run-after hash160 _ (numbered v c cs (byte right ∷ rest) e a)
      ∙ compared (number_from B c cs) right rest
      ∙ ap (λ (k : ℕ). if right == number_from B k cs then some (state rest t) else none)
          first_digit
