-- ===== src/Winternitz/Verify/Number.antt =====
-- utils.rs: `digits_to_number` on the digits that a verified signature leaves.
use native.Mathlib.Nat.{pow-suc, mul-le-mul_left}
use bit_vm.Prelude.{
  ℕ, suc, ◌+◌, ◌-◌, ◌*◌, ◌^◌, ◌≤◌, ◌<◌, ◌≡◌, refl, sym, ap, ap₂, ◌∙◌, subst, some, List, [], ◌∷◌,
  ◌++◌, arith, ◌>>=◌, length, All,
}
use bit_vm.Script.Run.{repeat, run-append}
use bit_vm.Hashing.{Bytes}
use bit_vm.Script.Defs.{Stack, op_toaltstack, state, run}
use bit_vm.U32.Stack.{byte}
use bit_vm.Winternitz.Digits.{checksum_to_digits, number_from, number, checksum_to_digits_lem}
use bit_vm.Winternitz.Defs.{Parameters, max_digit}
use bit_vm.Winternitz.Checksum.{IsValid, All-lt}
use bit_vm.Winternitz.Verify.Defs.{add_digit, digits_to_number}
use bit_vm.Winternitz.Verify.Sum.{digits, turned, number-Runs}
use bit_vm.Winternitz.Verify.Clear.{turned-append, length-turned}

-- Elements in the opposite order.
abbrev over : Stack → Stack → Stack
over [] t = t
over (x ∷ xs) t = over xs (x ∷ t)

over-turned : (ds : List ℕ) (u t : Stack) → over (turned ds u) t ≡ over u (digits ds t)
over-turned [] u t = refl
over-turned (d ∷ ds) u t = over-turned ds (byte d ∷ u) t

module _ (hash160 : Bytes → Bytes) where
  moved :
      (xs s t : Stack)
      → run hash160 (repeat (length xs) (op_toaltstack ∷ [])) (state (xs ++ s) t)
        ≡ some (state s (over xs t))
  unfolding repeat run
  moved [] s t = refl
  moved (x ∷ xs) s t = moved xs s (x ∷ t)

  moved-turned :
      (ds : List ℕ) (s t : Stack)
      → run hash160 (repeat (length ds) (op_toaltstack ∷ [])) (state (turned ds s) t)
        ≡ some (state s (digits ds t))
  moved-turned ds s t =
      ap₂ (λ (n : ℕ) u. run hash160 (repeat n (op_toaltstack ∷ [])) (state u t))
        (sym (length-turned ds [] ∙ omega arith)) (turned-append ds [] s)
      ∙ moved (turned ds []) s t
      ∙ ap (λ u. some (state s u)) (over-turned ds [] t)

  number_Runs :
      (ps : Parameters) (ds : List ℕ) (s t : Stack)
      → IsValid ps
      → 0 < length ds
      → All (λ d. d ≤ max_digit ps) ds
      → (max_digit ps + 1) ^ length ds ≤ 2 ^ 31
      → run hash160 (digits_to_number (length ds) ps.log2_base) (state (turned ds s) t)
        ≡ some (state (byte (number (max_digit ps + 1) ds) ∷ s) t)
  unfolding digits_to_number number_from
  number_Runs ps [] s t v p a small = absurd (omega arith)
  number_Runs ps (d ∷ ds) s t v p a small =
      let rest : suc (length ds) - 1 ≡ length ds = omega arith in
      let B : ℕ = max_digit ps + 1 in
      let power : B ^ suc (length ds) ≡ B ^ length ds * B = pow-suc B (length ds) in
      let grown : B ^ length ds * (d + 1) ≤ B ^ length ds * B =
        mul-le-mul_left (B ^ length ds) (omega (arith, a.0)) in
      let turn : B ^ length ds * (d + 1) ≡ (d + 1) * B ^ length ds = grind arith in
      rw rest (
        run-append hash160 (repeat (length ds) (op_toaltstack ∷ []))
          (repeat (length ds) (add_digit ps)) (state (turned ds (byte d ∷ s)) t)
        ∙ ap (λ o. o >>= run hash160 (repeat (length ds) (add_digit ps)))
            (moved-turned ds (byte d ∷ s) t)
        ∙ (number-Runs hash160 ps d ds s t v a.1 (omega (arith, power, grown, turn, small))).runs
        ∙ ap (λ (k : ℕ). some (state (byte (number_from B k ds) ∷ s) t)) (omega arith))

  -- For valid parameters, the digits of a number below a power of the base that is at most 2^31 are
  -- turned back into the number by the script of `digits_to_number`, the last digit on top.
  pub digits_to_number-checksum_to_digits :
      (ps : Parameters) (n x : ℕ) (s t : Stack)
      → IsValid ps
      → 0 < n
      → x < (max_digit ps + 1) ^ n
      → (max_digit ps + 1) ^ n ≤ 2 ^ 31
      → run hash160
          (digits_to_number n ps.log2_base)
          (state (turned (checksum_to_digits x (max_digit ps + 1) n) s) t)
        ≡ some (state (byte x ∷ s) t)
  digits_to_number-checksum_to_digits ps n x s t v p below small =
      let (value, len, digit) = checksum_to_digits_lem n (max_digit ps + 1) x (omega arith) below in
      let ds : List ℕ = checksum_to_digits x (max_digit ps + 1) n in
      ap (λ (k : ℕ). run hash160 (digits_to_number k ps.log2_base) (state (turned ds s) t))
        (sym len)
      ∙ number_Runs ps ds s t v (omega (arith, len)) (All-lt (max_digit ps) ds digit)
          (subst (λ (k : ℕ). (max_digit ps + 1) ^ k ≤ 2 ^ 31) (sym len) small)
      ∙ ap (λ (k : ℕ). some (state (byte k ∷ s) t)) value
