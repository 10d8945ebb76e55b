-- ===== src/Winternitz/Verify/Clear.antt =====
-- `checksig_verify_and_clear_stack` drops the message.
use bit_vm.Prelude.{
  ℕ, zero, suc, ◌+◌, ◌/◌, ◌%◌, ◌<◌, ◌≡◌, refl, ap, ◌∙◌, inl, inr, some, List, [], ◌∷◌, ◌++◌, arith,
  ◌==◌, if◌then◌else◌, Option-cases, ◌>>=◌, >>=-eq-some, some_inj, length,
}
use bit_vm.Script.Run.{◌⨾◌, repeat, run-append}
use bit_vm.Hashing.{Bytes}
use bit_vm.Script.Defs.{Item, Stack, op_drop, op_2drop, Script, state, run}
use bit_vm.U32.Stack.{byte}
use bit_vm.Winternitz.Defs.{Parameters, total_digit_len}
use bit_vm.Winternitz.Checksum.{IsValid}
use bit_vm.Winternitz.Binary.Defs.{verify_digits}
use bit_vm.Winternitz.Verify.Defs.{checksig_verify_and_clear_stack}
use bit_vm.Winternitz.Verify.Sum.{turned}
use bit_vm.Winternitz.Verify.Digits.{pile}
use bit_vm.Winternitz.Verify.Signature.{recover, recovered, recover-length}

-- What `checksig_verify_and_clear_stack` adds, to drop `n` elements.
abbrev drops : ℕ → Script
drops n = repeat (n / 2) (op_2drop ∷ []) ⨾ (if n % 2 == 1 then op_drop ∷ [] else [])

pub turned-append : (ds : List ℕ) (xs s : Stack) → turned ds (xs ++ s) ≡ turned ds xs ++ s
turned-append [] xs s = refl
turned-append (d ∷ ds) xs s = turned-append ds (byte d ∷ xs) s

pub length-turned : (ds : List ℕ) (s : Stack) → length (turned ds s) ≡ length ds + length s
length-turned [] s = omega arith
length-turned (d ∷ ds) s = length-turned ds (byte d ∷ s) ∙ omega arith

module _ (hash160 : Bytes → Bytes) (t : Stack) where
  by_twos :
      (k r : ℕ) (xs s : Stack)
      → length xs ≡ k + k + r
      → (ys : Stack) × (length ys ≡ r)
        × (run hash160 (repeat k (op_2drop ∷ [])) (state (xs ++ s) t) ≡ some (state (ys ++ s) t))
  unfolding repeat run
  by_twos zero r xs s e = (xs, omega (arith, e), refl)
  by_twos (suc k) r [] s e = absurd (omega arith)
  by_twos (suc k) r (x ∷ []) s e = absurd (omega arith)
  by_twos (suc k) r (x ∷ y ∷ xs) s e = by_twos k r xs s (omega arith)

  drop_last :
      (r : ℕ) (ys s : Stack)
      → r < 2
      → length ys ≡ r
      → run hash160 (if r == 1 then op_drop ∷ [] else []) (state (ys ++ s) t) ≡ some (state s t)
  unfolding run
  drop_last zero [] s h e = refl
  drop_last zero (y ∷ ys) s h e = absurd (omega arith)
  drop_last (suc zero) [] s h e = absurd (omega arith)
  drop_last (suc zero) (y ∷ []) s h e = refl
  drop_last (suc zero) (y ∷ z ∷ ys) s h e = absurd (omega arith)
  drop_last (suc (suc r)) ys s h e = absurd (omega arith)

  drops_lem :
      (n : ℕ) (xs s : Stack)
      → length xs ≡ n
      → run hash160 (drops n) (state (xs ++ s) t) ≡ some (state s t)
  drops_lem n xs s e =
      let (ys, len, ran) = by_twos (n / 2) (n % 2) xs s (omega arith) in
      run-append hash160 (repeat (n / 2) (op_2drop ∷ [])) _ (state (xs ++ s) t)
      ∙ rw ran (drop_last (n % 2) ys s (omega arith) len)

  cleared :
      (n : ℕ) (ds : List ℕ) (s : Stack)
      → length ds ≡ n
      → run hash160 (drops n) (state (turned ds s) t) ≡ some (state s t)
  cleared n ds s e =
      ap (λ u. run hash160 (drops n) (state u t)) (turned-append ds [] s)
      ∙ drops_lem n (turned ds []) s (length-turned ds [] ∙ omega (arith, e))

module _ (hash160 : Bytes → Bytes) (ps : Parameters) where
  -- For valid parameters, and keys for all digits, the script of `checksig_verify_and_clear_stack`
  -- succeeds on any pairs of elements, one for each digit, exactly when `recover` has a message for
  -- them, and removes them from the stack.
  pub checksig_verify_and_clear_stack-recover :
      (keys : List Bytes) (pairs : List (Item × Item)) (s t : Stack) (script : Script)
      → IsValid ps
      → length pairs ≡ total_digit_len ps
      → checksig_verify_and_clear_stack ps keys ≡ some script
      → run hash160 script (state (pile pairs s) t)
        ≡ (recover hash160 ps keys pairs >>= λ ds. some (state s t))
  unfolding checksig_verify_and_clear_stack
  checksig_verify_and_clear_stack-recover keys pairs s t script v e built =
      let (verify, found, last) = >>=-eq-some (verify_digits ps keys) _ built in
      rw (← some_inj last) (
        recovered hash160 ps (drops ps.message_digit_len) s t v keys pairs verify e found
        ∙ elim (Option-cases (recover hash160 ps keys pairs)) [
          | inl none_recovered ↦ rw none_recovered refl
          | inr (ds, got) ↦ rw got (
              cleared hash160 t ps.message_digit_len ds s
                (recover-length hash160 ps keys pairs ds got))
        ])
