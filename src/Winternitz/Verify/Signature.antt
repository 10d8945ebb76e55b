-- ===== src/Winternitz/Verify/Signature.antt =====
-- `checksig_verify` computes the message that a signature carries, or fails.
use bit_vm.Prelude.{
  ℕ, zero, suc, ◌+◌, ◌≤◌, ◌≡◌, refl, sym, ap, ◌∙◌, inl, inr, Option, some, List, [], ◌∷◌, ◌++◌,
  arith, Bool-cases, Option-cases, ◌>>=◌, ◌>>◌, assert, >>=-eq-some, some_inj, length, All,
}
use bit_vm.Script.Run.{◌⨾◌, run-append}
use bit_vm.Hashing.{Bytes}
use bit_vm.Script.Defs.{Item, Stack, Script, state, run}
use bit_vm.U32.Stack.{byte}
use bit_vm.Winternitz.Defs.{Parameters, max_digit, total_digit_len}
use bit_vm.Winternitz.Checksum.{IsValid}
use bit_vm.Winternitz.Binary.Defs.{verify_digits}
use bit_vm.Winternitz.Verify.Defs.{verify_checksum, checksig_verify}
use bit_vm.Winternitz.Verify.Sum.{digits, turned}
use bit_vm.Winternitz.Verify.Checksum.{sums_to, verify_checksum_lem}
use bit_vm.Winternitz.Verify.Digits.{pile, read_from, verify_from-reads, read_from-IsDigits}

-- A list in two parts, the first of `n` elements.
unfoldable pub split : ℕ → List ℕ → List ℕ × List ℕ
split zero ds = ([], ds)
split (suc n) [] = ([], [])
split (suc n) (d ∷ ds) = let (first, second) = split n ds in (d ∷ first, second)

split_lem :
    (m : ℕ) (n k : ℕ) (ds : List ℕ)
    → length ds ≡ n + k
    → All (λ d. d ≤ m) ds
    → let (first, second) = split n ds in
      (first ++ second ≡ ds)
      × (length first ≡ n)
      × (length second ≡ k)
      × All (λ d. d ≤ m) first
      × All (λ d. d ≤ m) second
unfolding split
split_lem m zero k ds e a = (refl, refl, omega (arith, e), tt, a)
split_lem m (suc n) k [] e a = absurd (omega arith)
split_lem m (suc n) k (d ∷ ds) e a =
    let (whole, len, len', below, below') = split_lem m n k ds (omega arith) a.1 in
    (ap (λ l. d ∷ l) whole, omega (arith, len), len', (a.0, below), below')

pub split-append : (xs ys : List ℕ) → split (length xs) (xs ++ ys) ≡ (xs, ys)
unfolding split
split-append [] ys = refl
split-append (x ∷ xs) ys = rw (split-append xs ys) refl

digits-append : (xs ys : List ℕ) (t : Stack) → digits (xs ++ ys) t ≡ digits xs (digits ys t)
digits-append [] ys t = refl
digits-append (x ∷ xs) ys t = ap (λ u. byte x ∷ u) (digits-append xs ys t)

module _ (hash160 : Bytes → Bytes) (ps : Parameters) where
  -- What `checksig_verify` promises: the message of a signature whose digits the keys accept and
  -- whose checksum is that of the message.
  unfoldable pub recover : List Bytes → List (Item × Item) → Option (List ℕ)
  unfolding read_from
  recover keys pairs = do
    ds ← read_from hash160 ps keys (total_digit_len ps) pairs []
    assert (sums_to ps (split ps.message_digit_len ds).0 (split ps.message_digit_len ds).1)
    some (split ps.message_digit_len ds).0

  checked :
      (ds : List ℕ) (s t : Stack)
      → IsValid ps
      → length ds ≡ total_digit_len ps
      → All (λ d. d ≤ max_digit ps) ds
      → run hash160 (verify_checksum ps) (state s (digits ds t)) ≡ (
          assert (sums_to ps (split ps.message_digit_len ds).0 (split ps.message_digit_len ds).1)
          >> some (state (turned (split ps.message_digit_len ds).0 s) t))
  checked ds s t v e a =
      let (whole, len, len', below, below') =
        split_lem (max_digit ps) ps.message_digit_len ps.checksum_digit_len ds e a in
      ap (λ l. run hash160 (verify_checksum ps) (state s (digits l t))) (sym whole)
      ∙ ap (λ u. run hash160 (verify_checksum ps) (state s u))
          (digits-append (split ps.message_digit_len ds).0 (split ps.message_digit_len ds).1 t)
      ∙ verify_checksum_lem hash160 ps s t (split ps.message_digit_len ds).0
          (split ps.message_digit_len ds).1 v (len, below) len' below'
      ∙ elim (Bool-cases
          (sums_to ps (split ps.message_digit_len ds).0 (split ps.message_digit_len ds).1)) [
            | inl agrees ↦ rw agrees refl
            | inr differs ↦ rw differs refl
          ]

  module _ (rest : Script) (s t : Stack) (v : IsValid ps) where
    finish :
        (ds : List ℕ)
        → (length ds ≡ total_digit_len ps + 0) × All (λ d. d ≤ max_digit ps) ds
        → run hash160 (verify_checksum ps ⨾ rest) (state s (digits ds t)) ≡ (
            assert (sums_to ps (split ps.message_digit_len ds).0 (split ps.message_digit_len ds).1)
            >> some (split ps.message_digit_len ds).0
            >>= λ l. run hash160 rest (state (turned l s) t))
    finish ds (len, below) =
        run-append hash160 (verify_checksum ps) rest (state s (digits ds t))
        ∙ ap (λ o. o >>= run hash160 rest) (checked ds s t v (omega (arith, len)) below)
        ∙ elim (Bool-cases
            (sums_to ps (split ps.message_digit_len ds).0 (split ps.message_digit_len ds).1)) [
              | inl agrees ↦ rw agrees refl
              | inr differs ↦ rw differs refl
            ]

    -- The two scripts of a signature, before any others.
    pub recovered :
        (keys : List Bytes) (pairs : List (Item × Item)) (verify : Script)
        → length pairs ≡ total_digit_len ps
        → verify_digits ps keys ≡ some verify
        → run hash160 (verify ⨾ verify_checksum ps ⨾ rest) (state (pile pairs s) t)
          ≡ (recover keys pairs >>= λ ds. run hash160 rest (state (turned ds s) t))
    unfolding recover verify_digits
    recovered keys pairs verify e found =
        run-append hash160 verify (verify_checksum ps ⨾ rest) (state (pile pairs s) t)
        ∙ ap (λ o. o >>= run hash160 (verify_checksum ps ⨾ rest))
            (verify_from-reads hash160 ps keys (total_digit_len ps) pairs [] s t verify v e found)
        ∙ elim (Option-cases (read_from hash160 ps keys (total_digit_len ps) pairs [])) [
          | inl none_read ↦ rw none_read refl
          | inr (ds, read) ↦ rw read (
              finish ds
                (read_from-IsDigits hash160 ps keys (total_digit_len ps) pairs [] ds tt read))
        ]

  -- For valid parameters, and keys for all digits, the script of `checksig_verify` computes `recover`
  -- of any pairs of elements, one for each digit: it leaves the recovered message, the last digit on
  -- top, and fails if there is none.
  pub checksig_verify-recover :
      (keys : List Bytes) (pairs : List (Item × Item)) (s t : Stack) (script : Script)
      → IsValid ps
      → length pairs ≡ total_digit_len ps
      → checksig_verify ps keys ≡ some script
      → run hash160 script (state (pile pairs s) t)
        ≡ (recover keys pairs >>= λ ds. some (state (turned ds s) t))
  unfolding checksig_verify run
  checksig_verify-recover keys pairs s t script v e built =
      let (verify, found, last) = >>=-eq-some (verify_digits ps keys) _ built in
      rw (← some_inj last) (recovered [] s t v keys pairs verify e found)

  pub recover-length :
      (keys : List Bytes) (pairs : List (Item × Item)) (ds : List ℕ)
      → recover keys pairs ≡ some ds
      → length ds ≡ ps.message_digit_len
  unfolding recover
  recover-length keys pairs ds found =
      let (all, read, more) =
        >>=-eq-some (read_from hash160 ps keys (total_digit_len ps) pairs []) _ found in
      let (len, below) =
        read_from-IsDigits hash160 ps keys (total_digit_len ps) pairs [] all tt read in
      let (u, agrees, last) =
        >>=-eq-some
          (assert
            (sums_to ps (split ps.message_digit_len all).0 (split ps.message_digit_len all).1))
          _ more in
      ap length (sym (some_inj last))
      ∙ (split_lem (max_digit ps) ps.message_digit_len ps.checksum_digit_len all
          (omega (arith, len)) below).1
