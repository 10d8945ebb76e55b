-- ===== src/Winternitz/Verify/Digits.antt =====
-- `verify_digits` reads the digits of a signature.
use bit_vm.Prelude.{
  ℕ, zero, suc, ◌+◌, ◌≤◌, ◌≡◌, refl, ap, ◌∙◌, inl, inr, Option, none, some, List, [], ◌∷◌, arith,
  if◌then◌else◌, Bool-cases, Option-cases, ◌>>=◌, >>=-eq-some, some_inj, length, get_elem?, All,
}
use bit_vm.Script.Run.{◌⨾◌, run-append}
use bit_vm.Prelude.Int.{pos, negsuc}
use bit_vm.Hashing.{Bytes}
use bit_vm.Script.Defs.{Item, num, str, Stack, Script, state, run}
use bit_vm.U32.Stack.{byte}
use bit_vm.Winternitz.Defs.{Parameters, max_digit}
use bit_vm.Winternitz.Checksum.{IsValid}
use bit_vm.Winternitz.Binary.Defs.{verify_digit, verify_from}
use bit_vm.Winternitz.Binary.Digit.{accepts, verify_digit-accepts}
use bit_vm.Winternitz.Verify.Sum.{digits}

-- A signature as pairs of a digit and a hash, the last digit first, on a stack.
abbrev pub pile : List (Item × Item) → Stack → Stack
pile [] s = s
pile ((x, y) ∷ r) s = x ∷ y ∷ pile r s

module _ (hash160 : Bytes → Bytes) (ps : Parameters) where
  -- What a verifier promises: the digit of an element that the key accepts.
  unfoldable pub read_digit : Bytes → Item → Item → Option ℕ
  read_digit key (num (pos d)) y = if accepts hash160 ps key (num (pos d)) y then some d else none
  read_digit key (num (negsuc n)) y = none
  read_digit key (str a) y = none

  -- The digits of a signature in front of `acc`.
  unfoldable pub read_from : List Bytes → ℕ → List (Item × Item) → List ℕ → Option (List ℕ)
  unfolding read_digit
  read_from keys zero [] acc = some acc
  read_from keys zero (p ∷ r) acc = none
  read_from keys (suc n) [] acc = none
  read_from keys (suc n) ((x, y) ∷ r) acc = do
    key ← get_elem? keys n
    d ← read_digit key x y
    read_from keys n r (d ∷ acc)

  read_digit-Runs :
      (key : Bytes) (x y : Item) (s t : Stack)
      → IsValid ps
      → run hash160 (verify_digit ps key) (state (x ∷ y ∷ s) t)
        ≡ (read_digit key x y >>= λ d. some (state s (byte d ∷ t)))
  unfolding read_digit
  read_digit-Runs key (num (pos d)) y s t v =
      verify_digit-accepts hash160 ps key (num (pos d)) y s t v
      ∙ elim (Bool-cases (accepts hash160 ps key (num (pos d)) y)) [
        | inl yes_it ↦ rw yes_it refl
        | inr no_it ↦ rw no_it refl
      ]
  read_digit-Runs key (num (negsuc n)) (num y) s t v =
      verify_digit-accepts hash160 ps key (num (negsuc n)) (num y) s t v
  read_digit-Runs key (num (negsuc n)) (str y) s t v =
      verify_digit-accepts hash160 ps key (num (negsuc n)) (str y) s t v
  read_digit-Runs key (str a) y s t v = verify_digit-accepts hash160 ps key (str a) y s t v

  pub verify_from-reads :
      (keys : List Bytes) (n : ℕ) (pairs : List (Item × Item)) (acc : List ℕ) (s t : Stack)
      (script : Script)
      → IsValid ps
      → length pairs ≡ n
      → verify_from ps keys n ≡ some script
      → run hash160 script (state (pile pairs s) (digits acc t))
        ≡ (read_from keys n pairs acc >>= λ ds. some (state s (digits ds t)))
  unfolding verify_from read_from run
  verify_from-reads keys zero [] acc s t script v e built = rw (← some_inj built) refl
  verify_from-reads keys zero (p ∷ r) acc s t script v e built = absurd (omega arith)
  verify_from-reads keys (suc n) [] acc s t script v e built = absurd (omega arith)
  verify_from-reads keys (suc n) ((x, y) ∷ r) acc s t script v e built =
      let (key, found, more) = >>=-eq-some (get_elem? keys n) _ built in
      let (rest, built', last) = >>=-eq-some (verify_from ps keys n) _ more in
      let first : run hash160 (verify_digit ps key ⨾ rest) (state (x ∷ y ∷ pile r s) (digits acc t))
          ≡ (read_digit key x y
              >>= (λ d. some (state (pile r s) (digits (d ∷ acc) t)))
              >>= run hash160 rest) =
        run-append hash160 (verify_digit ps key) rest (state (x ∷ y ∷ pile r s) (digits acc t))
        ∙ ap (λ o. o >>= run hash160 rest) (read_digit-Runs key x y (pile r s) (digits acc t) v) in
      rw (← some_inj last, found)
        (first ∙ elim (Option-cases (read_digit key x y)) [
          | inl none_read ↦ rw none_read refl
          | inr (d, read) ↦
              rw read (verify_from-reads keys n r (d ∷ acc) s t rest v (omega arith) built')
        ])

  read_digit-le :
      (key : Bytes) (x y : Item) (d : ℕ) → read_digit key x y ≡ some d → d ≤ max_digit ps
  unfolding read_digit
  read_digit-le key (num (pos c)) (str b) d e = ground (arith, e)
  read_digit-le key (num (pos c)) (num z) d e = cc
  read_digit-le key (num (negsuc n)) y d e = cc
  read_digit-le key (str a) y d e = cc

  pub read_from-IsDigits :
      (keys : List Bytes) (n : ℕ) (pairs : List (Item × Item)) (acc ds : List ℕ)
      → All (λ d. d ≤ max_digit ps) acc
      → read_from keys n pairs acc ≡ some ds
      → (length ds ≡ n + length acc) × All (λ d. d ≤ max_digit ps) ds
  unfolding read_from
  read_from-IsDigits keys zero [] acc ds a e = rw (← some_inj e) (omega arith, a)
  read_from-IsDigits keys zero (p ∷ r) acc ds a e = cc
  read_from-IsDigits keys (suc n) [] acc ds a e = cc
  read_from-IsDigits keys (suc n) ((x, y) ∷ r) acc ds a e =
      let (key, found, more) = >>=-eq-some (get_elem? keys n) _ e in
      let (d, read, rest) = >>=-eq-some (read_digit key x y) _ more in
      let (len, below) =
        read_from-IsDigits keys n r (d ∷ acc) ds (read_digit-le key x y d read, a) rest in
      (omega (arith, len), below)
