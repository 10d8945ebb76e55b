-- ===== src/Winternitz/Binary/Digit.antt =====
-- What the verifier of one digit accepts.
use bit_vm.Prelude.{
  ℕ, suc, ◌+◌, ◌-◌, ◌^◌, ◌≤◌, ◌<◌, ◌≡◌, refl, ap, ◌∙◌, inl, inr, Bool, true, false, ◌&&◌, Option,
  none, some, [], ◌∷◌, arith, ltb, leb, ◌==◌, if◌then◌else◌, ltb→lt, leb→le, ==_iff, Bool-cases,
  ◌>>=◌, length, bytes_eq,
}
use bit_vm.Prelude.Int.{ℤ, pos, negsuc, ◌-ℤ◌, magnitude}
use bit_vm.Script.Run.{◌⨾◌, run-append}
use bit_vm.Winternitz.Checksum.{IsValid, base_bounds}
use bit_vm.Winternitz.Binary.Defs.{search_bits, verify_digit}
use bit_vm.Winternitz.Binary.Bits.{search_lem, search_above, search_below}
use bit_vm.Hashing.{Bytes}
use bit_vm.Script.Defs.{
  Item, num, str, Stack, push, push_bytes, op_toaltstack, op_dup, op_swap, op_size, op_sub,
  op_equalverify, Script, State, state, num_size, run,
}
use bit_vm.Winternitz.Defs.{Parameters, max_digit, hash_times}

difference : (m d : ℕ) → d ≤ m → pos m -ℤ pos d ≡ pos (m - d)
difference m d h = ground arith

negative_difference : (m d : ℕ) → m < d → pos m -ℤ pos d ≡ negsuc (d - m - 1)
negative_difference m d h = ground arith

sum_of_difference : (m n : ℕ) → pos m -ℤ negsuc n ≡ pos (m + suc n)
sum_of_difference m n = ground arith

above : (d m : ℕ) → leb d m ≡ false → m < d
above d m h = ground arith

not_below : (d m : ℕ) → ltb d m ≡ false → m ≤ d
not_below d m h = ground arith

large_negative : (n : ℕ) → 2 ^ 31 - 1 ≤ n → 2 ^ 31 ≤ magnitude (negsuc n)
large_negative n h = omega arith

no_match : (a b c : Bool) (st : State) → b ≡ false → none ≡ (if a && b && c then some st else none)
no_match true b c st h = rw h refl
no_match false b c st h = refl

module _ (hash160 : Bytes → Bytes) (m : ℕ) (s t : Stack) where
  -- What stands before the loop over the bits.
  abbrev front : Script
  front =
      op_swap
      ∷ op_size
      ∷ push (pos 20)
      ∷ op_equalverify
      ∷ op_swap
      ∷ op_dup
      ∷ op_toaltstack
      ∷ push (pos m)
      ∷ op_swap
      ∷ op_sub
      ∷ []

  front_num :
      (z : ℤ) (b : Bytes)
      → m < 256
      → length b ≡ 20
      → magnitude z < 2 ^ 31
      → run hash160 front (state (num z ∷ str b ∷ s) t)
        ≡ some (state (num (pos m -ℤ z) ∷ str b ∷ s) (num z ∷ t))
  unfolding run
  front_num z b h e f = rw e (ground arith)

  front_large :
      (z : ℤ) (b : Bytes)
      → 2 ^ 31 ≤ magnitude z
      → run hash160 front (state (num z ∷ str b ∷ s) t) ≡ none
  unfolding run
  front_large z b f = ground arith

  front_size :
      (x : Item) (b : Bytes)
      → (length b == 20) ≡ false
      → run hash160 front (state (x ∷ str b ∷ s) t) ≡ none
  unfolding run
  front_size x b e = rw e refl

  front_num_signature : (x : Item) (z : ℤ) → run hash160 front (state (x ∷ num z ∷ s) t) ≡ none
  unfolding run num_size
  front_num_signature x z = ground arith

  front_str_digit : (a : Bytes) (y : Item) → run hash160 front (state (str a ∷ y ∷ s) t) ≡ none
  unfolding run num_size
  front_str_digit a (num z) = ground arith
  front_str_digit a (str b) = ground arith

module _ (hash160 : Bytes → Bytes) (ps : Parameters) (key : Bytes) where
  -- The digit is in range, and the signature is a hash from which the rest of the chain leads to
  -- the public key.
  abbrev pub accepts : Item → Item → Bool
  accepts (num (pos d)) (str b) =
      leb d (max_digit ps)
      && length b == 20
      && bytes_eq (hash_times hash160 (max_digit ps - d) b) key
  accepts _ _ = false

  -- The rest of the script after what stands before the loop.
  abbrev back : Script
  back = search_bits ps.log2_base ⨾ push_bytes key ∷ op_equalverify ∷ []

  module _ (s t : Stack) where
    after_front :
        (x y : Item) (o : Option State)
        → run hash160 (front hash160 (max_digit ps) s t) (state (x ∷ y ∷ s) t) ≡ o
        → run hash160 (verify_digit ps key) (state (x ∷ y ∷ s) t) ≡ (o >>= run hash160 back)
    unfolding verify_digit
    after_front x y o e =
        run-append hash160 (front hash160 (max_digit ps) s t) back (state (x ∷ y ∷ s) t)
        ∙ ap (λ r. r >>= run hash160 back) e

    after_bits :
        (x z : ℤ) (b : Bytes) (o : Option State)
        → run hash160 (search_bits ps.log2_base) (state (num z ∷ str b ∷ s) (num x ∷ t)) ≡ o
        → run hash160 back (state (num z ∷ str b ∷ s) (num x ∷ t))
          ≡ (o >>= run hash160 (push_bytes key ∷ op_equalverify ∷ []))
    after_bits x z b o e =
        run-append hash160 (search_bits ps.log2_base) (push_bytes key ∷ op_equalverify ∷ [])
          (state (num z ∷ str b ∷ s) (num x ∷ t))
        ∙ ap (λ r. r >>= run hash160 (push_bytes key ∷ op_equalverify ∷ [])) e

    compared :
        (x : ℤ) (h : Bytes)
        → run hash160 (push_bytes key ∷ op_equalverify ∷ []) (state (str h ∷ s) (num x ∷ t))
          ≡ (if bytes_eq h key then some (state s (num x ∷ t)) else none)
    unfolding run
    compared x h = elim (Bool-cases (bytes_eq h key)) [
      | inl same_key ↦ rw same_key refl
      | inr other_key ↦ rw other_key refl
    ]

    module _ (b : Bytes) (v : IsValid ps) (e : length b ≡ 20) where
      max_digit_bounds : (max_digit ps < 256) × (2 ^ ps.log2_base ≡ max_digit ps + 1)
      max_digit_bounds =
          let (lo, hi) = base_bounds ps.log2_base v.base.0 v.base.1 in
          (omega (arith, hi), omega (arith, lo))

      looped :
          (z : ℤ) (o : Option State)
          → magnitude z < 2 ^ 31
          → run hash160
              (search_bits ps.log2_base)
              (state (num (pos (max_digit ps) -ℤ z) ∷ str b ∷ s) (num z ∷ t))
            ≡ o
          → run hash160 (verify_digit ps key) (state (num z ∷ str b ∷ s) t)
            ≡ (o >>= run hash160 (push_bytes key ∷ op_equalverify ∷ []))
      looped z o small ran =
          after_front (num z) (str b) _
            (front_num hash160 (max_digit ps) s t z b max_digit_bounds.0 e small)
          ∙ after_bits z (pos (max_digit ps) -ℤ z) b o ran

      in_range :
          (d : ℕ)
          → d ≤ max_digit ps
          → run hash160 (verify_digit ps key) (state (num (pos d) ∷ str b ∷ s) t) ≡ (
              if bytes_eq (hash_times hash160 (max_digit ps - d) b) key
              then some (state s (num (pos d) ∷ t))
              else none)
      in_range d h =
          looped (pos d)
            (some (state (str (hash_times hash160 (max_digit ps - d) b) ∷ s) (num (pos d) ∷ t)))
            (omega (arith, max_digit_bounds.0))
            (rw (difference (max_digit ps) d h) (
              search_lem hash160 ps.log2_base (max_digit ps - d) b s (num (pos d) ∷ t) v.base.0
                v.base.1 (omega (arith, max_digit_bounds.1))))
          ∙ compared (pos d) (hash_times hash160 (max_digit ps - d) b)

      too_high :
          (d : ℕ)
          → max_digit ps < d
          → d < 2 ^ 31
          → run hash160 (verify_digit ps key) (state (num (pos d) ∷ str b ∷ s) t) ≡ none
      too_high d h small = looped (pos d) none small (
          rw (negative_difference (max_digit ps) d h) (
            search_below hash160 ps.log2_base (d - max_digit ps - 1) b s (num (pos d) ∷ t) v.base.0
              v.base.1 (omega arith)))

      negative_digit :
          (n : ℕ)
          → n < 2 ^ 31 - 1
          → run hash160 (verify_digit ps key) (state (num (negsuc n) ∷ str b ∷ s) t) ≡ none
      negative_digit n small = looped (negsuc n) none (omega arith) (
          rw (sum_of_difference (max_digit ps) n) (
            search_above hash160 ps.log2_base (max_digit ps + suc n) b s (num (negsuc n) ∷ t)
              v.base.0 v.base.1 (omega (arith, max_digit_bounds.1))))

  -- For valid parameters, the script for one digit succeeds on any two elements exactly when they are
  -- a digit in range and a hash of 20 bytes from which hashing as often as the digit lacks to the
  -- largest leads to the public key; it then keeps the digit on the alternative stack.
  pub verify_digit-accepts :
      (x y : Item) (s t : Stack)
      → IsValid ps
      → run hash160 (verify_digit ps key) (state (x ∷ y ∷ s) t)
        ≡ (if accepts x y then some (state s (x ∷ t)) else none)
  verify_digit-accepts (num (pos d)) (str b) s t v = elim (Bool-cases (length b == 20)) [
    | inl sized ↦ elim (Bool-cases (leb d (max_digit ps))) [
      | inl low ↦
          rw (sized, low)
            (in_range s t b v ((==_iff (length b) 20).0 sized) d (leb→le d (max_digit ps) low))
      | inr high ↦ rw (high) (elim (Bool-cases (ltb d (2 ^ 31))) [
        | inl small ↦
            too_high s t b v ((==_iff (length b) 20).0 sized) d (above d (max_digit ps) high)
              (ltb→lt d (2 ^ 31) small)
        | inr large ↦
            after_front s t (num (pos d)) (str b) none
              (front_large hash160 (max_digit ps) s t (pos d) b (not_below d (2 ^ 31) large))
      ])
    ]
    | inr odd ↦
        after_front s t (num (pos d)) (str b) none
          (front_size hash160 (max_digit ps) s t (num (pos d)) b odd)
        ∙ no_match (leb d (max_digit ps)) (length b == 20)
            (bytes_eq (hash_times hash160 (max_digit ps - d) b) key) (state s (num (pos d) ∷ t)) odd
  ]
  verify_digit-accepts (num (negsuc n)) (str b) s t v = elim (Bool-cases (length b == 20)) [
    | inl sized ↦ elim (Bool-cases (ltb n (2 ^ 31 - 1))) [
      | inl small ↦
          negative_digit s t b v ((==_iff (length b) 20).0 sized) n (ltb→lt n (2 ^ 31 - 1) small)
      | inr large ↦ after_front s t (num (negsuc n)) (str b) none (
          front_large hash160 (max_digit ps) s t (negsuc n) b
            (large_negative n (not_below n (2 ^ 31 - 1) large)))
    ]
    | inr odd ↦
        after_front s t (num (negsuc n)) (str b) none
          (front_size hash160 (max_digit ps) s t (num (negsuc n)) b odd)
  ]
  verify_digit-accepts (num (pos d)) (num y) s t v =
      after_front s t (num (pos d)) (num y) none
        (front_num_signature hash160 (max_digit ps) s t (num (pos d)) y)
  verify_digit-accepts (num (negsuc n)) (num y) s t v =
      after_front s t (num (negsuc n)) (num y) none
        (front_num_signature hash160 (max_digit ps) s t (num (negsuc n)) y)
  verify_digit-accepts (str a) y s t v =
      after_front s t (str a) y none (front_str_digit hash160 (max_digit ps) s t a y)
