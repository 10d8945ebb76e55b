-- ===== src/Winternitz/Verify/Signed.antt =====
-- The scripts accept what `sign_digits` signs.
use mathlib.Core.List.{append-nil}
use bit_vm.Prelude.{
  ℕ, zero, suc, ◌+◌, ◌-◌, ◌^◌, ◌≤◌, ◌<◌, ◌≡◌, refl, sym, ap, ◌∙◌, subst, true, some, List, [], ◌∷◌,
  ◌++◌, arith, leb, ==_iff, length, get_elem?, All, length-append, All-append, bytes_eq_refl,
}
use bit_vm.Winternitz.Checksum.{IsValid, base_bounds, All-lt, IsMessage, checksum_digits_lem}
use bit_vm.Winternitz.Digits.{checksum_to_digits}
use bit_vm.Script.Run.{◌⨾◌}
use bit_vm.Winternitz.Binary.Defs.{verify_digit, verify_from, verify_digits}
use bit_vm.Winternitz.Verify.Sum.{turned}
use bit_vm.Winternitz.Verify.Checksum.{sums_to}
use bit_vm.Winternitz.Verify.Defs.{verify_checksum, checksig_verify}
use bit_vm.Winternitz.Verify.Signature.{split, split-append, recover, checksig_verify-recover}
use bit_vm.Hashing.{Bytes}
use bit_vm.Script.Defs.{Item, str, Stack, Script, state, run}
use bit_vm.U32.Stack.{byte}
use bit_vm.U32.Std.Compress.{as_i32}
use bit_vm.Winternitz.Defs.{
  Parameters, max_digit, total_digit_len, checksum, add_message_checksum, bitcoin_representation,
  hash_times, secret_key_for_digit, digit_signature, public_key_for_digit, public_keys_from,
  generate_public_key, sign_from, sign_digits,
}
use bit_vm.Winternitz.Verify.Digits.{pile, read_digit, read_from}
use bit_vm.Winternitz.Binary.Bits.{hash_times-add}

bitcoin_representation_small : (d : ℕ) → d < 2 ^ 31 → bitcoin_representation d ≡ byte d
unfolding bitcoin_representation as_i32
bitcoin_representation_small d h = ground arith

-- A message with its checksum.
add_message_checksum_lem :
    (ps : Parameters) (ds : List ℕ)
    → IsValid ps
    → IsMessage ps ds
    → let whole : List ℕ = add_message_checksum ps ds in
      (length whole ≡ total_digit_len ps)
      × All (λ d. d ≤ max_digit ps) whole
      × ((split ps.message_digit_len whole).0 ≡ ds)
      × (sums_to ps ds (split ps.message_digit_len whole).1 ≡ true)
unfolding add_message_checksum
add_message_checksum_lem ps ds v m =
    let (value, len, below) = checksum_digits_lem ps ds v m in
    let cs : List ℕ =
      checksum_to_digits (checksum ps ds) (max_digit ps + 1) ps.checksum_digit_len in
    let parts : split ps.message_digit_len (ds ++ cs) ≡ (ds, cs) =
      subst (λ (n : ℕ). split n (ds ++ cs) ≡ (ds, cs)) m.0 (split-append ds cs) in
    (
      length-append ds cs ∙ omega (arith, len, m.0),
      All-append (λ d. d ≤ max_digit ps) ds cs m.1 (All-lt (max_digit ps) cs below),
      ap (λ p. p.0) parts,
      rw parts ((==_iff _ _).1 (sym value)),
    )

verify_from-some :
    (ps : Parameters) (keys : List Bytes) (n : ℕ)
    → ((j : ℕ) → j < n → (key : Bytes) × (get_elem? keys j ≡ some key))
    → (script : Script) × (verify_from ps keys n ≡ some script)
unfolding verify_from
verify_from-some ps keys zero known = ([], refl)
verify_from-some ps keys (suc n) known =
    let (key, found) = known n (omega arith) in
    let (rest, built) = verify_from-some ps keys n (λ j h. known j (omega arith)) in
    (verify_digit ps key ⨾ rest, rw (found, built) refl)

module _ (hash160 : Bytes → Bytes) (ps : Parameters) (secret_key : Bytes) where
  -- The signature of digits from the digit `i` on, the last digit first, in front of `r`.
  unfoldable pub signature_pairs : ℕ → List ℕ → List (Item × Item) → List (Item × Item)
  signature_pairs i [] r = r
  signature_pairs i (d ∷ ds) r =
      signature_pairs (i + 1) ds ((byte d, str (digit_signature hash160 secret_key i d)) ∷ r)

  length-signature_pairs :
      (i : ℕ) (ds : List ℕ) (r : List (Item × Item))
      → length (signature_pairs i ds r) ≡ length ds + length r
  unfolding signature_pairs
  length-signature_pairs i [] r = omega arith
  length-signature_pairs i (d ∷ ds) r = length-signature_pairs (i + 1) ds _ ∙ omega arith

  sign_from_lem :
      (all ds : List ℕ) (i : ℕ) (r : List (Item × Item)) (s : Stack)
      → ((j : ℕ) → get_elem? all (i + j) ≡ get_elem? ds j)
      → All (λ d. d ≤ max_digit ps) ds
      → max_digit ps < 256
      → sign_from hash160 secret_key all i (length ds) (pile r s)
        ≡ some (pile (signature_pairs i ds r) s)
  unfolding sign_from signature_pairs
  sign_from_lem all [] i r s agrees a h = refl
  sign_from_lem all (d ∷ ds) i r s agrees a h =
      let here : get_elem? all i ≡ some d =
        subst (λ (k : ℕ). get_elem? all k ≡ some d) (omega arith) (agrees 0) in
      let later : (j : ℕ) → get_elem? all (i + 1 + j) ≡ get_elem? ds j =
        λ j. ap (λ (k : ℕ). get_elem? all k) (omega arith) ∙ agrees (suc j) in
      rw (here, bitcoin_representation_small d (omega (arith, a.0)))
        (sign_from_lem all ds (i + 1) ((byte d, str (digit_signature hash160 secret_key i d)) ∷ r) s
          later a.1 h)

  get_elem?-public_keys_from :
      (i n j : ℕ)
      → j < n
      → get_elem? (public_keys_from hash160 ps secret_key i n) j
        ≡ some (public_key_for_digit hash160 ps secret_key (i + j))
  unfolding public_keys_from
  get_elem?-public_keys_from i zero j h = absurd (omega arith)
  get_elem?-public_keys_from i (suc n) zero h =
      ap (λ (k : ℕ). some (public_key_for_digit hash160 ps secret_key k)) (omega arith)
  get_elem?-public_keys_from i (suc n) (suc j) h =
      get_elem?-public_keys_from (i + 1) n j (omega arith)
      ∙ ap (λ (k : ℕ). some (public_key_for_digit hash160 ps secret_key k)) (omega arith)

  module _ (sized : (b : Bytes) → length (hash160 b) ≡ 20) where
    length-hash_times : (n : ℕ) (b : Bytes) → length b ≡ 20 → length (hash_times hash160 n b) ≡ 20
    unfolding hash_times
    length-hash_times zero b e = e
    length-hash_times (suc n) b e = length-hash_times n (hash160 b) (sized b)

    signed_digit :
        (i d : ℕ)
        → d ≤ max_digit ps
        → read_digit hash160 ps
            (public_key_for_digit hash160 ps secret_key i)
            (byte d)
            (str (digit_signature hash160 secret_key i d))
          ≡ some d
    unfolding read_digit public_key_for_digit digit_signature secret_key_for_digit
    signed_digit i d h =
        let seed : Bytes = secret_key_for_digit hash160 secret_key i in
        let len : length (hash_times hash160 d seed) ≡ 20 = length-hash_times d seed (sized _) in
        let low : leb d (max_digit ps) ≡ true = ground arith in
        let rest : d + (max_digit ps - d) ≡ max_digit ps = omega arith in
        let chain : hash_times hash160 (max_digit ps - d) (hash_times hash160 d seed)
            ≡ hash_times hash160 (max_digit ps) seed =
          sym (hash_times-add hash160 d (max_digit ps - d) seed)
          ∙ ap (λ (k : ℕ). hash_times hash160 k seed) rest in
        rw (low, len, chain, bytes_eq_refl (hash_times hash160 (max_digit ps) seed)) refl

    read_from-signature_pairs :
        (keys : List Bytes) (n : ℕ) (ds acc : List ℕ) (r : List (Item × Item))
        → ((j : ℕ)
            → j < n + length ds
            → get_elem? keys j ≡ some (public_key_for_digit hash160 ps secret_key j))
        → All (λ d. d ≤ max_digit ps) ds
        → read_from hash160 ps keys (n + length ds) (signature_pairs n ds r) acc
          ≡ read_from hash160 ps keys n r (ds ++ acc)
    unfolding read_from signature_pairs
    read_from-signature_pairs keys n [] acc r known a =
        ap (λ (k : ℕ). read_from hash160 ps keys k r acc) (omega arith)
    read_from-signature_pairs keys n (d ∷ ds) acc r known a =
        let next : n + suc (length ds) ≡ suc n + length ds = omega arith in
        let one_more : n + 1 ≡ suc n = omega arith in
        ap
          (λ (k : ℕ).
            read_from hash160 ps keys k
              (signature_pairs (n + 1) ds
                ((byte d, str (digit_signature hash160 secret_key n d)) ∷ r))
              acc)
          next
        ∙ ap
            (λ (k : ℕ).
              read_from hash160 ps keys (suc n + length ds)
                (signature_pairs k ds ((byte d, str (digit_signature hash160 secret_key n d)) ∷ r))
                acc)
            one_more
        ∙ read_from-signature_pairs keys (suc n) ds acc _ (λ j h. known j (omega (arith, h))) a.1
        ∙ rw (known n (omega arith), signed_digit n d a.0) refl

    recover-signature_pairs :
        (ds : List ℕ)
        → IsValid ps
        → IsMessage ps ds
        → recover hash160 ps
            (generate_public_key hash160 ps secret_key)
            (signature_pairs 0 (add_message_checksum ps ds) [])
          ≡ some ds
    unfolding generate_public_key recover read_from
    recover-signature_pairs ds v m =
        let whole : List ℕ = add_message_checksum ps ds in
        let keys : List Bytes = generate_public_key hash160 ps secret_key in
        let (len, below, message, agrees) = add_message_checksum_lem ps ds v m in
        let read : read_from hash160 ps keys (total_digit_len ps) (signature_pairs 0 whole []) []
            ≡ some whole =
          ap (λ (n : ℕ). read_from hash160 ps keys n (signature_pairs 0 whole []) [])
            (omega (arith, len))
          ∙ read_from-signature_pairs keys 0 whole [] []
              (λ j h.
                get_elem?-public_keys_from 0 (total_digit_len ps) j (omega (arith, len, h))
                ∙ ap (λ (k : ℕ). some (public_key_for_digit hash160 ps secret_key k)) (omega arith))
              below
          ∙ ap some (append-nil whole) in
        rw (read, message, agrees) refl

    -- For valid parameters and a message, and a hash of 20 bytes, `sign_digits` signs, the public key
    -- has a script, and the script accepts the signature and leaves the message, the last digit on top.
    pub checksig_verify-sign_digits :
        (ds : List ℕ) (s t : Stack)
        → IsValid ps
        → IsMessage ps ds
        → (script : Script) × (w : Stack) × (checksig_verify ps
              (generate_public_key hash160 ps secret_key)
            ≡ some script)
          × (sign_digits hash160 ps secret_key ds s ≡ some w)
          × (run hash160 script (state w t) ≡ some (state (turned ds s) t))
    unfolding sign_digits generate_public_key checksig_verify verify_digits
    checksig_verify-sign_digits ds s t v m =
        let whole : List ℕ = add_message_checksum ps ds in
        let keys : List Bytes = generate_public_key hash160 ps secret_key in
        let (len, below, _, _) = add_message_checksum_lem ps ds v m in
        let (verify, found) =
          verify_from-some ps keys (total_digit_len ps)
            (λ j h. (_, get_elem?-public_keys_from 0 (total_digit_len ps) j h)) in
        let built : checksig_verify ps keys ≡ some (verify ⨾ verify_checksum ps ⨾ []) =
          rw found refl in
        let pairs : List (Item × Item) = signature_pairs 0 whole [] in
        let as_many : length pairs ≡ total_digit_len ps =
          length-signature_pairs 0 whole [] ∙ omega (arith, len) in
        (
          verify ⨾ verify_checksum ps ⨾ [],
          pile pairs s,
          built,
          ap (λ (n : ℕ). sign_from hash160 secret_key whole 0 n s) (sym len)
              ∙ sign_from_lem whole whole 0 [] s
                  (λ j. ap (λ (k : ℕ). get_elem? whole k) (omega arith)) below max_digit_lt,
          checksig_verify-recover hash160 ps keys pairs s t _ v as_many built
              ∙ rw (recover-signature_pairs ds v m) refl,
        )
      where
        max_digit_lt : max_digit ps < 256
        max_digit_lt =
            let (lo, hi) = base_bounds ps.log2_base v.base.0 v.base.1 in omega (arith, hi)
