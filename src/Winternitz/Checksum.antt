-- ===== src/Winternitz/Checksum.antt =====
-- The checksum: it fits in its digits, and falls when a digit of the message rises.
use native.Mathlib.Nat.{pow-zero, le_trans, mul-le-mul_left, mul-le-mul_right}
use bit_vm.Prelude.{
  ℕ, zero, suc, ◌+◌, ◌-◌, ◌*◌, ◌%◌, ◌^◌, ◌≤◌, ◌<◌, ◌≡◌, refl, sym, ap₂, ◌∙◌, subst, some, List, [],
  ◌∷◌, ◌++◌, arith, length, All,
}
use bit_vm.Prelude.Bits.{two-pow_mono}
use bit_vm.Winternitz.Digits.{
  log_base_ceil, checksum_to_digits, number_from, number, sum, log_base_ceil_least,
  checksum_to_digits_lem,
}
use bit_vm.Winternitz.Defs.{Parameters, new_parameters, max_digit, checksum, add_message_checksum}

-- Parameters for up to 2^15 digits, whose checksum has as many digits as it needs.
pub record IsValid (ps : Parameters) : Type 0 where
  pub base : (4 ≤ ps.log2_base) × (ps.log2_base ≤ 8)
  pub digits : (0 < ps.message_digit_len) × (ps.message_digit_len ≤ 2 ^ 15)
  pub enough : max_digit ps * ps.message_digit_len < (2 ^ ps.log2_base) ^ ps.checksum_digit_len
  pub few : (2 ^ ps.log2_base) ^ (ps.checksum_digit_len - 1) < 2 ^ 23
  pub some_digit : 0 < ps.checksum_digit_len

pub base_bounds : (l : ℕ) → 4 ≤ l → l ≤ 8 → (16 ≤ 2 ^ l) × (2 ^ l ≤ 256)
base_bounds l h k = (two-pow_mono 4 l h, two-pow_mono l 8 k)

pub product_bounds : (m n : ℕ) → m ≤ 255 → n ≤ 2 ^ 15 → m * n ≤ 255 * 2 ^ 15
product_bounds m n h k = le_trans (mul-le-mul_right n h) (mul-le-mul_left 255 k)

exponent_pos : (base r v : ℕ) → v ≤ base ^ r → 1 < v → 0 < r
exponent_pos base zero v h k = absurd (omega (arith, pow-zero base))
exponent_pos base (suc r) v h k = omega arith

chosen :
    (l n r : ℕ)
    → 4 ≤ l
    → l ≤ 8
    → ((2 ^ l - 1) * n + 1) % 2 ^ 32 ≡ (2 ^ l - 1) * n + 1
    → log_base_ceil ((2 ^ l - 1) * n + 1) (2 ^ l) ≡ some r
    → new_parameters n l
      ≡ some (record { message_digit_len = n; log2_base = l; checksum_digit_len = r })
unfolding new_parameters
chosen l n r h k same found = rw (same, found) (ground arith)

-- For 1 to 2^15 digits of 4 to 8 bits, `Parameters::new` gives parameters whose checksum digits hold
-- every checksum.
pub new_parameters-IsValid :
    (n l : ℕ)
    → 4 ≤ l
    → l ≤ 8
    → 0 < n
    → n ≤ 2 ^ 15
    → (ps : Parameters) × (new_parameters n l ≡ some ps) × IsValid ps
unfolding new_parameters
new_parameters-IsValid n l h k p q =
    let (lo, hi) = base_bounds l h k in
    let room : (2 ^ l - 1) * n ≤ 255 * 2 ^ 15 = product_bounds (2 ^ l - 1) n (omega arith) q in
    let some_value : 15 * 1 ≤ (2 ^ l - 1) * n =
      le_trans (mul-le-mul_left 15 p) (mul-le-mul_right n (omega arith)) in
    let same : ((2 ^ l - 1) * n + 1) % 2 ^ 32 ≡ (2 ^ l - 1) * n + 1 = omega (arith, room) in
    let (r, found, reached, least) =
      log_base_ceil_least ((2 ^ l - 1) * n + 1) (2 ^ l) (omega (arith, room)) (omega (arith, lo)) in
    let positive : 0 < r =
      exponent_pos (2 ^ l) r ((2 ^ l - 1) * n + 1) reached (omega (arith, some_value)) in
    (
      record { message_digit_len = n; log2_base = l; checksum_digit_len = r },
      chosen l n r h k same found,
      record {
        base = (h, k);
        digits = (p, q);
        enough = omega (arith, reached);
        few = omega (arith, least positive, room);
        some_digit = positive;
      },
    )

pub All-lt : (m : ℕ) (ds : List ℕ) → All (λ d. d < m + 1) ds → All (λ d. d ≤ m) ds
All-lt m [] a = tt
All-lt m (d ∷ ds) a = (omega (arith, a.0), All-lt m ds a.1)

-- A message of the right number of digits.
abbrev pub IsMessage : Parameters → List ℕ → Type 0
IsMessage ps ds = (length ds ≡ ps.message_digit_len) × All (λ d. d ≤ max_digit ps) ds

pub sum-le : (m : ℕ) (ds : List ℕ) → All (λ d. d ≤ m) ds → sum ds ≤ m * length ds
unfolding sum
sum-le m [] a = omega arith
sum-le m (d ∷ ds) a = grind (arith, sum-le m ds a.1)

-- One list is nowhere above another.
abbrev pub AllLe : List ℕ → List ℕ → Type 0
AllLe [] [] = Unit {0}
AllLe [] (y ∷ ys) = ⊥
AllLe (x ∷ xs) [] = ⊥
AllLe (x ∷ xs) (y ∷ ys) = (x ≤ y) × AllLe xs ys

pub message_sum-le :
    (ps : Parameters) (ds : List ℕ) → IsMessage ps ds → sum ds ≤ max_digit ps * ps.message_digit_len
message_sum-le ps ds m =
    subst (λ (n : ℕ). sum ds ≤ max_digit ps * n) m.0 (sum-le (max_digit ps) ds m.1)

pub checksum_value :
    (ps : Parameters) (ds : List ℕ)
    → IsValid ps
    → IsMessage ps ds
    → checksum ps ds ≡ max_digit ps * ps.message_digit_len - sum ds
unfolding checksum
checksum_value ps ds v m =
    let (lo, hi) = base_bounds ps.log2_base v.base.0 v.base.1 in
    let room : max_digit ps * ps.message_digit_len ≤ 255 * 2 ^ 15 =
      product_bounds (max_digit ps) ps.message_digit_len (omega (arith, hi)) v.digits.1 in
    omega (arith, room, message_sum-le ps ds m)

AllLe-append :
    (xs ys cs es : List ℕ)
    → length xs ≡ length ys
    → AllLe (xs ++ cs) (ys ++ es)
    → AllLe xs ys × AllLe cs es
AllLe-append [] [] cs es e h = (tt, h)
AllLe-append [] (y ∷ ys) cs es e h = absurd (omega arith)
AllLe-append (x ∷ xs) [] cs es e h = absurd (omega arith)
AllLe-append (x ∷ xs) (y ∷ ys) cs es e h =
    let (first, second) = AllLe-append xs ys cs es (omega arith) h.1 in ((h.0, first), second)

AllLe-sum : (xs ys : List ℕ) → AllLe xs ys → (sum xs ≤ sum ys) × (sum ys ≤ sum xs → xs ≡ ys)
unfolding sum
AllLe-sum [] [] h = (omega arith, λ _. refl)
AllLe-sum [] (y ∷ ys) h = absurd h
AllLe-sum (x ∷ xs) [] h = absurd h
AllLe-sum (x ∷ xs) (y ∷ ys) h =
    let (lower, same) = AllLe-sum xs ys h.1 in
    (omega (arith, lower), λ e. ap₂ ◌∷◌ (omega (arith, lower, e)) (same (omega (arith, e))))

AllLe-number_from :
    (base a b : ℕ) (xs ys : List ℕ)
    → a ≤ b
    → AllLe xs ys
    → number_from base a xs ≤ number_from base b ys
unfolding number_from
AllLe-number_from base a b [] [] k h = k
AllLe-number_from base a b [] (y ∷ ys) k h = absurd h
AllLe-number_from base a b (x ∷ xs) [] k h = absurd h
AllLe-number_from base a b (x ∷ xs) (y ∷ ys) k h =
    let grown : a * base ≤ b * base = mul-le-mul_right base k in
    AllLe-number_from base (a * base + x) (b * base + y) xs ys (omega (arith, grown)) h.1

-- The digits of the checksum stand for the checksum, and each is a digit.
pub checksum_digits_lem :
    (ps : Parameters) (ds : List ℕ)
    → IsValid ps
    → IsMessage ps ds
    → let cs : List ℕ =
        checksum_to_digits (checksum ps ds) (max_digit ps + 1) ps.checksum_digit_len in
      (number (max_digit ps + 1) cs ≡ max_digit ps * ps.message_digit_len - sum ds)
      × (length cs ≡ ps.checksum_digit_len)
      × All (λ d. d < max_digit ps + 1) cs
checksum_digits_lem ps ds v m =
    let (lo, hi) = base_bounds ps.log2_base v.base.0 v.base.1 in
    let base : 2 ^ ps.log2_base ≡ max_digit ps + 1 = omega (arith, lo) in
    let below : checksum ps ds < (max_digit ps + 1) ^ ps.checksum_digit_len =
      subst (λ (b : ℕ). checksum ps ds < b ^ ps.checksum_digit_len) base
        (omega (arith, checksum_value ps ds v m, v.enough)) in
    let (value, len, digits) =
      checksum_to_digits_lem ps.checksum_digit_len (max_digit ps + 1) (checksum ps ds) (omega arith)
        below in
    (value ∙ checksum_value ps ds v m, len, digits)

-- No signed message lets another be signed from it: if no digit of the message and the checksum of
-- one is below that of the other, the two messages are the same.
pub add_message_checksum-AllLe :
    (ps : Parameters) (ds es : List ℕ)
    → IsValid ps
    → IsMessage ps ds
    → IsMessage ps es
    → AllLe (add_message_checksum ps ds) (add_message_checksum ps es)
    → ds ≡ es
unfolding add_message_checksum
add_message_checksum-AllLe ps ds es v m n below =
    let (digits, sums) = AllLe-append ds es _ _ (m.0 ∙ sym n.0) below in
    let (value, _, _) = checksum_digits_lem ps ds v m in
    let (value', _, _) = checksum_digits_lem ps es v n in
    let lower : sum ds ≤ max_digit ps * ps.message_digit_len = message_sum-le ps ds m in
    let upper : sum es ≤ max_digit ps * ps.message_digit_len = message_sum-le ps es n in
    let order = AllLe-number_from (max_digit ps + 1) 0 0 _ _ (omega arith) sums in
    (AllLe-sum ds es digits).1 (omega (arith, value, value', order, lower, upper))
