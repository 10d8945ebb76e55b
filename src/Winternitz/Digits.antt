-- ===== src/Winternitz/Digits.antt =====
-- utils.rs: numbers and messages as digits.
use native.Mathlib.Nat.{
  pow-zero, pow-suc, mul-le-mul_left, mul-le-mul_right, mul-div_cancel_left, mod-lt,
  div-lt_iff_lt-mul, div-add-mod,
}
use native.Mathlib.Numerals.{add-one}
use bit_vm.Prelude.{
  ℕ, zero, suc, ◌+◌, ◌-◌, ◌*◌, ◌/◌, ◌%◌, ◌^◌, ◌≤◌, ◌<◌, ◌≡◌, refl, ap, ap₂, ◌∙◌, subst, inl, inr,
  false, Option, none, some, List, [], ◌∷◌, arith, ltb, if◌then◌else◌, ltb→lt, Bool-cases, length,
  All,
}

-- The loop of `log_base_ceil`. `cur` stays below n * base, so below 2^64 for a `u32` n and base.
unfoldable pub log_base_ceil_loop : ℕ → ℕ → ℕ → ℕ → ℕ → Option ℕ
log_base_ceil_loop zero n base cur res = none
log_base_ceil_loop (suc fuel) n base cur res =
    let rest = log_base_ceil_loop fuel n base (cur * base) (res + 1) in
    if ltb cur n then rest else some res

-- A `u32` is reached after at most 32 doublings.
unfoldable pub log_base_ceil : ℕ → ℕ → Option ℕ
unfolding log_base_ceil_loop
log_base_ceil n base = log_base_ceil_loop 33 n base 1 0

-- The loop writes the digits from the last to the first.
unfoldable pub write_digits : ℕ → ℕ → ℕ → List ℕ → List ℕ
write_digits zero base checksum digits = digits
write_digits (suc n) base checksum digits =
    write_digits n base ((checksum - checksum % base) / base) ((checksum % base) ∷ digits)

unfoldable pub checksum_to_digits : ℕ → ℕ → ℕ → List ℕ
unfolding write_digits
checksum_to_digits checksum base n_digits = write_digits n_digits base checksum []

-- The number that digits stand for, the most significant first, after a number `acc`.
unfoldable pub number_from : ℕ → ℕ → List ℕ → ℕ
number_from base acc [] = acc
number_from base acc (d ∷ ds) = number_from base (acc * base + d) ds

abbrev pub number : ℕ → List ℕ → ℕ
number base ds = number_from base 0 ds

unfoldable pub sum : List ℕ → ℕ
sum [] = 0
sum (d ∷ ds) = d + sum ds

power_lem : (base res : ℕ) → base ^ res * base ≡ base ^ (res + 1)
power_lem base res = rw add-one (simp pow-suc (grind arith))

stopped : (cur n : ℕ) → ltb cur n ≡ false → n ≤ cur
stopped cur n h = ground arith

log_base_ceil_loop_lem :
    (fuel n base cur res : ℕ)
    → 2 ≤ base
    → cur ≡ base ^ res
    → n ≤ cur * 2 ^ fuel
    → (0 < res → base ^ (res - 1) < n)
    → (r : ℕ) × (log_base_ceil_loop (suc fuel) n base cur res ≡ some r)
      × (n ≤ base ^ r)
      × (0 < r → base ^ (r - 1) < n)
unfolding log_base_ceil_loop
log_base_ceil_loop_lem zero n base cur res h e big below = (res, ground arith, omega arith, below)
log_base_ceil_loop_lem (suc fuel) n base cur res h e big below = elim (Bool-cases (ltb cur n)) [
  | inl more ↦
      let grown : cur * 2 ≤ cur * base = mul-le-mul_left cur h in
      let next : cur * base ≡ base ^ (res + 1) = ap (λ (c : ℕ). c * base) e ∙ power_lem base res in
      let enough : cur * 2 * 2 ^ fuel ≤ cur * base * 2 ^ fuel = mul-le-mul_right (2 ^ fuel) grown in
      let whole : cur * 2 ^ suc fuel ≡ cur * 2 * 2 ^ fuel = simp pow-suc (grind arith) in
      let last : base ^ (res + 1 - 1) < n =
        let back : res + 1 - 1 ≡ res = omega arith in rw (back, ← e) (ltb→lt cur n more) in
      let (r, found, reached, least) =
        log_base_ceil_loop_lem fuel n base (cur * base) (res + 1) h next
          (omega (arith, enough, whole)) (λ _. last) in
      (r, rw more found, reached, least)
  | inr done ↦ (res, rw done refl, rw (← e) (stopped cur n done), below)
]

-- For a `u32` n and a base of at least two, the loop of `log_base_ceil` ends, with the least
-- exponent whose power reaches n.
pub log_base_ceil_least :
    (n base : ℕ)
    → n < 2 ^ 32
    → 2 ≤ base
    → (r : ℕ) × (log_base_ceil n base ≡ some r) × (n ≤ base ^ r) × (0 < r → base ^ (r - 1) < n)
unfolding log_base_ceil
log_base_ceil_least n base h k =
    log_base_ceil_loop_lem 32 n base 1 0 k (rw pow-zero refl) (omega arith)
      (λ p. absurd (omega arith))

number_from_lem :
    (base acc : ℕ) (ds : List ℕ) → number_from base acc ds ≡ acc * base ^ length ds + number base ds
unfolding number_from
number_from_lem base acc [] = rw pow-zero (omega arith)
number_from_lem base acc (d ∷ ds) =
    let power : base ^ suc (length ds) ≡ base * base ^ length ds =
      pow-suc base (length ds) ∙ grind arith in
    number_from_lem base (acc * base + d) ds
    ∙ grind (arith, power, number_from_lem base (0 * base + d) ds)

pub write_digits_lem :
    (n base checksum : ℕ) (ds : List ℕ)
    → 0 < base
    → checksum < base ^ n
    → All (λ d. d < base) ds
    → (number base (write_digits n base checksum ds) ≡ checksum * base ^ length ds + number base ds)
      × (length (write_digits n base checksum ds) ≡ n + length ds)
      × All (λ d. d < base) (write_digits n base checksum ds)
unfolding write_digits number_from
write_digits_lem zero base checksum ds p h a =
    let none_left : checksum ≡ 0 = omega (arith, pow-zero base) in
    (rw none_left (omega arith), omega arith, a)
write_digits_lem (suc n) base checksum ds p h a =
    let split : base * (checksum / base) + checksum % base ≡ checksum = div-add-mod checksum base in
    let less : checksum - checksum % base ≡ base * (checksum / base) = omega (arith, split) in
    let quotient : (checksum - checksum % base) / base ≡ checksum / base =
      ap (λ (c : ℕ). c / base) less ∙ mul-div_cancel_left (checksum / base) p in
    let power : base ^ suc n ≡ base ^ n * base = pow-suc base n in
    let small : checksum / base < base ^ n =
      (div-lt_iff_lt-mul p).1 (subst (λ (c : ℕ). checksum < c) power h) in
    let (value, len, below) =
      write_digits_lem n base (checksum / base) ((checksum % base) ∷ ds) p small
        (mod-lt checksum p, a) in
    let longer : base ^ suc (length ds) ≡ base ^ length ds * base = pow-suc base (length ds) in
    let here : number base ((checksum % base) ∷ ds)
        ≡ checksum % base * base ^ length ds + number base ds =
      number_from_lem base (0 * base + checksum % base) ds ∙ omega arith in
    let whole : number base (write_digits n base (checksum / base) ((checksum % base) ∷ ds))
        ≡ checksum * base ^ length ds + number base ds =
      value
      ∙ ap₂ (λ (x y : ℕ). checksum / base * x + y) longer here
      ∙ regroup (checksum / base) (checksum % base) (base ^ length ds) base (number base ds)
      ∙ ap (λ (c : ℕ). c * base ^ length ds + number base ds) split in
    rw quotient (whole, omega (arith, len), below)
  where
    regroup : (q m P b N : ℕ) → q * (P * b) + (m * P + N) ≡ (b * q + m) * P + N
    regroup q m P b N = grind arith

-- Of a number below base ^ n, `checksum_to_digits` gives n digits below the base that stand for it.
pub checksum_to_digits_lem :
    (n base checksum : ℕ)
    → 0 < base
    → checksum < base ^ n
    → (number base (checksum_to_digits checksum base n) ≡ checksum)
      × (length (checksum_to_digits checksum base n) ≡ n)
      × All (λ d. d < base) (checksum_to_digits checksum base n)
unfolding checksum_to_digits number_from
checksum_to_digits_lem n base checksum p h =
    let (value, len, below) = write_digits_lem n base checksum [] p h tt in
    (value ∙ rw pow-zero (omega arith), len ∙ omega arith, below)
