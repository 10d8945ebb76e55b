-- ===== src/U32/Rrot/Amount.antt =====
-- Rotations compose, and which of them `u32_rrot` treats on their own.
use native.Mathlib.Nat.{
  mul_comm, mul-le-mul_right, div-lt_iff_lt-mul, mod-lt, mod-eq_of_lt, div-eq_of_lt, div-add-mod,
  mul-add-div, mul-add-mod_self_left, div-div-eq-div-mul,
}
use bit_vm.Prelude.{
  ℕ, suc, ◌+◌, ◌-◌, ◌*◌, ◌/◌, ◌%◌, ◌^◌, ◌≤◌, ◌<◌, ◌≡◌, sym, ap, ap₂, ◌∙◌, ◌⊎◌, none, arith,
}
use bit_vm.Prelude.Bits.{two-pow_pos, mod-mul, two-pow_add}
use bit_vm.U32.Rrot.Defs.{specific_optimize, rrot_bits, u32_rrot}
use bit_vm.U32.Rrot.Rotate.{rrot, of_bytes}

-- Two rotations of P·Q·T states, by the factor P and then by Q.
rotate_twice :
    (v P Q T : ℕ)
    → 0 < P
    → 0 < Q
    → (v / P + v % P * (Q * T)) / Q + (v / P + v % P * (Q * T)) % Q * (P * T)
      ≡ v / (P * Q) + v % (P * Q) * T
rotate_twice v P Q T g k =
    ap₂ (λ (x y : ℕ). x + y * (P * T)) quotient
      (ap (λ (i : ℕ). i % Q) whole ∙ mul-add-mod_self_left Q (c + a * T) b ∙ mod-eq_of_lt small)
    ∙ regroup
    ∙ ap₂ (λ (x y : ℕ). x + y * T) (div-div-eq-div-mul v P Q) (sym (mod-mul v P Q g k))
  where
    a : ℕ
    a = v % P

    b : ℕ
    b = v / P % Q

    c : ℕ
    c = v / P / Q

    small : b < Q
    small = mod-lt (v / P) k

    whole : v / P + a * (Q * T) ≡ Q * (c + a * T) + b
    whole =
        let split : Q * c + b ≡ v / P = div-add-mod (v / P) Q in
        ap (λ (i : ℕ). i + a * (Q * T)) (sym split) ∙ grind arith

    quotient : (v / P + a * (Q * T)) / Q ≡ c + a * T
    quotient =
        ap (λ (i : ℕ). i / Q) whole
        ∙ mul-add-div k (c + a * T) b
        ∙ omega (arith, div-eq_of_lt small)

    regroup : c + a * T + b * (P * T) ≡ c + (b * P + a) * T
    regroup = grind arith

-- The rotations that have a script of their own, and the others.
pub cases_lem :
    (n : ℕ)
    → n < 32
    → (n ≡ 0)
      ⊎ (n ≡ 7)
      ⊎ (n ≡ 8)
      ⊎ (n ≡ 16)
      ⊎ (n ≡ 23)
      ⊎ (n ≡ 24)
      ⊎ (0 < n % 8) × (specific_optimize n ≡ none)
unfolding specific_optimize
cases_lem n h = ground arith

-- Two rotations are one.
pub rrot-rrot : (v m n : ℕ) → m + n < 32 → rrot (rrot v m) n ≡ rrot v (m + n)
unfolding rrot
rrot-rrot v m n g =
    let together : 2 ^ (m + n) ≡ 2 ^ m * 2 ^ n = two-pow_add n m (m + n) (omega arith) in
    let first : 2 ^ (32 - m) ≡ 2 ^ n * 2 ^ (32 - (m + n)) =
      two-pow_add (32 - (m + n)) n (32 - m) (omega arith) in
    let second : 2 ^ (32 - n) ≡ 2 ^ m * 2 ^ (32 - (m + n)) =
      two-pow_add (32 - (m + n)) m (32 - n) (omega arith) in
    rw (together, first, second)
      (rotate_twice v (2 ^ m) (2 ^ n) (2 ^ (32 - (m + n))) (two-pow_pos m) (two-pow_pos n))

pub rrot_lt : (v n : ℕ) → n < 32 → v < 2 ^ 32 → rrot v n < 2 ^ 32
unfolding rrot
rrot_lt v n h lt =
    let T : ℕ = 2 ^ (32 - n) in
    let whole : 2 ^ 32 ≡ 2 ^ n * T = two-pow_add (32 - n) n 32 (omega arith) in
    let high : v / 2 ^ n < T =
      (div-lt_iff_lt-mul (two-pow_pos n)).1 (omega (arith, whole, mul_comm (2 ^ n) T)) in
    let low : suc (v % 2 ^ n) * T ≤ 2 ^ n * T = mul-le-mul_right T (mod-lt v (two-pow_pos n)) in
    let next : suc (v % 2 ^ n) * T ≡ v % 2 ^ n * T + T = grind arith in
    omega (arith, whole, high, low, next)

pub u32_rrot-general :
    (n : ℕ)
    → n < 32
    → specific_optimize n ≡ none
    → u32_rrot n ≡ rrot_bits (8 - n % 8) ((n - n % 8) / 8)
unfolding u32_rrot
u32_rrot-general n h e = rw e (ground arith)

pub of_bytes_lem :
    (v : ℕ)
    → v < 2 ^ 32
    → of_bytes (v % 256) (v / 256 % 256) (v / 2 ^ 16 % 256) (v / 2 ^ 24 % 256) ≡ v
of_bytes_lem v h = omega arith
