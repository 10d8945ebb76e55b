-- ===== src/Prelude/Bits.antt =====
-- One step of `&` and `^` on the native numbers: the lowest digit and the rest. Low masks and
-- single bits follow.
use Prim.Native.Nat.{ℕ, zero, suc, ◌+◌, ◌-◌, ◌*◌, ◌/◌, ◌%◌, ◌^◌, ◌≤◌, ◌<◌, min, bit_and}
use Prim.Native.Nat.{bit_xor, digits, differ, bit_and-bitwise}
use Prim.Native.Nat.{bit_xor-bitwise}
use mathlib.Core.Path.{◌≡◌, refl, sym, ap, ◌∙◌, subst, ◌≡⟨◌⟩◌, ◌∎}
use mathlib.Core.Logic.{◌↔◌}
use native.Mathlib.Nat.{pow-suc, one-le-pow, pow-le-pow_right, div-add-mod, mod-lt, mod-eq_of_lt}
use native.Mathlib.Nat.{mul-add-mod_self_left, div-div-eq-div-mul}
use native.Mathlib.Omega.{arith}
use bit_vm.Prelude.Tests.{ltb, if◌then◌else◌}

module _ (z : ℕ → ℕ) (f : ℕ → ℕ → ℕ) where
  -- Rounds beyond the value of the first number change nothing.
  spare_round : (a k b : ℕ) → a ≤ k → digits z f (suc k) a b ≡ digits z f k a b
  spare_round zero zero b h = refl
  spare_round zero (suc k) b h = refl
  spare_round (suc a) zero b h = absurd (omega arith)
  spare_round (suc a) (suc k) b h = rw (spare_round (suc a / 2) k (b / 2) (omega arith))

  spare_rounds : (extra a k b : ℕ) → a ≤ k → digits z f (extra + k) a b ≡ digits z f k a b
  spare_rounds zero a k b h = ap (λ (t : ℕ). digits z f t a b) (omega arith)
  spare_rounds (suc extra) a k b h =
      let regroup : suc extra + k ≡ suc (extra + k) = omega arith in
      ap (λ (t : ℕ). digits z f t a b) regroup
      ∙ spare_round a (extra + k) b (omega arith)
      ∙ spare_rounds extra a k b h

  halves : (a b : ℕ) → digits z f a (suc a / 2) (b / 2) ≡ digits z f (suc a / 2) (suc a / 2) (b / 2)
  halves a b =
      subst
        (λ (k : ℕ). digits z f k (suc a / 2) (b / 2) ≡ digits z f (suc a / 2) (suc a / 2) (b / 2))
        (omega arith) (spare_rounds (a - suc a / 2) (suc a / 2) (suc a / 2) (b / 2) (omega arith))

-- Two digits differ or they do not.
abbrev pub parity_differ : ℕ → ℕ → ℕ
parity_differ a b = (a % 2 + b % 2) % 2

differ_lem : (a b : ℕ) → a < 2 → b < 2 → differ a b ≡ (a + b) % 2
differ_lem zero zero p q = refl
differ_lem zero (suc zero) p q = refl
differ_lem (suc zero) zero p q = refl
differ_lem (suc zero) (suc zero) p q = refl
differ_lem zero (suc (suc b)) p q = absurd (omega arith)
differ_lem (suc zero) (suc (suc b)) p q = absurd (omega arith)
differ_lem (suc (suc a)) b p q = absurd (omega arith)

pub bit_xor_step : (a b : ℕ) → bit_xor a b ≡ bit_xor (a / 2) (b / 2) * 2 + parity_differ a b
bit_xor_step zero b = omega (arith, bit_xor-bitwise 0 b, bit_xor-bitwise 0 (b / 2))
bit_xor_step (suc a) b = omega (
  arith,
  bit_xor-bitwise (suc a) b,
  bit_xor-bitwise (suc a / 2) (b / 2),
  halves (λ y. y) differ a b,
  differ_lem (suc a % 2) (b % 2),
)

pub bit_and_step : (n m : ℕ) → bit_and n m ≡ bit_and (n / 2) (m / 2) * 2 + min (n % 2) (m % 2)
bit_and_step zero m = ground (arith, bit_and-bitwise 0 m, bit_and-bitwise 0 (m / 2))
bit_and_step (suc n) m =
    let here = bit_and-bitwise (suc n) m in
    let above = bit_and-bitwise (suc n / 2) (m / 2) in
    omega (arith, here, above, halves (λ y. 0) min n m)

nothing_in_common : (rounds a : ℕ) → digits (λ y. 0) min rounds a 0 ≡ 0
nothing_in_common zero zero = refl
nothing_in_common zero (suc a) = refl
nothing_in_common (suc rounds) zero = refl
nothing_in_common (suc rounds) (suc a) = omega (arith, nothing_in_common rounds (suc a / 2))

pub bit_and-zero : (a : ℕ) → bit_and a 0 ≡ 0
bit_and-zero a = bit_and-bitwise a 0 ∙ nothing_in_common a a

mod-two-mul_pos : (a m : ℕ) → 0 < m → a % (2 * m) ≡ a / 2 % m * 2 + a % 2
mod-two-mul_pos a m h =
    let r : ℕ = a / 2 % m * 2 + a % 2 in
    let split : a ≡ 2 * m * (a / 2 / m) + r = omega (arith, div-add-mod (a / 2) m) in
    let small : r < 2 * m = omega (arith, mod-lt (a / 2) h) in
    a % (2 * m)
    ≡⟨ ap (λ (t : ℕ). t % (2 * m)) split ⟩ (2 * m * (a / 2 / m) + r) % (2 * m)
    ≡⟨ mul-add-mod_self_left (2 * m) (a / 2 / m) r ⟩ r % (2 * m)
    ≡⟨ mod-eq_of_lt small ⟩ a / 2 % m * 2 + a % 2 ∎

pub two-pow_pos : (k : ℕ) → 0 < 2 ^ k
two-pow_pos k = one-le-pow k 2 (omega arith)

-- Quotient and remainder by `2 ^ (k + 1)` go through the halves.
pub mod-pow_suc : (a k : ℕ) → a % 2 ^ suc k ≡ a / 2 % 2 ^ k * 2 + a % 2
mod-pow_suc a k =
    ap (λ (t : ℕ). a % t) (omega (arith, pow-suc 2 k)) ∙ mod-two-mul_pos a (2 ^ k) (two-pow_pos k)

pub div-pow_suc : (a k : ℕ) → a / 2 ^ suc k ≡ a / 2 / 2 ^ k
div-pow_suc a k =
    ap (λ (t : ℕ). a / t) (omega (arith, pow-suc 2 k)) ∙ sym (div-div-eq-div-mul a 2 (2 ^ k))

-- A mask of `k` low bits is the remainder by `2 ^ k`.
pub bit_and_mask : (k a : ℕ) → bit_and a (2 ^ k - 1) ≡ a % 2 ^ k
bit_and_mask zero a = omega (arith, bit_and-zero a)
bit_and_mask (suc k) a = ground (
  arith,
  bit_and_step a (2 ^ suc k - 1),
  pow-suc 2 k,
  two-pow_pos k,
  bit_and_mask k (a / 2),
  mod-pow_suc a k,
)

-- A single bit.
pub bit_and_bit : (k a : ℕ) → bit_and a (2 ^ k) ≡ a / 2 ^ k % 2 * 2 ^ k
bit_and_bit zero a = omega (arith, bit_and_step a 1, bit_and-zero (a / 2))
bit_and_bit (suc k) a =
    rw (div-pow_suc a k, pow-suc 2 k)
      (omega (arith, bit_and_step a (2 ^ k * 2), half_lem, bit_and_bit k (a / 2)))
  where
    half_lem : bit_and (a / 2) (2 ^ k * 2 / 2) ≡ bit_and (a / 2) (2 ^ k)
    half_lem = ap (bit_and (a / 2)) (omega arith)

-- The bit is clear when the quotient is even.
pub bit_and_bit_iff : (k a : ℕ) → (bit_and a (2 ^ k) ≡ 0) ↔ (a / 2 ^ k % 2 ≡ 0)
bit_and_bit_iff k a = grind (arith, bit_and_bit k a, two-pow_pos k)

pub two-pow_mono : (a b : ℕ) → a ≤ b → 2 ^ a ≤ 2 ^ b
two-pow_mono a b h = pow-le-pow_right (omega arith) h

-- `u32::leading_zeros`, on the low `k` bits.
unfoldable pub leading_zeros : ℕ → ℕ → ℕ
leading_zeros zero x = 0
leading_zeros (suc k) x = if ltb x (2 ^ k) then suc (leading_zeros k x) else 0

-- A number whose highest bit is bit `d`.
pub leading_zeros_lem :
    (k d x : ℕ) → d < k → 2 ^ d ≤ x → x < 2 ^ suc d → leading_zeros k x ≡ k - 1 - d
unfolding leading_zeros
leading_zeros_lem zero d x h lo hi = absurd (omega arith)
leading_zeros_lem (suc k) d x h lo hi =
    ground (arith, two-pow_mono k d, two-pow_mono (suc d) k, leading_zeros_lem k d x)

-- Quotient and remainder by a product.
pub mod-mul : (n m k : ℕ) → 0 < m → 0 < k → n % (m * k) ≡ n / m % k * m + n % m
mod-mul n m k hm hk =
    let r : ℕ = n / m % k * m + n % m in
    let split : n ≡ m * k * (n / m / k) + r =
      omega (arith, div-add-mod n m, ap (λ (t : ℕ). m * t) (div-add-mod (n / m) k)) in
    let small : r < m * k = grind (arith, mod-lt n hm, mod-lt (n / m) hk) in
    ap (λ (t : ℕ). t % (m * k)) split
    ∙ mul-add-mod_self_left (m * k) (n / m / k) r
    ∙ mod-eq_of_lt small

pub two-pow_add : (c j k : ℕ) → k ≡ c + j → 2 ^ k ≡ 2 ^ j * 2 ^ c
two-pow_add zero j k e = let same : k ≡ j = omega arith in ap (λ (i : ℕ). 2 ^ i) same ∙ omega arith
two-pow_add (suc c) j zero e = absurd (omega arith)
two-pow_add (suc c) j (suc k) e =
    let ih : 2 ^ k ≡ 2 ^ j * 2 ^ c = two-pow_add c j k (omega arith) in
    grind (arith, pow-suc 2 k, pow-suc 2 c, ih)
