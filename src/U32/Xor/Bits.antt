-- ===== src/U32/Xor/Bits.antt =====
-- Exclusive or by the table's function.
use bit_vm.Prelude.{ℕ, ◌+◌, ◌-◌, ◌*◌, ◌/◌, ◌%◌, ◌<◌, bit_xor, ◌≡◌, sym, ap₂, ◌∙◌, arith}
use bit_vm.Prelude.Bits.{parity_differ, bit_xor_step}

-- The table's function `(x & 0b10101010) >> 1`, bit by bit.
abbrev pub f : ℕ → ℕ
f x = x / 2 % 2 + x / 8 % 2 * 4 + x / 32 % 2 * 16 + x / 128 % 2 * 64

-- A sum of two bits in each place of base four.
f_lem :
    (a b c d : ℕ)
    → a < 3
    → b < 3
    → c < 3
    → d < 3
    → f (a + b * 4 + c * 16 + d * 64) ≡ a / 2 + b / 2 * 4 + c / 2 * 16 + d / 2 * 64
f_lem a b c d ha hb hc hd = omega arith

-- The arithmetic of `u8_xor` on its two operands.
abbrev pub xor_of : ℕ → ℕ → ℕ
xor_of x y =
    let even : ℕ = f x + f y in
    let odd : ℕ = x - 2 * f x + (y - 2 * f y) in odd - 2 * f odd + 2 * (even - 2 * f even)

-- Two binary digits of an exclusive or.
digit : ℕ → ℕ → ℕ
digit x y = parity_differ x y + parity_differ (x / 2) (y / 2) * 2

bit_xor-digit : (x y : ℕ) → bit_xor x y ≡ bit_xor (x / 4) (y / 4) * 4 + digit x y
unfolding digit
bit_xor-digit x y =
    let quarter : bit_xor (x / 2 / 2) (y / 2 / 2) ≡ bit_xor (x / 4) (y / 4) =
      ap₂ bit_xor (fourth x) (fourth y) in
    omega (arith, quarter, bit_xor_step x y, bit_xor_step (x / 2) (y / 2))
  where
    fourth : (z : ℕ) → z / 2 / 2 ≡ z / 4
    fourth z = omega arith

bit_xor_byte :
    (x y : ℕ)
    → x < 256
    → y < 256
    → bit_xor x y
      ≡ digit x y
        + digit (x / 4) (y / 4) * 4
        + digit (x / 16) (y / 16) * 16
        + digit (x / 64) (y / 64) * 64
bit_xor_byte x y h k =
    let end : bit_xor (x / 64 / 4) (y / 64 / 4) ≡ 0 = ap₂ bit_xor (none_left x h) (none_left y k) in
    let second : bit_xor (x / 4 / 4) (y / 4 / 4) ≡ bit_xor (x / 16) (y / 16) =
      ap₂ bit_xor (sixteenth x) (sixteenth y) in
    let third : bit_xor (x / 16 / 4) (y / 16 / 4) ≡ bit_xor (x / 64) (y / 64) =
      ap₂ bit_xor (next x) (next y) in
    omega (
      arith,
      end,
      second,
      third,
      bit_xor-digit x y,
      bit_xor-digit (x / 4) (y / 4),
      bit_xor-digit (x / 16) (y / 16),
      bit_xor-digit (x / 64) (y / 64),
    )
  where
    none_left : (z : ℕ) → z < 256 → z / 64 / 4 ≡ 0
    none_left z l = omega arith

    sixteenth : (z : ℕ) → z / 4 / 4 ≡ z / 16
    sixteenth z = omega arith

    next : (z : ℕ) → z / 16 / 4 ≡ z / 64
    next z = omega arith

strip_lem :
    (a b c d : ℕ)
    → a < 3
    → b < 3
    → c < 3
    → d < 3
    → a + b * 4 + c * 16 + d * 64 - 2 * f (a + b * 4 + c * 16 + d * 64)
      ≡ a % 2 + b % 2 * 4 + c % 2 * 16 + d % 2 * 64
strip_lem a b c d ha hb hc hd = omega (arith, f_lem a b c d ha hb hc hd)

pub f_lt : (x : ℕ) → f x < 86
f_lt x = omega arith

odd_bits :
    (x : ℕ) → x < 256 → x ≡ x % 2 + x / 4 % 2 * 4 + x / 16 % 2 * 16 + x / 64 % 2 * 64 + 2 * f x
odd_bits x h = omega arith

-- The bits at even places of a byte.
abbrev pub low_bits : ℕ → ℕ
low_bits x = x % 2 + x / 4 % 2 * 4 + x / 16 % 2 * 16 + x / 64 % 2 * 64

sum_lem :
    (x y : ℕ)
    → f x + f y
      ≡ (x / 2 % 2 + y / 2 % 2)
        + (x / 8 % 2 + y / 8 % 2) * 4
        + (x / 32 % 2 + y / 32 % 2) * 16
        + (x / 128 % 2 + y / 128 % 2) * 64
sum_lem x y = omega arith

pub odd_lem : (x : ℕ) → x < 256 → x - 2 * f x ≡ low_bits x
odd_lem x h = omega (arith, odd_bits x h)

odd_sum_lem :
    (x y : ℕ)
    → x < 256
    → y < 256
    → x - 2 * f x + (y - 2 * f y)
      ≡ (x % 2 + y % 2)
        + (x / 4 % 2 + y / 4 % 2) * 4
        + (x / 16 % 2 + y / 16 % 2) * 16
        + (x / 64 % 2 + y / 64 % 2) * 64
odd_sum_lem x y h k = ap₂ (λ (a b : ℕ). a + b) (odd_lem x h) (odd_lem y k) ∙ omega arith

digit_lem :
    (x y k l : ℕ)
    → (z : (z : ℕ) → z / k / 2 ≡ z / l)
    → digit (x / k) (y / k) ≡ (x / k % 2 + y / k % 2) % 2 + (x / l % 2 + y / l % 2) % 2 * 2
unfolding digit
digit_lem x y k l e =
    ap₂ (λ (a b : ℕ). (x / k % 2 + y / k % 2) % 2 + (a % 2 + b % 2) % 2 * 2) (e x) (e y)

pub xor_bits : (x y : ℕ) → x < 256 → y < 256 → bit_xor x y ≡ xor_of x y
unfolding digit
xor_bits x y h k =
    bit_xor_byte x y h k
    ∙ omega (
      arith,
      digit_lem x y 4 8 (λ z. omega arith),
      digit_lem x y 16 32 (λ z. omega arith),
      digit_lem x y 64 128 (λ z. omega arith),
    )
    ∙ sym (
        ap₂ (λ (o e : ℕ). o - 2 * f o + 2 * (e - 2 * f e)) (odd_sum_lem x y h k) (sum_lem x y)
        ∙ ap₂ (λ (o e : ℕ). o + 2 * e)
            (strip_lem (x % 2 + y % 2) (x / 4 % 2 + y / 4 % 2) (x / 16 % 2 + y / 16 % 2)
              (x / 64 % 2 + y / 64 % 2) (omega arith) (omega arith) (omega arith) (omega arith))
            (strip_lem (x / 2 % 2 + y / 2 % 2) (x / 8 % 2 + y / 8 % 2) (x / 32 % 2 + y / 32 % 2)
              (x / 128 % 2 + y / 128 % 2) (omega arith) (omega arith) (omega arith) (omega arith)))
