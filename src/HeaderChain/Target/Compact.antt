-- ===== src/HeaderChain/Target/Compact.antt =====
-- The compact form of a target: a byte count and the three most significant bytes.
use native.Mathlib.Nat.{pow-suc, div-div-eq-div-mul, div-add-mod, mod-eq_of_lt, pow-le-pow_right}
use native.Mathlib.Nat.{mul-div_cancel}
use native.Mathlib.Decide.{dec_lt}
use native.Mathlib.Numerals.{towards_suc}
use bit_vm.Prelude.{
  ℕ, zero, suc, ◌+◌, ◌-◌, ◌*◌, ◌/◌, ◌%◌, ◌^◌, ◌≤◌, ◌<◌, ◌≡◌, refl, ap, ap₂, ◌∙◌, sym, bit_and,
  false, some, [], ◌∷◌, get_elem?, leb, ◌==◌, if◌then◌else◌, arith,
}
use bit_vm.Prelude.Bits.{bit_and_mask, two-pow_mono}
use bit_vm.Words.Bytes.{
  be_value, be_bytes, be_bytes_lt, be_bytes-All, length-be_bytes, get_elem?-be_bytes, pow_pos,
}
use bit_vm.Words.U256.{U256}
use bit_vm.HeaderChain.Target.Defs.{bits_to_target, target_to_bits}

pow_bytes : (k : ℕ) → 256 ^ k ≡ 2 ^ (8 * k)
pow_bytes zero = refl
pow_bytes (suc k) =
    pow-suc 256 k
    ∙ ap (λ (t : ℕ). t * 256) (pow_bytes k)
    ∙ sym (step (8 * k))
    ∙ ap (λ (t : ℕ). 2 ^ t) (omega arith)
  where
    step : (n : ℕ) → 2 ^ (n + 8) ≡ 2 ^ n * 256
    step n = simp towards_suc (omega arith)

pow_shift : (n c : ℕ) → 2 ^ (n + c) ≡ 2 ^ c * 2 ^ n
pow_shift n zero =
    let e : 2 ^ (n + 0) ≡ 2 ^ n = ap (λ (t : ℕ). 2 ^ t) (omega arith) in omega (arith, e)
pow_shift n (suc c) =
    let e : 2 ^ (n + suc c) ≡ 2 ^ suc (n + c) = ap (λ (t : ℕ). 2 ^ t) (omega arith) in
    omega (arith, e, pow-suc 2 (n + c), pow_shift n c, ap (λ (t : ℕ). t * 2 ^ n) (pow-suc 2 c))

div-pow_next : (v k : ℕ) → v / 256 ^ suc k ≡ v / 256 ^ k / 256
div-pow_next v k = ap (λ (t : ℕ). v / t) (pow-suc 256 k) ∙ sym (div-div-eq-div-mul v (256 ^ k) 256)

-- `v` has its most significant byte, of seven bits, at byte `k + 2`.
abbrev pub Leads : ℕ → ℕ → Type 0
Leads v k = (2 ^ 15 * 256 ^ k ≤ v) × (v < 2 ^ 23 * 256 ^ k) × (k ≤ 29)

mantissa_lt : (v k : ℕ) → v < 2 ^ 23 * 256 ^ k → v / 256 ^ k < 2 ^ 23
mantissa_lt v k h = lemma (v / 256 ^ k) (256 ^ k) (v % 256 ^ k) v (div-add-mod v (256 ^ k)) h
  where
    lemma : (q p r v : ℕ) → p * q + r ≡ v → v < 2 ^ 23 * p → q < 2 ^ 23
    lemma q p r v e h = grind arith

Leads-lt : (v k : ℕ) → Leads v k → v < 2 ^ 255
Leads-lt v k h =
    let p : 256 ^ k ≤ 256 ^ 29 = pow-le-pow_right (omega arith) h.2 in omega (arith, h.1, p)

product : (m k : ℕ) → m < 2 ^ 23 → k ≤ 29 → m * 256 ^ k < 2 ^ 256
product m k hm hk =
    let p : 256 ^ k ≤ 256 ^ 29 = pow-le-pow_right (omega arith) hk in grind (arith, p, hm)

module _ (u : U256) where
  -- How many bits `v` has.
  bits_lem : (v k : ℕ) → Leads v k → (8 * k + 15 < u.bits v) × (u.bits v ≤ 8 * k + 23)
  bits_lem v k h = (low, high)
    where
      fits : v < 2 ^ 256
      fits = omega (arith, Leads-lt v k h)

      low : 8 * k + 15 < u.bits v
      low = elim (dec_lt (8 * k + 15) (u.bits v)) [
        | yes p ↦ p
        | no p ↦ absurd (
            omega (
              arith,
              u.bits_high v fits,
              two-pow_mono (u.bits v) (8 * k + 15) (omega arith),
              pow_shift (8 * k) 15,
              pow_bytes k,
              h.0,
            ))
      ]

      high : u.bits v ≤ 8 * k + 23
      high = elim (dec_lt (8 * k + 23) (u.bits v)) [
        | yes p ↦ absurd (
            omega (
              arith,
              (u.bits_low v (omega (arith, h.0, pow_pos k)) fits).1,
              two-pow_mono (8 * k + 23) (u.bits v - 1) (omega arith),
              pow_shift (8 * k) 23,
              pow_bytes k,
              h.1,
            ))
        | no p ↦ omega arith
      ]

  target_to_bits_lem :
      (v k : ℕ)
      → Leads v k
      → target_to_bits u (be_bytes 32 v) ≡ some ((k + 3) * 2 ^ 24 + v / 256 ^ k)
  unfolding target_to_bits
  target_to_bits_lem v k h = rw (index, not_zero, first, second, third) (ap some packed)
    where
      m : ℕ
      m = v / 256 ^ k

      back : u.from_be_bytes (be_bytes 32 v) ≡ v
      back =
          u.from_be_bytes_value (be_bytes 32 v) (length-be_bytes 32 v) (be_bytes-All 32 v)
          ∙ be_bytes_lt 32 v (omega (arith, Leads-lt v k h))

      index : (263 - u.bits (u.from_be_bytes (be_bytes 32 v))) / 8 ≡ 30 - k
      index = ap (λ (t : ℕ). (263 - u.bits t) / 8) back ∙ omega (arith, bits_lem v k h, h.2)

      not_zero : (30 - k == 0) ≡ false
      not_zero = ground (arith, h.2)

      third : get_elem? (be_bytes 32 v) (30 - k + 1) ≡ some (m % 256)
      third = get_elem?-be_bytes 32 v (30 - k + 1) k (omega (arith, h.2))

      second : get_elem? (be_bytes 32 v) (30 - k) ≡ some (m / 256 % 256)
      second =
          get_elem?-be_bytes 32 v (30 - k) (suc k) (omega (arith, h.2))
          ∙ ap (λ (t : ℕ). some (t % 256)) (div-pow_next v k)

      first : get_elem? (be_bytes 32 v) (30 - k - 1) ≡ some (m / 256 / 256 % 256)
      first =
          get_elem?-be_bytes 32 v (30 - k - 1) (suc (suc k)) (omega (arith, h.2))
          ∙ ap (λ (t : ℕ). some (t % 256))
              (div-pow_next v (suc k) ∙ ap (λ (t : ℕ). t / 256) (div-pow_next v k))

      packed :
          be_value ((33 - (30 - k)) ∷ (m / 256 / 256 % 256) ∷ (m / 256 % 256) ∷ (m % 256) ∷ [])
          ≡ (k + 3) * 2 ^ 24 + v / 256 ^ k
      packed = unfold be_value in omega (arith, h.2, mantissa_lt v k h.1)

  -- The number that a size and a mantissa stand for.
  abbrev expand : ℕ → ℕ → ℕ
  expand size mantissa =
      if leb size 3 then mantissa / 2 ^ (8 * (3 - size)) else u.shl mantissa (8 * (size - 3))

  expand_lem : (m k : ℕ) → m < 2 ^ 23 → k ≤ 29 → expand (k + 3) m ≡ m * 256 ^ k
  expand_lem m zero hm hk = omega arith
  expand_lem m (suc k) hm hk =
      let test : leb (suc k + 3) 3 ≡ false = ground arith in
      let places : 8 * (suc k + 3 - 3) ≡ 8 * suc k = omega arith in
      rw (test, places, u.shl_value m (8 * suc k) (omega arith) (omega arith))
        (ap (λ (t : ℕ). m * t % 2 ^ 256) (sym (pow_bytes (suc k)))
          ∙ mod-eq_of_lt (product m (suc k) hm hk))

  bits_to_target_lem :
      (m k : ℕ)
      → m < 2 ^ 23
      → k ≤ 29
      → bits_to_target u ((k + 3) * 2 ^ 24 + m) ≡ be_bytes 32 (m * 256 ^ k)
  unfolding bits_to_target
  bits_to_target_lem m k hm hk =
      ap₂ (λ s n. u.to_be_bytes (expand s n)) size mantissa
      ∙ ap u.to_be_bytes (expand_lem m k hm hk)
      ∙ u.to_be_bytes_value (m * 256 ^ k) (product m k hm hk)
    where
      size : ((k + 3) * 2 ^ 24 + m) / 2 ^ 24 ≡ k + 3
      size = omega arith

      mantissa : bit_and ((k + 3) * 2 ^ 24 + m) 0x00ffffff ≡ m
      mantissa = bit_and_mask 24 ((k + 3) * 2 ^ 24 + m) ∙ omega arith

  -- A canonical compact target (size from 3 to 32 bytes, a 24-bit mantissa with its sign bit clear
  -- and at least 0x8000) is what `target_to_bits` gives for the target that `bits_to_target`
  -- expands it to.
  pub target_to_bits-bits_to_target :
      (size mantissa : ℕ)
      → 3 ≤ size
      → size ≤ 32
      → 0x8000 ≤ mantissa
      → mantissa < 0x800000
      → target_to_bits u (bits_to_target u (size * 2 ^ 24 + mantissa))
        ≡ some (size * 2 ^ 24 + mantissa)
  target_to_bits-bits_to_target size m h₁ h₂ h₃ h₄ =
      let k : ℕ = size - 3 in
      let e : size ≡ k + 3 = omega arith in
      let small : k ≤ 29 = omega arith in
      let leads : Leads (m * 256 ^ k) k = (grind arith, grind (arith, pow_pos k), small) in
      rw (e, bits_to_target_lem m k h₄ small)
        (target_to_bits_lem (m * 256 ^ k) k leads
          ∙ ap (λ (t : ℕ). some ((k + 3) * 2 ^ 24 + t)) (mul-div_cancel m (pow_pos k)))

  -- Where the most significant byte of a number lies.
  leading : (w v : ℕ) → w ≤ 29 → 2 ^ 15 ≤ v → v < 2 ^ 23 * 256 ^ w → (k : ℕ) × Leads v k
  leading zero v hw lo hi = (0, (omega arith, hi, omega arith))
  leading (suc w) v hw lo hi = elim (dec_lt v (2 ^ 23 * 256 ^ w)) [
    | yes p ↦ leading w v (omega arith) lo p
    | no p ↦ (suc w, (omega (arith, pow-suc 256 w), hi, hw))
  ]

  -- The compact form of a target from 2^15 up to 2^255 keeps its leading 16 to 23 bits: expanding
  -- it again gives the target with its `k` low bytes cleared, where the target is at least
  -- 2^15 * 256^k.
  pub bits_to_target-target_to_bits :
      (target : ℕ)
      → 2 ^ 15 ≤ target
      → target < 2 ^ 255
      → (bits k : ℕ) × (target_to_bits u (be_bytes 32 target) ≡ some bits)
        × (bits_to_target u bits ≡ be_bytes 32 (target / 256 ^ k * 256 ^ k))
        × (2 ^ 15 * 256 ^ k ≤ target)
        × (target < 2 ^ 23 * 256 ^ k)
  bits_to_target-target_to_bits v lo hi =
      let (k, leads) = leading 29 v (omega arith) lo hi in
      (
        (k + 3) * 2 ^ 24 + v / 256 ^ k,
        k,
        target_to_bits_lem v k leads,
        bits_to_target_lem (v / 256 ^ k) k (mantissa_lt v k leads.1) leads.2,
        leads.0,
        leads.1,
      )
