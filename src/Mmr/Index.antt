-- ===== src/Mmr/Index.antt =====
-- The index arithmetic of `get_helpers_from_index`: leading zeros, and counting set bits.
use bit_vm.Prelude.{
  ℕ, zero, suc, ◌+◌, ◌/◌, ◌%◌, ◌^◌, ◌≤◌, ◌≡◌, refl, ap, bit_and, bit_xor, ◌==◌, arith,
}
use bit_vm.Prelude.Bits.{two-pow_pos, div-pow_suc, bit_and_bit, bit_xor_step}
use bit_vm.Mmr.Defs.{count_subtrees}

pub bit_clear : (i n : ℕ) → (bit_and n (2 ^ i) == 0) ≡ (n / 2 ^ i % 2 == 0)
bit_clear i n = grind (arith, bit_and_bit i n, two-pow_pos i)

-- Counting the bits of `n` from bit `i + 1` is counting those of `n / 2` from bit `i`.
pub count_subtrees-suc : (r i n : ℕ) → count_subtrees r (suc i) n ≡ count_subtrees r i (n / 2)
unfolding count_subtrees
count_subtrees-suc zero i n = refl
count_subtrees-suc (suc r) i n =
    let step = count_subtrees-suc r (i + 1) n in
    let next : count_subtrees r (suc i + 1) n ≡ count_subtrees r (suc (i + 1)) n =
      ap (λ (t : ℕ). count_subtrees r t n) (omega arith) in
    rw (bit_clear (suc i) n, bit_clear i (n / 2), div-pow_suc n i) (omega (arith, next, step))

pub count_subtrees-zero_step :
    (r n : ℕ) → count_subtrees (suc r) 0 n ≡ n % 2 + count_subtrees r 0 (n / 2)
unfolding count_subtrees
count_subtrees-zero_step r n = ground (arith, bit_and_bit 0 n, count_subtrees-suc r 0 n)

pub bit_xor_self : (n a : ℕ) → a ≤ n → bit_xor a a ≡ 0
bit_xor_self zero zero h = refl
bit_xor_self zero (suc a) h = absurd (omega arith)
bit_xor_self (suc n) zero h = refl
bit_xor_self (suc n) (suc a) h =
    omega (arith, bit_xor_step (suc a) (suc a), bit_xor_self n (suc a / 2) (omega arith))
