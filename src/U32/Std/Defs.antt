-- ===== src/U32/Std/Defs.antt =====
-- The scripts of u32_std.rs.
use bit_vm.Prelude.{
  ℕ, zero, suc, ◌+◌, ◌-◌, ◌*◌, ◌/◌, ◌%◌, ◌^◌, ◌&&◌, [], ◌∷◌, ltb, leb, ◌==◌, if◌then◌else◌,
}
use bit_vm.Prelude.Int.{pos}
use bit_vm.Script.Defs.{
  push, op_if, op_else, op_endif, op_toaltstack, op_fromaltstack, op_dup, op_2dup, op_3dup, op_drop,
  op_2drop, op_over, op_2over, op_swap, op_2swap, op_rot, op_tuck, op_size, op_add, op_sub, op_1add,
  op_1sub, op_booland, op_greaterthan, op_greaterthanorequal, op_equal, op_equalverify, Script,
}
use bit_vm.Script.Run.{◌⨾◌, repeat}
use bit_vm.U32.Stack.{roll, pick}

unfoldable pub op_4dup : Script
op_4dup = op_2over ∷ op_2over ∷ []

unfoldable pub op_256mul : Script
op_256mul =
    op_dup ∷ op_add ∷ op_dup ∷ op_add ∷ op_dup ∷ op_add ∷ op_dup ∷ op_add ∷ op_dup ∷ op_add ∷ op_dup
    ∷ op_add ∷ op_dup ∷ op_add ∷ op_dup ∷ op_add ∷ []

abbrev pub times_3dup : ℕ → ℕ
times_3dup n = if ltb 3 n then (n - 3) / 3 else 0

abbrev pub remaining : ℕ → ℕ
remaining n = if ltb 3 n then (n - 3) % 3 else 0

unfoldable pub op_ndup : ℕ → Script
op_ndup n =
    (if leb 1 n then op_dup ∷ [] else [])
    ⨾ (if leb 3 n then op_2dup ∷ [] else if leb 2 n then op_dup ∷ [] else [])
    ⨾ repeat (times_3dup n) (op_3dup ∷ [])
    ⨾ (if remaining n == 2 then op_2dup ∷ [] else if remaining n == 1 then op_dup ∷ [] else [])

unfoldable pub push_to_stack : ℕ → ℕ → Script
unfolding op_ndup
push_to_stack element n = if leb 1 n then push (pos element) ∷ op_ndup (n - 1) else []

-- Byte `k` of a value: `(value >> (8 * k)) & 0xff`, and `value & 0xff` for the lowest.
abbrev pub byte_of : ℕ → ℕ → ℕ
byte_of value zero = value % 256
byte_of value (suc k) = value / 2 ^ (8 * suc k) % 256

unfoldable pub u32_push : ℕ → Script
unfolding push_to_stack
u32_push value =
    if byte_of value 3 == byte_of value 2
      && byte_of value 3 == byte_of value 1
      && byte_of value 3 == byte_of value 0
    then push_to_stack (byte_of value 3) 4
    else push (pos (byte_of value 3))
      ∷ push (pos (byte_of value 2))
      ∷ push (pos (byte_of value 1))
      ∷ push (pos (byte_of value 0))
      ∷ []

unfoldable pub u32_equalverify : Script
unfolding roll
u32_equalverify =
    roll 4
    ⨾ op_equalverify ∷ []
    ⨾ roll 3
    ⨾ op_equalverify ∷ op_rot ∷ op_equalverify ∷ op_equalverify ∷ []

unfoldable pub u32_equal : Script
unfolding roll
u32_equal =
    roll 4
    ⨾ op_equal ∷ op_toaltstack ∷ []
    ⨾ roll 3
    ⨾ op_equal ∷ op_toaltstack ∷ op_rot ∷ op_equal ∷ op_toaltstack ∷ op_equal ∷ op_fromaltstack
      ∷ op_booland ∷ op_fromaltstack ∷ op_booland ∷ op_fromaltstack ∷ op_booland ∷ []

unfoldable pub u32_toaltstack : Script
u32_toaltstack = op_toaltstack ∷ op_toaltstack ∷ op_toaltstack ∷ op_toaltstack ∷ []

unfoldable pub u32_fromaltstack : Script
u32_fromaltstack = op_fromaltstack ∷ op_fromaltstack ∷ op_fromaltstack ∷ op_fromaltstack ∷ []

unfoldable pub u32_dup : Script
unfolding op_4dup
u32_dup = op_4dup

unfoldable pub u32_drop : Script
u32_drop = op_2drop ∷ op_2drop ∷ []

unfoldable pub u32_roll : ℕ → Script
u32_roll n = let k : ℕ = (n + 1) * 4 - 1 in roll k ⨾ roll k ⨾ roll k ⨾ roll k

unfoldable pub u32_pick : ℕ → Script
u32_pick n = let k : ℕ = (n + 1) * 4 - 1 in pick k ⨾ pick k ⨾ pick k ⨾ pick k

unfoldable pub u32_compress : Script
unfolding op_256mul
u32_compress =
    op_swap
      ∷ op_2swap
      ∷ op_swap
      ∷ push (pos 0x80)
      ∷ op_2dup
      ∷ op_greaterthanorequal
      ∷ op_dup
      ∷ op_toaltstack
      ∷ op_if
      ∷ op_sub
      ∷ op_else
      ∷ op_drop
      ∷ op_endif
      ∷ []
    ⨾ op_256mul
    ⨾ op_add ∷ []
    ⨾ op_256mul
    ⨾ op_add ∷ []
    ⨾ op_256mul
    ⨾ op_add ∷ op_fromaltstack ∷ op_if ∷ push (pos 0x7FFFFFFF) ∷ op_sub ∷ op_1sub ∷ op_endif ∷ []

-- One round of a loop of `u32_uncompress`: the bit of weight 2^k moves to the alternative stack.
unfoldable pub extract_bit : ℕ → Script
extract_bit k =
    push (pos (2 ^ k))
    ∷ op_2dup
    ∷ op_greaterthanorequal
    ∷ op_fromaltstack
    ∷ op_dup
    ∷ op_add
    ∷ op_over
    ∷ op_add
    ∷ op_toaltstack
    ∷ op_if
    ∷ op_sub
    ∷ op_else
    ∷ op_drop
    ∷ op_endif
    ∷ []

-- `rounds` rounds, from the bit of weight 2^(k - 1) downwards.
unfoldable pub extract_bits : ℕ → ℕ → Script
extract_bits zero k = []
extract_bits (suc rounds) zero = []
extract_bits (suc rounds) (suc k) = extract_bit k ⨾ extract_bits rounds k

-- The first bit of a byte starts a new element of the alternative stack.
unfoldable pub extract_first : ℕ → Script
extract_first k =
    push (pos (2 ^ k))
    ∷ op_2dup
    ∷ op_greaterthanorequal
    ∷ op_dup
    ∷ op_toaltstack
    ∷ op_if
    ∷ op_sub
    ∷ op_else
    ∷ op_drop
    ∷ op_endif
    ∷ []

-- What `u32_uncompress` does with the sign.
unfoldable pub split_sign : Script
split_sign =
    op_size
    ∷ push (pos 5)
    ∷ op_equal
    ∷ op_tuck
    ∷ op_if
    ∷ op_drop
    ∷ push (pos 0)
    ∷ op_else
    ∷ op_tuck
    ∷ op_greaterthan
    ∷ op_tuck
    ∷ op_if
    ∷ push (pos 0x7FFFFFFF)
    ∷ op_add
    ∷ op_1add
    ∷ op_endif
    ∷ op_endif
    ∷ op_swap
    ∷ op_toaltstack
    ∷ []

unfoldable pub u32_uncompress : Script
unfolding split_sign extract_first
u32_uncompress =
    split_sign
    ⨾ extract_bits 7 31
    ⨾ extract_first 23
    ⨾ extract_bits 7 23
    ⨾ extract_first 15
    ⨾ extract_bits 7 15
    ⨾ op_fromaltstack ∷ op_fromaltstack ∷ op_fromaltstack ∷ op_swap ∷ op_2swap ∷ op_swap ∷ []
