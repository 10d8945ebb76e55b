-- ===== src/U32/Rrot/Defs.antt =====
-- The scripts of u32_rrot.rs; where a function of the source asserts a range, its model is an
-- option.
use bit_vm.Prelude.{
  ℕ, zero, suc, ◌+◌, ◌-◌, ◌/◌, ◌%◌, ◌^◌, ◌&&◌, Option, none, some, [], ◌∷◌, ltb, leb, ◌==◌,
  if◌then◌else◌, ◌>>=◌, ◌>>◌, assert,
}
use bit_vm.Prelude.Int.{pos}
use bit_vm.Script.Defs.{
  push, op_if, op_else, op_endif, op_toaltstack, op_fromaltstack, op_dup, op_2dup, op_drop, op_swap,
  op_2swap, op_rot, op_add, op_sub, op_greaterthanorequal, Script,
}
use bit_vm.Script.Run.{◌⨾◌}
use bit_vm.U32.Stack.{roll}

unfoldable pub u32_rrot16 : Script
u32_rrot16 = op_2swap ∷ []

unfoldable pub u32_rrot8 : Script
unfolding roll
u32_rrot8 = op_2swap ∷ [] ⨾ roll 3

abbrev pub roll_script : ℕ → Script
roll_script zero = []
roll_script (suc zero) = op_swap ∷ []
roll_script (suc (suc zero)) = op_rot ∷ []
roll_script (suc (suc (suc i))) = roll (3 + i)

unfoldable pub u8_rrot7 : ℕ → Script
unfolding roll
u8_rrot7 i =
    roll_script i
    ⨾ push (pos 128)
      ∷ op_2dup
      ∷ op_greaterthanorequal
      ∷ op_if
      ∷ op_sub
      ∷ push (pos 1)
      ∷ op_else
      ∷ op_drop
      ∷ push (pos 0)
      ∷ op_endif
      ∷ []

unfoldable pub u32_rrot7 : Script
unfolding u8_rrot7 roll
u32_rrot7 =
    u8_rrot7 0
    ⨾ u8_rrot7 2
    ⨾ op_toaltstack ∷ op_dup ∷ op_add ∷ op_add ∷ op_fromaltstack ∷ []
    ⨾ u8_rrot7 3
    ⨾ op_toaltstack ∷ op_dup ∷ op_add ∷ op_add ∷ op_fromaltstack ∷ []
    ⨾ u8_rrot7 4
    ⨾ op_toaltstack ∷ op_dup ∷ op_add ∷ op_add ∷ op_fromaltstack ∷ []
    ⨾ roll 4
    ⨾ op_dup ∷ op_add ∷ op_add ∷ op_swap ∷ op_2swap ∷ op_swap ∷ []

unfoldable pub u8_extract_1bit : Script
u8_extract_1bit =
    op_dup
    ∷ op_add
    ∷ push (pos 256)
    ∷ op_2dup
    ∷ op_greaterthanorequal
    ∷ op_if
    ∷ op_sub
    ∷ push (pos 1)
    ∷ op_else
    ∷ op_drop
    ∷ push (pos 0)
    ∷ op_endif
    ∷ []

unfoldable pub hbit_round : ℕ → Script
hbit_round x =
    push (pos 128)
    ∷ op_2dup
    ∷ op_greaterthanorequal
    ∷ op_if
    ∷ op_sub
    ∷ op_fromaltstack
    ∷ push (pos x)
    ∷ op_add
    ∷ op_toaltstack
    ∷ op_dup
    ∷ op_endif
    ∷ op_drop
    ∷ op_dup
    ∷ op_add
    ∷ []

-- The loop of `u8_extract_hbit`; `x` is shifted by one bit more in each round.
unfoldable pub hbit_rounds : ℕ → ℕ → Script
unfolding hbit_round
hbit_rounds zero x = []
hbit_rounds (suc rounds) x = hbit_round x ⨾ hbit_rounds rounds (x / 2)

unfoldable pub hbit_script : ℕ → Script
unfolding hbit_rounds
hbit_script hbit =
    push (pos 0) ∷ op_toaltstack ∷ [] ⨾ hbit_rounds hbit (2 ^ (hbit - 1)) ⨾ op_fromaltstack ∷ []

unfoldable pub extract_script : ℕ → Script
unfolding u8_extract_1bit hbit_script
extract_script hbit = if hbit == 1 then u8_extract_1bit else hbit_script hbit

unfoldable pub u8_extract_hbit : ℕ → Option Script
u8_extract_hbit hbit = assert (leb 1 hbit && ltb hbit 8) >> some (extract_script hbit)

unfoldable pub byte_reorder : ℕ → Option Script
byte_reorder zero = some (op_swap ∷ op_2swap ∷ op_swap ∷ [])
byte_reorder (suc zero) = some (op_swap ∷ op_rot ∷ [])
byte_reorder (suc (suc zero)) = some (op_swap ∷ op_2swap ∷ op_swap ∷ op_2swap ∷ [])
byte_reorder (suc (suc (suc zero))) = some (op_swap ∷ op_rot ∷ op_2swap ∷ [])
byte_reorder (suc (suc (suc (suc n)))) = none

unfoldable pub specific_optimize : ℕ → Option Script
unfolding u32_rrot16 u32_rrot7 u32_rrot8 roll
specific_optimize rot_num =
    if rot_num == 0
    then some []
    else if rot_num == 7
    then some u32_rrot7
    else if rot_num == 8
    then some u32_rrot8
    else if rot_num == 16
    then some u32_rrot16
    else if rot_num == 23
    then some (u32_rrot16 ⨾ u32_rrot7)
    else if rot_num == 24
    then some (roll 3)
    else none

-- The script for a rotation by whole bytes and by less than a byte.
unfoldable pub rotate_script : Script → Script → Script
unfolding roll
rotate_script extract reorder =
    extract
    ⨾ op_rot ∷ []
    ⨾ extract
    ⨾ roll 4
    ⨾ extract
    ⨾ roll 6
    ⨾ extract
    ⨾ roll 7
    ⨾ op_add ∷ op_toaltstack ∷ op_add ∷ op_toaltstack ∷ op_add ∷ op_toaltstack ∷ op_add
      ∷ op_toaltstack ∷ op_fromaltstack ∷ op_fromaltstack ∷ op_fromaltstack ∷ op_fromaltstack ∷ []
    ⨾ reorder

unfoldable pub rrot_bits : ℕ → ℕ → Option Script
rrot_bits hbit offset = do
  extract ← u8_extract_hbit hbit
  reorder ← byte_reorder offset
  some (rotate_script extract reorder)

unfoldable pub u32_rrot : ℕ → Option Script
unfolding specific_optimize rrot_bits
u32_rrot rot_num =
    let remainder : ℕ = rot_num % 8 in
    assert (ltb rot_num 32) >> elim (specific_optimize rot_num) [
      | some res ↦ some res
      | none ↦ rrot_bits (8 - remainder) ((rot_num - remainder) / 8)
    ]
