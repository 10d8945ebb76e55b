-- ===== src/Tests/Words.antt =====
-- Arithmetic on words in Script, at concrete words.
use bit_vm.Prelude.{
  ◌/◌, bit_and, bit_xor, ◌≡◌, refl, none, some, [], ◌∷◌, ◌++◌, arith, ◌==◌, if◌then◌else◌,
}
use bit_vm.U32.Xor.Byte.{u8_xor, u8_xor_lem}
use bit_vm.Prelude.Int.{pos}
use bit_vm.U32.Xor.Table.{u8_push_xor_table, xor_table, u8_push_xor_table_lem}
use bit_vm.Hashing.{Bytes}
use bit_vm.Script.Defs.{num, push, op_pick, state, run}
use bit_vm.Script.Run.{◌⨾◌, Runs}
use bit_vm.U32.Stack.{byte, words, Transforms}
use bit_vm.U32.Add.{u32_add, u32_add_drop, u32_add_lem}
use bit_vm.U32.Std.Defs.{u32_equalverify, u32_compress, u32_uncompress}
use bit_vm.U32.Std.Moves.{u32_equalverify_lem}
use bit_vm.U32.Std.Compress.{as_i32}
use bit_vm.U32.Std.RoundTrip.{u32_compress-Runs, u32_uncompress-Runs, u32_compress-u32_uncompress}
use bit_vm.U32.Rrot.Defs.{extract_script, u32_rrot}
use bit_vm.U32.Rrot.Rotate.{rrot}
use bit_vm.U32.Rrot.Extract.{u8_extract_hbit-Runs}
use bit_vm.U32.Rrot.Word.{u32_rrot_lem}

-- These scripts hash nothing.
abbrev unhashed : Bytes → Bytes
unhashed b = b

u32_add_lem_example :
    Transforms unhashed
      (u32_add 1 3)
      (7 ∷ 0xFFFFFFFF ∷ 8 ∷ 2 ∷ 9 ∷ [])
      (1 ∷ 7 ∷ 0xFFFFFFFF ∷ 8 ∷ 9 ∷ [])
      []
      []
    × Transforms unhashed
        (u32_add 3 1)
        (7 ∷ 0xFFFFFFFF ∷ 8 ∷ 2 ∷ 9 ∷ [])
        (1 ∷ 7 ∷ 8 ∷ 2 ∷ 9 ∷ [])
        []
        []
    × Transforms unhashed
        (u32_add_drop 1 3)
        (7 ∷ 0xFFFFFFFF ∷ 8 ∷ 2 ∷ 9 ∷ [])
        (1 ∷ 7 ∷ 8 ∷ 9 ∷ [])
        []
        []
u32_add_lem_example = u32_add_lem unhashed (7 ∷ []) (8 ∷ []) (9 ∷ []) 0xFFFFFFFF 2 [] []

u32_rrot_lem_example :
    Transforms unhashed (u32_rrot 11) (0x12345678 ∷ []) (rrot 0x12345678 11 ∷ []) (byte 5 ∷ []) []
u32_rrot_lem_example =
    u32_rrot_lem unhashed 11 0x12345678 (byte 5 ∷ []) [] (omega arith) (omega arith)

u8_extract_hbit-Runs_example :
    Runs unhashed
      (extract_script 3)
      (state (byte 0xB5 ∷ []) [])
      (state (byte 5 ∷ byte 0xA8 ∷ []) [])
u8_extract_hbit-Runs_example =
    u8_extract_hbit-Runs unhashed 3 0xB5 [] [] (omega arith) (omega arith) (omega arith)

u32_compress-Runs_example :
    Runs unhashed u32_compress
      (state (words (0x80000001 ∷ []) []) [])
      (state (num (as_i32 0x80000001) ∷ []) [])
u32_compress-Runs_example = u32_compress-Runs unhashed 0x80000001 [] [] (omega arith)

u32_uncompress-Runs_example :
    Runs unhashed u32_uncompress
      (state (num (as_i32 0x80000000) ∷ []) [])
      (state (words (0x80000000 ∷ []) []) [])
u32_uncompress-Runs_example = u32_uncompress-Runs unhashed 0x80000000 [] [] (omega arith)

u32_compress-u32_uncompress_example :
    Runs unhashed
      (u32_compress ⨾ u32_uncompress)
      (state (words (0x80000000 ∷ []) []) [])
      (state (words (0x80000000 ∷ []) []) [])
u32_compress-u32_uncompress_example =
    u32_compress-u32_uncompress unhashed 0x80000000 [] [] (omega arith)

u32_equalverify_lem_example :
    run unhashed u32_equalverify (state (words (0x01020304 ∷ 0x01020304 ∷ []) (byte 9 ∷ [])) [])
    ≡ (if 0x01020304 == 0x01020304 then some (state (byte 9 ∷ []) []) else none)
u32_equalverify_lem_example =
    u32_equalverify_lem unhashed 0x01020304 0x01020304 (byte 9 ∷ []) [] (omega arith) (omega arith)

u8_push_xor_table_lem_example :
    Runs unhashed
      (u8_push_xor_table ⨾ push (pos 0xB5) ∷ op_pick ∷ [])
      (state (byte 9 ∷ []) [])
      (state (byte (bit_and 0xB5 0xAA / 2) ∷ xor_table ++ byte 9 ∷ []) [])
u8_push_xor_table_lem_example = u8_push_xor_table_lem unhashed 0xB5 (byte 9 ∷ []) [] (omega arith)

u8_xor_lem_example :
    Runs unhashed
      (u8_xor 3)
      (state (byte 0xB5 ∷ byte 0x3C ∷ byte 7 ∷ (xor_table ++ [])) [])
      (state (byte (bit_xor 0xB5 0x3C) ∷ byte 7 ∷ (xor_table ++ [])) [])
u8_xor_lem_example =
    u8_xor_lem unhashed (byte 7 ∷ []) [] [] 3 0xB5 0x3C refl (omega arith) (omega arith)
      (omega arith)
