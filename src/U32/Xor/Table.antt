-- ===== src/U32/Xor/Table.antt =====
-- The lookup table of u32_xor.rs.
use bit_vm.Prelude.{
  ℕ, zero, suc, ◌/◌, ◌<◌, bit_and, ◌≡◌, refl, ap, ◌∙◌, inl, inr, Bool, true, false, ◌&&◌, Option,
  none, some, [], ◌∷◌, ◌++◌, arith, ◌==◌, ==_iff, Bool-cases, get_elem?, get_elem?-append,
}
use bit_vm.U32.Xor.Bits.{f}
use bit_vm.Prelude.Int.{pos, negsuc}
use bit_vm.Hashing.{Bytes}
use bit_vm.Script.Defs.{
  Item, num, str, Stack, push, op_dup, op_2drop, op_2over, op_pick, Script, state, run,
}
use bit_vm.Script.Run.{◌⨾◌, repeat, Runs, run-then}
use bit_vm.U32.Stack.{byte}

-- Eight table entries: four numbers pushed twice each, in two halves of which each is repeated.
abbrev pub eight_entries : ℕ → ℕ → Script
eight_entries a b = push (pos a) ∷ op_dup ∷ push (pos b) ∷ op_dup ∷ op_2over ∷ op_2over ∷ []

unfoldable pub u8_push_xor_table : Script
u8_push_xor_table =
    eight_entries 85 84
    ⨾ eight_entries 81 80
    ⨾ eight_entries 85 84
    ⨾ eight_entries 81 80
    ⨾ eight_entries 69 68
    ⨾ eight_entries 65 64
    ⨾ eight_entries 69 68
    ⨾ eight_entries 65 64
    ⨾ eight_entries 85 84
    ⨾ eight_entries 81 80
    ⨾ eight_entries 85 84
    ⨾ eight_entries 81 80
    ⨾ eight_entries 69 68
    ⨾ eight_entries 65 64
    ⨾ eight_entries 69 68
    ⨾ eight_entries 65 64
    ⨾ eight_entries 21 20
    ⨾ eight_entries 17 16
    ⨾ eight_entries 21 20
    ⨾ eight_entries 17 16
    ⨾ eight_entries 5 4
    ⨾ eight_entries 1 0
    ⨾ eight_entries 5 4
    ⨾ eight_entries 1 0
    ⨾ eight_entries 21 20
    ⨾ eight_entries 17 16
    ⨾ eight_entries 21 20
    ⨾ eight_entries 17 16
    ⨾ eight_entries 5 4
    ⨾ eight_entries 1 0
    ⨾ eight_entries 5 4
    ⨾ eight_entries 1 0

unfoldable pub u8_drop_xor_table : Script
u8_drop_xor_table = repeat 128 (op_2drop ∷ [])

abbrev eight : ℕ → ℕ → Stack → Stack
eight a b s = byte b ∷ byte b ∷ byte a ∷ byte a ∷ byte b ∷ byte b ∷ byte a ∷ byte a ∷ s

-- The table from its top.
unfoldable pub xor_table : Stack
xor_table = eight 1 0 (
    eight 5 4 (
      eight 1 0 (
        eight 5 4 (
          eight 17 16 (
            eight 21 20 (
              eight 17 16 (
                eight 21 20 (
                  eight 1 0 (
                    eight 5 4 (
                      eight 1 0 (
                        eight 5 4 (
                          eight 17 16 (
                            eight 21 20 (
                              eight 17 16 (
                                eight 21 20 (
                                  eight 65 64 (
                                    eight 69 68 (
                                      eight 65 64 (
                                        eight 69 68 (
                                          eight 81 80 (
                                            eight 85 84 (
                                              eight 81 80 (
                                                eight 85 84 (
                                                  eight 65 64 (
                                                    eight 69 68 (
                                                      eight 65 64 (
                                                        eight 69 68 (
                                                          eight 81 80 (
                                                            eight 85 84 (
                                                            eight 81 80 (
                                                            eight 85 84
                                                            [])))))))))))))))))))))))))))))))

-- Whether the first `k` numbers all pass a test.
all_below : ℕ → (ℕ → Bool) → Bool
all_below zero p = true
all_below (suc k) p = p k && all_below k p

&&-first : (a b : Bool) → (a && b) ≡ true → a ≡ true
&&-first true b h = refl
&&-first false b h = h

&&-second : (a b : Bool) → (a && b) ≡ true → b ≡ true
&&-second true b h = h
&&-second false b h = ground (arith, h)

below : (n k : ℕ) → n < suc k → (n == k) ≡ false → n < k
below n k l other = ground arith

all_below_lem : (k : ℕ) (p : ℕ → Bool) → all_below k p ≡ true → (n : ℕ) → n < k → p n ≡ true
unfolding all_below
all_below_lem zero p h n l = absurd (omega arith)
all_below_lem (suc k) p h n l = elim (Bool-cases (n == k)) [
  | inl same_number ↦ ap p ((==_iff n k).0 same_number) ∙ &&-first (p k) (all_below k p) h
  | inr other ↦ all_below_lem k p (&&-second (p k) (all_below k p) h) n (below n k l other)
]

abbrev is_entry : Option Item → ℕ → Bool
is_entry (some (num (pos m))) v = m == v
is_entry _ v = false

is_entry-some : (o : Option Item) (v : ℕ) → is_entry o v ≡ true → o ≡ some (byte v)
is_entry-some (some (num (pos m))) v h = ap (λ (i : ℕ). some (byte i)) ((==_iff m v).0 h)
is_entry-some (some (num (negsuc m))) v h = ground (arith, h)
is_entry-some (some (str b)) v h = ground (arith, h)
is_entry-some none v h = ground (arith, h)

all_entries : all_below 256 (λ n. is_entry (get_elem? xor_table n) (bit_and n 0xAA / 2)) ≡ true
unfolding all_below xor_table
all_entries = refl

all_by_bits : all_below 256 (λ n. is_entry (get_elem? xor_table n) (f n)) ≡ true
unfolding all_below xor_table
all_by_bits = refl

pub xor_table-entry :
    (n : ℕ) (s : Stack) → n < 256 → get_elem? (xor_table ++ s) n ≡ some (byte (f n))
unfolding xor_table
xor_table-entry n s h =
    get_elem?-append xor_table s n h
    ∙ is_entry-some (get_elem? xor_table n) (f n)
        (all_below_lem 256 (λ m. is_entry (get_elem? xor_table m) (f m)) all_by_bits n h)

module _ (hash160 : Bytes → Bytes) where
  pushed-Runs :
      (s t : Stack) → Runs hash160 u8_push_xor_table (state s t) (state (xor_table ++ s) t)
  unfolding u8_push_xor_table xor_table run
  pushed-Runs s t = record { runs = refl }

  -- After `u8_push_xor_table`, OP_PICK at a byte x finds `(x & 0b10101010) >> 1`.
  pub u8_push_xor_table_lem :
      (x : ℕ) (s t : Stack)
      → x < 256
      → Runs hash160
          (u8_push_xor_table ⨾ push (pos x) ∷ op_pick ∷ [])
          (state s t)
          (state (byte (bit_and x 0xAA / 2) ∷ xor_table ++ s) t)
  unfolding xor_table run
  u8_push_xor_table_lem x s t h =
      run-then hash160 (pushed-Runs s t)
        (record { runs = rw (get_elem?-append xor_table s x h, entry) refl })
    where
      entry : get_elem? xor_table x ≡ some (byte (bit_and x 0xAA / 2))
      entry = is_entry-some (get_elem? xor_table x) (bit_and x 0xAA / 2) (
          all_below_lem 256 (λ n. is_entry (get_elem? xor_table n) (bit_and n 0xAA / 2)) all_entries
            x h)

  -- `u8_drop_xor_table` removes what `u8_push_xor_table` pushed, and nothing else.
  pub u8_push_xor_table-u8_drop_xor_table :
      (s t : Stack) → Runs hash160 (u8_push_xor_table ⨾ u8_drop_xor_table) (state s t) (state s t)
  unfolding u8_push_xor_table u8_drop_xor_table repeat run
  u8_push_xor_table-u8_drop_xor_table s t = record { runs = refl }
