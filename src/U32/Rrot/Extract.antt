-- ===== src/U32/Rrot/Extract.antt =====
-- `u8_extract_hbit`: the upper bits of a byte, and the lower ones shifted up.
use native.Mathlib.Nat.{mul-add-div, mul-add-mod_self_left, pow-suc}
use bit_vm.Prelude.{
  ℕ, zero, suc, ◌+◌, ◌-◌, ◌*◌, ◌/◌, ◌%◌, ◌^◌, ◌≤◌, ◌<◌, ◌≡◌, refl, sym, ap, ◌∙◌, subst, some, [],
  ◌∷◌, arith,
}
use bit_vm.Prelude.Bits.{two-pow_pos, two-pow_mono}
use bit_vm.Prelude.Int.{pos}
use bit_vm.Hashing.{Bytes}
use bit_vm.Script.Defs.{Stack, push, op_toaltstack, op_fromaltstack, Script, state, run}
use bit_vm.Script.Run.{◌⨾◌, Runs, run-then}
use bit_vm.U32.Stack.{byte}
use bit_vm.U32.Rrot.Defs.{
  u8_extract_1bit, hbit_round, hbit_rounds, hbit_script, extract_script, u8_extract_hbit,
}

-- One more doubling of a byte, with the bit it pushes out.
double_lem :
    (n P : ℕ)
    → n < 256
    → 0 < P
    → (n * 2 % 256 * P % 256 ≡ n * (2 * P) % 256)
      × (n / 128 * P + n * 2 % 256 * P / 256 ≡ n * (2 * P) / 256)
double_lem n P h g = (
  sym (ap (λ i. i % 256) whole ∙ mul-add-mod_self_left 256 (n / 128 * P) b),
  sym (ap (λ i. i / 256) whole ∙ mul-add-div four (n / 128 * P) b),
)
  where
    b : ℕ
    b = n * 2 % 256 * P

    four : 0 < 256
    four = omega arith

    split : n * 2 ≡ 256 * (n / 128) + n * 2 % 256
    split = omega arith

    regroup : (q r : ℕ) → (256 * q + r) * P ≡ 256 * (q * P) + r * P
    regroup q r = grind arith

    whole : n * (2 * P) ≡ 256 * (n / 128 * P) + b
    whole = grind arith ∙ ap (λ i. i * P) split ∙ regroup (n / 128) (n * 2 % 256)

room_lem : (q P acc : ℕ) → q < 2 → acc + 2 * P < 2 ^ 20 → acc + q * P + P < 2 ^ 20
room_lem zero P acc h k = omega arith
room_lem (suc zero) P acc h k = omega arith
room_lem (suc (suc q)) P acc h k = absurd (omega arith)

pub u8_extract_hbit-is-some :
    (hbit : ℕ) → 1 ≤ hbit → hbit < 8 → u8_extract_hbit hbit ≡ some (extract_script hbit)
unfolding u8_extract_hbit
u8_extract_hbit-is-some hbit h g = ground arith

extract_script-loop : (m : ℕ) → extract_script (suc (suc m)) ≡ hbit_script (suc (suc m))
unfolding extract_script
extract_script-loop m = ground arith

module _ (hash160 : Bytes → Bytes) where
  u8_extract_1bit-Runs :
      (n : ℕ) (s t : Stack)
      → n < 256
      → Runs hash160 u8_extract_1bit
          (state (byte n ∷ s) t)
          (state (byte (n * 2 / 256) ∷ byte (n * 2 % 256) ∷ s) t)
  unfolding u8_extract_1bit run
  u8_extract_1bit-Runs n s t h = record { runs = ground arith }

  hbit_round-Runs :
      (q m x acc : ℕ) (s t : Stack)
      → q < 2
      → m < 128
      → acc < 2 ^ 20
      → x < 2 ^ 20
      → Runs hash160
          (hbit_round x)
          (state (byte (q * 128 + m) ∷ s) (byte acc ∷ t))
          (state (byte (m * 2) ∷ s) (byte (acc + q * x) ∷ t))
  unfolding hbit_round run
  hbit_round-Runs zero m x acc s t h g k l = record { runs = ground arith }
  hbit_round-Runs (suc zero) m x acc s t h g k l = record { runs = ground arith }
  hbit_round-Runs (suc (suc q)) m x acc s t h g k l = absurd (omega arith)

  -- The loop of the source, from its first weight 2^(rounds - 1) down.
  hbit_rounds-Runs :
      (rounds n acc : ℕ) (s t : Stack)
      → n < 256
      → rounds < 8
      → acc + 2 ^ rounds < 2 ^ 20
      → Runs hash160
          (hbit_rounds rounds (2 ^ rounds / 2))
          (state (byte n ∷ s) (byte acc ∷ t))
          (state (byte (n * 2 ^ rounds % 256) ∷ s) (byte (acc + n * 2 ^ rounds / 256) ∷ t))
  unfolding hbit_rounds run
  hbit_rounds-Runs zero n acc s t h g k = record {
    runs = λ i. some (state (byte (low i) ∷ s) (byte (high i) ∷ t));
  }
    where
      low : n ≡ n * 1 % 256
      low = omega arith

      high : acc ≡ acc + n * 1 / 256
      high = omega arith
  hbit_rounds-Runs (suc rounds) n acc s t h g k =
      let P : ℕ = 2 ^ rounds in
      let first : 2 ^ suc rounds / 2 ≡ P = omega (arith, pow-suc 2 rounds) in
      let split : n ≡ n / 128 * 128 + n % 128 = omega arith in
      let doubled : n % 128 * 2 ≡ n * 2 % 256 = omega arith in
      let twice : 2 ^ suc rounds ≡ 2 * P = omega (arith, pow-suc 2 rounds) in
      let (low, high) = double_lem n P h (two-pow_pos rounds) in
      let room : acc + n / 128 * P + P < 2 ^ 20 =
        room_lem (n / 128) P acc (omega arith) (omega (arith, twice)) in
      let high' : acc + n / 128 * P + n * 2 % 256 * P / 256 ≡ acc + n * (2 * P) / 256 =
        omega (arith, high) in
      record {
        runs =
            (λ i.
              run hash160 (hbit_round (first i) ⨾ hbit_rounds rounds (first i / 2))
                (state (byte (split i) ∷ s) (byte acc ∷ t)))
            ∙ (run-then hash160
                (hbit_round-Runs (n / 128) (n % 128) P acc s t (omega arith) (omega arith)
                  (omega arith) (omega arith))
                (subst
                  (λ (m : ℕ).
                    Runs hash160 (hbit_rounds rounds (P / 2))
                      (state (byte m ∷ s) (byte (acc + n / 128 * P) ∷ t))
                      (state (byte (n * 2 % 256 * P % 256) ∷ s)
                        (byte (acc + n / 128 * P + n * 2 % 256 * P / 256) ∷ t)))
                  (sym doubled)
                  (hbit_rounds-Runs rounds (n * 2 % 256) (acc + n / 128 * P) s t (omega arith)
                    (omega arith) room))).runs
            ∙ (λ i. some (state (byte (low i) ∷ s) (byte (high' i) ∷ t)))
            ∙ (λ i. some (
                state (byte (n * sym twice i % 256) ∷ s) (byte (acc + n * sym twice i / 256) ∷ t)));
      }

  -- For `hbit` from 1 to 7, the script of `u8_extract_hbit` turns a byte into its upper `hbit` bits,
  -- which it puts on top, and below them the byte of its other bits shifted up by `hbit`.
  pub u8_extract_hbit-Runs :
      (hbit n : ℕ) (s t : Stack)
      → 1 ≤ hbit
      → hbit < 8
      → n < 256
      → Runs hash160
          (extract_script hbit)
          (state (byte n ∷ s) t)
          (state (byte (n * 2 ^ hbit / 256) ∷ byte (n * 2 ^ hbit % 256) ∷ s) t)
  unfolding hbit_script run
  u8_extract_hbit-Runs zero n s t h g k = absurd (omega arith)
  u8_extract_hbit-Runs (suc zero) n s t h g k =
      unfold extract_script in u8_extract_1bit-Runs n s t k
  u8_extract_hbit-Runs (suc (suc m)) n s t h g k =
      let less : suc (suc m) - 1 ≡ suc m = omega arith in
      let small : 2 ^ suc (suc m) ≤ 2 ^ 7 = two-pow_mono (suc (suc m)) 7 (omega arith) in
      let first : 2 ^ suc (suc m) / 2 ≡ 2 ^ (suc (suc m) - 1) =
        omega (arith, pow-suc 2 (suc m), ap (λ (i : ℕ). 2 ^ i) less) in
      let chosen : hbit_script (suc (suc m)) ≡ extract_script (suc (suc m)) =
        sym (extract_script-loop m) in
      let start : Runs hash160 (push (pos 0) ∷ op_toaltstack ∷ []) (state (byte n ∷ s) t)
          (state (byte n ∷ s) (byte 0 ∷ t)) =
        record { runs = refl } in
      let end : Runs hash160 (op_fromaltstack ∷ []) (state (byte low ∷ s) (byte (0 + high) ∷ t))
          (state (byte high ∷ byte low ∷ s) t) =
        record { runs = λ i. some (state (byte (none_before i) ∷ byte low ∷ s) t) } in
      subst
        (λ (c : Script). Runs hash160 c (state (byte n ∷ s) t) (state (byte high ∷ byte low ∷ s) t))
        chosen
        (subst
          (λ (x : ℕ).
            Runs hash160
              (push (pos 0) ∷ op_toaltstack ∷ []
                ⨾ hbit_rounds (suc (suc m)) x
                ⨾ op_fromaltstack ∷ [])
              (state (byte n ∷ s) t) (state (byte high ∷ byte low ∷ s) t))
          first
          (run-then hash160 start
            (run-then hash160 (hbit_rounds-Runs (suc (suc m)) n 0 s t k g (omega arith)) end)))
    where
      low : ℕ
      low = n * 2 ^ suc (suc m) % 256

      high : ℕ
      high = n * 2 ^ suc (suc m) / 256

      none_before : 0 + high ≡ high
      none_before = omega arith
