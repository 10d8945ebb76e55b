-- ===== src/HeaderChain/State/Split.antt =====
-- Applying headers in two batches, and in one.
use bit_vm.Prelude.{
  ℕ, zero, suc, ◌+◌, ◌-◌, ◌%◌, ◌^◌, ◌<◌, ◌≡◌, refl, ap, ◌∙◌, sym, subst, ◌≢◌, inl, inr, false, ◌&&◌,
  not, Bool-cases, Option, none, some, List, [], ◌∷◌, ◌++◌, length, set, get_or, length-set, ◌==◌,
  if◌then◌else◌, ◌>>=◌, >>=_assoc, some_inj, >>=-eq-some, arith,
}
use bit_vm.Hashing.{Bytes}
use bit_vm.Words.Bytes.{be_bytes, be_bytes_lt, length-be_bytes, be_bytes-All}
use bit_vm.Words.U256.{U256}
use bit_vm.HeaderChain.Network.{
  Network, network_constants, is_regtest, is_testnet4, blocks_per_epoch,
}
use bit_vm.HeaderChain.Target.Defs.{bits_to_target}
use bit_vm.HeaderChain.State.Defs.{
  CircuitBlockHeader, ChainState, Progress, enter, leave, demand, accept, retarget, epoch_start,
  advance, apply_block, apply_headers, apply_blocks,
}
use bit_vm.HeaderChain.State.Step.{Applied, apply_block-Applied, next_height}

get_or-set : (xs : List ℕ) (i v : ℕ) → i < length xs → get_or (set xs i v) i 0 ≡ v
get_or-set [] i v h = absurd (omega arith)
get_or-set (x ∷ xs) zero v h = refl
get_or-set (x ∷ xs) (suc i) v h = get_or-set xs i v (omega arith)

-- None of the `count` blocks after `height` ends an epoch or stands at the last height of a u32.
abbrev pub StaysInEpoch : ℕ → ℕ → Type 0
StaysInEpoch height count =
    (i : ℕ)
    → i < count
    → ((height + 1 + i) % 2 ^ 32 % blocks_per_epoch ≢ blocks_per_epoch - 1)
      × ((height + 1 + i) % 2 ^ 32 ≢ 2 ^ 32 - 1)

module _ (sha256 : Bytes → Bytes) (u : U256) (net : Network) where
  -- The loop's variables are those that a new call would start with.
  record Consistent (p : Progress) : Type 0 where
    target : p.current_target_bytes ≡ (
        if is_regtest net
        then u.to_be_bytes (network_constants net).max_target
        else bits_to_target u p.state.current_target_bits)
    work : p.current_work < 2 ^ 256
    last : p.last_block_time ≡ (
        if is_testnet4 net
        then (if p.state.block_height == 2 ^ 32 - 1
            then 0
            else get_or p.state.prev_11_timestamps (p.state.block_height % 11) 0)
        else 0)
    eleven : length p.state.prev_11_timestamps ≡ 11
    small : p.state.block_height < 2 ^ 32

  retarget_inside :
      (p : Progress) (height start time : ℕ)
      → height % blocks_per_epoch ≢ blocks_per_epoch - 1
      → retarget sha256 u net p height start time
        ≡ some (p.current_target_bytes, p.state.current_target_bits)
  unfolding retarget
  retarget_inside p height start time h = rw test
    where
      test : (not (is_regtest net) && height % blocks_per_epoch == blocks_per_epoch - 1) ≡ false
      test = ground (arith, h)

  -- The invariant over one header.
  step-Consistent :
      (p q : Progress) (h : CircuitBlockHeader)
      → Consistent p
      → Applied sha256 u net p h q
      → next_height sha256 u net p % blocks_per_epoch ≢ blocks_per_epoch - 1
      → next_height sha256 u net p ≢ 2 ^ 32 - 1
      → Consistent q
  step-Consistent p q h c a inside below = record {
    target =
        sym (ap (λ t. t.0) kept)
        ∙ c.target
        ∙ ap
            (λ (t : Bytes × ℕ).
              if is_regtest net
              then u.to_be_bytes (network_constants net).max_target
              else bits_to_target u t.1)
            kept;
    work = rw a.work (u.wrapping_add_lt _ _);
    last = a.last_time ∙ last_time;
    eleven = ap length a.timestamps ∙ length-set _ _ _ ∙ c.eleven;
    small = omega (arith, a.height);
  }
    where
      kept :
          ◌≡◌ {A = Bytes × ℕ}
            (p.current_target_bytes, p.state.current_target_bits)
            (q.current_target_bytes, q.state.current_target_bits)
      kept = some_inj (sym (retarget_inside p _ _ _ inside) ∙ a.retargeted)

      not_max : (q.state.block_height == 2 ^ 32 - 1) ≡ false
      not_max = ground (arith, a.height, below)

      slot : get_or q.state.prev_11_timestamps (q.state.block_height % 11) 0 ≡ h.time
      slot =
          rw (a.timestamps, a.height)
            (get_or-set p.state.prev_11_timestamps _ h.time (omega (arith, c.eleven)))

      last_time : (if is_testnet4 net then h.time else p.last_block_time) ≡ (
          if is_testnet4 net
          then (if q.state.block_height == 2 ^ 32 - 1
              then 0
              else get_or q.state.prev_11_timestamps (q.state.block_height % 11) 0)
          else 0)
      last_time = elim (Bool-cases (is_testnet4 net)) [
        | inl testnet ↦ rw (testnet, not_max, slot) refl
        | inr other ↦ rw other (c.last ∙ rw other refl)
      ]

  steps-Consistent :
      (p q : Progress) (hs : List CircuitBlockHeader)
      → Consistent p
      → StaysInEpoch p.state.block_height (length hs)
      → apply_headers sha256 u net p hs ≡ some q
      → Consistent q
  unfolding apply_headers
  steps-Consistent p q [] c stays e = subst Consistent (some_inj e) c
  steps-Consistent p q (h ∷ hs) c stays e =
      let (p', stepped, e') = >>=-eq-some (apply_block sha256 u net p h) _ e in
      let a = apply_block-Applied sha256 u net p h p' stepped in
      let (inside, below) = stays 0 (omega arith) in
      let first : (p.state.block_height + 1 + 0) % 2 ^ 32 ≡ next_height sha256 u net p =
        omega arith in
      let c' = step-Consistent p p' h c a (rw first at inside) (rw first at below) in
      let shifted = λ (i : ℕ).
        let e : (p'.state.block_height + 1 + i) % 2 ^ 32
            ≡ (p.state.block_height + 1 + suc i) % 2 ^ 32 =
          omega (arith, a.height) in
        e in
      steps-Consistent p' q hs c' (λ i lt. rw (shifted i) (stays (suc i) (omega arith))) e'

  enter-Consistent :
      (s : ChainState)
      → length s.prev_11_timestamps ≡ 11
      → s.block_height < 2 ^ 32
      → Consistent (enter sha256 u net s)
  unfolding enter
  enter-Consistent s eleven small = record {
    target = refl;
    work = u.from_be_bytes_lt s.total_work;
    last = refl;
    eleven = eleven;
    small = small;
  }

  -- The loop does not look at the state's total work.
  abbrev retotal : Bytes → Progress → Progress
  retotal w p = record p { state = record (p.state) { total_work = w } }

  apply_block-retotal :
      (w : Bytes) (p : Progress) (h : CircuitBlockHeader)
      → apply_block sha256 u net (retotal w p) h
        ≡ (apply_block sha256 u net p h >>= λ q. some (retotal w q))
  unfolding apply_block demand accept retarget epoch_start advance
  apply_block-retotal w p h = simp >>=_assoc

  apply_headers-retotal :
      (w : Bytes) (hs : List CircuitBlockHeader) (p : Progress)
      → apply_headers sha256 u net (retotal w p) hs
        ≡ (apply_headers sha256 u net p hs >>= λ q. some (retotal w q))
  unfolding apply_headers
  apply_headers-retotal w [] p = refl
  apply_headers-retotal w (h ∷ hs) p =
      simp (apply_block-retotal w p h, >>=_assoc, apply_headers-retotal w hs)

  apply_headers-append :
      (xs ys : List CircuitBlockHeader) (p : Progress)
      → apply_headers sha256 u net p (xs ++ ys)
        ≡ (apply_headers sha256 u net p xs >>= λ q. apply_headers sha256 u net q ys)
  unfolding apply_headers
  apply_headers-append [] ys p = refl
  apply_headers-append (x ∷ xs) ys p = simp (>>=_assoc, apply_headers-append xs ys)

  -- Leaving and entering again gives the same variables, but for the total work in the state.
  enter-leave :
      (p : Progress)
      → Consistent p
      → enter sha256 u net (leave sha256 u net p) ≡ retotal (u.to_be_bytes p.current_work) p
  unfolding enter leave
  enter-leave p c = λ i. record {
    state = record (p.state) { total_work = u.to_be_bytes p.current_work };
    current_target_bytes = sym c.target i;
    current_work = back i;
    last_block_time = sym c.last i;
  }
    where
      back : u.from_be_bytes (u.to_be_bytes p.current_work) ≡ p.current_work
      back =
          ap u.from_be_bytes (u.to_be_bytes_value p.current_work c.work)
          ∙ u.from_be_bytes_value (be_bytes 32 p.current_work) (length-be_bytes 32 p.current_work)
              (be_bytes-All 32 p.current_work)
          ∙ be_bytes_lt 32 p.current_work c.work

  -- A new call goes on where the loop stopped.
  resume :
      (q : Progress) (ys : List CircuitBlockHeader)
      → Consistent q
      → apply_blocks sha256 u net (leave sha256 u net q) ys
        ≡ (apply_headers sha256 u net q ys >>= λ a. some (leave sha256 u net a))
  unfolding apply_blocks leave
  resume q ys c =
      ap (λ t. apply_headers sha256 u net t ys >>= λ a. some (leave sha256 u net a))
        (enter-leave q c)
      ∙ ap (λ r. r >>= λ a. some (leave sha256 u net a))
          (apply_headers-retotal (u.to_be_bytes q.current_work) ys q)
      ∙ >>=_assoc (apply_headers sha256 u net q ys) _ _

  -- For a state with eleven timestamps, and headers of which none in the first batch ends an epoch
  -- or stands at height 2^32 - 1: applying the two batches one after the other gives the same
  -- state, or the same refusal, as applying them in one call.
  pub apply_blocks-append :
      (s : ChainState) (xs ys : List CircuitBlockHeader)
      → length s.prev_11_timestamps ≡ 11
      → s.block_height < 2 ^ 32
      → StaysInEpoch s.block_height (length xs)
      → apply_blocks sha256 u net s (xs ++ ys)
        ≡ (apply_blocks sha256 u net s xs >>= λ s'. apply_blocks sha256 u net s' ys)
  unfolding apply_blocks
  apply_blocks-append s xs ys eleven small stays =
      ap (λ r. r >>= λ q. some (leave sha256 u net q)) (apply_headers-append xs ys start)
      ∙ finish (apply_headers sha256 u net start xs) refl
    where
      start : Progress
      start = enter sha256 u net s

      stays_from :
          StaysInEpoch s.block_height (length xs)
          → StaysInEpoch start.state.block_height (length xs)
      stays_from h = unfold enter in h

      finish :
          (r : Option Progress)
          → apply_headers sha256 u net start xs ≡ r
          → (r >>= (λ q. apply_headers sha256 u net q ys) >>= λ q. some (leave sha256 u net q))
            ≡ (r >>= (λ q. some (leave sha256 u net q)) >>= λ s'. apply_blocks sha256 u net s' ys)
      finish none e = refl
      finish (some q) e =
          let c =
            steps-Consistent start q xs (enter-Consistent s eleven small) (stays_from stays) e in
          sym (resume q ys c)
