-- ===== src/HeaderChain/State/History.antt =====
-- Chains of runs of the header chain circuit, back to the genesis state.
use bit_vm.Prelude.{
  ℕ, ◌+◌, ◌-◌, ◌%◌, ◌^◌, ◌≡◌, refl, ap, ◌∙◌, sym, subst, Bool, true, some, List, [], ◌∷◌, ◌++◌,
  length, length-append, replicate, ◌>>◌, >>=-eq-some, some_inj, assert, assert-eq-some, bytes_eq,
  arith,
}
use bit_vm.Hashing.{Bytes}
use bit_vm.Words.U256.{U256}
use bit_vm.Mmr.Defs.{MmrGuest, new_guest, append_guest}
use bit_vm.Mmr.Append.{append_all_guest}
use bit_vm.HeaderChain.Network.{Network}
use bit_vm.HeaderChain.State.Defs.{
  CircuitBlockHeader, ChainState, BlockHeaderCircuitOutput, HeaderChainPrevProofType, genesis_block,
  prev_proof, HeaderChainCircuitInput, compute_block_hash, new_chain_state, apply_blocks,
  header_chain_circuit,
}
use bit_vm.HeaderChain.State.Linked.{IsLinked, last_hash, block_hashes, apply_blocks-IsLinked}

module _ (sha256 : Bytes → Bytes) (u : U256) (net : Network) where
  -- The outputs that runs of the circuit for one guest commit: the first run starts from the genesis
  -- state, a later one from the output of an earlier one.
  pub data Committed (verify : List ℕ → BlockHeaderCircuitOutput → Bool) (method_id : List ℕ)
      : BlockHeaderCircuitOutput → Type 0 where
    first_run :
        (headers : List CircuitBlockHeader) (out : BlockHeaderCircuitOutput)
        → header_chain_circuit sha256 u net verify
            (record { method_id = method_id; prev_proof = genesis_block; block_headers = headers })
          ≡ some out
        → Committed verify method_id out
    next_run :
        (earlier : BlockHeaderCircuitOutput) (headers : List CircuitBlockHeader)
        (out : BlockHeaderCircuitOutput)
        → Committed verify method_id earlier
        → header_chain_circuit sha256 u net verify (record {
          method_id = method_id;
          prev_proof = prev_proof earlier;
          block_headers = headers;
        })
          ≡ some out
        → Committed verify method_id out

  -- A state is the result of linked headers from the genesis state on.
  record History (s : ChainState) : Type 0 where
    headers : List CircuitBlockHeader
    chain : IsLinked sha256 u net (replicate 32 0) headers
    tip : s.best_block_hash ≡ last_hash sha256 u net (replicate 32 0) headers
    height : s.block_height ≡ (2 ^ 32 - 1 + length headers) % 2 ^ 32
    mountain :
        append_all_guest sha256 new_guest (block_hashes sha256 u net headers)
        ≡ some s.block_hashes_mmr

  IsLinked-append :
      (tip : Bytes) (xs ys : List CircuitBlockHeader)
      → IsLinked sha256 u net tip xs
      → IsLinked sha256 u net (last_hash sha256 u net tip xs) ys
      → IsLinked sha256 u net tip (xs ++ ys)
  IsLinked-append tip [] ys p q = q
  IsLinked-append tip (x ∷ xs) ys p q =
      (p.0, IsLinked-append (compute_block_hash sha256 x) xs ys p.1 q)

  last_hash-append :
      (tip : Bytes) (xs ys : List CircuitBlockHeader)
      → last_hash sha256 u net tip (xs ++ ys)
        ≡ last_hash sha256 u net (last_hash sha256 u net tip xs) ys
  last_hash-append tip [] ys = refl
  last_hash-append tip (x ∷ xs) ys = last_hash-append (compute_block_hash sha256 x) xs ys

  append_all_guest-append :
      (g g' : MmrGuest) (xs ys : List CircuitBlockHeader)
      → append_all_guest sha256 g (block_hashes sha256 u net xs) ≡ some g'
      → append_all_guest sha256 g (block_hashes sha256 u net (xs ++ ys))
        ≡ append_all_guest sha256 g' (block_hashes sha256 u net ys)
  unfolding append_all_guest
  append_all_guest-append g g' [] ys e =
      ap (λ (t : MmrGuest). append_all_guest sha256 t (block_hashes sha256 u net ys)) (some_inj e)
  append_all_guest-append g g' (x ∷ xs) ys e =
      let (g₁, stepped, rest) =
        >>=-eq-some (append_guest sha256 g (compute_block_hash sha256 x)) _ e in
      rw stepped (append_all_guest-append g₁ g' xs ys rest)

  genesis-History : History (new_chain_state sha256 u net)
  unfolding new_chain_state append_all_guest
  genesis-History = record { headers = []; chain = tt; tip = refl; height = refl; mountain = refl }

  apply_blocks-History :
      (s s' : ChainState) (headers : List CircuitBlockHeader)
      → History s
      → apply_blocks sha256 u net s headers ≡ some s'
      → History s'
  apply_blocks-History s s' headers before e =
      let (chain, tip, height, mountain) =
        apply_blocks-IsLinked sha256 u net s s' headers (omega (arith, before.height)) e in
      record {
        headers = before.headers ++ headers;
        chain =
            IsLinked-append (replicate 32 0) before.headers headers before.chain
              (subst (λ (t : Bytes). IsLinked sha256 u net t headers) before.tip chain);
        tip =
            tip
            ∙ ap (λ (t : Bytes). last_hash sha256 u net t headers) before.tip
            ∙ sym (last_hash-append (replicate 32 0) before.headers headers);
        height = omega (arith, height, before.height, length-append before.headers headers);
        mountain =
            append_all_guest-append new_guest s.block_hashes_mmr before.headers headers
              before.mountain
            ∙ mountain;
      }

  -- Where a run starts, and that it applies its headers there.
  first_run_lem :
      (verify : List ℕ → BlockHeaderCircuitOutput → Bool) (id : List ℕ)
      (headers : List CircuitBlockHeader) (out : BlockHeaderCircuitOutput)
      → header_chain_circuit sha256 u net verify
          (record { method_id = id; prev_proof = genesis_block; block_headers = headers })
        ≡ some out
      → apply_blocks sha256 u net (new_chain_state sha256 u net) headers ≡ some out.chain_state
  unfolding header_chain_circuit
  first_run_lem verify id headers out e =
      let (s', applied, e') =
        >>=-eq-some (apply_blocks sha256 u net (new_chain_state sha256 u net) headers) _ e in
      applied ∙ ap (λ (o : BlockHeaderCircuitOutput). some o.chain_state) (some_inj e')

  next_run_lem :
      (verify : List ℕ → BlockHeaderCircuitOutput → Bool) (id : List ℕ)
      (earlier : BlockHeaderCircuitOutput) (headers : List CircuitBlockHeader)
      (out : BlockHeaderCircuitOutput)
      → header_chain_circuit sha256 u net verify
          (record { method_id = id; prev_proof = prev_proof earlier; block_headers = headers })
        ≡ some out
      → (verify id earlier ≡ true)
        × (apply_blocks sha256 u net earlier.chain_state headers ≡ some out.chain_state)
  unfolding header_chain_circuit
  next_run_lem verify id earlier headers out e =
      let (s, started, e₁) =
        >>=-eq-some
          (assert (bytes_eq earlier.method_id id)
            >> (assert (verify id earlier) >> some earlier.chain_state))
          _ e in
      let (_, same, e₂) = >>=-eq-some (assert (bytes_eq earlier.method_id id)) _ started in
      let (_, verified, e₃) = >>=-eq-some (assert (verify id earlier)) _ e₂ in
      let (s', applied, e₄) = >>=-eq-some (apply_blocks sha256 u net s headers) _ e₁ in
      (
        assert-eq-some _ verified,
        ap (λ (t : ChainState). apply_blocks sha256 u net t headers) (some_inj e₃)
            ∙ applied
            ∙ ap (λ (o : BlockHeaderCircuitOutput). some o.chain_state) (some_inj e₄),
      )

  Committed-History :
      (verify : List ℕ → BlockHeaderCircuitOutput → Bool) (id : List ℕ)
      (out : BlockHeaderCircuitOutput)
      → Committed verify id out
      → History out.chain_state
  Committed-History verify id _ (first_run headers out e) =
      apply_blocks-History (new_chain_state sha256 u net) out.chain_state headers genesis-History
        (first_run_lem verify id headers out e)
  Committed-History verify id _ (next_run earlier headers out c e) =
      apply_blocks-History earlier.chain_state out.chain_state headers
        (Committed-History verify id earlier c) (next_run_lem verify id earlier headers out e).1

  run-History :
      (verify : List ℕ → BlockHeaderCircuitOutput → Bool) (id : List ℕ)
      (prev : HeaderChainPrevProofType) (headers : List CircuitBlockHeader)
      (out : BlockHeaderCircuitOutput)
      → ((earlier : BlockHeaderCircuitOutput)
          → prev ≡ prev_proof earlier
          → verify id earlier ≡ true
          → Committed verify id earlier)
      → header_chain_circuit sha256 u net verify
          (record { method_id = id; prev_proof = prev; block_headers = headers })
        ≡ some out
      → History out.chain_state
  run-History verify id genesis_block headers out sound e =
      Committed-History verify id out (first_run headers out e)
  run-History verify id (prev_proof earlier) headers out sound e =
      let c = sound earlier refl (next_run_lem verify id earlier headers out e).0 in
      Committed-History verify id out (next_run earlier headers out c e)

  -- Suppose that the zkVM accepts the earlier output in the circuit's input only if runs of the
  -- circuit for the same guest committed it. Then a state that the circuit commits comes from one
  -- chain of headers that starts at the zero hash: each header names the hash of the one before it,
  -- the best block hash is that of the last header, the height counts them from zero (mod 2^32),
  -- and the mountain range is the empty one with exactly their hashes appended in order.
  pub header_chain_circuit-IsLinked :
      (verify : List ℕ → BlockHeaderCircuitOutput → Bool) (input : HeaderChainCircuitInput)
      (out : BlockHeaderCircuitOutput)
      → ((earlier : BlockHeaderCircuitOutput)
          → input.prev_proof ≡ prev_proof earlier
          → verify input.method_id earlier ≡ true
          → Committed verify input.method_id earlier)
      → header_chain_circuit sha256 u net verify input ≡ some out
      → (headers : List CircuitBlockHeader) × IsLinked sha256 u net (replicate 32 0) headers
        × (out.chain_state.best_block_hash ≡ last_hash sha256 u net (replicate 32 0) headers)
        × (out.chain_state.block_height ≡ (2 ^ 32 - 1 + length headers) % 2 ^ 32)
        × (append_all_guest sha256 new_guest (block_hashes sha256 u net headers)
            ≡ some out.chain_state.block_hashes_mmr)
  header_chain_circuit-IsLinked verify input out sound e =
      let h = run-History verify input.method_id input.prev_proof input.block_headers out sound e in
      (h.headers, h.chain, h.tip, h.height, h.mountain)
