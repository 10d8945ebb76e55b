-- ===== src/HeaderChain/State/Linked.antt =====
-- What holds of a whole batch of headers that `apply_blocks` accepts.
use bit_vm.Prelude.{
  ◌+◌, ◌%◌, ◌^◌, ◌<◌, ◌≡◌, refl, ap, ◌∙◌, sym, subst, some, List, [], ◌∷◌, length, >>=-eq-some,
  some_inj, arith,
}
use bit_vm.Hashing.{Bytes}
use bit_vm.Words.U256.{U256}
use bit_vm.Mmr.Append.{append_all_guest}
use bit_vm.HeaderChain.Network.{Network}
use bit_vm.HeaderChain.State.Defs.{
  CircuitBlockHeader, ChainState, Progress, compute_block_hash, enter, leave, apply_block,
  apply_headers, apply_blocks,
}
use bit_vm.HeaderChain.State.Step.{apply_block-Applied}

module _ (sha256 : Bytes → Bytes) (u : U256) (net : Network) where
  -- Each header names the hash of the one before it; the first one names `tip`.
  abbrev pub IsLinked : Bytes → List CircuitBlockHeader → Type 0
  IsLinked tip [] = Unit {0}
  IsLinked tip (h ∷ hs) = (h.prev_block_hash ≡ tip) × IsLinked (compute_block_hash sha256 h) hs

  -- The hash of the last header, or `tip` if there is none.
  abbrev pub last_hash : Bytes → List CircuitBlockHeader → Bytes
  last_hash tip [] = tip
  last_hash tip (h ∷ hs) = last_hash (compute_block_hash sha256 h) hs

  abbrev pub block_hashes : List CircuitBlockHeader → List Bytes
  block_hashes [] = []
  block_hashes (h ∷ hs) = compute_block_hash sha256 h ∷ block_hashes hs

  record Batch (p : Progress) (hs : List CircuitBlockHeader) (q : Progress) : Type 0 where
    chain : IsLinked p.state.best_block_hash hs
    tip : q.state.best_block_hash ≡ last_hash p.state.best_block_hash hs
    height : q.state.block_height ≡ (p.state.block_height + length hs) % 2 ^ 32
    mountain :
        append_all_guest sha256 p.state.block_hashes_mmr (block_hashes hs)
        ≡ some q.state.block_hashes_mmr

  apply_headers-Batch :
      (p : Progress) (hs : List CircuitBlockHeader) (q : Progress)
      → p.state.block_height < 2 ^ 32
      → apply_headers sha256 u net p hs ≡ some q
      → Batch p hs q
  unfolding apply_headers append_all_guest
  apply_headers-Batch p [] q small e =
      subst (Batch p []) (some_inj e)
        (record { chain = tt; tip = refl; height = omega arith; mountain = refl })
  apply_headers-Batch p (h ∷ hs) q small e =
      let (p', stepped, e') = >>=-eq-some (apply_block sha256 u net p h) _ e in
      let a = apply_block-Applied sha256 u net p h p' stepped in
      let rest = apply_headers-Batch p' hs q (omega (arith, a.height)) e' in
      record {
        chain = (a.linked, rw a.best at rest.chain);
        tip = rest.tip ∙ ap (λ t. last_hash t hs) a.best;
        height = omega (arith, rest.height, a.height);
        mountain = rw a.mountain rest.mountain;
      }

  -- If `apply_blocks` accepts a batch of headers, each of them names the hash of the header before
  -- it and the first one the old best block; the new best block hash is that of the last header, the
  -- height has grown by their number (mod 2^32), and the mountain range has got their hashes in
  -- order.
  pub apply_blocks-IsLinked :
      (s s' : ChainState) (headers : List CircuitBlockHeader)
      → s.block_height < 2 ^ 32
      → apply_blocks sha256 u net s headers ≡ some s'
      → IsLinked s.best_block_hash headers
        × (s'.best_block_hash ≡ last_hash s.best_block_hash headers)
        × (s'.block_height ≡ (s.block_height + length headers) % 2 ^ 32)
        × (append_all_guest sha256 s.block_hashes_mmr (block_hashes headers)
            ≡ some s'.block_hashes_mmr)
  unfolding apply_blocks enter leave
  apply_blocks-IsLinked s s' hs small e =
      let (q, ran, e') = >>=-eq-some (apply_headers sha256 u net (enter sha256 u net s) hs) _ e in
      let b = apply_headers-Batch (enter sha256 u net s) hs q small ran in
      let same : leave sha256 u net q ≡ s' = some_inj e' in
      (
        b.chain,
        sym (ap (λ (t : ChainState). t.best_block_hash) same) ∙ b.tip,
        sym (ap (λ (t : ChainState). t.block_height) same) ∙ b.height,
        b.mountain ∙ ap (λ (t : ChainState). some t.block_hashes_mmr) same,
      )
