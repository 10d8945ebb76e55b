-- ===== src/Lib.antt =====
-- A model of the two zero-knowledge circuits of the BitVM bridge, the header chain and the final
-- SPV circuit, of the generators of Bitcoin Script for 32-bit words, of the Winternitz signatures and
-- the scripts that verify them, and of the peg-in and peg-out graphs of the bridge.
--
-- The header chain circuit checks Bitcoin's block headers one after the other and keeps a chain
-- state: height, total work, tip, target, epoch start, the last eleven timestamps and a Merkle
-- mountain range of the block hashes. Each run starts from the genesis state or from the state that
-- an earlier, proved run committed. The final SPV circuit takes such a state with a transaction, a
-- Merkle path to its block and a path from the block to the mountain range, and commits to the
-- transaction's id, the tip and the work. The generators under bitvm/src/u32 are what the larger
-- scripts of the verifier, such as its hash functions, are made of: a word is four stack elements of
-- a byte, the lowest on top. A Winternitz signature signs a message digit by digit with hash chains
-- and a checksum; its verifier is a script that leaves the message on the stack. The bridge's graphs
-- hold pre-signed transactions: from the confirmations that an Esplora client reports they tell each
-- party what to do next, and give out a transaction once those before it are confirmed.
--
-- Hashing              header-chain/src/utils.rs and final-spv/src/utils.rs
-- Words                big- and little-endian bytes, and the interface of crypto_bigint's U256
-- Mmr.Defs             header-chain/src/mmr_guest.rs (MMRGuest: new_guest, append_guest,
--                      verify_proof_guest) and mmr_native.rs (MMRNative, MMRInclusionProof)
-- HeaderChain.Network  the constants of header-chain/src/header_chain.rs, by network
-- HeaderChain.Target   bits_to_target, target_to_bits, calculate_new_difficulty,
--                      check_hash_valid and calculate_work of the same file
-- HeaderChain.Timestamp  its median and validate_timestamp
-- HeaderChain.State    its records, ChainState::new and apply_blocks, and header_chain_circuit of
--                      header-chain/src/lib.rs
-- FinalSpv.Merkle      final-spv/src/merkle_tree.rs
-- FinalSpv.Circuit     final-spv/src/spv.rs, transaction.rs, final_circuit.rs and lib.rs
-- Script               the opcodes of Bitcoin Script and their execution, which is not code of the
--                      repository: what its scripts are run by
-- U32.Stack            words on the stack
-- U32.Zip, U32.Add     bitvm/src/u32/u32_zip.rs and u32_add.rs
-- U32.Std              bitvm/src/u32/u32_std.rs, with OP_4DUP, OP_256MUL, OP_NDUP and push_to_stack
--                      of bitvm/src/pseudo.rs
-- U32.Rrot             bitvm/src/u32/u32_rrot.rs
-- U32.Xor              u8_xor and its lookup table in bitvm/src/u32/u32_xor.rs
-- Winternitz           bitvm/src/signatures/utils.rs and winternitz.rs: Digits and Defs the Rust
--                      functions, Binary the script of BinarysearchVerifier, Verify those of
--                      verify_checksum, checksig_verify and digits_to_number
-- Bridge.Base          bridge/src/error.rs and graphs/base.rs
-- Bridge.PegIn         bridge/src/graphs/peg_in.rs
-- Bridge.Transactions  what is added to a challenge and to the timeouts: challenge.rs,
--                      start_time_timeout.rs and kick_off_timeout.rs of bridge/src/transactions
-- Bridge.PegOut        bridge/src/graphs/peg_out.rs
-- Bridge.Client        process_peg_outs on one graph and its calls, of bridge/src/client/client.rs
-- Tests                a reference for U256, a toy hash, and runs of the model
--
-- A byte is a number, a hash is a list of bytes. A panic is `none`. `apply_blocks` changes its
-- state in place: here `enter` sets up the loop's variables, `apply_block` is the loop's body
-- (`demand`, `accept`, `retarget` and `advance` are its parts) and `leave` writes the work back.
-- Arithmetic on u32 wraps, as in a release build; the mountain range's shifts are masked likewise.
-- SHA-256, BLAKE3, the crate crypto_bigint and the zkVM's check of an earlier proof are parameters.
-- The network, a constant of the build, is a parameter too.
--
-- A generator is a function to the list of opcodes that its script! block produces, an option where
-- it asserts something of its arguments. A script runs on a main and an alternative stack of numbers
-- (strings of at most five bytes) and longer strings. As in tapscript the operand of an arithmetic
-- opcode has at most four bytes and the argument of OP_IF is 0 or 1; a script that breaks a rule
-- gives `none`. The limits on the stack's size and on the resources of a script are left out. HASH160
-- is a parameter. `Runs` says that a script takes one state to another.
--
-- A Winternitz witness is read onto a stack, its last element on top; the warning that
-- public_key_for_digit prints is left out. The bridge's transactions are of a type `T` with an id and
-- a copy that is given out; how they are signed is a parameter, which can panic, and so is the Esplora
-- client, whose answers are those of the moment of one call. Sums of block heights wrap at 2^32. An operation of a graph gives
-- the graph afterwards with its result.
--
-- Fuel: the loop of log_base_ceil gets 33 rounds for a u32 and a base of two or more; the loop of `append_guest` halves a u32 and gets 33 rounds; the loop of `build_tree` halves
-- the number of nodes, rounding up, and gets one round more than there are leaves.
--
-- Lengths and positions are unbounded where only sizes that cannot occur would differ: the positions
-- of u32_zip.rs beyond a u32, the number of leaves that get_idx_path casts to a u32, and the
-- subtraction from 31 in get_helpers_from_index, which stops at 0, for 2^32 leaves or more.
--
-- Not modelled: the conversions from and to the crate bitcoin's types, the borsh and serde
-- encodings, what the circuits print; of the bridge the client's network and storage, the building
-- and signing of transactions, the connectors, and of the graphs validate, merge, the verifiers'
-- nonces, disprove and disprove_chain; of the Winternitz signatures message_to_digits,
-- ListpickVerifier, BruteforceVerifier and ToBytesConverter; and the other generators of Bitcoin
-- Script under bitvm/: u4, bigint, bn254, the hash functions and the Groth16 verifier; of
-- bitvm/src/u32 the operations u32_xor, u8_and and u32_and.
pub mod Prelude
pub mod Hashing
pub mod Words
pub mod Mmr
pub mod HeaderChain
pub mod FinalSpv
pub mod Script
pub mod U32
pub mod Winternitz
pub mod Bridge
mod Tests
