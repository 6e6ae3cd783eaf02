-- ===== src/Lib.antt =====
-- The on-chain programs of Elusiv: the program `elusiv` (elusiv/src), which keeps commitments in a Merkle
-- tree and nullifiers in sorted maps, and the warden network (elusiv-warden-network/src), with the crates
-- that they share (shared). This library models the data structures of the first, the way of a commitment
-- from its queue into the Merkle tree, and the state machines of the second.
--
-- Base: the tests on numbers, arrays as lists, machine words, and the results. `Result` is a value, an
-- error or a panic; an error or a panic aborts the transaction, so an operation that fails returns no
-- state, except in the queue, the buffer and the handlers of Commitment, whose callers go on after one.
-- Queue: elusiv/src/state/queue.rs. `Queue.Refine` and `Queue.History` compare it with the bounded list of
-- `Queue.Fifo`; `contains` runs on fuel: SIZE + 1 tests, as each round moves one place on
-- towards the tail.
-- Bytes: elusiv/src/bytes.rs, the division and the searches.
-- Buffer: elusiv/src/buffer.rs, on the searches of Bytes.
-- Map: elusiv/src/map.rs. A pointer is an index of the arrays. The loop of `binary_search` runs on fuel,
-- the number of entries, as each round narrows the interval, which starts that wide.
-- Calendar: elusiv-warden-network/src/processor/utils.rs, against the Gregorian calendar.
-- Warden: elusiv-warden-network/src/warden.rs, network.rs and the processors basic_warden.rs, operator.rs
-- and apa_warden.rs. The calls on the APA network are the steps of `Warden.Apa.Steps`.
-- Storage: elusiv/src/state/storage.rs, the nodes of the Merkle tree in their child accounts.
-- Token: shared/elusiv-types/src/tokens.rs, amounts of a token.
-- Computation: shared/elusiv-computation/src/lib.rs and the macro elusiv_hash_compute_units of
-- shared/elusiv-proc-macros, which put the rounds of a computation into instructions.
-- Poseidon: elusiv/src/commitment/poseidon_hash.rs, over a field that is a parameter.
-- Commitment: elusiv/src/commitment/mod.rs. Its modules Account, Batch and Update are
-- elusiv/src/state/commitment.rs, and Processor and Update have the handlers of
-- elusiv/src/processor/commitment.rs. A commitment enters the queue (enqueue_commitment), is taken with its
-- batch into the hashing account (init_commitment_hash), hashed in several calls
-- (compute_commitment_hash_partial) and stored in the tree (finalize_commitment_hash). The handlers keep
-- what they have written when an error follows, by the actions of Base.Action, because
-- `insertion_can_fail` hides the error. BaseHashing is the hash of a base commitment in an account of its
-- own, with compute_commitment_hash, which also pays its caller. The loop of `next_batch` runs on fuel: CAPACITY + 2 tests, as
-- each round reads one more element of the queue.
-- The capacity of both queues is the constant COMMITMENT_QUEUE_LEN less one, as queue_account! says.
-- Metadata: elusiv/src/state/metadata.rs, the metadata of the commitments in their child accounts.
-- Fee: elusiv/src/state/fee.rs and governor.rs, the fees and the compensations.
-- Nullifier: elusiv/src/state/nullifier.rs, the sorted maps of a tree's nullifier hashes in a row.
-- Accounts: elusiv/src/processor/accounts.rs, the change from one Merkle tree to the next.
-- Transfers: elusiv/src/processor/utils.rs, the transfers of shared/elusiv-utils/src/lib.rs and the checks of
-- token accounts and prices of shared/elusiv-types/src/tokens.rs. `Ledger` has the lamports of every
-- account by its key, so one account under two names is one account; the programs that are invoked, the
-- rent and the conversions of prices are the fields of `Environment`.
-- Proof: elusiv/src/state/proof.rs, the public inputs of elusiv/src/types.rs, the verifier of
-- elusiv/src/proof/verifier.rs and the handlers of elusiv/src/processor/proof.rs. A request is checked
-- (Proof.Check) and opens an account (Proof.Setup), its fees are fixed (Proof.Fees), the verification is computed in
-- calls (Proof.Preparation, Proof.Verifier, compute_verification of Proof.Finalize), then one transaction
-- finalizes it (Proof.Finalize), whose instructions Proof.Sysvar reads, and pays (Proof.Payout).
-- Proof.Machine has these handlers as the steps of a relation, in any order and up to the payment. The
-- group operations, the rounds of the pairing, the hash and the Montgomery reduction are parameters. The
-- loops over the instructions of a transaction run on fuel: their number and one more, as each round
-- reads the next instruction and behind the last one there is none.
-- Warden.Proposals: elusiv-warden-network/src/apa.rs, operator.rs and their processors.
--
-- Numbers of type u8 to u64 are native natural numbers; sums and products wrap where the source's do,
-- since the programs are built without overflow checks. Keys, addresses and strings of the wardens are
-- numbers, because they are only stored and compared. Parameters stand for what the Solana SDK answers:
-- the clock, the instructions' sysvar, the hash of the quotes, the freeze authority of a mint, and the error
-- for an account that exists. The tables `EMPTY_TREE` and `TOKENS`, the field with the tables of the
-- Poseidon hash, the prices of tokens and the number of transactions of a proof are parameters too.
--
-- Not modelled: the derivation and check of account addresses, which the instruction layer generates; the
-- rounds of the pairing, which macros generate from expressions; the modifications of a verifying key; the
-- arithmetic of the fields; the handler that stores a base commitment; the arithmetic of prices; the set-up
-- of child accounts; the interpreter and the macros but one, which run at compile time.
pub mod Base
pub mod Queue
pub mod Bytes
pub mod Buffer
pub mod Map
pub mod Calendar
pub mod Warden
pub mod Storage
pub mod Token
pub mod Computation
pub mod Poseidon
pub mod Commitment
pub mod Metadata
pub mod Fee
pub mod Nullifier
pub mod Accounts
pub mod Proof
pub mod Transfers
