-- ===== src/Lib.antt =====
-- The relayer of the BAS relay hub (relayer/, a Go program), which carries the validator sets of one
-- chain to the hub contract of another, in both directions between a root and a child chain.
--
-- A block number fetcher polls the source chain and sends confirmed blocks to a worker. Once the next
-- epoch block is reached, the worker transitions the epoch: where other relayers are configured it makes
-- a checkpoint proof, signs it, announces it, and waits until enough relayers have signed; otherwise, or
-- where that fails, it sends a run of block headers that are sealed by two thirds of the previous
-- validators. Relayers send each other their signed checkpoint proofs as gRPC messages, which another
-- goroutine merges into the proofs that the service holds.
--
-- Files, and the code that they model:
--   Parlia: relayer/parlia.go, the validators of an epoch block and the signer of a block.
--   Proof: relayer/proof.go, the quorum and the block proofs; Proof/Run is the specification of a list
--     of block proofs, Sound and Complete are the two directions of the refinement, and Decide says when
--     there is one.
--   Checkpoint: relayer/checkpoint.go, a checkpoint proof and its signatures; Checkpoint/Blocks is the
--     specification of a proof that is made.
--   Service/State: the state of `RelayService` in relayer/service.go, the heap of checkpoint proofs
--     that goroutines share by pointer, the cache and the announced proofs, with `findCheckpointProof`,
--     `mergeCheckpointProof` and `collectCheckpointProofsWorker`.
--   Service/Checkpointing: `createCheckpointTransition`. Service/Epochs: `createEpochTransition`.
--   Service/System: the two workers in `createCheckpointTransition` and the collector, interleaved over
--     the shared state; Service/Worker/Runs shows that the worker is a run of the system, and
--     Service/System/Sends how a checkpoint transition that succeeds came to send.
--   Service/Exchange: what one relayer announces, into the state of another's service.
--   Service/Fetcher: `latestBlockFetcher`. Service/Worker: `epochWorker`; Worker/Depth composes
--     them, and Worker/Follows says what brings the worker to another epoch.
--   Service/Startup: `Start` and `backgroundWorker`, whose four nodes are made before anything is started,
--     where the code starts the first worker, in a goroutine, before it makes the last two. Node: `nodeConfig` and `toNodeConfig`.
--   Config: relayer/config.go; Config/Written is a file in the layout of relayer/config.yaml. Settings: relayer/viper.go. Hub: relayer/signer.go.
--   Common and Abi: relayer/common.go; Common/Time: `prettyFormatTime`, with doubles as fractions.
--   Server: the message handlers of relayer/server.go; Server/Start: `Start` and `Stop` of `GrpcServer`, and the readers that reconnect. Main: relayer/main.go.
--   Contract: `checkValidatorsAndQuorumReached` of contracts/RelayHub.sol, the contract's check of the
--     signers that the relayer sends; Contract/Update: `_updateActiveValidatorSet`, which writes what the
--     check reads, over OpenZeppelin's set of addresses with its laws (AddressSetLaws); Contract/Chains:
--     the calls that register chains and bring them to new epochs; Contract/Verifier:
--     contracts/verifiers/ParliaBlockVerifier.sol, which verifies the blocks that the relayer sends;
--     Verifier/Honest and Verifier/Relays take the relayer's lists of blocks to the contract;
--     Contract/Views: the calls that read, such as `checkReceiptProof` and `getActiveValidators`.
--   Prelude, Errors, Slices, Service/Exec: bytes, Go's machine words, maps and slices, and how a Go
--     function ends (a value, an error, or the end of the process).
--   Tests: a small concrete world, on which every result is applied.
--
-- Names are those of the code, spelled with underscores. A function that returns an error is a
-- `Result`; a function that changes the shared state passes it on, so that what was written before an
-- error stays written. A method that holds a lock is one step. `uint64` arithmetic wraps at 2 ^ 64, and
-- a conversion to `int64` or `int` keeps the bits.
--
-- Parameters: go-ethereum (RLP, Keccak, signatures, addresses, nodes, tries, ABI), the LRU cache of
-- golang-lru with the laws that it documents (LruLaws), viper, the transport of gRPC, and the generated
-- binding of the hub contract. What a node answers during one call of a function is one `Client`; the
-- answers of different calls of `createBlockProofs` may differ.
--
-- Loops: a loop over blocks or epochs recurses on its number of rounds, which is computed as the code
-- bounds it, so no fuel is chosen; the wait for a transaction has the code's 30 tries; endless loops
-- run over the list of what their channel delivers, and the wait for the quorum over the ticks until
-- its context is done; a double is scaled by as many doublings as its exponent has room for, 1074 and
-- 971. The proofs of other relayers are merged between those ticks, and between the
-- steps of the checkpoint transition.
--
-- Not modelled: log lines and sleeps, the inside of gRPC, generated code, and the other contracts: the
-- virtual function of contracts/verifiers/PoSaBlockVerifier.sol that parses a block and recovers its
-- signer, which another contract overrides by a precompile, is a parameter, and so are the proofs of
-- receipts and what the calldata gives from an offset on. The order in which Go visits a map is the
-- order of the list that stands for it, and the results that read a map hold for any order.
pub mod Prelude
pub mod Errors
pub mod Slices
pub mod Eth
pub mod Hub
pub mod Common
pub mod Parlia
pub mod Config
pub mod Node
pub mod Abi
pub mod Proof
pub mod Checkpoint
pub mod Service
pub mod Server
pub mod Settings
pub mod Contract
pub mod Main
pub mod Tests
