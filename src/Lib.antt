-- ===== src/Lib.antt =====
-- oasis-ethwasi-runtime: an Ethereum-compatible runtime on Oasis Core, and the gateway that shows its
-- chain to Ethereum clients.
--
-- The runtime (src/, api/, common/) takes batches of calls: its dispatcher decodes and checks each
-- transaction (src/dispatcher.rs, src/methods.rs), executes it in the context of the block that the
-- batch makes (src/block.rs), and tags the results with the transaction's hash and logs. Contracts may
-- be confidential: their messages and their storage are sealed with keys of the key manager
-- (common/src/confidential/). The gateway (gateway/) reads the chain by the Oasis client, finds
-- transactions by the runtime's tags, and answers JSON-RPC calls behind limits on batch sizes and
-- request rates. Its process reads the options, starts the broker and both servers, and shuts down at a
-- signal. Before a chain is there, a tool imports the accounts of an exported state, commits them to a storage
-- node and writes a genesis file (genesis/).
--
-- Files:
-- Prelude - names of the libraries, tests on numbers, lists, `Outcome` (a value, an error or a panic)
--   byte strings with panicking slices, texts as bytes that are split and joined, decimal numbers, and what
--   the programs take from clap: options, what it documents of their values, and `value_t!`.
-- Confidential.Mrae - what is taken from Deoxys-II, the hashes and the nonces, with the laws used.
-- Confidential.Crypto - common/src/confidential/crypto.rs: `encrypt`, `decrypt`,
--   `encode_encryption`, `split_encrypted_payload` (in two halves, `split_lengths` and `split_body`).
-- Confidential.Context - common/src/confidential/confidential_ctx.rs: `ConfidentialCtx` as a record;
--   a method returns the new context with its result.
-- Runtime.Types - api/src/api.rs, the constants of common/src/lib.rs, and ethcore as a record of
--   functions with laws.
-- Runtime.Block - src/block.rs: the block context, `start_batch`, `end_batch`.
-- Runtime.Methods - src/methods.rs: `check::tx` is `check_tx`, `execute::tx` is `execute_tx`.
-- Runtime.Storage - common/src/storage.rs: `MemoryKeyValue`.
-- Runtime.Dispatcher - src/dispatcher.rs: `check_batch`, `execute_batch` and their helpers.
-- Gateway.Informant - gateway/src/informant.rs: `RateCalculator` and `RpcStats`.
-- Gateway.Middleware - gateway/src/middleware.rs: `Middleware`, `WsDispatcher`, `WsStats`.
-- Gateway.Pubsub - gateway/src/pubsub.rs: the broker's polls.
-- Gateway.Client - the Oasis client and the codecs, parameters of the gateway's modules.
-- Gateway.Translator - gateway/src/translator.rs: blocks, transactions and receipts; its children
--   Submission (`send_raw_transaction`, `simulate_transaction`), Blocks (`rich_header`, `rich_block`)
--   and Logs (`logs`).
-- Gateway.EthFilter - gateway/src/impls/eth_filter.rs: polled filters.
-- Gateway.Eth - gateway/src/impls/eth.rs and gateway/src/util.rs; its child Calls has `call`,
--   `estimate_gas`, the errors and the constants, and State the calls about an account.
-- Gateway.Oasis - gateway/src/impls/oasis.rs.
-- Gateway.EthPubsub - gateway/src/impls/eth_pubsub.rs: subscriptions, and what the broker's listener
--   sends; its child Heads follows the headers from the broker's polls to a subscriber, and Handling
--   all that is sent for the broker's notices, log entries among it.
-- Gateway.RpcApis - gateway/src/rpc_apis.rs: the API sets, their parser, and the endpoints of a server.
-- Gateway.Rpc - gateway/src/rpc.rs: the servers' configurations, their hosts and how they are started.
-- Gateway.Run - gateway/src/run.rs: `execute`, `shutdown` and `wait_for_drop`.
-- Gateway.CommandLine - gateway/bin/main.rs: the options and what is read from them.
-- Gateway.Main - gateway/bin/main.rs, and `start` of gateway/src/lib.rs: the gateway's process.
-- Gateway.Metrics - gateway/bin/metrics.rs: the metrics thread.
-- Gateway.Servers - gateway/src/servers.rs: the status page.
-- Gateway.Namespaces - gateway/src/impls/net.rs, web3.rs and eth_signing.rs, and the calls of eth.rs that refuse.
-- Genesis.Playback - genesis/bin/genesis_playback.rs: `StateParser`.
-- Genesis.Import - genesis/bin/genesis_playback.rs: what `main` does with each account, and its commits.
-- Genesis.Main - genesis/bin/genesis_playback.rs: the loop of `main` over the parser, and the last commit.
-- Genesis.Program - genesis/bin/genesis_playback.rs: `main` from the command line to the genesis file.
-- Genesis.Specification - common/src/genesis.rs: which genesis document a build has.
-- Genesis.Init - genesis/bin/genesis_init.rs: `main` from the command line to the genesis file.
-- KeyManager - keymanager-runtime/src/api.rs: the trusted signers of the key manager's policy.
-- Proofs stand in child modules named for what they prove, concrete runs in modules named Tests, and
-- the small instances that these use in modules named Example. Modules named UnitTests state what the unit
-- tests of a source file assert.
--
-- Numbers are natural numbers; a usize sum is taken modulo 2 ^ 64 (`usize_add`), as a release build
-- takes it. Hashes, addresses and U256 values are numbers; the gas arithmetic panics below zero, as
-- ethereum_types does. A clock is an argument of each call that reads it, in nanoseconds. The abort
-- flag is read as a sequence. A future is its result; where calls are made one after the other on a
-- chain that may grow between them, each call has its own client. The retry loop recurs on the retries
-- left. The iterator of `StateParser` and the loop of `wait_for_drop` run on fuel; the first ends within as
-- many items as its input has bytes, the second within the 301 rounds that its one-second sleeps leave
-- before its time limit. All other loops recur on their lists.
--
-- Not modelled: what is logged and counted, the server libraries and the builders that hand over to them, the
-- parser of the command line (clap's, of which Prelude.Options says what it documents), the prefetching of
-- storage (a feature that is off by default), the null backend (it does nothing), the wiring of the
-- runtime and of the key manager (a library's), and the benchmarks. No poll of the broker falls into the
-- start-up.
pub mod Prelude
pub mod Confidential
pub mod Runtime
pub mod Gateway
pub mod Genesis
pub mod KeyManager
