-- ===== src/Lib.antt =====
-- The Safenet arbitration bot (arbot): a model of the Go code under internal/ that reads the
-- requests of a SentinelOracle from Gnosis Chain and classifies them by the Safenet Arbitration
-- Charter.
--
-- The program's parts, and the modules that model them:
--
--   Base         the shared helpers, with the integers of math/big.
--   Keccak       internal/keccak256. The hash function is a parameter, of which only the length of
--                its hashes is assumed.
--   Solabi       internal/solabi. Encode: `Encode`, `Selector`, `Event`, `Call`. Decode: `Decoder`,
--                whose sticky error is the state of the monad `Read`. Abi: abi.go.
--   Ethrpc       internal/ethrpc. Types: the data, and `Client` as a record of what a node answers
--                to each method. Hex: the texts of types.go. Search: `SearchBlock`. Logs:
--                `ScanLogs`, as the logs that it yields and the error that ends it.
--   Safenet      internal/safenet. Rules: rules.go. Votes: `votes` and `progress.check`. Disputes:
--                `pending` and the calls of the oracle. Arbitrations: `arbitration`. Proposals:
--                hash.go, `proposal` and `proposalBlocks`. Reads: the decoding of a proposal and of
--                the oracle's record. Requests: `connect`, `Request`, `Pending`, `Rulings`.
--   Checks       internal/checks. Calls, MultiSend and Components: the calls that a transaction
--                makes. Safe: `safeVersion` with its cache. Rules and Table: the checks. Classify:
--                `Classify`. Accounts and Report: calls.go, with the caches of a `CallReader` as
--                the state of a monad.
--   Executions   internal/executions. Frames: `callsTo`. Decode: the decoding of events and calls.
--                Gather and Finder: `Find`. Decoder: decode.go, whose caches are a `Memo`.
--   Functions    internal/functions, and Events, internal/events: the tables of well-known
--                functions and events, and their decoding.
--   Transfers    internal/erc20 and internal/native.
--   Ens          internal/ens. Ipfs: internal/ipfs, cid.go and client.go, with base32 of the
--                standard library. A client's cache is a list of files, and the order in which
--                the gateways answer is a parameter.
--   Sourcify     internal/sourcify/lookup.go and internal/signatures.
--   Corpus       internal/corpus: `Tags` and `ContextCID`.
--   Safesettings internal/safesettings: `Read`, over a storage.
--   Httpretry    internal/httpretry: `RoundTrip`, with what the standard library gives as a `World`.
--   Tests        the theorems at concrete inputs, with a stand-in for the hash function.
--
-- A query of Safenet decodes with Solabi what Ethrpc's client returns; Checks expands the
-- transaction of a Proposal and reads the Safe's chain with a Dialer; its report names the
-- functions that Functions decodes. Executions matches what it decodes against the hash of a
-- Safenet transaction. Ens yields the URL that Ipfs parses. Bytes are numbers, and texts are their
-- bytes. A call that can fail returns a `Result`; a panic of the Go runtime is an error of its
-- own, as is a bound of the model that runs out. An amount is an integer that may be nil, of
-- either sign, as a request file gives it. A uint64 that can wrap is reduced modulo 2^64, and a
-- conversion to a smaller type modulo that type's size.
--
-- Bounds: `search_loop` has twice the bits of the range and one round; `scan_loop` has ten rounds
-- more than blocks, as a round halves the step, 8 times at most, or passes a block; `expand_call`
-- has one level more than the data has bytes, as a nested call has less data than its batch;
-- `retry_loop` has the number of retries, and `list_loop` the 1024 entries of the source;
-- `decode_levels` has the 8 levels of maxDepth, and `read_lines` has one line more than the text
-- has bytes. A map from hashes is the list of its entries, the latest first, or in the order in
-- which they were appended.
--
-- Not modelled: the JSON-RPC transport and the other web services; the command line; the text and
-- JSON forms of results; concurrency (the two searches of `proposalBlocks` run one after the
-- other, and of two errors the first is kept); the wrap-around of a time beyond an int64; a number
-- of retries or a delay that is negative or overflows, which are constants of the program; the
-- float arithmetic of `estimate`, in whose place any function stands; the arguments of error
-- messages; the list of the default gateways, SHA2-256, the traces of a node and the answers of
-- the Safe Transaction Service, which are parameters; the bound of strconv.Atoi, past which its
-- callers refuse a number as well; the packages txservice, config and xdg; the client of the
-- package sourcify; and the index and the text of a corpus file.
pub mod Base
pub mod Keccak
pub mod Solabi
pub mod Ethrpc
pub mod Safenet
pub mod Checks
pub mod Safesettings
pub mod Httpretry
pub mod Functions
pub mod Events
pub mod Executions
pub mod Transfers
pub mod Ipfs
pub mod Ens
pub mod Sourcify
pub mod Corpus
pub mod Tests
