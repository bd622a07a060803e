-- ===== src/Lib.antt =====
-- The cross-network market maker: swaps between TEST-DEPIX on Liquid and BTC on Lightning, all on
-- regtest. A taker states an intent, a solver answers with a signed quote, the store reserves the
-- solver's inventory for it and takes the swap through its states, and the legs of the swap are bound
-- by timeouts. Text and bytes are lists of byte values; numbers are natural numbers, with the width
-- written out where a `u64` could overflow.
--
-- Files and the code that they model (paths from the repository's root):
--   Core.Amount, Core.Network, Core.Endpoint, Core.Hash, Core.Error   src/core/*.rs of those names
--   Core.Routes       src/core/routes.rs: RouteRegistry::{regtest, qualified, build, route, is_enabled}
--   Core.Rfq, Core.Rfq.Terms, Core.Rfq.Digest   src/core/rfq.rs: intents and quotes,
--                     validate_quote_terms and validate_deadline_order, quote_digest, sign_quote and
--                     verify_quote
--   Core.Settlement, Core.Settlement.Evidence   src/core/settlement.rs: SwapState and its transitions,
--                     PaymentEvidence::{validate_against, public}
--   Core.Storage.*    src/core/storage.rs. Tables are the tables of SqliteStore::open, as association
--                     lists by primary key. A method that writes is a function from the tables to a
--                     result and the tables: its body is a chain of results, and an error rolls back.
--                     Codec has the stored texts, Journal the append-only journal, Reservations the
--                     ledgers and reservations, Swaps the swaps, Outbox the funding outbox.
--                     History runs any sequence of calls of the writing methods.
--   Swaps.Timing      src/swaps/timing.rs
--   Swaps.Effects     src/swaps/outbox.rs, the records of src/swaps/adapter.rs and
--                     src/lightning/types.rs that a run uses, and the effects of a run. The adapters, the
--                     observer and the errors of files are functions of all that was done before. A write of an
--                     outbox that fails may leave the whole record in a new file.
--   Swaps.Checks, Swaps.Orchestrator   src/swaps/orchestrator.rs: run_forward_after_invoice,
--                     run_reverse_after_invoice and what they call
--   Swaps.Refund      refund_funded_swap_with_observer of the same file; Swaps.Refund.Rules has what must
--                     have been seen before a refund
--   Swaps.Runs        the rest of the same file: run_forward_swap, run_reverse_swap, ensure_invoice,
--                     replay_completed, load_recovery
--   Lightning.Error, Lightning.Bolt11   src/lightning/error.rs and src/lightning/bolt11.rs
--   Swaps.Recovery, Swaps.Recovery.Checks, Swaps.Recovery.Files   src/swaps/recovery.rs: the record,
--                     generate_swap_secrets, validate_recovery, read_recovery, write_recovery and
--                     prepare_or_load_recovery. The file is a text or nothing.
--   Chain.Types       src/chain/types.rs: AssetId::{from_hex, to_hex, explicit_bytes}, HtlcContract
--   Chain.Script      src/chain/htlc_script.rs. Chain.Script.Consensus is the specification that it is
--                     held against: the rules of Bitcoin for the instructions of the script.
--   Chain.Contract    src/chain/contract.rs
--   Chain.Bitcoin, Chain.Bitcoin.Spend   src/chain/bitcoin.rs
--   Chain.Liquid      src/chain/liquid.rs: extract_liquid_claim_preimage and what it calls;
--                     Chain.Liquid.Transactions builds, Chain.Liquid.Signing signs
--   Chain.Node, Chain.Checks, Chain.Amount, Chain.Sanitize, Chain.Observation
--                     src/chain/observation.rs: the node's answers as functions of the calls before, the
--                     checks of them, parse_decimal_sats, sanitize_rpc_error, and the inspection of
--                     funding outputs, broadcasts and the observation of claims
--   Exit.Proof, Exit.Proof.Timeout   src/exit/proof.rs
--   Prelude.*         shared names, byte strings, `u64` in decimal, integers, JSON values, results.
--   Tests.*           small inputs.
--
-- Parameters: hexadecimal text and SHA-256 (Primitives), the JSON of the stored records (Json),
-- secp256k1 (Curve, KeyCrate), reading transactions (Reader), scripts, signatures and RIPEMD-160
-- (Scripts), assembling scripts and addresses (ScriptCrates), transactions of the `bitcoin` and the
-- `elements` crate (BitcoinCrate, ElementsCrate, ElementsTexts, ElementsSigner), BOLT 11 texts,
-- JSON, base64 and AES-GCM of the recovery file (Sealing), what goes wrong with that file (Faults),
-- and the answers of a node (Node). The transaction that spends a script is a parameter too
-- (Spender): its signatures, its lock time and the encoding of script numbers. Printing a `u64` has
-- fuel for twenty digits, which every `u64` fits; all other recursion is on the structure of its
-- argument. An error that is built by `format!` keeps the template as its text.
--
-- Not modelled: failures of the SQLite engine other than the declared constraints; the clock, which
-- is an argument; file modes; the `idempotency` table, which no method uses; the encrypted recovery
-- bundle; waiting times; the swap adapters, the Lightning and exit clients and the readers of their
-- answers, the command line and the RPC clients, which are processes, HTTP and JSON. Lower-casing is
-- on ASCII.
pub mod Prelude
pub mod Core
pub mod Lightning
pub mod Swaps
pub mod Chain
pub mod Exit
pub mod Tests
