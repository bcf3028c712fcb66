-- ===== src/Lib.antt =====
-- Verification of x402-nockchain, the x402 payment protocol for Nockchain: a client builds and
-- signs a payment authorization, a facilitator verifies it, puts the resource in its catalog and
-- settles the payment on the chain, and a server of MCP tools asks for a payment for each call.
--
-- The parts, and the files that model them (paths from the root of the repository):
--   Prelude             tests, results with `do`, lists and dictionaries over the native numbers
--   Types               crates/x402-types/src: the structs and enums of the wire, and the JSON
--                       interface (Types/Json) that stands for serde_json and the derived codecs
--   Decimal             Rust's printing and parsing of u64 and u128, which all amounts go through
--   Crypto              crates/x402-nockchain-crypto/src: SignMessage (sign_message.rs), Signer,
--                       Verifier, WireCompat; Interface holds the parameters for vesl-signing
--   Facilitator         crates/x402-nockchain-facilitator/src: Error, Clock, Chain, Scheme
--                       (scheme/), State (lib.rs), Catalog (storage/), Envelope
--                       (handlers/verify.rs), Bazaar (handlers/bazaar.rs), Handlers (the
--                       endpoints), Siwn (middleware/siwn.rs), Router (lib.rs),
--                       Server (the handlers as tasks that interleave),
--                       Observability (observability.rs), Startup (lib.rs);
--                       Replay is the interface of the replay cache;
--                       Chain/Grpc is chain/grpc.rs, Catalog/Sqlite storage/sqlite.rs
--   Client              crates/x402-client/src: the traits Signer and WalletBackend, the payload
--                       builders, Policy (policy.rs), and Http, the discovery client and the
--                       client that fetches a paid resource
--   Wallet              crates/x402-nockchain-wallet-client/src: Surrogate (surrogate.rs), the
--                       wallet that plans (Client), signs (Client/Signing) and makes the envelope
--                       signature (Client/Envelope); Payment joins it to the builder of a payload
--                       in crates/x402-client/src/lib.rs; Engine and Kernel hold the parameters for
--                       nockchain-types, nouns, the chain's cryptography and the wallet kernel
--   Advertiser          crates/x402-advertiser/src; Schema is what a JSON Schema is and
--                       means, Schemas and Conforming are about the advertiser's own ones, and
--                       Types/Written what serde writes by the attributes of the wire types
--   Mcp                 crates/x402-mcp/src; Deployed joins it to the `/verify` endpoint of
--                       crates/x402-nockchain-facilitator
--   Tests               concrete instances of the interfaces and runs on concrete inputs
--
-- How state is modelled: each handle that the program shares becomes an argument and a result of
-- the operations that use it. `Cache` is the replay cache, `Rows` the catalog, `Chain` the node,
-- `Env` whatever tools and verifiers of the MCP server change; `World` puts the first three
-- together for the endpoints. `Kernel` is the wallet kernel, `Db` the database, `Net` the network
-- that an HTTP client talks to. The time is an argument: `Moment` has the Unix time and the instant
-- of the cache. A Rust error is a value of `Result`; an `anyhow::Error` is its text. A function
-- that has further `match`es is split into helpers by clauses, one for each.
--
-- What is a parameter: the Tip5 hash, its field's prime, base58 and big-integer bytes (`Encoding`),
-- Schnorr over the Cheetah curve (`Schnorr`), serde_json (`Json`), the replay cache
-- (`ReplayCache`), JSON Schema, base64 and header values (`Web`), HTTP (`Http`), the transaction
-- types and nouns (`TxEngine`), the wallet kernel and the chain's signatures (`WalletEngine`), the
-- database (`Sql`) and what opens it (`Sqlx`), the metrics recorder (`Exporter`), and the
-- connection of the tool server to its facilitator (`Post`). The laws that some theorems assume of
-- them are `IsLawful...`, `IsExclusive`, `IsConnected`, `WritesInfo` and `AcceptsConforming`; the
-- Tests have an instance of each.
--
-- Bounds and fuel: numbers are unbounded and every wrap-around or saturation is written out.
-- `to_text_from` runs on the number itself as fuel, and `chunks` on the length of the bytes; both
-- are more than the loops need; `hex_from` is like `to_text_from`. A `Duration` is in whole seconds.
--
-- Not modelled: the counters and logs of the handlers, what axum does before and after a handler,
-- the connection to the chain, the examples and demos. Texts compare by
-- code points, which is the order of their UTF-8 bytes. `usize` has 64 bits.
pub mod Prelude
pub mod Types
pub mod Wallet
pub mod Decimal
pub mod Crypto
pub mod Facilitator
pub mod Client
pub mod Advertiser
pub mod Mcp
pub mod Tests
