-- ===== src/Lib.antt =====
-- The ABI codec of fuels-rs, the Rust SDK for the Fuel network, and the client code around it.
--
-- A contract call turns Rust values into `Token`s, `ABIEncoder::encode` turns the tokens into
-- chunks with places for pointers (`UnresolvedBytes`), and `resolve` fixes the pointers once the
-- address is known at which the data is loaded. What the VM returns goes the other way: the schema
-- of the value, a `ParamType`, is checked by `validate_is_decodable` and drives
-- `ABIDecoder::decode`, which gives back a token. Both directions count depth and tokens against
-- the limits of their configuration.
--
-- Files, with paths from the root of the repository:
--   Errors           packages/fuels-core/src/types/errors.rs: the `Result` of the modelled code, in
--                    which `panic` stands for a panicking expression.
--   Utils            packages/fuels-core/src/utils.rs and utils/constants.rs: word alignment with
--                    checked `usize` arithmetic.
--   ParamTypes       packages/fuels-core/src/types/param_types.rs and types/enum_variants.rs:
--                    `ParamType`, `EnumVariants`, widths, paddings. ParamTypes/Receipts holds the
--                    rules for heap types, ParamTypes/Width and ParamTypes/Fits what the width
--                    computations return and when they succeed. ParamTypes/FromType converts
--                    the ABI's `Type` into a schema.
--   Tokens           packages/fuels-core/src/types.rs: `Token`, `StaticStringToken`, the padding
--                    helpers. Tokens/Typing says which tokens are values of which schema.
--   AsciiStrings     packages/fuels-core/src/types/core/sized_ascii_string.rs: strings that contracts
--                    take.
--   UnresolvedBytes  packages/fuels-core/src/types/unresolved_bytes.rs: `resolve`.
--   Codec/Counter    packages/fuels-core/src/codec/utils.rs: `CounterWithLimit`, and the state of
--                    the encoder and the decoder, passed explicitly.
--   Codec/Encoder    packages/fuels-core/src/codec/abi_encoder.rs and
--                    abi_encoder/bounded_encoder.rs.
--   Codec/Decoder    packages/fuels-core/src/codec/abi_decoder.rs and
--                    abi_decoder/bounded_decoder.rs.
--   Codec/Experimental
--                    packages/fuels-core/src/codec/abi_decoder/experimental_bounded_decoder.rs: the
--                    decoder of packed data.
--   Codec/Selector   packages/fuels-core/src/codec/function_selector.rs: signatures and selectors.
--   Codec/Format     the format written down a second time, without state, limits or errors.
--   Codec/RoundTrip  the encoder and the decoder together.
--   Codec/Narrow     the encoder and the decoder on arrays of structs that end in a narrow field.
--   Codec/Logs       packages/fuels-core/src/codec/logs.rs: logs and their formatters.
--   TxStatus         packages/fuels-core/src/types/tx_status.rs: outcomes of transactions.
--   Receipt, Transaction
--                    the receipts and outputs of fuel_tx, with the fields that the client reads.
--   Programs/ReceiptParser
--                    packages/fuels-programs/src/receipt_parser.rs: the value of a call among the
--                    receipts.
--   Programs/ContractCall
--                    packages/fuels-programs/src/contract.rs: a contract call, its changes by a
--                    handler, several calls in one transaction.
--   Programs/ScriptData
--                    packages/fuels-programs/src/call_utils.rs: script data and instructions.
--   Programs/Dependencies
--                    packages/fuels-programs/src/call_utils.rs: `estimate_tx_dependencies`.
--   Programs/CallAssets
--                    packages/fuels-programs/src/call_utils.rs: required amounts, inputs, outputs.
--   Inputs           packages/fuels-core/src/types/wrappers/{input,coin,message,coin_type}.rs and
--                    utils/offsets.rs.
--   TransactionBuilders
--                    packages/fuels-core/src/types/transaction_builders.rs: signers, witnesses,
--                    resolved inputs and the built script transaction. Layout describes serialized
--                    inputs, PredicateData places the data of predicates in them, and DryRun says
--                    which transaction is run for its gas.
--   Accounts/BaseAmount
--                    packages/fuels-accounts/src/accounts_utils.rs: the inputs for the fee.
--   Accounts/Retry   packages/fuels-accounts/src/provider/retry_util.rs: retries with their waits.
--   Accounts/CoinsCache
--                    packages/fuels-accounts/src/coin_cache.rs: the cache of coins that were used a
--                    short time ago.
--
-- A method on `&mut self` is a function from the trackers to a result with the new trackers. The
-- vector of tokens or types inside a token or a type is a list of its own (`Tokens`,
-- `ParamTypes`), mutual with it. The names of structs, enums and variants do not reach the codec
-- and are left out. A number of a token is a natural number, a string its UTF-8 bytes. `usize` is
-- 64 bits wide. The loops are structural recursion over tokens, types, chunks or the attempts
-- that remain; the digits of a usize are printed on fuel 20, as it has no more than 20 digits.
-- The clock is read into arguments, and the outcomes of a retried action are a function of the
-- number of the call. An error keeps the kind and the numbers of its text. The padding functions of
-- fuel_types and the `U256` of the uint crate are parameters (`External`) with their documented behaviour as
-- hypotheses (`IsLawful`); so are SHA-256, the equality of keys and coin ids, the bytes of an
-- instruction, the signals with which contracts revert, and the node, which is a function of the
-- number of the simulation and the calls. Identifiers are the numbers whose 32 bytes they are. The
-- readers of lengths and tuples in the text of a type (`fuel_abi_types`) are parameters
-- (`Readers`), of which `IsReading` says what they do. Slices, conversions to arrays and the
-- subtractions of usize are partial, as in a build that checks for overflow; the sums of bytes that
-- the decoder has read are natural numbers. How fuel_tx lays out an input is stated with its
-- offsets as parameters (`InputRepr`).
--
-- Not modelled: the resolution of type applications and the debug texts of types, the
-- experimental encoding of logs, the builder of create transactions, the estimation of fees,
-- deployment of contracts, and whatever talks to a node, holds keys or generates code.
pub mod Prelude
pub mod Errors
pub mod Utils
pub mod ParamTypes
pub mod Tokens
pub mod UnresolvedBytes
pub mod Codec
pub mod Accounts
pub mod AsciiStrings
pub mod Receipt
pub mod Transaction
pub mod TxStatus
pub mod Inputs
pub mod TransactionBuilders
pub mod Programs
