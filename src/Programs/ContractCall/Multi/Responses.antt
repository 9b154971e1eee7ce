-- ===== src/Programs/ContractCall/Multi/Responses.antt =====
-- fuels-programs/src/contract.rs: `get_response` finds the value of every call among the receipts.
use fuels_rs.Prelude.{ℕ, ◌≡◌, refl, some, List, [], ◌∷◌, ◌++◌}
use fuels_rs.Errors.{Result, ok, err, codec, missing_receipts}
use fuels_rs.ParamTypes.{ParamType}
use fuels_rs.ParamTypes.Receipts.{validate_is_decodable}
use fuels_rs.Tokens.{External, Token, Tokens, nil, cons, tuple}
use fuels_rs.Codec.Decoder.{DecoderConfig, decode}
use fuels_rs.Receipt.{Receipt}
use fuels_rs.Programs.ReceiptParser.{relevant_receipts, new_receipt_parser, extract_raw_data, parse}
use fuels_rs.Programs.ReceiptParser.Segments.{
  Segment, Foreign, extract_raw_data-Segment, extract_raw_data-Foreign,
}
use fuels_rs.Programs.ContractCall.{ContractCall}
use fuels_rs.Programs.ContractCall.Multi.{parse_calls, get_response}

-- Receipts of calls in order: before those of a call stand none of the same contract, those of
-- contracts that an earlier call has called included.
pub data Trace (x : External) (config : DecoderConfig)
    : List ContractCall → List Receipt → Tokens → Type 0 where
  done : (rest : List Receipt) → Trace x config [] rest nil
  step :
      {call : ContractCall} {calls : List ContractCall} (before seg rest : List Receipt)
      (bytes : List ℕ) {token : Token} {tokens : Tokens}
      → Foreign call.contract_id before
      → Segment call.contract_id call.output_param seg bytes
      → validate_is_decodable call.output_param ≡ ok tt
      → decode x config call.output_param bytes ≡ ok token
      → Trace x config calls (before ++ rest) tokens
      → Trace x config (call ∷ calls) (before ++ (seg ++ rest)) (cons token tokens)

parse-found :
    (x : External) (config : DecoderConfig) (id : ℕ) (p : ParamType) (rs rest : List Receipt)
    (bytes : List ℕ)
    → validate_is_decodable p ≡ ok tt
    → extract_raw_data rs p id ≡ some (bytes, rest)
    → parse x (some id) p (record { receipts = rs; decoder = config })
      ≡ (decode x config p bytes, record { receipts = rest; decoder = config })
unfolding parse
parse-found x config id p rs rest bytes v e = rw (parse, v, e) refl

parse_calls-Trace :
    {x : External} {config : DecoderConfig} {calls : List ContractCall} {rs : List Receipt}
    {tokens : Tokens}
    → Trace x config calls rs tokens
    → parse_calls x calls (record { receipts = rs; decoder = config }) ≡ ok tokens
unfolding parse_calls
parse_calls-Trace (done rest) = refl
parse_calls-Trace {x} {config} (step {call} before seg rest bytes f s v d later) =
    let found =
      parse-found x config call.contract_id call.output_param (before ++ (seg ++ rest))
        (before ++ rest) bytes v
        (extract_raw_data-Segment call.contract_id call.output_param before seg rest bytes f s) in
    rw (parse_calls, found, d, parse_calls-Trace later) refl

-- If the receipts that return values are those of the calls in order, with receipts of other
-- contracts between them, and each call's bytes decode, `get_response` gives the client the tuple
-- of all decoded values in the order of the calls.
pub get_response-Trace :
    {D : Type 0} (from_token : Token → Result D) (x : External) (config : DecoderConfig)
    (calls : List ContractCall) (receipts : List Receipt) (tokens : Tokens)
    → Trace x config calls (relevant_receipts receipts) tokens
    → get_response from_token x calls config receipts ≡ from_token (tuple tokens)
unfolding get_response new_receipt_parser
get_response-Trace from_token x config calls receipts tokens trace =
    rw (parse_calls-Trace trace) refl

-- If the output type is decodable and no receipt is of the contract, `parse` reports missing
-- receipts and keeps the receipts.
pub parse-Foreign :
    (x : External) (config : DecoderConfig) (id : ℕ) (p : ParamType) (rs : List Receipt)
    → validate_is_decodable p ≡ ok tt
    → Foreign id rs
    → parse x (some id) p (record { receipts = rs; decoder = config })
      ≡ (err (codec missing_receipts), record { receipts = rs; decoder = config })
unfolding parse
parse-Foreign x config id p rs v f = rw (parse, v, extract_raw_data-Foreign id p rs f) refl
