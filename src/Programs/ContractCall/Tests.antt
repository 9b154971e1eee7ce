-- ===== src/Programs/ContractCall/Tests.antt =====
-- Contract calls on concrete values.
use fuels_rs.Prelude.{ℕ, ◌≡◌, refl, false, List, [], ◌∷◌, ◌↔◌}
use fuels_rs.Errors.{ok}
use fuels_rs.UnresolvedBytes.{nil}
use fuels_rs.ParamTypes.{ParamType, u8, u64, vector}
use fuels_rs.Tokens.{Token, Tokens, tuple}
use fuels_rs.Codec.Decoder.{default_decoder_config, decode, decode_top, decode_param}
use fuels_rs.Codec.Counter.{increase_token, new_trackers}
use fuels_rs.Prelude.BigEndian.{to_be_bytes, from_be_bytes}
use fuels_rs.ParamTypes.Receipts.{get_return_location, validate_is_decodable}
use fuels_rs.Codec.Sample.{sample_external}
use fuels_rs.Receipt.{return, log}
use fuels_rs.Programs.ReceiptParser.{relevant_receipts}
use fuels_rs.Programs.ReceiptParser.Segments.{Foreign, is_from, by_return}
use fuels_rs.Programs.ContractCall.{ContractCall, default_call_parameters}
use fuels_rs.Programs.ContractCall.Multi.{validate_contract_calls, get_response}
use fuels_rs.Programs.ContractCall.Multi.Responses.{done, step, get_response-Trace}
use fuels_rs.Programs.ContractCall.Multi.Accepted.{Accepted, validate_contract_calls_iff}

abbrev call_to : ℕ → ParamType → ContractCall
call_to id p = record {
  contract_id = id;
  encoded_args = ok nil;
  encoded_selector = 0 ∷ 0 ∷ 0 ∷ 0 ∷ 1 ∷ 2 ∷ 3 ∷ 4 ∷ [];
  call_parameters = default_call_parameters;
  compute_custom_input_offset = false;
  variable_outputs = [];
  external_contracts = [];
  output_param = p;
  is_payable = false;
  custom_assets = [];
}

abbrev two_calls : List ContractCall
two_calls = call_to 5 u64 ∷ call_to 6 u64 ∷ []

decoded_eleven :
    decode sample_external default_decoder_config u64 (0 ∷ 0 ∷ 0 ∷ 0 ∷ 0 ∷ 0 ∷ 0 ∷ 11 ∷ [])
    ≡ ok (Token.u64 11)
unfolding decode validate_is_decodable decode_top decode_param increase_token new_trackers
    from_be_bytes
decoded_eleven = refl

decoded_twelve :
    decode sample_external default_decoder_config u64 (0 ∷ 0 ∷ 0 ∷ 0 ∷ 0 ∷ 0 ∷ 0 ∷ 12 ∷ [])
    ≡ ok (Token.u64 12)
unfolding decode validate_is_decodable decode_top decode_param increase_token new_trackers
    from_be_bytes
decoded_twelve = refl

get_response-Trace_example :
    get_response
      (λ t. ok t)
      sample_external
      two_calls
      default_decoder_config
      (return 9 1 ∷ return 5 11 ∷ log 5 0 0 ∷ return 6 12 ∷ return 0 1 ∷ [])
    ≡ ok (tuple (Tokens.cons (Token.u64 11) (Tokens.cons (Token.u64 12) Tokens.nil)))
unfolding is_from relevant_receipts get_return_location to_be_bytes validate_is_decodable
get_response-Trace_example =
    get_response-Trace (λ t. ok t) sample_external default_decoder_config two_calls
      (return 9 1 ∷ return 5 11 ∷ log 5 0 0 ∷ return 6 12 ∷ return 0 1 ∷ [])
      (Tokens.cons (Token.u64 11) (Tokens.cons (Token.u64 12) Tokens.nil))
      (step (return 9 1 ∷ []) (return 5 11 ∷ []) (return 6 12 ∷ return 0 1 ∷ [])
        (0 ∷ 0 ∷ 0 ∷ 0 ∷ 0 ∷ 0 ∷ 0 ∷ 11 ∷ []) (Foreign.cons refl Foreign.nil) (by_return 11 refl)
        refl decoded_eleven
        (step (return 9 1 ∷ []) (return 6 12 ∷ []) (return 0 1 ∷ [])
          (0 ∷ 0 ∷ 0 ∷ 0 ∷ 0 ∷ 0 ∷ 0 ∷ 12 ∷ []) (Foreign.cons refl Foreign.nil) (by_return 12 refl)
          refl decoded_twelve (done (return 9 1 ∷ return 0 1 ∷ []))))

validate_contract_calls_iff_example :
    (validate_contract_calls (call_to 5 u64 ∷ call_to 6 (vector u8) ∷ []) ≡ ok tt)
    ↔ Accepted (call_to 5 u64 ∷ call_to 6 (vector u8) ∷ [])
validate_contract_calls_iff_example =
    validate_contract_calls_iff (call_to 5 u64 ∷ call_to 6 (vector u8) ∷ [])
