-- ===== src/Programs/ContractCall/Multi.antt =====
-- fuels-programs/src/contract.rs: several calls in one transaction.
pub mod Responses
pub mod Accepted
use fuels_rs.Prelude.{
  ℕ, zero, suc, ◌+◌, ◌≡◌, refl, ap, if◌then◌else◌, Bool, true, false, Option, none, some, List, [],
  ◌∷◌, ◌++◌,
}
use fuels_rs.Errors.{
  Result, ok, err, ◌>>=◌, other, no_calls_added, heap_call_not_last, too_many_heap_calls,
}
use fuels_rs.ParamTypes.{ParamType}
use fuels_rs.ParamTypes.Receipts.{is_extra_receipt_needed, validate_is_decodable}
use fuels_rs.Tokens.{External, Token, Tokens, nil, cons, tuple}
use fuels_rs.Codec.Decoder.{DecoderConfig, decode}
use fuels_rs.Receipt.{Receipt}
use fuels_rs.Programs.ReceiptParser.{
  ReceiptParser, relevant_receipts, new_receipt_parser, extract_raw_data, parse,
}
use fuels_rs.Programs.ContractCall.{
  ContractCall, append_variable_outputs, append_external_contracts,
}

abbrev pub returns_heap_type : ContractCall → Bool
returns_heap_type call = is_extra_receipt_needed call.output_param true

unfoldable pub number_of_heap_type_calls : List ContractCall → ℕ
number_of_heap_type_calls [] = 0
number_of_heap_type_calls (call ∷ calls) =
    (if returns_heap_type call then 1 else 0) + number_of_heap_type_calls calls

-- Whether the last call returns a heap type, after `call`.
unfoldable pub last_returns_heap_type : ContractCall → List ContractCall → Bool
last_returns_heap_type call [] = returns_heap_type call
last_returns_heap_type call (next ∷ calls) = last_returns_heap_type next calls

unfoldable pub validate_contract_calls : List ContractCall → Result (Unit {0})
unfolding number_of_heap_type_calls last_returns_heap_type
validate_contract_calls [] = err (other no_calls_added)
validate_contract_calls (call ∷ calls) = elim (number_of_heap_type_calls (call ∷ calls)) [
  | zero ↦ ok tt
  | suc zero ↦ if last_returns_heap_type call calls then ok tt else err (other heap_call_not_last)
  | suc (suc n) ↦ err (other too_many_heap_calls)
]

-- `append_variable_outputs` and `append_contract` of several calls change the first.
unfoldable pub append_variable_outputs_first : ℕ → List ContractCall → List ContractCall
append_variable_outputs_first num [] = []
append_variable_outputs_first num (call ∷ calls) = append_variable_outputs num call ∷ calls

unfoldable pub append_contract_first : ℕ → List ContractCall → List ContractCall
append_contract_first contract_id [] = []
append_contract_first contract_id (call ∷ calls) =
    append_external_contracts contract_id call ∷ calls

-- The tokens of all calls, until the first error.
unfoldable pub parse_calls : External → List ContractCall → ReceiptParser → Result Tokens
unfolding parse
parse_calls x [] parser = ok nil
parse_calls x (call ∷ calls) parser =
    let (parsed, later) = parse x (some call.contract_id) call.output_param parser in
    do token ← parsed; tokens ← parse_calls x calls later; ok (cons token tokens)

-- `ContractCallHandler::get_response`: the value of the response, with the client's
-- `D::from_token`.
unfoldable pub get_response_single :
    {D : Type 0}
    → (Token → Result D)
    → External
    → ContractCall
    → DecoderConfig
    → List Receipt
    → Result D
unfolding parse new_receipt_parser
get_response_single from_token x call decoder_config receipts = do
  token ←
      (parse x (some call.contract_id) call.output_param
        (new_receipt_parser receipts decoder_config)).0
  from_token token

-- `MultiContractCallHandler::get_response`: the value of the response, with the client's `D::from_token`.
unfoldable pub get_response :
    {D : Type 0}
    → (Token → Result D)
    → External
    → List ContractCall
    → DecoderConfig
    → List Receipt
    → Result D
unfolding parse_calls new_receipt_parser
get_response from_token x calls decoder_config receipts = do
  final_tokens ← parse_calls x calls (new_receipt_parser receipts decoder_config)
  from_token (tuple final_tokens)
