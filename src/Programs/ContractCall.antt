-- ===== src/Programs/ContractCall.antt =====
-- fuels-programs/src/contract.rs: a contract call and what a handler changes of it.
pub mod Multi
mod Tests
use fuels_rs.Prelude.{
  ℕ, ◌==◌, ltb, ◌&&◌, ◌||◌, not, if◌then◌else◌, Bool, true, false, Option, none, some, List, [],
  ◌∷◌, ◌++◌, replicate,
}
use fuels_rs.Errors.{Result, ok, err, Error, other, forwarded_to_non_payable}
use fuels_rs.UnresolvedBytes.{Chunks, add_u64}
use fuels_rs.ParamTypes.{ParamType}
use fuels_rs.Tokens.{External, Token, Tokens, nil, cons, count}
use fuels_rs.Codec.Encoder.{EncoderConfig, encode}
use fuels_rs.Transaction.{Output, variable}

pub record CallParameters : Type 0 where
  pub amount : ℕ
  pub asset_id : ℕ
  pub gas_forwarded : Option ℕ

-- `CallParameters::default()`, with the base asset, whose id is zero.
abbrev pub default_call_parameters : CallParameters
default_call_parameters = record { amount = 0; asset_id = 0; gas_forwarded = none }

-- The custom assets stand in the order in which their map is iterated.
abbrev pub CustomAssets : Type 0
CustomAssets = List ((ℕ × Option ℕ) × ℕ)

pub record ContractCall : Type 0 where
  pub contract_id : ℕ
  pub encoded_args : Result Chunks
  pub encoded_selector : List ℕ
  pub call_parameters : CallParameters
  pub compute_custom_input_offset : Bool
  pub variable_outputs : List Output
  pub external_contracts : List ℕ
  pub output_param : ParamType
  pub is_payable : Bool
  pub custom_assets : CustomAssets

unfoldable pub with_contract_id : ℕ → ContractCall → ContractCall
with_contract_id contract_id call = record call { contract_id = contract_id }

unfoldable pub with_external_contracts : List ℕ → ContractCall → ContractCall
with_external_contracts contracts call = record call { external_contracts = contracts }

unfoldable pub with_variable_outputs : List Output → ContractCall → ContractCall
with_variable_outputs outputs call = record call { variable_outputs = outputs }

unfoldable pub with_call_parameters : CallParameters → ContractCall → ContractCall
with_call_parameters parameters call = record call { call_parameters = parameters }

-- `new_variable_outputs` of call_utils.rs
unfoldable pub new_variable_outputs : ℕ → List Output
new_variable_outputs num = replicate num (variable 0 0 0)

unfoldable pub append_variable_outputs : ℕ → ContractCall → ContractCall
unfolding new_variable_outputs
append_variable_outputs num call = record call {
  variable_outputs = call.variable_outputs ++ new_variable_outputs num;
}

unfoldable pub append_external_contracts : ℕ → ContractCall → ContractCall
append_external_contracts contract_id call = record call {
  external_contracts = call.external_contracts ++ (contract_id ∷ []);
}

abbrev pub same_address : Option ℕ → Option ℕ → Bool
same_address none none = true
same_address (some a) (some b) = a == b
same_address _ _ = false

-- The map's entry, `or_default`, and `+=` on u64; a new entry goes to the end.
unfoldable pub add_to_entry : ℕ → Option ℕ → ℕ → CustomAssets → CustomAssets
add_to_entry asset_id to amount [] = ((asset_id, to), add_u64 0 amount) ∷ []
add_to_entry asset_id to amount (((a, t), n) ∷ rest) =
    let later = add_to_entry asset_id to amount rest in
    if a == asset_id && same_address t to
    then ((a, t), add_u64 n amount) ∷ rest
    else ((a, t), n) ∷ later

unfoldable pub add_custom_asset : ℕ → ℕ → Option ℕ → ContractCall → ContractCall
unfolding add_to_entry
add_custom_asset asset_id amount to call = record call {
  custom_assets = add_to_entry asset_id to amount call.custom_assets;
}

-- `ContractCallHandler::call_params`
unfoldable pub call_params : CallParameters → ContractCall → Result ContractCall
call_params params call =
    if not call.is_payable && ltb 0 params.amount
    then err (other forwarded_to_non_payable)
    else ok (record call { call_parameters = params })

-- Whether a token is passed as a pointer to its data.
abbrev passed_by_pointer : Token → Bool
passed_by_pointer Token.unit = false
passed_by_pointer (Token.bool b) = false
passed_by_pointer (Token.u8 n) = false
passed_by_pointer (Token.u16 n) = false
passed_by_pointer (Token.u32 n) = false
passed_by_pointer (Token.u64 n) = false
passed_by_pointer _ = true

unfoldable pub any_by_pointer : Tokens → Bool
any_by_pointer nil = false
any_by_pointer (cons t ts) = passed_by_pointer t || any_by_pointer ts

unfoldable pub should_compute_custom_input_offset : Tokens → Bool
unfolding any_by_pointer
should_compute_custom_input_offset args = ltb 1 (count args) || any_by_pointer args

-- The contract call of `method_hash`, with the type `D::param_type()` of the output.
unfoldable pub method_hash :
    External → ℕ → List ℕ → Tokens → Bool → EncoderConfig → ParamType → ContractCall
unfolding should_compute_custom_input_offset
method_hash x contract_id signature args is_payable encoder_config output_param = record {
  contract_id = contract_id;
  encoded_args = encode x encoder_config args;
  encoded_selector = signature;
  call_parameters = default_call_parameters;
  compute_custom_input_offset = should_compute_custom_input_offset args;
  variable_outputs = [];
  external_contracts = [];
  output_param = output_param;
  is_payable = is_payable;
  custom_assets = [];
}
