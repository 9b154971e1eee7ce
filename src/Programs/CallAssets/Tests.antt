-- ===== src/Programs/CallAssets/Tests.antt =====
-- The assets of concrete calls.
use fuels_rs.Prelude.{
  ℕ, ◌%◌, ◌^◌, ◌≡◌, refl, arith, false, none, some, List, [], ◌∷◌, get_elem?, length,
}
use fuels_rs.Errors.{ok}
use fuels_rs.UnresolvedBytes.{nil}
use fuels_rs.ParamTypes.{u64}
use fuels_rs.Inputs.{contract}
use fuels_rs.Transaction.{Output, coin}
use fuels_rs.Programs.ContractCall.{ContractCall, CustomAssets}
use fuels_rs.Programs.CallAssets.{
  calculate_required_asset_amounts, amount_of, generate_custom_outputs, contract_ids_of,
  get_transaction_inputs_outputs,
}
use fuels_rs.Programs.CallAssets.Required.{required, calculate_required_asset_amounts-total}
use fuels_rs.Programs.CallAssets.Contracts.{get_transaction_inputs_outputs-contract}

abbrev call_with : ℕ → ℕ → ℕ → CustomAssets → ContractCall
call_with contract_id asset_id amount custom_assets = record {
  contract_id = contract_id;
  encoded_args = ok nil;
  encoded_selector = [];
  call_parameters = record { amount = amount; asset_id = asset_id; gas_forwarded = none };
  compute_custom_input_offset = false;
  variable_outputs = [];
  external_contracts = 8 ∷ [];
  output_param = u64;
  is_payable = false;
  custom_assets = custom_assets;
}

abbrev two_calls : List ContractCall
two_calls =
    call_with 5 3 10 (((1, some 77), 4) ∷ ((1, some 77), 2) ∷ [])
    ∷ call_with 6 3 20 (((3, none), 5) ∷ [])
    ∷ []

two_calls_required : calculate_required_asset_amounts two_calls ≡ (1, 6) ∷ (3, 35) ∷ []
unfolding calculate_required_asset_amounts
two_calls_required = refl

two_calls_custom : generate_custom_outputs two_calls ≡ coin 77 6 1 ∷ []
unfolding generate_custom_outputs
two_calls_custom = refl

calculate_required_asset_amounts-total_example :
    amount_of 3 (calculate_required_asset_amounts two_calls) ≡ required 3 two_calls % 2 ^ 64
calculate_required_asset_amounts-total_example = calculate_required_asset_amounts-total 3 two_calls

-- A set that is iterated in the order of first appearance, for these calls.
abbrev iterate : List ℕ → List ℕ
iterate (a ∷ b ∷ c ∷ d ∷ []) = a ∷ b ∷ d ∷ []
iterate ids = ids

abbrev first_two : List ℕ
first_two = 8 ∷ 5 ∷ []

get_transaction_inputs_outputs-contract_example :
    (get_elem? (get_transaction_inputs_outputs iterate two_calls [] 99).0 (length first_two)
      ≡ some (contract (length first_two) 0 0 0 6))
    × (get_elem? (get_transaction_inputs_outputs iterate two_calls [] 99).1 (length first_two)
        ≡ some (Output.contract (length first_two)))
unfolding contract_ids_of
get_transaction_inputs_outputs-contract_example =
    get_transaction_inputs_outputs-contract iterate two_calls [] 99 first_two 6 [] refl
      (omega arith)
