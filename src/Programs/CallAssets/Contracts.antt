-- ===== src/Programs/CallAssets/Contracts.antt =====
-- fuels-programs/src/call_utils.rs: the inputs and outputs of the contracts of a transaction.
use fuels_rs.Prelude.{
  ℕ, ◌+◌, ◌%◌, ◌<◌, ◌≡◌, ap, ◌∙◌, arith, some, List, [], ◌∷◌, ◌++◌, length, get_elem?,
}
use fuels_rs.Inputs.{Input, contract}
use fuels_rs.Transaction.{Output}
use fuels_rs.Programs.ContractCall.{ContractCall}
use fuels_rs.Programs.CallAssets.{
  contract_ids_of, contract_outputs_from, generate_contract_outputs, contract_inputs_from,
  generate_contract_inputs, asset_ids_of, generate_asset_change_outputs, generate_custom_outputs,
  extract_variable_outputs, get_transaction_inputs_outputs,
}

input_at :
    (index : ℕ) (before : List ℕ) (id : ℕ) (after : List ℕ) (more : List Input)
    → get_elem? (contract_inputs_from index (before ++ (id ∷ after)) ++ more) (length before)
      ≡ some (contract ((index + length before) % 256) 0 0 0 id)
unfolding contract_inputs_from
input_at index [] id after more = ap (λ n. some (contract (n % 256) 0 0 0 id)) (omega arith)
input_at index (b ∷ before) id after more =
    input_at (index + 1) before id after more
    ∙ ap (λ n. some (contract (n % 256) 0 0 0 id)) (omega arith)

output_at :
    (index : ℕ) (before : List ℕ) (id : ℕ) (after : List ℕ) (more : List Output)
    → get_elem?
        (contract_outputs_from index (length (before ++ (id ∷ after))) ++ more)
        (length before)
      ≡ some (Output.contract ((index + length before) % 256))
unfolding contract_outputs_from
output_at index [] id after more = ap (λ n. some (Output.contract (n % 256))) (omega arith)
output_at index (b ∷ before) id after more =
    output_at (index + 1) before id after more
    ∙ ap (λ n. some (Output.contract (n % 256))) (omega arith)

-- A contract that the calls name and that is among the first 256 of the set's iteration has an input
-- and an output at its index there, and the output refers to that input.
pub get_transaction_inputs_outputs-contract :
    (iterate : List ℕ → List ℕ) (calls : List ContractCall) (asset_inputs : List Input)
    (address : ℕ) (before : List ℕ) (id : ℕ) (after : List ℕ)
    → iterate (contract_ids_of calls) ≡ before ++ (id ∷ after)
    → length before < 256
    → (get_elem?
          (get_transaction_inputs_outputs iterate calls asset_inputs address).0
          (length before)
        ≡ some (contract (length before) 0 0 0 id))
      × (get_elem?
            (get_transaction_inputs_outputs iterate calls asset_inputs address).1
            (length before)
          ≡ some (Output.contract (length before)))
unfolding get_transaction_inputs_outputs generate_contract_inputs generate_contract_outputs
get_transaction_inputs_outputs-contract iterate calls asset_inputs address before id after e lt =
    let more =
      generate_asset_change_outputs address (iterate (asset_ids_of asset_inputs))
      ++ (generate_custom_outputs calls ++ extract_variable_outputs calls) in
    let index : (0 + length before) % 256 ≡ length before = omega arith in
    (
      ap (λ ids. get_elem? (contract_inputs_from 0 ids ++ asset_inputs) (length before)) e
          ∙ input_at 0 before id after asset_inputs
          ∙ ap (λ n. some (contract n 0 0 0 id)) index,
      ap (λ ids. get_elem? (contract_outputs_from 0 (length ids) ++ more) (length before)) e
          ∙ output_at 0 before id after more
          ∙ ap (λ n. some (Output.contract n)) index,
    )
