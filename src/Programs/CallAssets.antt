-- ===== src/Programs/CallAssets.antt =====
-- fuels-programs/src/call_utils.rs: the assets that contract calls require, and the inputs and
-- outputs of their transaction. A set is iterated in an order that is a parameter.
pub mod Required
pub mod Contracts
mod Tests
use fuels_rs.Prelude.{
  ℕ, zero, suc, ◌+◌, ◌%◌, ◌==◌, leb, ◌&&◌, if◌then◌else◌, Bool, true, false, Option, none, some,
  List, [], ◌∷◌, ◌++◌, length,
}
use fuels_rs.UnresolvedBytes.{add_u64}
use fuels_rs.Inputs.{Input, contract, input_asset_id, base_asset_id}
use fuels_rs.Transaction.{Output, coin, change}
use fuels_rs.Programs.ContractCall.{ContractCall, CallParameters, CustomAssets, same_address}

-- An asset and an amount of it.
abbrev pub Amounts : Type 0
Amounts = List (ℕ × ℕ)

-- The sums over neighbours with the same asset.
unfoldable pub join_group : ℕ → ℕ → Amounts → Amounts
join_group asset_id amount [] = (asset_id, add_u64 amount 0) ∷ []
join_group asset_id amount ((a, total) ∷ groups) =
    if asset_id == a
    then (a, add_u64 amount total) ∷ groups
    else (asset_id, add_u64 amount 0) ∷ (a, total) ∷ groups

unfoldable pub sum_groups : Amounts → Amounts
unfolding join_group
sum_groups [] = []
sum_groups ((asset_id, amount) ∷ rest) = join_group asset_id amount (sum_groups rest)

-- The stable sort by asset.
unfoldable pub insert_sorted : ℕ × ℕ → Amounts → Amounts
insert_sorted (asset_id, amount) [] = (asset_id, amount) ∷ []
insert_sorted (asset_id, amount) ((a, n) ∷ rest) =
    let later = insert_sorted (asset_id, amount) rest in
    if leb asset_id a then (asset_id, amount) ∷ (a, n) ∷ rest else (a, n) ∷ later

unfoldable pub sort_by_asset : Amounts → Amounts
unfolding insert_sorted
sort_by_asset [] = []
sort_by_asset (entry ∷ rest) = insert_sorted entry (sort_by_asset rest)

unfoldable pub sum_up_amounts_for_each_asset_id : Amounts → Amounts
unfolding sort_by_asset sum_groups
sum_up_amounts_for_each_asset_id amounts_per_asset_id =
    sum_groups (sort_by_asset amounts_per_asset_id)

unfoldable pub call_param_assets : List ContractCall → Amounts
call_param_assets [] = []
call_param_assets (call ∷ calls) =
    (call.call_parameters.asset_id, call.call_parameters.amount) ∷ call_param_assets calls

-- `flat_map` over the custom assets of the calls.
unfoldable pub all_custom_assets : List ContractCall → CustomAssets
all_custom_assets [] = []
all_custom_assets (call ∷ calls) = call.custom_assets ++ all_custom_assets calls

unfoldable pub without_addresses : CustomAssets → Amounts
without_addresses [] = []
without_addresses (((asset_id, to), amount) ∷ rest) = (asset_id, amount) ∷ without_addresses rest

unfoldable pub calculate_required_asset_amounts : List ContractCall → Amounts
unfolding sum_up_amounts_for_each_asset_id call_param_assets all_custom_assets without_addresses
    sum_groups
calculate_required_asset_amounts calls =
    sum_up_amounts_for_each_asset_id
      (call_param_assets calls ++ sum_groups (without_addresses (all_custom_assets calls)))

-- The amount of an asset, as `build_tx_from_contract_calls` looks up that of the base asset.
unfoldable pub amount_of : ℕ → Amounts → ℕ
amount_of asset_id [] = 0
amount_of asset_id ((a, amount) ∷ rest) =
    let later = amount_of asset_id rest in if a == asset_id then amount else later

unfoldable pub used_base_amount : List ContractCall → ℕ
unfolding amount_of calculate_required_asset_amounts
used_base_amount calls = amount_of base_asset_id (calculate_required_asset_amounts calls)

-- The sums over neighbours with the same asset and address, for the groups that have an address.
unfoldable pub join_address_group : (ℕ × Option ℕ) × ℕ → CustomAssets → CustomAssets
join_address_group ((asset_id, to), amount) [] = ((asset_id, to), add_u64 amount 0) ∷ []
join_address_group ((asset_id, to), amount) (((a, t), total) ∷ groups) =
    if asset_id == a && same_address to t
    then ((a, t), add_u64 amount total) ∷ groups
    else ((asset_id, to), add_u64 amount 0) ∷ ((a, t), total) ∷ groups

unfoldable pub address_groups : CustomAssets → CustomAssets
unfolding join_address_group
address_groups [] = []
address_groups (entry ∷ rest) = join_address_group entry (address_groups rest)

unfoldable pub coin_outputs : CustomAssets → List Output
coin_outputs [] = []
coin_outputs (((asset_id, some address), amount) ∷ rest) =
    coin address amount asset_id ∷ coin_outputs rest
coin_outputs (((asset_id, none), amount) ∷ rest) = coin_outputs rest

unfoldable pub generate_custom_outputs : List ContractCall → List Output
unfolding coin_outputs address_groups all_custom_assets
generate_custom_outputs calls = coin_outputs (address_groups (all_custom_assets calls))

unfoldable pub asset_ids_of : List Input → List ℕ
asset_ids_of [] = []
asset_ids_of (input ∷ inputs) =
    let rest = asset_ids_of inputs in
    elim (input_asset_id input) [ none ↦ rest | some asset_id ↦ asset_id ∷ rest ]

unfoldable pub contract_ids_of : List ContractCall → List ℕ
contract_ids_of [] = []
contract_ids_of (call ∷ calls) =
    call.external_contracts ++ (call.contract_id ∷ contract_ids_of calls)

unfoldable pub extract_variable_outputs : List ContractCall → List Output
extract_variable_outputs [] = []
extract_variable_outputs (call ∷ calls) = call.variable_outputs ++ extract_variable_outputs calls

unfoldable pub generate_asset_change_outputs : ℕ → List ℕ → List Output
generate_asset_change_outputs wallet_address [] = []
generate_asset_change_outputs wallet_address (asset_id ∷ asset_ids) =
    change wallet_address 0 asset_id ∷ generate_asset_change_outputs wallet_address asset_ids

-- From the index on, which is converted to u8.
unfoldable pub contract_outputs_from : ℕ → ℕ → List Output
contract_outputs_from index zero = []
contract_outputs_from index (suc n) =
    Output.contract (index % 256) ∷ contract_outputs_from (index + 1) n

unfoldable pub generate_contract_outputs : ℕ → List Output
unfolding contract_outputs_from
generate_contract_outputs num_of_contracts = contract_outputs_from 0 num_of_contracts

unfoldable pub contract_inputs_from : ℕ → List ℕ → List Input
contract_inputs_from index [] = []
contract_inputs_from index (contract_id ∷ contract_ids) =
    contract (index % 256) 0 0 0 contract_id ∷ contract_inputs_from (index + 1) contract_ids

unfoldable pub generate_contract_inputs : List ℕ → List Input
unfolding contract_inputs_from
generate_contract_inputs contract_ids = contract_inputs_from 0 contract_ids

-- With the iteration of the set of the elements of a list.
unfoldable pub get_transaction_inputs_outputs :
    (List ℕ → List ℕ) → List ContractCall → List Input → ℕ → List Input × List Output
unfolding generate_contract_inputs generate_contract_outputs generate_asset_change_outputs
    generate_custom_outputs extract_variable_outputs asset_ids_of contract_ids_of
get_transaction_inputs_outputs iterate calls asset_inputs address =
    let asset_ids = iterate (asset_ids_of asset_inputs) in
    let contract_ids = iterate (contract_ids_of calls) in
    (
      generate_contract_inputs contract_ids ++ asset_inputs,
      generate_contract_outputs (length contract_ids)
          ++ (generate_asset_change_outputs address asset_ids
              ++ (generate_custom_outputs calls ++ extract_variable_outputs calls)),
    )
