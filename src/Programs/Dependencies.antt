-- ===== src/Programs/Dependencies.antt =====
-- fuels-programs/src/call_utils.rs: `TxDependencyExtension`, which simulates a transaction and adds
-- the outputs and contracts that it turns out to miss.
pub mod Estimated
mod Tests
use fuels_rs.Prelude.{
  ℕ, zero, suc, ◌+◌, ◌==◌, ◌||◌, if◌then◌else◌, Bool, true, false, Option, none, some, List, [],
  ◌∷◌,
}
use fuels_rs.Errors.{
  Result, ok, err, ◌>>=◌, ◌>>◌, Error, codec, other, builder, other_transaction, squeezed_out,
  reverted,
}
use fuels_rs.Receipt.{Receipt, PanicReason, contract_not_in_inputs, another_reason, revert}
use fuels_rs.Programs.ContractCall.{
  ContractCall, append_variable_outputs, append_external_contracts,
}
use fuels_rs.Programs.ContractCall.Multi.{append_variable_outputs_first, append_contract_first}

-- Whether a transfer failed for want of a variable output, with the signal of fuel_abi_types.
unfoldable pub is_missing_output_variables : ℕ → List Receipt → Bool
is_missing_output_variables failed_transfer_signal [] = false
is_missing_output_variables failed_transfer_signal (revert ra ∷ rs) =
    ra == failed_transfer_signal || is_missing_output_variables failed_transfer_signal rs
is_missing_output_variables failed_transfer_signal (r ∷ rs) =
    is_missing_output_variables failed_transfer_signal rs

-- The first contract that was not in the inputs, with its `expect`.
unfoldable pub find_id_of_missing_contract : List Receipt → Result (Option ℕ)
find_id_of_missing_contract [] = ok none
find_id_of_missing_contract (Receipt.panic contract_not_in_inputs (some contract_id) ∷ rs) =
    ok (some contract_id)
find_id_of_missing_contract (Receipt.panic contract_not_in_inputs none ∷ rs) = fuels_rs.Errors.panic
find_id_of_missing_contract (r ∷ rs) = find_id_of_missing_contract rs

-- What a handler brings along. A simulation is given the number of simulations before it, as the
-- node's answer may change.
pub record TxDependencyExtension (S : Type 0) : Type 0 where
  pub simulate : ℕ → S → Result (Unit {0})
  pub append_variable_outputs : ℕ → S → S
  pub append_contract : ℕ → S → S

-- `ContractCallHandler` and `MultiContractCallHandler`, whose simulations are the node's.
abbrev pub single_handler :
    (ℕ → ContractCall → Result (Unit {0})) → TxDependencyExtension ContractCall
single_handler simulate = record {
  simulate = simulate;
  append_variable_outputs = append_variable_outputs;
  append_contract = append_external_contracts;
}

abbrev pub multi_handler :
    (ℕ → List ContractCall → Result (Unit {0})) → TxDependencyExtension (List ContractCall)
multi_handler simulate = record {
  simulate = simulate;
  append_variable_outputs = append_variable_outputs_first;
  append_contract = append_contract_first;
}

abbrev pub default_tx_dep_estimation_attempts : ℕ
default_tx_dep_estimation_attempts = 10

module _ {S : Type 0} (extension : TxDependencyExtension S) (failed_transfer_signal : ℕ) where
  abbrev with_contract : Option ℕ → S → S
  with_contract none s = s
  with_contract (some contract_id) s = extension.append_contract contract_id s

  unfoldable pub append_missing_dependencies : List Receipt → S → Result S
  unfolding is_missing_output_variables find_id_of_missing_contract
  append_missing_dependencies receipts s =
      let with_outputs =
        if is_missing_output_variables failed_transfer_signal receipts
        then extension.append_variable_outputs 1 s
        else s in
      do missing ← find_id_of_missing_contract receipts; ok (with_contract missing with_outputs)

  -- The loop, with the attempts that remain and the simulations that were made.
  unfoldable pub estimate_loop : ℕ → ℕ → S → Result S
  unfolding append_missing_dependencies
  estimate_loop zero simulated s = do extension.simulate simulated s; ok s
  estimate_loop (suc attempts) simulated s = elim (extension.simulate simulated s) [
    | ok _ ↦ ok s
    | err e ↦ elim e [
      | reverted reason revert_id receipts ↦
          append_missing_dependencies receipts s >>= estimate_loop attempts (simulated + 1)
      | codec m ↦ err (codec m)
      | other m ↦ err (other m)
      | builder m ↦ err (builder m)
      | other_transaction m ↦ err (other_transaction m)
      | squeezed_out reason ↦ err (squeezed_out reason)
    ]
    | fuels_rs.Errors.panic ↦ fuels_rs.Errors.panic
  ]

  unfoldable pub estimate_tx_dependencies : Option ℕ → S → Result S
  unfolding estimate_loop
  estimate_tx_dependencies none s = estimate_loop default_tx_dep_estimation_attempts 0 s
  estimate_tx_dependencies (some max_attempts) s = estimate_loop max_attempts 0 s
