-- ===== src/Accounts/BaseAmount/Tests.antt =====
-- A builder that lacks a part of its fee.
use fuels_rs.Prelude.{ℕ, ◌+◌, ◌≤◌, ◌≡◌, refl, arith, true, none, [], ◌∷◌}
use fuels_rs.Inputs.{coin, unspent, Input, resource_signed, contract}
use fuels_rs.TransactionBuilders.{TransactionBuilder}
use fuels_rs.Accounts.BaseAmount.{
  available_base_amount, is_consuming_utxos, calculate_missing_base_amount, is_base_change_present,
  adjust_inputs_outputs, base_total, adjust_inputs_outputs-covers,
}

abbrev coin_with : ℕ → Input
coin_with amount = resource_signed (
    coin record {
      amount = amount;
      block_created = 0;
      asset_id = 0;
      utxo_id = 1;
      maturity = 0;
      owner = 12;
      status = unspent;
    })

abbrev sample_builder : TransactionBuilder
sample_builder = record {
  inputs = contract 0 0 0 0 9 ∷ coin_with 5 ∷ [];
  outputs = [];
  witnesses = [];
  tx_policies = record {
    gas_price = none;
    witness_limit = none;
    maturity = none;
    max_fee = none;
    script_gas_limit = none;
  };
  owner_to_idx_offset = [];
  unresolved_signers = [];
}

adjust_inputs_outputs-covers_example :
    (3 + 8
      ≤ available_base_amount (adjust_inputs_outputs (coin_with 6 ∷ []) 12 sample_builder).inputs)
    × (is_consuming_utxos (adjust_inputs_outputs (coin_with 6 ∷ []) 12 sample_builder).inputs
        ≡ true)
    × (is_base_change_present (adjust_inputs_outputs (coin_with 6 ∷ []) 12 sample_builder).outputs
        ≡ true)
unfolding calculate_missing_base_amount base_total
adjust_inputs_outputs-covers_example =
    adjust_inputs_outputs-covers sample_builder (coin_with 6 ∷ []) 12 3 8 6 refl (omega arith)
      (omega arith) (omega arith)
