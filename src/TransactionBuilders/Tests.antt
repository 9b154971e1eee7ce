-- ===== src/TransactionBuilders/Tests.antt =====
-- A builder with two signers and three inputs.
use fuels_rs.Prelude.{ℕ, ◌+◌, ◌≡◌, refl, arith, none, some, List, [], ◌∷◌, ◌++◌, length, get_elem?}
use fuels_rs.Prelude.BigEndian.{to_be_bytes}
use fuels_rs.Errors.{ok}
use fuels_rs.UnresolvedBytes.{Chunks, inline, dynamic, nil, cons, resolve}
use fuels_rs.Codec.Sample.{sample_external}
use fuels_rs.Inputs.{
  CoinType, coin, message, unspent, Input, resource_signed, resource_predicate, InputRepr, owner_of,
}
use fuels_rs.TransactionBuilders.{
  TransactionBuilder, get_index, with_signer, add_signer, generate_fuel_policies,
}
use fuels_rs.TransactionBuilders.Resolve.{FuelInput, resolve_fuel_inputs}
use fuels_rs.TransactionBuilders.Script.{
  ScriptTx, ScriptTransactionBuilder, Network, set_script_gas_limit_to_gas_used, resolve_fuel_tx,
}
use fuels_rs.TransactionBuilders.DryRun.{DryRun, set_script_gas_limit_to_gas_used-only_gas}
use fuels_rs.TransactionBuilders.Placed.{signed_input, predicate_input}
use fuels_rs.TransactionBuilders.Layout.{data_of, data_start, serialized_sizes}
use fuels_rs.TransactionBuilders.PredicateData.{AreWords, resolve_fuel_inputs-predicate}
use fuels_rs.Codec.Sample.{sample_external-IsLawful}
use fuels_rs.TransactionBuilders.Signers.{Indexed, add_signer-Indexed}
use fuels_rs.TransactionBuilders.Signed.{resolve_fuel_tx-signed}

abbrev sample_repr : InputRepr
sample_repr = record {
  coin_predicate_offset = 100;
  message_data_offset = 120;
  contract_id_offset = 90;
}

abbrev coin_of : ℕ → CoinType
coin_of owner = coin record {
  amount = 5;
  block_created = 0;
  asset_id = 0;
  utxo_id = 1;
  maturity = 0;
  owner = owner;
  status = unspent;
}

abbrev chunks : Chunks
chunks = cons (dynamic (cons (inline (7 ∷ [])) nil)) nil

abbrev sample_inputs : List Input
sample_inputs =
    Input.contract 0 0 0 0 9
    ∷ resource_signed (coin_of 12)
    ∷ resource_predicate (coin_of 13) (1 ∷ 2 ∷ []) chunks
    ∷ []

abbrev no_signers : TransactionBuilder
no_signers = record {
  inputs = sample_inputs;
  outputs = [];
  witnesses = (4 ∷ 4 ∷ []) ∷ [];
  tx_policies = record {
    gas_price = none;
    witness_limit = none;
    maturity = none;
    max_fee = none;
    script_gas_limit = none;
  };
  owner_to_idx_offset = [];
  unresolved_signers = [];
}

no_signers-Indexed : Indexed no_signers
unfolding get_index
no_signers-Indexed = record { owner_at = λ owner index e. cc }

abbrev one_signer : TransactionBuilder
one_signer = with_signer 11 no_signers

abbrev two_signers : TransactionBuilder
two_signers = with_signer 12 one_signer

first_added : add_signer 11 no_signers ≡ ok one_signer
unfolding add_signer
first_added = refl

second_added : add_signer 12 one_signer ≡ ok two_signers
unfolding add_signer
second_added = refl

add_signer-Indexed_example : Indexed one_signer
add_signer-Indexed_example =
    add_signer-Indexed 11 no_signers one_signer no_signers-Indexed first_added

two_signers-Indexed : Indexed two_signers
two_signers-Indexed =
    add_signer-Indexed 12 one_signer two_signers
      (add_signer-Indexed 11 no_signers one_signer no_signers-Indexed first_added) second_added

abbrev sample_network : Network
sample_network = record {
  min_gas_price = ok 1;
  dry_run_and_get_used_gas = λ tx. ok 50;
  max_gas_per_tx = 1000;
  max_gas = λ tx. 10;
  base_offset_script = 400;
  size_dynamic = λ policies. 24;
  default_signature = 0 ∷ [];
  sign = λ signer id. ok (signer ∷ id ∷ []);
  tx_id = λ tx. 77;
}

abbrev sample_script : ScriptTransactionBuilder
sample_script = record { builder = two_signers; script = 1 ∷ []; script_data = [] }

abbrev built_inputs : List FuelInput
built_inputs =
    FuelInput.contract 0 0 0 0 9
    ∷ signed_input (coin_of 12) 2
    ∷ predicate_input (coin_of 13) (1 ∷ 2 ∷ []) (resolve chunks 1330)
    ∷ []

abbrev built : ScriptTx
built = record {
  script_gas_limit = 50;
  script = 1 ∷ [];
  script_data = [];
  policies = generate_fuel_policies sample_external 1 two_signers;
  inputs = built_inputs;
  outputs = [];
  witnesses = (4 ∷ 4 ∷ []) ∷ (11 ∷ 77 ∷ []) ∷ (12 ∷ 77 ∷ []) ∷ [];
}

tx_built : resolve_fuel_tx sample_network sample_external sample_repr 976 sample_script ≡ ok built
unfolding resolve_fuel_tx
tx_built = refl

resolve_fuel_tx-signed_example :
    (index : ℕ) × (signature : List ℕ) × (get_elem? built.inputs
        (length (Input.contract 0 0 0 0 9 ∷ []))
      ≡ some (signed_input (coin_of 12) index))
    × (sample_network.sign (owner_of (coin_of 12)) (sample_network.tx_id built) ≡ ok signature)
    × (get_elem? built.witnesses index ≡ some signature)
resolve_fuel_tx-signed_example =
    resolve_fuel_tx-signed sample_network sample_external sample_repr 976 sample_script
      (Input.contract 0 0 0 0 9 ∷ []) (coin_of 12)
      (resource_predicate (coin_of 13) (1 ∷ 2 ∷ []) chunks ∷ []) built (λ t ws. refl)
      two_signers-Indexed refl tx_built

-- A transaction that spends nothing.
abbrev unspending : ScriptTx
unspending = record built {
  inputs = [];
  policies = record built.policies { witness_limit = some 200 };
}

unspending_limited : set_script_gas_limit_to_gas_used sample_network unspending ≡ ok unspending
unfolding set_script_gas_limit_to_gas_used
unspending_limited = refl

set_script_gas_limit_to_gas_used-only_gas_example :
    (dry : ScriptTx) × (gas : ℕ) × (DryRun sample_network unspending 200 dry)
    × (sample_network.dry_run_and_get_used_gas dry ≡ ok gas)
    × (unspending ≡ record unspending { script_gas_limit = gas })
set_script_gas_limit_to_gas_used-only_gas_example =
    set_script_gas_limit_to_gas_used-only_gas sample_network unspending unspending 200 refl
      (omega arith) unspending_limited

-- A predicate that spends a message with data, and has a word of data, before a signed coin.
abbrev paying : CoinType
paying = message record {
  amount = 5;
  sender = 3;
  recipient = 14;
  nonce = 0;
  payload = 9 ∷ 9 ∷ 9 ∷ [];
  da_height = 0;
  status = unspent;
}

abbrev word_of_data : Chunks
word_of_data = cons (inline (to_be_bytes 8 6)) nil

abbrev two_inputs : List Input
two_inputs = resource_predicate paying (1 ∷ []) word_of_data ∷ resource_signed (coin_of 12) ∷ []

abbrev three_resolved : List FuelInput
three_resolved =
    predicate_input paying (1 ∷ []) (to_be_bytes 8 6)
    ∷ signed_input (coin_of 12) 2
    ∷ predicate_input (coin_of 13) (1 ∷ 2 ∷ []) (resolve chunks 1352)
    ∷ []

inputs_resolved :
    resolve_fuel_inputs sample_external sample_repr
      (two_inputs ++ (resource_predicate (coin_of 13) (1 ∷ 2 ∷ []) chunks ∷ []))
      1000
      1
      two_signers.owner_to_idx_offset
    ≡ ok three_resolved
unfolding resolve_fuel_inputs to_be_bytes resolve
inputs_resolved = refl

resolve_fuel_inputs-predicate_example :
    (earlier : List FuelInput) × (own : FuelInput) × (later : List FuelInput) × (three_resolved
      ≡ earlier ++ (own ∷ later))
    × (length earlier ≡ length two_inputs)
    × (own ≡ predicate_input (coin_of 13) (1 ∷ 2 ∷ []) (data_of own))
    × (data_of own
        ≡ resolve chunks (
            1000
            + serialized_sizes sample_external sample_repr earlier
            + data_start sample_external sample_repr own))
unfolding AreWords to_be_bytes resolve
resolve_fuel_inputs-predicate_example =
    resolve_fuel_inputs-predicate sample_external sample_repr sample_external-IsLawful two_inputs
      (coin_of 13) (1 ∷ 2 ∷ []) chunks [] 1000 1 two_signers.owner_to_idx_offset three_resolved
      (refl, tt) inputs_resolved
