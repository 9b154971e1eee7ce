-- ===== src/TransactionBuilders/Script.antt =====
-- fuels-core/src/types/transaction_builders.rs: the script transaction that `ScriptTransactionBuilder`
-- builds. The network's answers and what fuel_tx computes are parameters.
use fuels_rs.Prelude.{
  ℕ, ◌+◌, ◌-◌, ◌%◌, ◌^◌, if◌then◌else◌, Bool, true, false, Option, none, some, List, [], ◌∷◌, ◌++◌,
  length,
}
use fuels_rs.Errors.{Result, ok, ◌>>=◌}
use fuels_rs.Utils.{witness_static_size}
use fuels_rs.UnresolvedBytes.{add_u64}
use fuels_rs.Tokens.{External}
use fuels_rs.Inputs.{unspent, is_empty, InputRepr}
use fuels_rs.Transaction.{Output}
use fuels_rs.TransactionBuilders.{
  TxPolicies, TransactionBuilder, is_using_predicates, num_witnesses, generate_fuel_policies,
  create_dry_run_witnesses, generate_missing_witnesses,
}
use fuels_rs.TransactionBuilders.Resolve.{
  FuelInput, coin_signed, message_coin_signed, coin_predicate, message_coin_predicate,
  resolve_fuel_inputs,
}

-- The script transaction of fuel_tx.
pub record ScriptTx : Type 0 where
  pub script_gas_limit : ℕ
  pub script : List ℕ
  pub script_data : List ℕ
  pub policies : TxPolicies
  pub inputs : List FuelInput
  pub outputs : List Output
  pub witnesses : List (List ℕ)

pub record ScriptTransactionBuilder : Type 0 where
  pub builder : TransactionBuilder
  pub script : List ℕ
  pub script_data : List ℕ

-- The provider with its consensus parameters, the signers by their addresses, and fuel_tx.
pub record Network : Type 0 where
  pub min_gas_price : Result ℕ
  pub dry_run_and_get_used_gas : ScriptTx → Result ℕ
  pub max_gas_per_tx : ℕ
  pub max_gas : ScriptTx → ℕ
  pub base_offset_script : ℕ
  pub size_dynamic : TxPolicies → ℕ
  pub default_signature : List ℕ
  pub sign : ℕ → ℕ → Result (List ℕ)
  pub tx_id : ScriptTx → ℕ

abbrev is_spendable : FuelInput → Bool
is_spendable (coin_signed c index) = true
is_spendable (coin_predicate c code predicate_data) = true
is_spendable (message_coin_signed m index) = true
is_spendable (message_coin_predicate m code predicate_data) = true
is_spendable _ = false

unfoldable pub no_spendable_input : List FuelInput → Bool
no_spendable_input [] = true
no_spendable_input (input ∷ inputs) =
    if is_spendable input then false else no_spendable_input inputs

-- u64 subtraction.
abbrev pub sub_u64 : ℕ → ℕ → ℕ
sub_u64 a b = (a + 2 ^ 64 - b) % 2 ^ 64

abbrev pub map_limit : (ℕ → ℕ) → Option ℕ → Option ℕ
map_limit f none = none
map_limit f (some limit) = some (f limit)

-- The policies always have a witness limit here.
abbrev pub change_witness_limit : (ℕ → ℕ) → TxPolicies → TxPolicies
change_witness_limit f policies = record policies {
  witness_limit = map_limit f policies.witness_limit;
}

unfoldable pub pop {ℓ} : {A : Type ℓ} → List A → List A
pop [] = []
pop (x ∷ []) = []
pop (x ∷ y ∷ ys) = x ∷ pop (y ∷ ys)

-- `FuelInput::coin_signed` of defaults with a large amount.
abbrev pub dry_run_input : FuelInput
dry_run_input =
    coin_signed
      record {
        amount = 1000000000;
        block_created = 0;
        asset_id = 0;
        utxo_id = 0;
        maturity = 0;
        owner = 0;
        status = unspent;
      }
      0

abbrev pub with_dry_run_input : ScriptTx → ScriptTx
with_dry_run_input tx = record tx {
  inputs = tx.inputs ++ (dry_run_input ∷ []);
  witnesses = tx.witnesses ++ ([] ∷ []);
  policies = change_witness_limit (λ limit. add_u64 limit witness_static_size) tx.policies;
}

abbrev pub without_dry_run_input : ScriptTx → ScriptTx
without_dry_run_input tx = record tx {
  inputs = pop tx.inputs;
  witnesses = pop tx.witnesses;
  policies = change_witness_limit (λ limit. sub_u64 limit witness_static_size) tx.policies;
}

-- Only a transaction that spends nothing gets the input for the dry run.
unfoldable pub extend_for_dry_run : Bool → ScriptTx → ScriptTx
extend_for_dry_run true tx = with_dry_run_input tx
extend_for_dry_run false tx = tx

unfoldable pub restore_after_dry_run : Bool → ScriptTx → ScriptTx
unfolding pop
restore_after_dry_run true tx = without_dry_run_input tx
restore_after_dry_run false tx = tx

module _ (network : Network) where
  -- With the largest gas limit that the rest of the transaction leaves.
  abbrev pub with_free_gas : ScriptTx → ScriptTx
  with_free_gas tx = record tx {
    script_gas_limit = sub_u64 network.max_gas_per_tx (add_u64 (network.max_gas tx) 1);
  }

  unfoldable pub dry_run_script : Bool → ScriptTx → Result ScriptTx
  unfolding extend_for_dry_run restore_after_dry_run
  dry_run_script no_spendable tx =
      let extended = with_free_gas (extend_for_dry_run no_spendable tx) in
      do
        gas_used ← network.dry_run_and_get_used_gas extended
        ok (record (restore_after_dry_run no_spendable extended) { script_gas_limit = gas_used })

  unfoldable pub set_script_gas_limit_to_gas_used : ScriptTx → Result ScriptTx
  unfolding no_spendable_input dry_run_script
  set_script_gas_limit_to_gas_used tx = dry_run_script (no_spendable_input tx.inputs) tx

  -- The gas limit of a script: none is needed without code, and the user's stands if there is one.
  unfoldable pub limit_script_gas : Option ℕ → ScriptTx → Result ScriptTx
  unfolding set_script_gas_limit_to_gas_used
  limit_script_gas user_limit tx =
      if is_empty tx.script then ok (record tx { script_gas_limit = 0 }) else elim user_limit [
        | some gas_limit ↦ ok (record tx { script_gas_limit = gas_limit })
        | none ↦ set_script_gas_limit_to_gas_used tx
      ]

  module _ (x : External) (repr : InputRepr) where
    unfoldable pub resolve_fuel_tx : ℕ → ScriptTransactionBuilder → Result ScriptTx
    unfolding num_witnesses generate_fuel_policies create_dry_run_witnesses resolve_fuel_inputs
        limit_script_gas generate_missing_witnesses
    resolve_fuel_tx base_offset tb =
        let b = tb.builder in
        do
          num ← num_witnesses b
          network_min_gas_price ← network.min_gas_price
          inputs ←
              resolve_fuel_inputs x repr b.inputs
                (base_offset
                  + network.size_dynamic (generate_fuel_policies x network_min_gas_price b))
                num b.owner_to_idx_offset
          tx ← limit_script_gas b.tx_policies.script_gas_limit (record {
            script_gas_limit = 0;
            script = tb.script;
            script_data = tb.script_data;
            policies = generate_fuel_policies x network_min_gas_price b;
            inputs = inputs;
            outputs = b.outputs;
            witnesses = create_dry_run_witnesses network.default_signature num b;
          })
          missing_witnesses ←
              generate_missing_witnesses network.sign (network.tx_id tx) b.unresolved_signers
          ok (record tx { witnesses = b.witnesses ++ missing_witnesses })

    -- `ScriptTransactionBuilder::base_offset` and `build`
    abbrev pub base_offset : ScriptTransactionBuilder → ℕ
    base_offset tb =
        network.base_offset_script
        + x.padded_len (length tb.script_data)
        + x.padded_len (length tb.script)

    unfoldable pub build : ScriptTransactionBuilder → Result (ScriptTx × Bool)
    unfolding resolve_fuel_tx is_using_predicates
    build tb =
        let using_predicates = is_using_predicates tb.builder.inputs in
        do
          tx ← resolve_fuel_tx (if using_predicates then base_offset tb else 0) tb
          ok (tx, using_predicates)
