-- ===== src/TransactionBuilders/Resolve.antt =====
-- fuels-core/src/types/transaction_builders.rs: `resolve_fuel_inputs`, which gives signed inputs the
-- index of their witness and predicates their data.
use fuels_rs.Prelude.{ℕ, ◌+◌, ◌%◌, if◌then◌else◌, none, some, List, [], ◌∷◌, length}
use fuels_rs.Errors.{
  Result, ok, err, ◌>>=◌, builder, signature_missing_for_coin, signature_missing_for_message,
}
use fuels_rs.UnresolvedBytes.{Chunks, resolve}
use fuels_rs.Tokens.{External}
use fuels_rs.Inputs.{
  Coin, Message, CoinType, coin, message, Input, resource_signed, resource_predicate, is_empty,
  InputRepr, coin_predicate_data_offset, message_predicate_data_offset, coin_signed_data_offset,
  message_signed_data_offset, contract_input_offset,
}
use fuels_rs.TransactionBuilders.{WitnessIndexes, get_index, num_witnesses}

-- The inputs of fuel_tx, with the resource that they spend, and the fields that are not constants.
pub data FuelInput : Type 0 where
  coin_signed : Coin → ℕ → FuelInput
  message_coin_signed message_data_signed : Message → ℕ → FuelInput
  coin_predicate : Coin → List ℕ → List ℕ → FuelInput
  message_coin_predicate message_data_predicate : Message → List ℕ → List ℕ → FuelInput
  contract : ℕ → ℕ → ℕ → ℕ → ℕ → FuelInput

abbrev pub create_coin_message_input : Message → ℕ → FuelInput
create_coin_message_input m witness_index =
    if is_empty m.payload
    then message_coin_signed m witness_index
    else message_data_signed m witness_index

abbrev pub create_coin_message_predicate : Message → List ℕ → List ℕ → FuelInput
create_coin_message_predicate m code predicate_data =
    if is_empty m.payload
    then message_coin_predicate m code predicate_data
    else message_data_predicate m code predicate_data

-- The sum of two u8, the second of which is converted from u64.
abbrev pub witness_index : ℕ → ℕ → ℕ
witness_index num_witnesses index = (num_witnesses + index % 256) % 256

module _ (x : External) (repr : InputRepr) where
  unfoldable pub resolve_signed_resource :
      CoinType → ℕ → ℕ → WitnessIndexes → Result (FuelInput × ℕ)
  unfolding get_index
  resolve_signed_resource (coin c) data_offset num indexes = elim (get_index c.owner indexes) [
    | none ↦ err (builder signature_missing_for_coin)
    | some index ↦
        ok (coin_signed c (witness_index num index), data_offset + coin_signed_data_offset x repr)
  ]
  resolve_signed_resource (message m) data_offset num indexes =
      elim (get_index m.recipient indexes) [
        | none ↦ err (builder signature_missing_for_message)
        | some index ↦ ok (
          create_coin_message_input m (witness_index num index),
          data_offset + message_signed_data_offset x repr (length m.payload),
        )
      ]

  unfoldable pub resolve_predicate_resource : CoinType → List ℕ → Chunks → ℕ → FuelInput × ℕ
  resolve_predicate_resource (coin c) code predicate_data data_offset =
      let at = data_offset + coin_predicate_data_offset x repr (length code) in
      let resolved = resolve predicate_data at in
      (coin_predicate c code resolved, at + length resolved)
  resolve_predicate_resource (message m) code predicate_data data_offset =
      let at =
        data_offset + message_predicate_data_offset x repr (length m.payload) (length code) in
      let resolved = resolve predicate_data at in
      (create_coin_message_predicate m code resolved, at + length resolved)

  unfoldable pub resolve_fuel_input : Input → ℕ → ℕ → WitnessIndexes → Result (FuelInput × ℕ)
  unfolding resolve_signed_resource resolve_predicate_resource
  resolve_fuel_input (resource_signed resource) data_offset num indexes =
      resolve_signed_resource resource data_offset num indexes
  resolve_fuel_input (resource_predicate resource code predicate_data) data_offset num indexes =
      ok (resolve_predicate_resource resource code predicate_data data_offset)
  resolve_fuel_input (Input.contract utxo balance state pointer id) data_offset num indexes =
      ok (
        FuelInput.contract utxo balance state pointer id,
        data_offset + contract_input_offset x repr,
      )

  unfoldable pub resolve_fuel_inputs : List Input → ℕ → ℕ → WitnessIndexes → Result (List FuelInput)
  unfolding resolve_fuel_input
  resolve_fuel_inputs [] data_offset num indexes = ok []
  resolve_fuel_inputs (input ∷ inputs) data_offset num indexes = do
    (resolved, next) ← resolve_fuel_input input data_offset num indexes
    later ← resolve_fuel_inputs inputs next num indexes
    ok (resolved ∷ later)
