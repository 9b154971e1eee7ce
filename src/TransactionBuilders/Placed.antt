-- ===== src/TransactionBuilders/Placed.antt =====
-- fuels-core/src/types/transaction_builders.rs: with which offset each input is resolved.
use fuels_rs.Prelude.{
  ℕ, ◌+◌, ◌≡◌, refl, ap, ◌∙◌, arith, Option-cases, inl, inr, some, List, [], ◌∷◌, ◌++◌, length,
  get_elem?,
}
use fuels_rs.Errors.{ok, >>=-eq-ok}
use fuels_rs.UnresolvedBytes.{Chunks, resolve, amount_of_inline_bytes}
use fuels_rs.UnresolvedBytes.Resolve.{heap_size, length-resolve}
use fuels_rs.Tokens.{External}
use fuels_rs.Inputs.{
  CoinType, coin, message, owner_of, Input, resource_signed, resource_predicate, InputRepr,
  coin_predicate_data_offset, message_predicate_data_offset, coin_signed_data_offset,
  message_signed_data_offset, contract_input_offset,
}
use fuels_rs.TransactionBuilders.{WitnessIndexes, get_index}
use fuels_rs.TransactionBuilders.Resolve.{
  FuelInput, coin_predicate, create_coin_message_predicate, coin_signed, create_coin_message_input,
  witness_index, resolve_signed_resource, resolve_predicate_resource, resolve_fuel_input,
  resolve_fuel_inputs,
}

-- A signed input with the index of its witness, and a predicate's input with its data.
abbrev pub signed_input : CoinType → ℕ → FuelInput
signed_input (coin c) index = coin_signed c index
signed_input (message m) index = create_coin_message_input m index

abbrev pub predicate_input : CoinType → List ℕ → List ℕ → FuelInput
predicate_input (coin c) code predicate_data = coin_predicate c code predicate_data
predicate_input (message m) code predicate_data =
    create_coin_message_predicate m code predicate_data

module _ (x : External) (repr : InputRepr) where
  -- By how much a predicate moves the offset before its data is resolved.
  abbrev pub predicate_data_offset : CoinType → List ℕ → ℕ
  predicate_data_offset (coin c) code = coin_predicate_data_offset x repr (length code)
  predicate_data_offset (message m) code =
      message_predicate_data_offset x repr (length m.payload) (length code)

  abbrev pub signed_size : CoinType → ℕ
  signed_size (coin c) = coin_signed_data_offset x repr
  signed_size (message m) = message_signed_data_offset x repr (length m.payload)

  -- By how much resolving an input moves the offset, and resolving inputs in a row.
  unfoldable pub input_size : Input → ℕ
  input_size (resource_signed resource) = signed_size resource
  input_size (resource_predicate resource code predicate_data) =
      predicate_data_offset resource code
      + (amount_of_inline_bytes predicate_data + heap_size predicate_data)
  input_size (Input.contract utxo balance state pointer id) = contract_input_offset x repr

  unfoldable pub inputs_size : List Input → ℕ
  inputs_size [] = 0
  inputs_size (input ∷ inputs) = input_size input + inputs_size inputs

  pub signed-cases :
      (resource : CoinType) (offset num : ℕ) (indexes : WitnessIndexes) (result : FuelInput × ℕ)
      → resolve_signed_resource x repr resource offset num indexes ≡ ok result
      → (index : ℕ) × (get_index (owner_of resource) indexes ≡ some index)
        × (result
            ≡ (signed_input resource (witness_index num index), offset + signed_size resource))
  unfolding resolve_signed_resource
  signed-cases (coin c) offset num indexes result e =
      elim (Option-cases (get_index c.owner indexes)) [
        | inl n ↦ cc (rw (resolve_signed_resource, n) at e)
        | inr (i, s) ↦ let e' = rw (resolve_signed_resource, s) at e in (i, s, cc)
      ]
  signed-cases (message m) offset num indexes result e =
      elim (Option-cases (get_index m.recipient indexes)) [
        | inl n ↦ cc (rw (resolve_signed_resource, n) at e)
        | inr (i, s) ↦ let e' = rw (resolve_signed_resource, s) at e in (i, s, cc)
      ]

  pub predicate-eq :
      (resource : CoinType) (code : List ℕ) (predicate_data : Chunks) (offset : ℕ)
      → resolve_predicate_resource x repr resource code predicate_data offset ≡ (
        predicate_input resource code
            (resolve predicate_data (offset + predicate_data_offset resource code)),
        offset
            + predicate_data_offset resource code
            + length (resolve predicate_data (offset + predicate_data_offset resource code)),
      )
  unfolding resolve_predicate_resource
  predicate-eq (coin c) code predicate_data offset = refl
  predicate-eq (message m) code predicate_data offset = refl

  pub input-size :
      (input : Input) (offset num : ℕ) (indexes : WitnessIndexes) (result : FuelInput × ℕ)
      → resolve_fuel_input x repr input offset num indexes ≡ ok result
      → result.1 ≡ offset + input_size input
  unfolding resolve_fuel_input input_size
  input-size (resource_signed resource) offset num indexes result e =
      let (_, _, same) = signed-cases resource offset num indexes result e in ap (λ r. r.1) same
  input-size (resource_predicate resource code predicate_data) offset num indexes result e =
      let same : result ≡ resolve_predicate_resource x repr resource code predicate_data offset =
        cc in
      omega (
        arith,
        ap (λ r. r.1) (same ∙ predicate-eq resource code predicate_data offset),
        length-resolve predicate_data (offset + predicate_data_offset resource code),
      )
  input-size (Input.contract utxo balance state pointer id) offset num indexes result e =
      let same : result ≡ (
        FuelInput.contract utxo balance state pointer id,
        offset + contract_input_offset x repr,
      ) =
        cc in
      ap (λ r. r.1) same

  -- Where each input is resolved.
  pub inputs-place :
      (before : List Input) (input : Input) (after : List Input) (offset num : ℕ)
      (indexes : WitnessIndexes) {resolved : List FuelInput}
      → resolve_fuel_inputs x repr (before ++ (input ∷ after)) offset num indexes ≡ ok resolved
      → (result : FuelInput × ℕ) × (resolve_fuel_input x repr input
            (offset + inputs_size before)
            num
            indexes
          ≡ ok result)
        × (get_elem? resolved (length before) ≡ some result.0)
  unfolding resolve_fuel_inputs inputs_size
  inputs-place [] input after offset num indexes {resolved} e =
      let (result, found, e1) =
        >>=-eq-ok (resolve_fuel_input x repr input offset num indexes) _ e in
      let (later, _, e2) = >>=-eq-ok (resolve_fuel_inputs x repr after result.1 num indexes) _ e1 in
      let same : resolved ≡ result.0 ∷ later = cc in
      (
        result,
        ap (λ o. resolve_fuel_input x repr input o num indexes) (omega arith) ∙ found,
        ap (λ r. get_elem? r 0) same,
      )
  inputs-place (first ∷ before) input after offset num indexes {resolved} e =
      let (r, found, e1) = >>=-eq-ok (resolve_fuel_input x repr first offset num indexes) _ e in
      let (later, rest, e2) =
        >>=-eq-ok (resolve_fuel_inputs x repr (before ++ (input ∷ after)) r.1 num indexes) _ e1 in
      let same : resolved ≡ r.0 ∷ later = cc in
      let (result, found', place) = inputs-place before input after r.1 num indexes rest in
      (
        result,
        ap (λ o. resolve_fuel_input x repr input o num indexes)
              (omega (arith, input-size first offset num indexes r found))
            ∙ found',
        ap (λ r. get_elem? r (length (first ∷ before))) same ∙ place,
      )
