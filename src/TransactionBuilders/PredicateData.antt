-- ===== src/TransactionBuilders/PredicateData.antt =====
-- fuels-core/src/types/transaction_builders.rs: for which address the data of each predicate is
-- resolved.
use fuels_rs.Prelude.{ℕ, suc, ◌+◌, ◌%◌, ◌≡◌, refl, ap, ◌∙◌, sym, arith, List, [], ◌∷◌, ◌++◌, length}
use fuels_rs.Errors.{ok, >>=-eq-ok}
use fuels_rs.UnresolvedBytes.{Chunks, resolve}
use fuels_rs.UnresolvedBytes.Resolve.{length-resolve}
use fuels_rs.Tokens.{External, IsLawful}
use fuels_rs.Inputs.{CoinType, Input, resource_signed, resource_predicate, InputRepr}
use fuels_rs.TransactionBuilders.{WitnessIndexes}
use fuels_rs.TransactionBuilders.Resolve.{
  FuelInput, contract, witness_index, resolve_predicate_resource, resolve_fuel_input,
  resolve_fuel_inputs,
}
use fuels_rs.TransactionBuilders.Placed.{
  predicate_input, predicate_data_offset, input_size, signed-cases, predicate-eq, input-size,
}
use fuels_rs.TransactionBuilders.Layout.{
  payload_of, code_of, data_of, fixed_size, data_start, serialized_size, serialized_sizes,
  padded-zero, padded-words, signed-size, data-start, data-own,
}

-- The data of every predicate among the inputs is a number of words.
unfoldable pub AreWords : List Input → Type 0
AreWords [] = Unit {0}
AreWords (resource_predicate resource code predicate_data ∷ inputs) =
    (length (resolve predicate_data 0) % 8 ≡ 0) × AreWords inputs
AreWords (input ∷ inputs) = AreWords inputs

module _ (x : External) (repr : InputRepr) (lawful : IsLawful x) where
  -- What an input adds to the offset is its serialized size.
  input-serialized :
      (input : Input) (offset num : ℕ) (indexes : WitnessIndexes) (result : FuelInput × ℕ)
      → AreWords (input ∷ [])
      → resolve_fuel_input x repr input offset num indexes ≡ ok result
      → serialized_size x repr result.0 ≡ input_size x repr input
  unfolding resolve_fuel_input input_size AreWords fixed_size payload_of code_of data_of
  input-serialized (resource_signed resource) offset num indexes result words e =
      let (index, _, same) = signed-cases x repr resource offset num indexes result e in
      ap (λ r. serialized_size x repr r.0) same
      ∙ signed-size x repr lawful resource (witness_index num index)
  input-serialized (resource_predicate resource code predicate_data) offset num indexes result words
        e =
      let at = offset + predicate_data_offset x repr resource code in
      let filled = resolve predicate_data at in
      let same : result ≡ resolve_predicate_resource x repr resource code predicate_data offset =
        cc in
      let own : result.0 ≡ predicate_input resource code filled =
        ap (λ r. r.0) (same ∙ predicate-eq x repr resource code predicate_data offset) in
      rw own (
        rw (data-own x repr lawful resource code filled) (
          omega (
            arith,
            data-start x repr lawful resource code filled,
            words.0,
            length-resolve predicate_data at,
            length-resolve predicate_data 0,
            padded-words x repr lawful (length filled) (
                omega (
                  arith,
                  words.0,
                  length-resolve predicate_data at,
                  length-resolve predicate_data 0,
                )),
          )))
  input-serialized (Input.contract utxo balance state pointer id) offset num indexes result words
        e =
      let own : result.0 ≡ contract utxo balance state pointer id = cc in
      rw own (omega (arith, padded-zero x repr lawful))

  AreWords-parts :
      (input : Input) (inputs : List Input)
      → AreWords (input ∷ inputs)
      → AreWords (input ∷ []) × AreWords inputs
  unfolding AreWords
  AreWords-parts (resource_signed resource) inputs words = (tt, words)
  AreWords-parts (resource_predicate resource code predicate_data) inputs words =
      ((words.0, tt), words.1)
  AreWords-parts (Input.contract utxo balance state pointer id) inputs words = (tt, words)

  -- The input at a place is resolved with the offset behind the serialized inputs before it.
  inputs-split :
      (before : List Input) (input : Input) (after : List Input) (offset num : ℕ)
      (indexes : WitnessIndexes) (resolved : List FuelInput)
      → AreWords before
      → resolve_fuel_inputs x repr (before ++ (input ∷ after)) offset num indexes ≡ ok resolved
      → (earlier : List FuelInput) × (own : FuelInput × ℕ) × (later : List FuelInput) × (resolved
          ≡ earlier ++ (own.0 ∷ later))
        × (length earlier ≡ length before)
        × (resolve_fuel_input x repr input (offset + serialized_sizes x repr earlier) num indexes
            ≡ ok own)
  unfolding resolve_fuel_inputs serialized_sizes
  inputs-split [] input after offset num indexes resolved words e =
      let (own, found, e1) = >>=-eq-ok (resolve_fuel_input x repr input offset num indexes) _ e in
      let (later, _, e2) = >>=-eq-ok (resolve_fuel_inputs x repr after own.1 num indexes) _ e1 in
      (
        [],
        own,
        later,
        cc,
        refl,
        ap (λ o. resolve_fuel_input x repr input o num indexes) (omega arith) ∙ found,
      )
  inputs-split (first ∷ before) input after offset num indexes resolved words e =
      let (words_first, words_before) = AreWords-parts first before words in
      let (r, found, e1) = >>=-eq-ok (resolve_fuel_input x repr first offset num indexes) _ e in
      let (rest, made, e2) =
        >>=-eq-ok (resolve_fuel_inputs x repr (before ++ (input ∷ after)) r.1 num indexes) _ e1 in
      let (earlier, own, later, joined, lengths, found_own) =
        inputs-split before input after r.1 num indexes rest words_before made in
      let same : resolved ≡ r.0 ∷ rest = cc in
      (
        r.0 ∷ earlier,
        own,
        later,
        same ∙ ap (λ l. r.0 ∷ l) joined,
        ap suc lengths,
        ap (λ o. resolve_fuel_input x repr input o num indexes)
              (omega (
                arith,
                input-size x repr first offset num indexes r found,
                input-serialized first offset num indexes r words_first found,
              ))
            ∙ found_own,
      )

  -- If `resolve_fuel_inputs` succeeds and the data of every predicate before is a number of words,
  -- a predicate's input stands at its place with its code, and its data is resolved for the
  -- address at which it stands: behind the serialized inputs before it and, within its own input,
  -- behind the fixed fields, the data of the message and the code, each padded to words.
  pub resolve_fuel_inputs-predicate :
      (before : List Input) (resource : CoinType) (code : List ℕ) (predicate_data : Chunks)
      (after : List Input) (offset num : ℕ) (indexes : WitnessIndexes) (resolved : List FuelInput)
      → AreWords before
      → resolve_fuel_inputs x repr
          (before ++ (resource_predicate resource code predicate_data ∷ after))
          offset
          num
          indexes
        ≡ ok resolved
      → (earlier : List FuelInput) × (own : FuelInput) × (later : List FuelInput) × (resolved
          ≡ earlier ++ (own ∷ later))
        × (length earlier ≡ length before)
        × (own ≡ predicate_input resource code (data_of own))
        × (data_of own
            ≡ resolve predicate_data
                (offset + serialized_sizes x repr earlier + data_start x repr own))
  unfolding resolve_fuel_input
  resolve_fuel_inputs-predicate before resource code predicate_data after offset num indexes
        resolved words e =
      let (earlier, result, later, joined, lengths, found) =
        inputs-split before (resource_predicate resource code predicate_data) after offset num
          indexes resolved words e in
      let at = offset + serialized_sizes x repr earlier in
      let filled = resolve predicate_data (at + predicate_data_offset x repr resource code) in
      let same : result ≡ resolve_predicate_resource x repr resource code predicate_data at = cc in
      let own : result.0 ≡ predicate_input resource code filled =
        ap (λ r. r.0) (same ∙ predicate-eq x repr resource code predicate_data at) in
      let read : data_of result.0 ≡ filled =
        ap data_of own ∙ data-own x repr lawful resource code filled in
      (
        earlier,
        result.0,
        later,
        joined,
        lengths,
        own ∙ ap (predicate_input resource code) (sym read),
        read
            ∙ ap (λ start. resolve predicate_data (at + start))
                (sym (ap (data_start x repr) own ∙ data-start x repr lawful resource code filled)),
      )
