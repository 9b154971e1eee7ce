-- ===== src/Programs/ScriptData/Placed.antt =====
-- fuels-programs/src/call_utils.rs: where the parameters of each call stand in the script data of
-- `build_script_data_from_contract_calls`.
use fuels_rs.Prelude.{
  ℕ, ◌+◌, ◌≡◌, refl, ap, ◌∙◌, arith, Option, none, some, Option-cases, inl, inr, List, [], ◌∷◌,
  ◌++◌, length, get_elem?, length-append, append_assoc,
}
use mathlib.Core.Option.{map}
use fuels_rs.Prelude.BigEndian.{to_be_bytes, length-to_be_bytes}
use fuels_rs.Errors.{ok}
use fuels_rs.Programs.ContractCall.{ContractCall}
use fuels_rs.Programs.ScriptData.{
  CallOpcodeParamsOffset, gas_bytes, gas_size, gas_offset, call_parameter_bytes, call_param_offsets,
  custom_input_bytes, build_script_data_from_contract_calls,
}
use fuels_rs.Programs.ScriptData.Loop.{load, load-eq, loop-places}

pub length-gas_bytes : (gas : Option ℕ) → length (gas_bytes gas) ≡ gas_size gas
length-gas_bytes none = refl
length-gas_bytes (some gas) = length-to_be_bytes 8 gas

-- What the machine finds at the offsets of a call.
pub record Parameters (script_data : List ℕ) (data_offset : ℕ) (call : ContractCall)
    (offsets : CallOpcodeParamsOffset) : Type 0 where
  pub amount :
      load script_data data_offset offsets.amount_offset 8
      ≡ to_be_bytes 8 call.call_parameters.amount
  pub asset_id :
      load script_data data_offset offsets.asset_id_offset 32
      ≡ to_be_bytes 32 call.call_parameters.asset_id
  pub gas_forwarded :
      map (λ address. load script_data data_offset address 8) offsets.gas_forwarded_offset
      ≡ map (to_be_bytes 8) call.call_parameters.gas_forwarded
  pub contract_id :
      load script_data data_offset offsets.call_data_offset 32 ≡ to_be_bytes 32 call.contract_id
  pub selector :
      load script_data data_offset (offsets.call_data_offset + 32) (length call.encoded_selector)
      ≡ call.encoded_selector

module _ (front : List ℕ) (amount asset_id : ℕ) (gas : Option ℕ) (contract_id : ℕ)
    (selector tail : List ℕ) (script_data : List ℕ) (data_offset : ℕ)
    (split : script_data
      ≡ front
        ++ ((to_be_bytes 8 amount
              ++ (to_be_bytes 32 asset_id
                  ++ (gas_bytes gas ++ (to_be_bytes 32 contract_id ++ selector))))
            ++ tail)) where
  before_gas : List ℕ
  before_gas = front ++ (to_be_bytes 8 amount ++ to_be_bytes 32 asset_id)

  segment-amount :
      load script_data data_offset (data_offset + length front) 8 ≡ to_be_bytes 8 amount
  segment-amount =
      load-eq script_data front (to_be_bytes 8 amount)
        (((to_be_bytes 32 asset_id ++ (gas_bytes gas ++ (to_be_bytes 32 contract_id ++ selector))))
          ++ tail)
        data_offset (data_offset + length front) 8 (split ∙ simp append_assoc refl) refl
        (length-to_be_bytes 8 amount)

  segment-asset_id :
      load script_data data_offset (data_offset + length front + 8) 32 ≡ to_be_bytes 32 asset_id
  segment-asset_id =
      load-eq script_data (front ++ to_be_bytes 8 amount) (to_be_bytes 32 asset_id)
        ((gas_bytes gas ++ (to_be_bytes 32 contract_id ++ selector)) ++ tail) data_offset
        (data_offset + length front + 8) 32 (split ∙ simp append_assoc refl)
        (omega (arith, length-append front (to_be_bytes 8 amount), length-to_be_bytes 8 amount))
        (length-to_be_bytes 32 asset_id)

  length-before_gas : length before_gas ≡ length front + 40
  unfolding before_gas
  length-before_gas = omega (
    arith,
    length-append front (to_be_bytes 8 amount ++ to_be_bytes 32 asset_id),
    length-append (to_be_bytes 8 amount) (to_be_bytes 32 asset_id),
    length-to_be_bytes 8 amount,
    length-to_be_bytes 32 asset_id,
  )

  segment-gas :
      map
        (λ address. load script_data data_offset address 8)
        (gas_offset gas (data_offset + length front))
      ≡ map (to_be_bytes 8) gas
  unfolding before_gas
  segment-gas = elim (Option-cases gas) [
    | inl n ↦ rw n refl
    | inr (g, s) ↦
        let split' = rw s at split in
        rw s (
          ap some (
            load-eq script_data before_gas (to_be_bytes 8 g)
              ((to_be_bytes 32 contract_id ++ selector) ++ tail) data_offset
              (data_offset + length front + 8 + 32) 8 (split' ∙ simp append_assoc refl)
              (omega (arith, length-before_gas)) (length-to_be_bytes 8 g)))
  ]

  segment-contract_id :
      load script_data data_offset (data_offset + length front + 8 + 32 + gas_size gas) 32
      ≡ to_be_bytes 32 contract_id
  unfolding before_gas
  segment-contract_id =
      load-eq script_data (before_gas ++ gas_bytes gas) (to_be_bytes 32 contract_id)
        (selector ++ tail) data_offset (data_offset + length front + 8 + 32 + gas_size gas) 32
        (split ∙ simp append_assoc refl)
        (omega (
          arith,
          length-before_gas,
          length-append before_gas (gas_bytes gas),
          length-gas_bytes gas,
        ))
        (length-to_be_bytes 32 contract_id)

  segment-selector :
      load script_data data_offset
        (data_offset + length front + 8 + 32 + gas_size gas + 32)
        (length selector)
      ≡ selector
  unfolding before_gas
  segment-selector =
      let pre = before_gas ++ gas_bytes gas in
      load-eq script_data (pre ++ to_be_bytes 32 contract_id) selector tail data_offset
        (data_offset + length front + 8 + 32 + gas_size gas + 32) (length selector)
        (split ∙ simp append_assoc refl)
        (omega (
          arith,
          length-before_gas,
          length-append before_gas (gas_bytes gas),
          length-gas_bytes gas,
          length-append pre (to_be_bytes 32 contract_id),
          length-to_be_bytes 32 contract_id,
        ))
        refl

segment-Parameters :
    (call : ContractCall) (front tail script_data : List ℕ) (data_offset : ℕ)
    → script_data ≡ front ++ (call_parameter_bytes call ++ tail)
    → Parameters script_data data_offset call (call_param_offsets call (data_offset + length front))
unfolding call_parameter_bytes call_param_offsets
segment-Parameters call front tail script_data data_offset split =
    let a = call.call_parameters.amount in
    let s = call.call_parameters.asset_id in
    let g = call.call_parameters.gas_forwarded in
    let c = call.contract_id in
    let f = call.encoded_selector in
    record {
      amount = segment-amount front a s g c f tail script_data data_offset split;
      asset_id = segment-asset_id front a s g c f tail script_data data_offset split;
      gas_forwarded = segment-gas front a s g c f tail script_data data_offset split;
      contract_id = segment-contract_id front a s g c f tail script_data data_offset split;
      selector = segment-selector front a s g c f tail script_data data_offset split;
    }

-- If `build_script_data_from_contract_calls` succeeds, the offsets that it gives for each call point
-- at that call's amount, asset, forwarded gas (if there is any), contract and selector, wherever
-- the script data is loaded.
pub build-Parameters :
    (before : List ContractCall) (call : ContractCall) (after : List ContractCall) (data_offset : ℕ)
    (script_data : List ℕ) (offsets : List CallOpcodeParamsOffset)
    → build_script_data_from_contract_calls (before ++ (call ∷ after)) data_offset
      ≡ ok (script_data, offsets)
    → (o : CallOpcodeParamsOffset) × (get_elem? offsets (length before) ≡ some o)
      × Parameters script_data data_offset call o
unfolding build_script_data_from_contract_calls
build-Parameters before call after data_offset script_data offsets e =
    let (front, args, back, split, _, place) = loop-places before call after data_offset [] [] e in
    let seg = data_offset + length front in
    (
      call_param_offsets call seg,
      ap (λ n. get_elem? offsets n) (omega arith) ∙ place,
      segment-Parameters call front ((custom_input_bytes call seg ++ args) ++ back) script_data
          data_offset (split ∙ simp append_assoc refl),
    )
