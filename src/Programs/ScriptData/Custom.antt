-- ===== src/Programs/ScriptData/Custom.antt =====
-- fuels-programs/src/call_utils.rs: where the custom inputs of each call stand in the script data of
-- `build_script_data_from_contract_calls`.
use fuels_rs.Prelude.{
  ℕ, ◌+◌, ◌≡◌, refl, ap, ◌∙◌, arith, true, some, List, [], ◌∷◌, ◌++◌, length, get_elem?,
  length-append, append_assoc,
}
use fuels_rs.Prelude.BigEndian.{to_be_bytes, length-to_be_bytes}
use fuels_rs.Errors.{ok, >>=-eq-ok, codec, cannot_encode_arguments, map_err, map_err-eq-ok}
use fuels_rs.UnresolvedBytes.{Chunks, resolve}
use fuels_rs.Programs.ContractCall.{ContractCall}
use fuels_rs.Programs.ScriptData.{
  CallOpcodeParamsOffset, gas_bytes, gas_size, call_parameter_bytes, call_param_offsets,
  custom_input_offset, encoded_args_start_offset, custom_input_bytes, encoded_arg_bytes,
  build_script_data_from_contract_calls,
}
use fuels_rs.Programs.ScriptData.Loop.{load, load-eq, loop-places}
use fuels_rs.Programs.ScriptData.Placed.{length-gas_bytes}

length-parameters :
    (call : ContractCall)
    → length call.encoded_selector ≡ 8
    → length (call_parameter_bytes call) ≡ 80 + gas_size call.call_parameters.gas_forwarded
unfolding call_parameter_bytes
length-parameters call size =
    let amount = to_be_bytes 8 call.call_parameters.amount in
    let asset_id = to_be_bytes 32 call.call_parameters.asset_id in
    let gas = gas_bytes call.call_parameters.gas_forwarded in
    let contract_id = to_be_bytes 32 call.contract_id in
    omega (
      arith,
      length-append amount (asset_id ++ (gas ++ (contract_id ++ call.encoded_selector))),
      length-append asset_id (gas ++ (contract_id ++ call.encoded_selector)),
      length-append gas (contract_id ++ call.encoded_selector),
      length-append contract_id call.encoded_selector,
      length-to_be_bytes 8 call.call_parameters.amount,
      length-to_be_bytes 32 call.call_parameters.asset_id,
      length-gas_bytes call.call_parameters.gas_forwarded,
      length-to_be_bytes 32 call.contract_id,
    )

custom_start :
    (call : ContractCall) (seg : ℕ)
    → custom_input_offset call seg ≡ seg + 8 + 32 + gas_size call.call_parameters.gas_forwarded + 48
unfolding custom_input_offset
custom_start call seg = omega arith

custom_pointer :
    (call : ContractCall) (seg : ℕ)
    → call.compute_custom_input_offset ≡ true
    → custom_input_bytes call seg
      ≡ to_be_bytes 8 (seg + 8 + 32 + gas_size call.call_parameters.gas_forwarded + 48)
unfolding custom_input_bytes
custom_pointer call seg custom =
    rw (custom_input_bytes, custom) (ap (to_be_bytes 8) (custom_start call seg))

custom_args :
    (call : ContractCall) (seg : ℕ) (args : List ℕ)
    → call.compute_custom_input_offset ≡ true
    → encoded_arg_bytes call seg ≡ ok args
    → (ub : Chunks) × (call.encoded_args ≡ ok ub)
      × (args ≡ resolve ub (seg + 8 + 32 + gas_size call.call_parameters.gas_forwarded + 48))
unfolding encoded_arg_bytes encoded_args_start_offset
custom_args call seg args custom e =
    let (ub, given, resolved) =
      >>=-eq-ok (map_err (codec cannot_encode_arguments) call.encoded_args)
        (λ ub. ok (resolve ub (encoded_args_start_offset call seg))) e in
    let start : encoded_args_start_offset call seg
        ≡ seg + 8 + 32 + gas_size call.call_parameters.gas_forwarded + 48 =
      rw (encoded_args_start_offset, custom) (custom_start call seg) in
    let same : args ≡ resolve ub (encoded_args_start_offset call seg) = cc in
    (ub, map_err-eq-ok _ call.encoded_args given, same ∙ ap (resolve ub) start)

-- If the arguments of a call are custom inputs, the word behind its selector holds the address
-- right behind that word, and there stand the arguments, resolved for that address.
pub build-custom_inputs :
    (before : List ContractCall) (call : ContractCall) (after : List ContractCall) (data_offset : ℕ)
    (script_data : List ℕ) (offsets : List CallOpcodeParamsOffset)
    → call.compute_custom_input_offset ≡ true
    → length call.encoded_selector ≡ 8
    → build_script_data_from_contract_calls (before ++ (call ∷ after)) data_offset
      ≡ ok (script_data, offsets)
    → (o : CallOpcodeParamsOffset) × (get_elem? offsets (length before) ≡ some o)
      × (ub : Chunks) × (call.encoded_args ≡ ok ub)
      × (load script_data data_offset (o.call_data_offset + 40) 8
          ≡ to_be_bytes 8 (o.call_data_offset + 48))
      × (load script_data data_offset
            (o.call_data_offset + 48)
            (length (resolve ub (o.call_data_offset + 48)))
          ≡ resolve ub (o.call_data_offset + 48))
unfolding build_script_data_from_contract_calls call_param_offsets
build-custom_inputs before call after data_offset script_data offsets custom size e =
    let (front, args, back, split, encoded, place) =
      loop-places before call after data_offset [] [] e in
    let seg = data_offset + length front in
    let start = seg + 8 + 32 + gas_size call.call_parameters.gas_forwarded + 48 in
    let (ub, given, resolved) = custom_args call seg args custom encoded in
    let pointer : custom_input_bytes call seg ≡ to_be_bytes 8 start =
      custom_pointer call seg custom in
    let params = call_parameter_bytes call in
    let whole : script_data
        ≡ front ++ ((params ++ (to_be_bytes 8 start ++ resolve ub start)) ++ back) =
      split
      ∙ ap (λ i. front ++ ((params ++ (i ++ args)) ++ back)) pointer
      ∙ ap (λ r. front ++ ((params ++ (to_be_bytes 8 start ++ r)) ++ back)) resolved in
    (
      call_param_offsets call seg,
      ap (λ n. get_elem? offsets n) (omega arith) ∙ place,
      ub,
      given,
      load-eq script_data (front ++ params) (to_be_bytes 8 start) (resolve ub start ++ back)
          data_offset (seg + 8 + 32 + gas_size call.call_parameters.gas_forwarded + 40) 8
          (whole ∙ simp append_assoc refl)
          (omega (arith, length-append front params, length-parameters call size))
          (length-to_be_bytes 8 start),
      load-eq script_data ((front ++ params) ++ to_be_bytes 8 start) (resolve ub start) back
          data_offset start (length (resolve ub start)) (whole ∙ simp append_assoc refl)
          (omega (
            arith,
            length-append front params,
            length-parameters call size,
            length-append (front ++ params) (to_be_bytes 8 start),
            length-to_be_bytes 8 start,
          ))
          refl,
    )
