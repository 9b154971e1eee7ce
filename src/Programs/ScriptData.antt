-- ===== src/Programs/ScriptData.antt =====
-- fuels-programs/src/call_utils.rs: the data of the script that makes contract calls, with the
-- places of the parameters of each call, and the instructions that load them.
pub mod Instructions
pub mod Loop
pub mod Placed
pub mod Custom
pub mod Sizes
mod Tests
use fuels_rs.Prelude.{
  ℕ, ◌+◌, ◌%◌, ◌^◌, if◌then◌else◌, Option, none, some, List, [], ◌∷◌, ◌++◌, length,
}
use fuels_rs.Prelude.BigEndian.{to_be_bytes}
use fuels_rs.Errors.{Result, ok, err, ◌>>=◌, map_err, codec, cannot_encode_arguments}
use fuels_rs.Utils.{word_size}
use fuels_rs.UnresolvedBytes.{Chunks, resolve}
use fuels_rs.Programs.ContractCall.{CallParameters, ContractCall}

-- `CallOpcodeParamsOffset`
pub record CallOpcodeParamsOffset : Type 0 where
  pub call_data_offset : ℕ
  pub amount_offset : ℕ
  pub asset_id_offset : ℕ
  pub gas_forwarded_offset : Option ℕ

-- `AssetId::LEN` and `ContractId::LEN`
abbrev pub id_len : ℕ
id_len = 32

abbrev pub gas_bytes : Option ℕ → List ℕ
gas_bytes none = []
gas_bytes (some gas) = to_be_bytes 8 gas

abbrev pub gas_size : Option ℕ → ℕ
gas_size none = 0
gas_size (some gas) = word_size

abbrev pub gas_offset : Option ℕ → ℕ → Option ℕ
gas_offset none segment_offset = none
gas_offset (some gas) segment_offset = some (segment_offset + word_size + id_len)

-- What the loop of `build_script_data_from_contract_calls` does with one call, at its segment's
-- offset: the parameters, where they stand, and the offset at which the arguments are resolved.
unfoldable pub call_parameter_bytes : ContractCall → List ℕ
call_parameter_bytes call =
    to_be_bytes 8 call.call_parameters.amount
    ++ (to_be_bytes 32 call.call_parameters.asset_id
        ++ (gas_bytes call.call_parameters.gas_forwarded
            ++ (to_be_bytes 32 call.contract_id ++ call.encoded_selector)))

unfoldable pub call_param_offsets : ContractCall → ℕ → CallOpcodeParamsOffset
call_param_offsets call segment_offset =
    let gas_forwarded = call.call_parameters.gas_forwarded in
    record {
      amount_offset = segment_offset;
      asset_id_offset = segment_offset + word_size;
      gas_forwarded_offset = gas_offset gas_forwarded segment_offset;
      call_data_offset = segment_offset + word_size + id_len + gas_size gas_forwarded;
    }

unfoldable pub custom_input_offset : ContractCall → ℕ → ℕ
custom_input_offset call segment_offset =
    segment_offset
    + word_size
    + id_len
    + gas_size call.call_parameters.gas_forwarded
    + id_len
    + word_size
    + word_size

unfoldable pub encoded_args_start_offset : ContractCall → ℕ → ℕ
unfolding custom_input_offset
encoded_args_start_offset call segment_offset =
    if call.compute_custom_input_offset
    then custom_input_offset call segment_offset
    else segment_offset

-- The offset of the custom inputs, as the program stores it.
unfoldable pub custom_input_bytes : ContractCall → ℕ → List ℕ
unfolding custom_input_offset
custom_input_bytes call segment_offset =
    if call.compute_custom_input_offset
    then to_be_bytes 8 (custom_input_offset call segment_offset)
    else []

unfoldable pub encoded_arg_bytes : ContractCall → ℕ → Result (List ℕ)
unfolding encoded_args_start_offset
encoded_arg_bytes call segment_offset = do
  ub ← map_err (codec cannot_encode_arguments) call.encoded_args
  ok (resolve ub (encoded_args_start_offset call segment_offset))

-- The loop, with the script data and the offsets so far.
unfoldable pub build_loop :
    List ContractCall
    → ℕ
    → List ℕ
    → List CallOpcodeParamsOffset
    → Result (List ℕ × List CallOpcodeParamsOffset)
unfolding call_parameter_bytes call_param_offsets custom_input_bytes encoded_arg_bytes
build_loop [] data_offset script_data param_offsets = ok (script_data, param_offsets)
build_loop (call ∷ calls) data_offset script_data param_offsets =
    let segment_offset = data_offset + length script_data in
    let with_params = script_data ++ call_parameter_bytes call in
    let with_input = with_params ++ custom_input_bytes call segment_offset in
    do
      bytes ← encoded_arg_bytes call segment_offset
      build_loop calls data_offset (with_input ++ bytes)
          (param_offsets ++ (call_param_offsets call segment_offset ∷ []))

unfoldable pub build_script_data_from_contract_calls :
    List ContractCall → ℕ → Result (List ℕ × List CallOpcodeParamsOffset)
unfolding build_loop
build_script_data_from_contract_calls calls data_offset = build_loop calls data_offset [] []
