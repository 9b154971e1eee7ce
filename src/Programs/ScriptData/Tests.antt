-- ===== src/Programs/ScriptData/Tests.antt =====
-- Script data of concrete calls.
use fuels_rs.Prelude.{
  ℕ, ◌+◌, ◌≡◌, refl, true, false, none, some, List, [], ◌∷◌, ◌++◌, length, get_elem?, replicate,
}
use fuels_rs.Prelude.BigEndian.{to_be_bytes}
use fuels_rs.Errors.{ok}
use fuels_rs.UnresolvedBytes.{Chunks, inline, nil, cons, resolve}
use fuels_rs.ParamTypes.{u64}
use fuels_rs.Codec.Sample.{sample_external}
use fuels_rs.Programs.ContractCall.{ContractCall}
use fuels_rs.Programs.ScriptData.{CallOpcodeParamsOffset, build_script_data_from_contract_calls}
use fuels_rs.Programs.ScriptData.Instructions.{Instruction, get_instructions, script_and_data}
use fuels_rs.Programs.ScriptData.Loop.{load}
use fuels_rs.Programs.ScriptData.Placed.{Parameters, build-Parameters}
use fuels_rs.Programs.ScriptData.Custom.{build-custom_inputs}
use fuels_rs.Programs.ScriptData.Sizes.{script_and_data-placed}

abbrev selector : List ℕ
selector = 1 ∷ 2 ∷ 3 ∷ 4 ∷ 5 ∷ 6 ∷ 7 ∷ 8 ∷ []

abbrev plain_call : ContractCall
plain_call = record {
  contract_id = 5;
  encoded_args = ok (cons (inline (0 ∷ 9 ∷ [])) nil);
  encoded_selector = selector;
  call_parameters = record { amount = 10; asset_id = 3; gas_forwarded = some 100 };
  compute_custom_input_offset = false;
  variable_outputs = [];
  external_contracts = [];
  output_param = u64;
  is_payable = true;
  custom_assets = [];
}

abbrev custom_call : ContractCall
custom_call = record plain_call {
  contract_id = 6;
  call_parameters = record { amount = 0; asset_id = 0; gas_forwarded = none };
  compute_custom_input_offset = true;
}

abbrev parameters_of : ContractCall → List ℕ → List ℕ
parameters_of c gas =
    to_be_bytes 8 c.call_parameters.amount
    ++ (to_be_bytes 32 c.call_parameters.asset_id
        ++ (gas ++ (to_be_bytes 32 c.contract_id ++ selector)))

abbrev two_data : List ℕ
two_data =
    (parameters_of plain_call (to_be_bytes 8 100) ++ (0 ∷ 9 ∷ []))
    ++ (parameters_of custom_call [] ++ (to_be_bytes 8 1178 ++ (0 ∷ 9 ∷ [])))

abbrev plain_offsets : CallOpcodeParamsOffset
plain_offsets = record {
  call_data_offset = 1048;
  amount_offset = 1000;
  asset_id_offset = 1008;
  gas_forwarded_offset = some 1040;
}

abbrev custom_offsets : CallOpcodeParamsOffset
custom_offsets = record {
  call_data_offset = 1130;
  amount_offset = 1090;
  asset_id_offset = 1098;
  gas_forwarded_offset = none;
}

two_calls_built :
    build_script_data_from_contract_calls (plain_call ∷ custom_call ∷ []) 1000
    ≡ ok (two_data, plain_offsets ∷ custom_offsets ∷ [])
unfolding build_script_data_from_contract_calls to_be_bytes resolve
two_calls_built = refl

build-Parameters_example :
    (o : CallOpcodeParamsOffset) × (get_elem?
        (plain_offsets ∷ custom_offsets ∷ [])
        (length {A = ContractCall} [])
      ≡ some o)
    × Parameters two_data 1000 plain_call o
build-Parameters_example =
    build-Parameters [] plain_call (custom_call ∷ []) 1000 two_data
      (plain_offsets ∷ custom_offsets ∷ []) two_calls_built

build-custom_inputs_example :
    (o : CallOpcodeParamsOffset) × (get_elem?
        (plain_offsets ∷ custom_offsets ∷ [])
        (length (plain_call ∷ []))
      ≡ some o)
    × (ub : Chunks) × (custom_call.encoded_args ≡ ok ub)
    × (load two_data 1000 (o.call_data_offset + 40) 8 ≡ to_be_bytes 8 (o.call_data_offset + 48))
    × (load two_data 1000 (o.call_data_offset + 48) (length (resolve ub (o.call_data_offset + 48)))
        ≡ resolve ub (o.call_data_offset + 48))
build-custom_inputs_example =
    build-custom_inputs (plain_call ∷ []) custom_call [] 1000 two_data
      (plain_offsets ∷ custom_offsets ∷ []) refl refl two_calls_built

-- Every instruction is four zeros here.
abbrev zeros : Instruction → List ℕ
zeros i = 0 ∷ 0 ∷ 0 ∷ 0 ∷ []

abbrev one_data : List ℕ
one_data = parameters_of custom_call [] ++ (to_be_bytes 8 112 ++ (0 ∷ 9 ∷ []))

one_call_built :
    script_and_data zeros sample_external 0 (custom_call ∷ []) ≡ ok (replicate 24 0, one_data)
unfolding script_and_data to_be_bytes resolve
one_call_built = refl

script_and_data-placed_example :
    (offsets : List CallOpcodeParamsOffset) × (build_script_data_from_contract_calls
        (custom_call ∷ [])
        24
      ≡ ok (one_data, offsets))
    × (get_instructions zeros (custom_call ∷ []) offsets ≡ ok (replicate 24 0))
script_and_data-placed_example =
    script_and_data-placed zeros (λ i. refl) sample_external 0 (custom_call ∷ []) (replicate 24 0)
      one_data one_call_built
