-- ===== src/Programs/ScriptData/Instructions.antt =====
-- fuels-programs/src/call_utils.rs: the instructions of the script that makes contract calls, and
-- fuels-core/src/utils/offsets.rs: where the script data begins. The instructions are those of
-- fuel_asm; how one is encoded is a parameter.
use fuels_rs.Prelude.{
  ℕ, ◌+◌, ◌-◌, ◌/◌, ◌%◌, ◌^◌, ltb, if◌then◌else◌, Bool, true, false, Option, none, some, List, [],
  ◌∷◌, ◌++◌, length,
}
use fuels_rs.Errors.{Result, ok, panic, ◌>>=◌}
use fuels_rs.ParamTypes.{ParamType, enum, raw_slice, string_slice, compute_encoding_in_bytes}
use fuels_rs.ParamTypes.Receipts.{heap_type_variant, heap_inner_element_size}
use fuels_rs.Tokens.{External}
use fuels_rs.Programs.ContractCall.{ContractCall}
use fuels_rs.Programs.ScriptData.{CallOpcodeParamsOffset, build_script_data_from_contract_calls}

pub data Register : Type 0 where
  at : ℕ → Register
  zero one ret cgas : Register

pub data Instruction : Type 0 where
  movi : Register → ℕ → Instruction
  lw muli : Register → Register → ℕ → Instruction
  call : Register → Register → Register → Register → Instruction
  jnef : Register → Register → Register → ℕ → Instruction
  retd : Register → Register → Instruction
  return : Register → Instruction

-- Whether `ptr, len` is stored, without a capacity between them.
abbrev len_offset_of : Bool → ParamType → ℕ
len_offset_of false raw_slice = 1
len_offset_of false string_slice = 1
len_offset_of top_level_type p = 2

unfoldable pub extract_data_receipt : ℕ → Bool → ParamType → Result (List Instruction)
unfolding heap_inner_element_size
extract_data_receipt ptr_offset top_level_type p = do
  size ← heap_inner_element_size p top_level_type
  elim size [
    | none ↦ ok []
    | some inner_type_byte_size ↦ ok (
        lw (at 0x15) ret ptr_offset
        ∷ lw (at 0x16) ret ((ptr_offset + len_offset_of top_level_type p) % 2 ^ 16)
        ∷ muli (at 0x16) (at 0x16) (inner_type_byte_size % 2 ^ 16)
        ∷ retd (at 0x15) (at 0x16)
        ∷ [])
  ]

-- The instructions for an enum one of whose variants is on the heap. The enum is at least as wide as
-- the variant.
unfoldable pub extract_variant_data : ParamType → ℕ × ParamType → Result (List Instruction)
unfolding extract_data_receipt compute_encoding_in_bytes
extract_variant_data p (discriminant, heap_type) = do
  param_type_width ← compute_encoding_in_bytes p
  heap_type_width ← compute_encoding_in_bytes heap_type
  data_receipt ←
      extract_data_receipt (((param_type_width - heap_type_width) / 8) % 2 ^ 16) false heap_type
  ok (
      (movi (at 0x17) (discriminant % 2 ^ 32)
        ∷ lw (at 0x18) ret 0
        ∷ jnef (at 0x17) (at 0x18) zero 3
        ∷ [])
      ++ (data_receipt ++ (retd (at 0x15) zero ∷ [])))

unfoldable pub extract_heap_data : ParamType → Result (List Instruction)
unfolding extract_data_receipt extract_variant_data heap_type_variant
extract_heap_data (enum variants generics) = elim (heap_type_variant variants) [
  | none ↦ ok []
  | some variant ↦ extract_variant_data (enum variants generics) variant
]
extract_heap_data p = extract_data_receipt 0 true p

-- `try_into` from usize to u32, and `expect`. What fuel_asm does with a u32 that the immediate of an
-- instruction cannot hold is not read.
unfoldable pub expect_u32 : ℕ → Result ℕ
expect_u32 n = if ltb n (2 ^ 32) then ok n else panic

unfoldable pub call_instructions : Option ℕ → Result (List Instruction)
unfolding expect_u32
call_instructions (some gas_forwarded_offset) = do
  offset ← expect_u32 gas_forwarded_offset
  ok (
      movi (at 0x13) offset
      ∷ lw (at 0x13) (at 0x13) 0
      ∷ call (at 0x10) (at 0x11) (at 0x12) (at 0x13)
      ∷ [])
call_instructions none = ok (call (at 0x10) (at 0x11) (at 0x12) cgas ∷ [])

unfoldable pub single_call : CallOpcodeParamsOffset → ParamType → Result (List Instruction)
unfolding expect_u32 call_instructions extract_heap_data
single_call offsets output_param_type = do
  call_data_offset ← expect_u32 offsets.call_data_offset
  amount_offset ← expect_u32 offsets.amount_offset
  asset_id_offset ← expect_u32 offsets.asset_id_offset
  calling ← call_instructions offsets.gas_forwarded_offset
  heap ← extract_heap_data output_param_type
  ok (
      (movi (at 0x10) call_data_offset
        ∷ movi (at 0x11) amount_offset
        ∷ lw (at 0x11) (at 0x11) 0
        ∷ movi (at 0x12) asset_id_offset
        ∷ [])
      ++ (calling ++ heap))

-- The placeholder with which the length of the instructions is computed.
abbrev pub placeholder : ContractCall → CallOpcodeParamsOffset
placeholder c = record {
  call_data_offset = 0;
  amount_offset = 0;
  asset_id_offset = 0;
  gas_forwarded_offset = elim c.call_parameters.gas_forwarded [ none ↦ none | some gas ↦ some 0 ];
}

module _ (to_bytes : Instruction → List ℕ) where
  unfoldable pub all_bytes : List Instruction → List ℕ
  all_bytes [] = []
  all_bytes (i ∷ is) = to_bytes i ++ all_bytes is

  unfoldable pub get_single_call_instructions : CallOpcodeParamsOffset → ParamType → Result (List ℕ)
  unfolding single_call all_bytes
  get_single_call_instructions offsets output_param_type = do
    instructions ← single_call offsets output_param_type
    ok (all_bytes instructions)

  unfoldable pub compute_calls_instructions_len : List ContractCall → Result ℕ
  unfolding get_single_call_instructions
  compute_calls_instructions_len [] = ok 0
  compute_calls_instructions_len (c ∷ calls) = do
    instructions ← get_single_call_instructions (placeholder c) c.output_param
    rest ← compute_calls_instructions_len calls
    ok (length instructions + rest)

  -- The instructions of calls and offsets, side by side, as far as both go.
  unfoldable pub call_bytes : List ContractCall → List CallOpcodeParamsOffset → Result (List ℕ)
  unfolding get_single_call_instructions
  call_bytes (c ∷ calls) (offset ∷ offsets) = do
    instructions ← get_single_call_instructions offset c.output_param
    rest ← call_bytes calls offsets
    ok (instructions ++ rest)
  call_bytes _ offsets = ok []

  unfoldable pub get_instructions :
      List ContractCall → List CallOpcodeParamsOffset → Result (List ℕ)
  unfolding call_bytes
  get_instructions calls offsets = do
    bytes ← call_bytes calls offsets
    ok (bytes ++ to_bytes (return one))

  -- The offset at which the script data begins, with `base_offset_script` of the consensus
  -- parameters and 4 bytes for the last instruction.
  unfoldable pub call_script_data_offset : External → ℕ → ℕ → ℕ
  call_script_data_offset x base_offset_script calls_instructions_len =
      base_offset_script + x.padded_len (calls_instructions_len + 4)

  -- The script and its data in `transaction_builder_from_contract_calls`.
  unfoldable pub script_and_data : External → ℕ → List ContractCall → Result (List ℕ × List ℕ)
  unfolding compute_calls_instructions_len build_script_data_from_contract_calls get_instructions
      call_script_data_offset
  script_and_data x base_offset_script calls = do
    len ← compute_calls_instructions_len calls
    (script_data, call_param_offsets) ←
        build_script_data_from_contract_calls calls
          (call_script_data_offset x base_offset_script len)
    script ← get_instructions calls call_param_offsets
    ok (script, script_data)
