-- ===== src/Programs/ScriptData/Sizes.antt =====
-- fuels-programs/src/call_utils.rs: the length that is computed with placeholders is that of the
-- instructions, so that the offsets fit the place where the script data begins.
use fuels_rs.Prelude.{
  ℕ, ◌+◌, ◌*◌, ◌≡◌, refl, sym, ap, ◌∙◌, arith, Bool, true, false, Option, none, some, List, [], ◌∷◌,
  ◌++◌, subst, inl, inr, Option-cases, length, length-append, append_assoc, append-nil,
}
use fuels_rs.Errors.{ok, >>=-eq-ok}
use fuels_rs.ParamTypes.{ParamType}
use fuels_rs.Tokens.{External}
use fuels_rs.Programs.ContractCall.{ContractCall}
use fuels_rs.Programs.ScriptData.{
  CallOpcodeParamsOffset, gas_offset, call_param_offsets, encoded_arg_bytes, build_loop,
  build_script_data_from_contract_calls,
}
use fuels_rs.Programs.ScriptData.Instructions.{
  Instruction, movi, lw, call, return, at, one, cgas, extract_heap_data, expect_u32,
  call_instructions, single_call, placeholder, all_bytes, get_single_call_instructions,
  compute_calls_instructions_len, call_bytes, get_instructions, call_script_data_offset,
  script_and_data,
}

abbrev is_some {ℓ} : {A : Type ℓ} → Option A → Bool
is_some none = false
is_some (some a) = true

-- The number of instructions with and without forwarded gas.
abbrev calling_len : Bool → ℕ
calling_len true = 3
calling_len false = 1

length-call_instructions :
    (gas : Option ℕ) {is : List Instruction}
    → call_instructions gas ≡ ok is
    → length is ≡ calling_len (is_some gas)
unfolding call_instructions
length-call_instructions none {is} e =
    let same : is ≡ call (at 0x10) (at 0x11) (at 0x12) cgas ∷ [] = cc in ap length same
length-call_instructions (some gas) {is} e =
    let (offset, _, rest) =
      >>=-eq-ok (expect_u32 gas)
        (λ offset. ok (
          movi (at 0x13) offset
          ∷ lw (at 0x13) (at 0x13) 0
          ∷ call (at 0x10) (at 0x11) (at 0x12) (at 0x13)
          ∷ []))
        e in
    let same : is
        ≡ movi (at 0x13) offset
          ∷ lw (at 0x13) (at 0x13) 0
          ∷ call (at 0x10) (at 0x11) (at 0x12) (at 0x13)
          ∷ [] =
      cc in
    ap length same

length-single_call :
    (o : CallOpcodeParamsOffset) (p : ParamType) {is : List Instruction}
    → single_call o p ≡ ok is
    → (heap : List Instruction) × (extract_heap_data p ≡ ok heap)
      × (length is ≡ 4 + calling_len (is_some o.gas_forwarded_offset) + length heap)
unfolding single_call
length-single_call o p {is} e =
    let (a, _, e1) = >>=-eq-ok (expect_u32 o.call_data_offset) _ e in
    let (b, _, e2) = >>=-eq-ok (expect_u32 o.amount_offset) _ e1 in
    let (c, _, e3) = >>=-eq-ok (expect_u32 o.asset_id_offset) _ e2 in
    let (calling, called, e4) = >>=-eq-ok (call_instructions o.gas_forwarded_offset) _ e3 in
    let (heap, found, e5) = >>=-eq-ok (extract_heap_data p) _ e4 in
    let same : is
        ≡ (movi (at 0x10) a ∷ movi (at 0x11) b ∷ lw (at 0x11) (at 0x11) 0 ∷ movi (at 0x12) c ∷ [])
          ++ (calling ++ heap) =
      cc in
    (
      heap,
      found,
      omega (
        arith,
        ap length same,
        length-append calling heap,
        length-call_instructions o.gas_forwarded_offset called,
      ),
    )

-- Offsets that tell of the same calls whether gas is forwarded.
data Matches : List ContractCall → List CallOpcodeParamsOffset → Type 0 where
  nil : Matches [] []
  cons :
      {c : ContractCall} {calls : List ContractCall} {o : CallOpcodeParamsOffset}
      {offsets : List CallOpcodeParamsOffset}
      → is_some o.gas_forwarded_offset ≡ is_some c.call_parameters.gas_forwarded
      → Matches calls offsets
      → Matches (c ∷ calls) (o ∷ offsets)

gas_offset-some :
    (gas : Option ℕ) (segment_offset : ℕ) → is_some (gas_offset gas segment_offset) ≡ is_some gas
gas_offset-some none segment_offset = refl
gas_offset-some (some gas) segment_offset = refl

placeholder-some :
    (c : ContractCall)
    → is_some (placeholder c).gas_forwarded_offset ≡ is_some c.call_parameters.gas_forwarded
placeholder-some c = elim (Option-cases c.call_parameters.gas_forwarded) [
  | inl n ↦ rw n refl
  | inr (g, s) ↦ rw s refl
]

loop-Matches :
    (calls : List ContractCall) (data_offset : ℕ) (script_data : List ℕ)
    (offsets : List CallOpcodeParamsOffset) {result : List ℕ × List CallOpcodeParamsOffset}
    → build_loop calls data_offset script_data offsets ≡ ok result
    → (more : List CallOpcodeParamsOffset) × (result.1 ≡ offsets ++ more) × Matches calls more
unfolding build_loop call_param_offsets
loop-Matches [] data_offset script_data offsets {result} e =
    let same : result ≡ (script_data, offsets) = cc in
    ([], ap (λ r. r.1) same ∙ sym (append-nil offsets), nil)
loop-Matches (c ∷ calls) data_offset script_data offsets {result} e =
    let segment_offset = data_offset + length script_data in
    let o = call_param_offsets c segment_offset in
    let (args, _, rest) = >>=-eq-ok (encoded_arg_bytes c segment_offset) _ e in
    let (more, q, m) = loop-Matches calls data_offset _ (offsets ++ (o ∷ [])) rest in
    (
      o ∷ more,
      q ∙ append_assoc offsets (o ∷ []) more,
      cons (gas_offset-some c.call_parameters.gas_forwarded segment_offset) m,
    )

module _ (to_bytes : Instruction → List ℕ)
    (four : (i : Instruction) → length (to_bytes i) ≡ 4) where
  length-all_bytes : (is : List Instruction) → length (all_bytes to_bytes is) ≡ 4 * length is
  unfolding all_bytes
  length-all_bytes [] = omega arith
  length-all_bytes (i ∷ is) =
      omega (arith, length-append (to_bytes i) (all_bytes to_bytes is), four i, length-all_bytes is)

  length-single :
      (o : CallOpcodeParamsOffset) (p : ParamType) {bytes : List ℕ}
      → get_single_call_instructions to_bytes o p ≡ ok bytes
      → (heap : List Instruction) × (extract_heap_data p ≡ ok heap)
        × (length bytes ≡ 4 * (4 + calling_len (is_some o.gas_forwarded_offset) + length heap))
  unfolding get_single_call_instructions
  length-single o p {bytes} e =
      let (is, made, e1) = >>=-eq-ok (single_call o p) _ e in
      let same : bytes ≡ all_bytes to_bytes is = cc in
      let (heap, found, size) = length-single_call o p made in
      (heap, found, omega (arith, ap length same, length-all_bytes is, size))

  length-call_bytes :
      (calls : List ContractCall) (offsets : List CallOpcodeParamsOffset) {len : ℕ} {bytes : List ℕ}
      → Matches calls offsets
      → compute_calls_instructions_len to_bytes calls ≡ ok len
      → call_bytes to_bytes calls offsets ≡ ok bytes
      → length bytes ≡ len
  unfolding compute_calls_instructions_len call_bytes
  length-call_bytes [] [] {len} {bytes} m computed made =
      let none : bytes ≡ [] = cc in let zero : len ≡ 0 = cc in omega (arith, ap length none, zero)
  length-call_bytes [] (o ∷ offsets) m computed made = elim m [ ]
  length-call_bytes (c ∷ calls) [] m computed made = elim m [ ]
  length-call_bytes (c ∷ calls) (o ∷ offsets) {len} {bytes} (cons gas m) computed made =
      let (is, planned, c1) =
        >>=-eq-ok (get_single_call_instructions to_bytes (placeholder c) c.output_param) _
          computed in
      let (later, computed', c2) = >>=-eq-ok (compute_calls_instructions_len to_bytes calls) _ c1 in
      let (js, single, m1) =
        >>=-eq-ok (get_single_call_instructions to_bytes o c.output_param) _ made in
      let (rest, made', m2) = >>=-eq-ok (call_bytes to_bytes calls offsets) _ m1 in
      let total : len ≡ length is + later = cc in
      let joined : bytes ≡ js ++ rest = cc in
      let (heap, found, size) = length-single (placeholder c) c.output_param planned in
      let (heap', found', size') = length-single o c.output_param single in
      let same : heap ≡ heap' = cc in
      let gas' : calling_len (is_some o.gas_forwarded_offset)
          ≡ calling_len (is_some (placeholder c).gas_forwarded_offset) =
        ap calling_len (gas ∙ sym (placeholder-some c)) in
      omega (
        arith,
        total,
        ap length joined,
        length-append js rest,
        size,
        size',
        ap length same,
        gas',
        length-call_bytes calls offsets m computed' made',
      )

  -- If `script_and_data` succeeds, the offsets that the script loads from are those of script data
  -- that begins behind the padded script, and the script is the one with these offsets.
  pub script_and_data-placed :
      (x : External) (base_offset_script : ℕ) (calls : List ContractCall)
      (script script_data : List ℕ)
      → script_and_data to_bytes x base_offset_script calls ≡ ok (script, script_data)
      → (offsets : List CallOpcodeParamsOffset) × (build_script_data_from_contract_calls calls
            (base_offset_script + x.padded_len (length script))
          ≡ ok (script_data, offsets))
        × (get_instructions to_bytes calls offsets ≡ ok script)
  unfolding script_and_data call_script_data_offset get_instructions
      build_script_data_from_contract_calls
  script_and_data-placed x base_offset_script calls script script_data e =
      let (len, computed, e1) = >>=-eq-ok (compute_calls_instructions_len to_bytes calls) _ e in
      let start = base_offset_script + x.padded_len (len + 4) in
      let (result, built, e2) =
        >>=-eq-ok (build_script_data_from_contract_calls calls start) _ e1 in
      let (made, got, e3) = >>=-eq-ok (get_instructions to_bytes calls result.1) _ e2 in
      let same : ◌≡◌ {A = List ℕ × List ℕ} (script, script_data) (made, result.0) = cc in
      let (more, q, m) = loop-Matches calls start [] [] built in
      let (bytes, all, e4) = >>=-eq-ok (call_bytes to_bytes calls result.1) _ got in
      let joined : made ≡ bytes ++ to_bytes (return one) = cc in
      let size : length script ≡ len + 4 = omega (
        arith,
        ap (λ (s : List ℕ × List ℕ). length s.0) same,
        ap length joined,
        length-append bytes (to_bytes (return one)),
        four (return one),
        length-call_bytes calls result.1 (subst (Matches calls) (sym q) m) computed all,
      ) in
      (
        result.1,
        ap (λ n. build_script_data_from_contract_calls calls (base_offset_script + x.padded_len n))
              size
            ∙ built
            ∙ ap (λ d. ok (d, result.1)) (ap (λ s. s.1) (sym same)),
        got ∙ ap (λ s. ok s.0) (sym same),
      )
