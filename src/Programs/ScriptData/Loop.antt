-- ===== src/Programs/ScriptData/Loop.antt =====
-- fuels-programs/src/call_utils.rs: what the loop of `build_script_data_from_contract_calls` adds for
-- each call, and what the machine reads of it.
use fuels_rs.Prelude.{
  ℕ, ◌+◌, ◌-◌, ◌≡◌, refl, sym, ap, ◌∙◌, arith, some, List, [], ◌∷◌, ◌++◌, length, get_elem?, take,
  drop, length-append, take-append_eq, drop-append_eq, append_assoc, append-nil,
}
use fuels_rs.Errors.{ok, >>=-eq-ok}
use fuels_rs.Programs.ContractCall.{ContractCall}
use fuels_rs.Programs.ScriptData.{
  CallOpcodeParamsOffset, call_parameter_bytes, call_param_offsets, custom_input_bytes,
  encoded_arg_bytes, build_loop,
}

-- What the machine reads at an address, where the script data is loaded at `data_offset`.
unfoldable pub load : List ℕ → ℕ → ℕ → ℕ → List ℕ
load script_data data_offset address len = take len (drop (address - data_offset) script_data)

pub load-eq :
    (script_data pre bytes post : List ℕ) (data_offset address len : ℕ)
    → script_data ≡ pre ++ (bytes ++ post)
    → address ≡ data_offset + length pre
    → length bytes ≡ len
    → load script_data data_offset address len ≡ bytes
unfolding load
load-eq script_data pre bytes post data_offset address len e at size =
    let skip : drop (address - data_offset) script_data ≡ bytes ++ post =
      ap (λ d. drop (address - data_offset) d) e
      ∙ drop-append_eq (address - data_offset) pre (bytes ++ post) (omega (arith, at)) in
    ap (λ d. take len d) skip ∙ take-append_eq len bytes post size

-- All that the loop adds for a call.
abbrev pub segment : ContractCall → ℕ → List ℕ → List ℕ
segment call segment_offset args =
    call_parameter_bytes call ++ (custom_input_bytes call segment_offset ++ args)

both : {A B : Type 0} {a a' : A} {b b' : B} → a ≡ a' → b ≡ b' → ◌≡◌ {A = A × B} (a, b) (a', b')
both p q = λ k. (p k, q k)

reassoc : (d p c a b : List ℕ) → (((d ++ p) ++ c) ++ a) ++ b ≡ d ++ ((p ++ (c ++ a)) ++ b)
reassoc d p c a b = simp append_assoc refl

get_elem-append :
    {A : Type 0} (xs ys : List A) (a : A) → get_elem? (xs ++ (a ∷ ys)) (length xs) ≡ some a
get_elem-append [] ys a = refl
get_elem-append (x ∷ xs) ys a = get_elem-append xs ys a

loop-keeps :
    (calls : List ContractCall) (data_offset : ℕ) (script_data : List ℕ)
    (offsets : List CallOpcodeParamsOffset) {result : List ℕ × List CallOpcodeParamsOffset}
    → build_loop calls data_offset script_data offsets ≡ ok result
    → (back : List ℕ) × (more : List CallOpcodeParamsOffset) × (result
        ≡ (script_data ++ back, offsets ++ more))
unfolding build_loop
loop-keeps [] data_offset script_data offsets {result} e =
    let same : result ≡ (script_data, offsets) = cc in
    ([], [], same ∙ both (sym (append-nil script_data)) (sym (append-nil offsets)))
loop-keeps (call ∷ calls) data_offset script_data offsets {result} e =
    let segment_offset = data_offset + length script_data in
    let (args, _, rest) =
      >>=-eq-ok (encoded_arg_bytes call segment_offset)
        (λ bytes.
          build_loop calls data_offset
            (((script_data ++ call_parameter_bytes call) ++ custom_input_bytes call segment_offset)
              ++ bytes)
            (offsets ++ (call_param_offsets call segment_offset ∷ [])))
        e in
    let (back, more, q) =
      loop-keeps calls data_offset
        (((script_data ++ call_parameter_bytes call) ++ custom_input_bytes call segment_offset)
          ++ args)
        (offsets ++ (call_param_offsets call segment_offset ∷ [])) rest in
    (
      segment call segment_offset args ++ back,
      call_param_offsets call segment_offset ∷ more,
      q
          ∙ both
              (reassoc script_data (call_parameter_bytes call)
                (custom_input_bytes call segment_offset) args back)
              (append_assoc offsets (call_param_offsets call segment_offset ∷ []) more),
    )

-- Where the loop puts the segment and the offsets of one of the calls.
pub loop-places :
    (before : List ContractCall) (call : ContractCall) (after : List ContractCall) (data_offset : ℕ)
    (script_data : List ℕ) (offsets : List CallOpcodeParamsOffset)
    {result : List ℕ × List CallOpcodeParamsOffset}
    → build_loop (before ++ (call ∷ after)) data_offset script_data offsets ≡ ok result
    → (front args back : List ℕ) × (result.0
        ≡ front ++ (segment call (data_offset + length front) args ++ back))
      × (encoded_arg_bytes call (data_offset + length front) ≡ ok args)
      × (get_elem? result.1 (length offsets + length before)
          ≡ some (call_param_offsets call (data_offset + length front)))
unfolding build_loop
loop-places [] call after data_offset script_data offsets {result} e =
    let segment_offset = data_offset + length script_data in
    let o = call_param_offsets call segment_offset in
    let (args, encoded, rest) =
      >>=-eq-ok (encoded_arg_bytes call segment_offset)
        (λ bytes.
          build_loop after data_offset
            (((script_data ++ call_parameter_bytes call) ++ custom_input_bytes call segment_offset)
              ++ bytes)
            (offsets ++ (o ∷ [])))
        e in
    let (back, more, q) =
      loop-keeps after data_offset
        (((script_data ++ call_parameter_bytes call) ++ custom_input_bytes call segment_offset)
          ++ args)
        (offsets ++ (o ∷ [])) rest in
    (
      script_data,
      args,
      back,
      ap (λ r. r.0) q
          ∙ reassoc script_data (call_parameter_bytes call) (custom_input_bytes call segment_offset)
              args back,
      encoded,
      ap (λ (r : List ℕ × List CallOpcodeParamsOffset). get_elem? r.1 (length offsets + 0)) q
          ∙ ap (λ l. get_elem? l (length offsets + 0)) (append_assoc offsets (o ∷ []) more)
          ∙ ap (λ n. get_elem? (offsets ++ (o ∷ more)) n) (omega arith)
          ∙ get_elem-append offsets more o,
    )
loop-places (first ∷ before) call after data_offset script_data offsets {result} e =
    let segment_offset = data_offset + length script_data in
    let o = call_param_offsets first segment_offset in
    let (args, encoded, rest) =
      >>=-eq-ok (encoded_arg_bytes first segment_offset)
        (λ bytes.
          build_loop (before ++ (call ∷ after)) data_offset
            (((script_data ++ call_parameter_bytes first)
                ++ custom_input_bytes first segment_offset)
              ++ bytes)
            (offsets ++ (o ∷ [])))
        e in
    let (front, args', back, split, encoded', place) =
      loop-places before call after data_offset
        (((script_data ++ call_parameter_bytes first) ++ custom_input_bytes first segment_offset)
          ++ args)
        (offsets ++ (o ∷ [])) rest in
    (
      front,
      args',
      back,
      split,
      encoded',
      ap (λ n. get_elem? result.1 n) (omega (arith, length-append offsets (o ∷ []))) ∙ place,
    )
