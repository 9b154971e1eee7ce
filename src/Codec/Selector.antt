-- ===== src/Codec/Selector.antt =====
-- fuels-core/src/codec/function_selector.rs: the signature of a function as text, and its selector.
-- Text is its list of ASCII codes; SHA-256 is a parameter.
pub mod Generics
mod Tests
use Prim.Native.Char.{code}
use Prim.Native.String.{String}
use fuels_rs.Prelude.{
  ℕ, zero, suc, ◌+◌, ◌/◌, ◌%◌, ltb, if◌then◌else◌, Bool, true, false, List, [], ◌∷◌, ◌++◌, take,
  replicate,
}
use fuels_rs.ParamTypes.{ParamType, ParamTypes}

abbrev pub codes : String → List ℕ
codes String.[] = []
codes (String.◌∷◌ c s) = code c ∷ codes s

abbrev pub is_empty : List ℕ → Bool
is_empty [] = true
is_empty (c ∷ s) = false

-- The `Display` of a usize, which has at most 20 digits.
unfoldable pub digits : ℕ → ℕ → List ℕ
digits zero n = []
digits (suc fuel) n =
    let front = digits fuel (n / 10) in
    if ltb n 10 then ((n + 48) ∷ []) else front ++ ((n % 10 + 48) ∷ [])

unfoldable pub show_usize : ℕ → List ℕ
unfolding digits
show_usize n = digits 20 n

abbrev pub angled : List ℕ → List ℕ
angled gen_params =
    if is_empty gen_params then gen_params else codes "<" ++ (gen_params ++ codes ">")

-- `s{gen_params}({field_params})`, or with `e` for an enum.
unfoldable pub with_generics : List ℕ → List ℕ → List ℕ → List ℕ
with_generics keyword gen_params field_params =
    keyword ++ (angled gen_params ++ (codes "(" ++ (field_params ++ codes ")")))

unfoldable mutual
  unfolding show_usize with_generics

  pub resolve_arg : ParamType → List ℕ
  resolve_arg ParamType.u8 = codes "u8"
  resolve_arg ParamType.u16 = codes "u16"
  resolve_arg ParamType.u32 = codes "u32"
  resolve_arg ParamType.u64 = codes "u64"
  resolve_arg ParamType.u128 = codes "s(u64,u64)"
  resolve_arg ParamType.u256 = codes "u256"
  resolve_arg ParamType.bool = codes "bool"
  resolve_arg ParamType.b256 = codes "b256"
  resolve_arg ParamType.unit = codes "()"
  resolve_arg ParamType.string_slice = codes "str"
  resolve_arg (ParamType.string_array len) = codes "str[" ++ (show_usize len ++ codes "]")
  resolve_arg (ParamType.array p len) =
      codes "a[" ++ (resolve_arg p ++ (codes ";" ++ (show_usize len ++ codes "]")))
  resolve_arg (ParamType.struct fields generics) =
      with_generics (codes "s") (resolve_args generics) (resolve_args fields)
  resolve_arg (ParamType.enum variants generics) =
      with_generics (codes "e") (resolve_args generics) (resolve_args variants)
  resolve_arg (ParamType.tuple inner) = codes "(" ++ (resolve_args inner ++ codes ")")
  resolve_arg (ParamType.vector p) =
      let inner = resolve_arg p in
      codes "s<" ++ (inner ++ (codes ">(s<" ++ (inner ++ codes ">(rawptr,u64),u64)")))
  resolve_arg ParamType.raw_slice = codes "rawslice"
  resolve_arg ParamType.bytes = codes "s(s(rawptr,u64),u64)"
  resolve_arg ParamType.string = codes "s(s(s(rawptr,u64),u64))"

  -- `join(",")`
  pub resolve_args : ParamTypes → List ℕ
  resolve_args ParamTypes.nil = []
  resolve_args (ParamTypes.cons p ps) = resolve_arg p ++ more_args ps

  pub more_args : ParamTypes → List ℕ
  more_args ParamTypes.nil = []
  more_args (ParamTypes.cons p ps) = codes "," ++ (resolve_arg p ++ more_args ps)

unfoldable pub resolve_fn_signature : List ℕ → ParamTypes → List ℕ
unfolding resolve_arg
resolve_fn_signature name inputs = name ++ (codes "(" ++ (resolve_args inputs ++ codes ")"))

-- `output[4..].copy_from_slice(&result[..4])` on eight zeros.
unfoldable pub first_four_bytes_of_sha256_hash : (List ℕ → List ℕ) → List ℕ → List ℕ
first_four_bytes_of_sha256_hash sha256 string = replicate 4 0 ++ take 4 (sha256 string)

unfoldable pub resolve_fn_selector : (List ℕ → List ℕ) → List ℕ → ParamTypes → List ℕ
unfolding resolve_fn_signature first_four_bytes_of_sha256_hash
resolve_fn_selector sha256 name inputs =
    first_four_bytes_of_sha256_hash sha256 (resolve_fn_signature name inputs)
