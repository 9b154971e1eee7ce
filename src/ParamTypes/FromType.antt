-- ===== src/ParamTypes/FromType.antt =====
-- fuels-core/src/types/param_types.rs: the schema for a type of the ABI, by the text of its
-- declaration. The readers of lengths and tuples in that text belong to fuel_abi_types.
pub mod Canonical
pub mod Matched
pub mod RoundTrip
mod Tests
use fuels_rs.Prelude.{
  ℕ, ◌==◌, ◌&&◌, ◌||◌, if◌then◌else◌, Bool, true, false, Option, none, some, List, [], ◌∷◌,
}
use fuels_rs.Errors.{
  Result, ok, err, panic, ◌>>=◌, codec, Text, vec_generics, array_components, no_param_type,
}
use fuels_rs.ParamTypes.{
  ParamType, ParamTypes, unit, bool, u8, u16, u32, u64, u128, u256, b256, bytes, string, raw_slice,
  string_slice, string_array, tuple, array, vector, struct, enum, new_variants,
}
use fuels_rs.Codec.Selector.{codes}

-- `Type`, with its `type_field`, `generic_params` and `components`.
mutual
  pub data AbiType : Type 0 where
    abi_type : Text → AbiTypes → AbiTypes → AbiType

  pub data AbiTypes : Type 0 where
    nil : AbiTypes
    cons : AbiType → AbiTypes → AbiTypes

-- `extract_array_len`, `extract_str_len` and `has_tuple_format`.
pub record Readers : Type 0 where
  pub extract_array_len : Text → Option ℕ
  pub extract_str_len : Text → Option ℕ
  pub has_tuple_format : Text → Bool

unfoldable pub same_text : Text → Text → Bool
same_text [] [] = true
same_text (c ∷ s) (d ∷ t) = c == d && same_text s t
same_text _ t = false

unfoldable pub starts_with : Text → Text → Bool
starts_with [] t = true
starts_with (c ∷ s) (d ∷ t) = c == d && starts_with s t
starts_with (c ∷ s) [] = false

-- Whether exactly one type is given.
abbrev pub is_single : AbiTypes → Bool
is_single (cons t nil) = true
is_single _ = false

-- The result of a conversion, which may not apply.
abbrev pub Tried : Type 0
Tried = Result (Option ParamType)

abbrev pub when : Bool → ParamType → Option ParamType
when b p = if b then some p else none

unfoldable pub try_primitive : Text → Tried
unfolding same_text
try_primitive field = ok (
    if same_text field (codes "bool")
    then some bool
    else if same_text field (codes "u8")
    then some u8
    else if same_text field (codes "u16")
    then some u16
    else if same_text field (codes "u32")
    then some u32
    else if same_text field (codes "u64")
    then some u64
    else if same_text field (codes "b256")
    then some b256
    else if same_text field (codes "()")
    then some unit
    else when (same_text field (codes "str")) string_slice)

abbrev pub array_of : ℕ → ParamTypes → Tried
array_of len (ParamTypes.cons p ParamTypes.nil) = ok (some (array p len))
array_of len _ = err (codec array_components)

unfoldable pub try_array : Readers → Text → AbiTypes → Result ParamTypes → Tried
try_array readers field components converted = elim (readers.extract_array_len field) [
  | none ↦ ok none
  | some len ↦
      if is_single components then converted >>= array_of len else err (codec array_components)
]

unfoldable pub try_str_array : Readers → Text → Tried
try_str_array readers field = elim (readers.extract_str_len field) [
  | none ↦ ok none
  | some len ↦ ok (some (string_array len))
]

unfoldable pub try_str_slice : Text → Tried
unfolding same_text
try_str_slice field = ok (when (same_text field (codes "str")) string_slice)

unfoldable pub try_tuple : Readers → Text → Result ParamTypes → Tried
try_tuple readers field converted =
    if readers.has_tuple_format field
    then (converted >>= λ elements. ok (some (tuple elements)))
    else ok none

abbrev pub vector_of : ParamTypes → Tried
vector_of (ParamTypes.cons p ps) = ok (some (vector p))
vector_of ParamTypes.nil = panic

unfoldable pub try_vector : Text → AbiTypes → Result ParamTypes → Tried
unfolding same_text
try_vector field generics converted =
    if same_text field (codes "struct std::vec::Vec") || same_text field (codes "struct Vec")
    then (if is_single generics then converted >>= vector_of else err (codec vec_generics))
    else ok none

unfoldable pub try_bytes : Text → Tried
unfolding same_text
try_bytes field = ok (
    when
      (same_text field (codes "struct std::bytes::Bytes") || same_text field (codes "struct Bytes"))
      bytes)

unfoldable pub try_std_string : Text → Tried
unfolding same_text
try_std_string field = ok (
    when
      (same_text field (codes "struct std::string::String")
        || same_text field (codes "struct String"))
      string)

unfoldable pub try_raw_slice : Text → Tried
unfolding same_text
try_raw_slice field = ok (when (same_text field (codes "raw untyped slice")) raw_slice)

unfoldable pub try_enum : Text → Result ParamTypes → Result ParamTypes → Tried
unfolding starts_with
try_enum field generics converted =
    if starts_with (codes "enum ") field
    then (do
      gs ← generics
      components ← converted
      variants ← new_variants components
      ok (some (enum variants gs)))
    else ok none

unfoldable pub try_u128 : Text → Tried
unfolding same_text
try_u128 field = ok (
    when (same_text field (codes "struct std::u128::U128") || same_text field (codes "struct U128"))
      u128)

unfoldable pub try_u256 : Text → Tried
unfolding same_text
try_u256 field = ok (
    when (same_text field (codes "struct std::u256::U256") || same_text field (codes "struct U256"))
      u256)

unfoldable pub try_struct : Text → Result ParamTypes → Result ParamTypes → Tried
unfolding starts_with
try_struct field generics converted =
    if starts_with (codes "struct ") field
    then (do gs ← generics; fields ← converted; ok (some (struct fields gs)))
    else ok none

-- The first conversion that applies; one that fails is passed over like one that does not apply.
unfoldable pub first_match : List Tried → Result ParamType
first_match [] = err (codec no_param_type)
first_match (ok (some p) ∷ rest) = ok p
first_match (panic ∷ rest) = panic
first_match (_ ∷ rest) = first_match rest

module _ (readers : Readers) where
  unfoldable pub match_type :
      Text → AbiTypes → AbiTypes → Result ParamTypes → Result ParamTypes → Result ParamType
  unfolding first_match try_primitive try_array try_str_array try_str_slice try_tuple try_vector
      try_bytes try_std_string try_raw_slice try_enum try_u128 try_u256 try_struct
  match_type field generics components gs cs = first_match (
      try_primitive field
      ∷ try_array readers field components cs
      ∷ try_str_array readers field
      ∷ try_str_slice field
      ∷ try_tuple readers field cs
      ∷ try_vector field generics gs
      ∷ try_bytes field
      ∷ try_std_string field
      ∷ try_raw_slice field
      ∷ try_enum field gs cs
      ∷ try_u128 field
      ∷ try_u256 field
      ∷ try_struct field gs cs
      ∷ [])

  -- `ParamType::try_from(&Type)`, and of every type of a list until the first error.
  unfoldable mutual
    unfolding match_type

    pub try_from : AbiType → Result ParamType
    try_from (abi_type field generics components) =
        match_type field generics components (try_from_all generics) (try_from_all components)

    pub try_from_all : AbiTypes → Result ParamTypes
    try_from_all nil = ok ParamTypes.nil
    try_from_all (cons t ts) = do p ← try_from t; ps ← try_from_all ts; ok (ParamTypes.cons p ps)
