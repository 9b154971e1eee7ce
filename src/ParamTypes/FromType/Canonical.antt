-- ===== src/ParamTypes/FromType/Canonical.antt =====
-- fuels-core/src/types/param_types.rs: the type by which an ABI describes a schema is converted to
-- that schema again.
use fuels_rs.Prelude.{ℕ, ◌≡◌, Bool, true, false, ◌&&◌, ◌||◌, ltb, none, some, ◌++◌}
use fuels_rs.Utils.{usize_limit}
use fuels_rs.Errors.{Text}
use fuels_rs.ParamTypes.{
  ParamType, ParamTypes, unit, bool, u8, u16, u32, u64, u128, u256, b256, bytes, string, raw_slice,
  string_slice, string_array, tuple, array, vector, struct, enum,
}
use fuels_rs.Codec.Selector.{codes}
use fuels_rs.ParamTypes.FromType.{
  AbiType, AbiTypes, abi_type, nil, cons, Readers, starts_with, same_text,
}

-- Whether a text declares a struct, an enum or a raw slice.
unfoldable pub is_named : Text → Bool
unfolding starts_with same_text
is_named t =
    starts_with (codes "struct ") t
    || (starts_with (codes "enum ") t || same_text t (codes "raw untyped slice"))

module _ (digits : ℕ → Text) where
  abbrev pub array_text : ℕ → Text
  array_text len = codes "[_; " ++ (digits len ++ codes "]")

  abbrev pub str_text : ℕ → Text
  str_text len = codes "str[" ++ (digits len ++ codes "]")

  -- What the readers do with the texts that an ABI writes for arrays, strings and tuples: each is
  -- read by its own reader alone, and none reads the declaration of a struct, an enum or a raw
  -- slice.
  pub record IsReading (readers : Readers) : Type 0 where
    pub array_len :
        (len : ℕ)
        → ltb len usize_limit ≡ true
        → readers.extract_array_len (array_text len) ≡ some len
    pub str_len :
        (len : ℕ) → ltb len usize_limit ≡ true → readers.extract_str_len (str_text len) ≡ some len
    pub tuple_format : readers.has_tuple_format (codes "(_, _)") ≡ true
    pub no_array : (t : Text) → is_named t ≡ true → readers.extract_array_len t ≡ none
    pub no_str : (t : Text) → is_named t ≡ true → readers.extract_str_len t ≡ none
    pub no_tuple : (t : Text) → is_named t ≡ true → readers.has_tuple_format t ≡ false
    pub str_no_array :
        (len : ℕ) → ltb len usize_limit ≡ true → readers.extract_array_len (str_text len) ≡ none
    pub tuple_no_array : readers.extract_array_len (codes "(_, _)") ≡ none
    pub tuple_no_str : readers.extract_str_len (codes "(_, _)") ≡ none

  abbrev plain : Text → AbiType
  plain field = abi_type field nil nil

  unfoldable mutual
    pub abi_type_of : ParamType → AbiType
    abi_type_of unit = plain (codes "()")
    abi_type_of bool = plain (codes "bool")
    abi_type_of u8 = plain (codes "u8")
    abi_type_of u16 = plain (codes "u16")
    abi_type_of u32 = plain (codes "u32")
    abi_type_of u64 = plain (codes "u64")
    abi_type_of u128 = plain (codes "struct std::u128::U128")
    abi_type_of u256 = plain (codes "struct std::u256::U256")
    abi_type_of b256 = plain (codes "b256")
    abi_type_of bytes = plain (codes "struct std::bytes::Bytes")
    abi_type_of string = plain (codes "struct std::string::String")
    abi_type_of raw_slice = plain (codes "raw untyped slice")
    abi_type_of string_slice = plain (codes "str")
    abi_type_of (string_array len) = plain (str_text len)
    abi_type_of (tuple ps) = abi_type (codes "(_, _)") nil (abi_types_of ps)
    abi_type_of (array p len) = abi_type (array_text len) nil (cons (abi_type_of p) nil)
    abi_type_of (vector p) = abi_type (codes "struct std::vec::Vec") (cons (abi_type_of p) nil) nil
    abi_type_of (struct fields generics) =
        abi_type (codes "struct S") (abi_types_of generics) (abi_types_of fields)
    abi_type_of (enum variants generics) =
        abi_type (codes "enum E") (abi_types_of generics) (abi_types_of variants)

    pub abi_types_of : ParamTypes → AbiTypes
    abi_types_of ParamTypes.nil = nil
    abi_types_of (ParamTypes.cons p ps) = cons (abi_type_of p) (abi_types_of ps)

-- Every enum inside has a variant, and every length is a usize.
unfoldable mutual
  pub is_well_formed : ParamType → Bool
  is_well_formed (tuple ps) = all_well_formed ps
  is_well_formed (string_array len) = ltb len usize_limit
  is_well_formed (array p len) = ltb len usize_limit && is_well_formed p
  is_well_formed (vector p) = is_well_formed p
  is_well_formed (struct fields generics) = all_well_formed fields && all_well_formed generics
  is_well_formed (enum ParamTypes.nil generics) = false
  is_well_formed (enum (ParamTypes.cons p ps) generics) =
      (is_well_formed p && all_well_formed ps) && all_well_formed generics
  is_well_formed _ = true

  pub all_well_formed : ParamTypes → Bool
  all_well_formed ParamTypes.nil = true
  all_well_formed (ParamTypes.cons p ps) = is_well_formed p && all_well_formed ps
