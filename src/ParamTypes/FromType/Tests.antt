-- ===== src/ParamTypes/FromType/Tests.antt =====
-- fuels-core/src/types/param_types.rs: conversions of concrete ABI types, with readers of lengths
-- in unary.
use mathlib.Core.Option.{map}
use fuels_rs.Prelude.{
  ℕ, zero, suc, ◌==◌, if◌then◌else◌, true, false, arith, ◌≡◌, refl, ap, Option, none, some, [], ◌∷◌,
  ◌++◌, replicate,
}
use fuels_rs.Errors.{ok, err, Text, codec, no_param_type}
use fuels_rs.ParamTypes.{
  ParamType, ParamTypes, u8, u64, string_array, tuple, array, vector, struct, enum,
}
use fuels_rs.Codec.Selector.{codes}
use fuels_rs.ParamTypes.FromType.{
  abi_type, nil, cons, Readers, starts_with, try_from, match_type, first_match, try_primitive,
  try_array,
}
use fuels_rs.ParamTypes.FromType.Canonical.{is_named, IsReading, abi_type_of, is_well_formed}
use fuels_rs.ParamTypes.FromType.RoundTrip.{try_from-abi_type_of, try_from-Vec_arity}

abbrev unary : ℕ → Text
unary len = replicate len 49

unfoldable after : ℕ → Text → Text
after zero t = t
after (suc n) [] = []
after (suc n) (c ∷ t) = after n t

unfoldable read_unary : Text → Option ℕ
read_unary [] = none
read_unary (c ∷ t) = let rest = read_unary t in if c == 49 then map suc rest else some 0

read_unary_lem : (len : ℕ) → read_unary (unary len ++ codes "]") ≡ some len
unfolding read_unary
read_unary_lem zero = refl
read_unary_lem (suc len) = ap (map suc) (read_unary_lem len)

abbrev readers : Readers
readers = record {
  extract_array_len = λ t. if starts_with (codes "[") t then read_unary (after 4 t) else none;
  extract_str_len = λ t. if starts_with (codes "str[") t then read_unary (after 4 t) else none;
  has_tuple_format = starts_with (codes "(");
}

no_array_lem : (t : Text) → is_named t ≡ true → readers.extract_array_len t ≡ none
unfolding is_named starts_with
no_array_lem [] h = refl
no_array_lem (c ∷ t) h = ground arith

no_str_lem : (t : Text) → is_named t ≡ true → readers.extract_str_len t ≡ none
unfolding is_named starts_with
no_str_lem [] h = refl
no_str_lem (c ∷ t) h = ground arith

no_tuple_lem : (t : Text) → is_named t ≡ true → readers.has_tuple_format t ≡ false
unfolding is_named starts_with
no_tuple_lem [] h = refl
no_tuple_lem (c ∷ t) h = ground arith

readers-IsReading : IsReading unary readers
unfolding starts_with after
readers-IsReading = record {
  array_len = λ len h. read_unary_lem len;
  str_len = λ len h. read_unary_lem len;
  tuple_format = refl;
  no_array = no_array_lem;
  no_str = no_str_lem;
  no_tuple = no_tuple_lem;
  str_no_array = λ len h. refl;
  tuple_no_array = refl;
  tuple_no_str = refl;
}

abbrev pair : ParamType
pair = tuple (
    ParamTypes.cons (array u8 2) (
      ParamTypes.cons
        (enum (ParamTypes.cons (string_array 3) ParamTypes.nil) (ParamTypes.cons u8 ParamTypes.nil))
        (ParamTypes.cons (vector u64) ParamTypes.nil)))

try_from-abi_type_of_example : try_from readers (abi_type_of unary pair) ≡ ok pair
unfolding is_well_formed
try_from-abi_type_of_example = try_from-abi_type_of unary readers readers-IsReading pair refl

try_from-Vec_arity_example :
    try_from readers (abi_type (codes "struct Vec") nil nil)
    ≡ ok (struct ParamTypes.nil ParamTypes.nil)
unfolding try_from match_type try_primitive first_match try_array
try_from-Vec_arity_example =
    try_from-Vec_arity unary readers readers-IsReading nil nil ParamTypes.nil ParamTypes.nil refl
      refl refl

-- An array of two element types is no schema.
array_of_two :
    try_from readers (
      abi_type
        (codes "[_; 11]")
        nil
        (cons (abi_type (codes "u8") nil nil) (cons (abi_type (codes "u8") nil nil) nil)))
    ≡ err (codec no_param_type)
unfolding try_from match_type try_primitive first_match try_array read_unary after
array_of_two = refl
