-- ===== src/ParamTypes/FromType/Matched.antt =====
-- fuels-core/src/types/param_types.rs: which conversion is the first to apply to which declaration.
use fuels_rs.Prelude.{ℕ, ◌≡◌, refl, Bool, true, false, ◌&&◌, ltb, none, [], ◌∷◌}
use fuels_rs.Utils.{usize_limit}
use fuels_rs.Errors.{Result, ok, Text}
use fuels_rs.ParamTypes.{
  ParamType, ParamTypes, u128, u256, bytes, string, raw_slice, string_array, tuple, array, vector,
  struct, enum, new_variants,
}
use fuels_rs.Codec.Selector.{codes}
use fuels_rs.ParamTypes.FromType.{
  same_text, AbiType, AbiTypes, nil, cons, Readers, starts_with, match_type, first_match,
  try_primitive, try_array, try_str_array, try_str_slice, try_tuple, try_vector, try_bytes,
  try_std_string, try_raw_slice, try_enum, try_u128, try_u256, try_struct,
}
use fuels_rs.ParamTypes.FromType.Canonical.{is_named, IsReading, array_text, str_text}

pub both_true : (a b : Bool) → (a && b) ≡ true → (a ≡ true) × (b ≡ true)
both_true true true h = (refl, refl)
both_true true false h = cc
both_true false b h = cc

module _ (digits : ℕ → Text) (readers : Readers) (r : IsReading digits readers) where
  array_past :
      (f : Text) (components : AbiTypes) (cs : Result ParamTypes)
      → is_named f ≡ true
      → try_array readers f components cs ≡ ok none
  unfolding try_array
  array_past f components cs h = rw (try_array, r.no_array f h) refl

  str_past : (f : Text) → is_named f ≡ true → try_str_array readers f ≡ ok none
  unfolding try_str_array
  str_past f h = rw (try_str_array, r.no_str f h) refl

  tuple_past :
      (f : Text) (cs : Result ParamTypes) → is_named f ≡ true → try_tuple readers f cs ≡ ok none
  unfolding try_tuple
  tuple_past f cs h = rw (try_tuple, r.no_tuple f h) refl

  -- What remains to be tried for a text that is not that of an array, a string or a tuple.
  pub past :
      (f : Text) (generics components : AbiTypes) (gs cs : Result ParamTypes)
      → is_named f ≡ true
      → match_type readers f generics components gs cs
        ≡ first_match (
            try_primitive f
            ∷ ok none
            ∷ ok none
            ∷ try_str_slice f
            ∷ ok none
            ∷ try_vector f generics gs
            ∷ try_bytes f
            ∷ try_std_string f
            ∷ try_raw_slice f
            ∷ try_enum f gs cs
            ∷ try_u128 f
            ∷ try_u256 f
            ∷ try_struct f gs cs
            ∷ [])
  unfolding match_type
  past f generics components gs cs a = λ k. first_match (
      try_primitive f
      ∷ array_past f components cs a k
      ∷ str_past f a k
      ∷ try_str_slice f
      ∷ tuple_past f cs a k
      ∷ try_vector f generics gs
      ∷ try_bytes f
      ∷ try_std_string f
      ∷ try_raw_slice f
      ∷ try_enum f gs cs
      ∷ try_u128 f
      ∷ try_u256 f
      ∷ try_struct f gs cs
      ∷ [])

  pub match-vec :
      (t : AbiType) (p : ParamType) (cs : Result ParamTypes)
      → match_type readers
          (codes "struct std::vec::Vec")
          (cons t nil)
          nil
          (ok (ParamTypes.cons p ParamTypes.nil))
          cs
        ≡ ok (vector p)
  unfolding first_match try_primitive try_str_slice try_vector starts_with is_named same_text
  match-vec t p cs =
      past (codes "struct std::vec::Vec") (cons t nil) nil (ok (ParamTypes.cons p ParamTypes.nil))
        cs refl

  pub match-struct :
      (generics components : AbiTypes) (gs fields : ParamTypes)
      → match_type readers (codes "struct S") generics components (ok gs) (ok fields)
        ≡ ok (struct fields gs)
  unfolding first_match try_primitive try_str_slice try_vector try_bytes try_std_string
      try_raw_slice try_enum try_u128 try_u256 try_struct starts_with is_named same_text
  match-struct generics components gs fields =
      past (codes "struct S") generics components (ok gs) (ok fields) refl

  pub match-enum :
      (generics components : AbiTypes) (gs : ParamTypes) (p : ParamType) (ps : ParamTypes)
      → match_type readers (codes "enum E") generics components (ok gs) (ok (ParamTypes.cons p ps))
        ≡ ok (enum (ParamTypes.cons p ps) gs)
  unfolding first_match try_primitive try_str_slice try_vector try_bytes try_std_string
      try_raw_slice try_enum try_u128 try_u256 try_struct starts_with is_named same_text
      new_variants
  match-enum generics components gs p ps =
      past (codes "enum E") generics components (ok gs) (ok (ParamTypes.cons p ps)) refl

  pub match-scalars :
      (match_type readers
          (codes "struct std::u128::U128")
          nil
          nil
          (ok ParamTypes.nil)
          (ok ParamTypes.nil)
        ≡ ok u128)
      × (match_type readers
            (codes "struct std::u256::U256")
            nil
            nil
            (ok ParamTypes.nil)
            (ok ParamTypes.nil)
          ≡ ok u256)
      × (match_type readers
            (codes "struct std::bytes::Bytes")
            nil
            nil
            (ok ParamTypes.nil)
            (ok ParamTypes.nil)
          ≡ ok bytes)
      × (match_type readers
            (codes "struct std::string::String")
            nil
            nil
            (ok ParamTypes.nil)
            (ok ParamTypes.nil)
          ≡ ok string)
      × (match_type readers
            (codes "raw untyped slice")
            nil
            nil
            (ok ParamTypes.nil)
            (ok ParamTypes.nil)
          ≡ ok raw_slice)
  unfolding first_match try_primitive try_str_slice try_vector try_bytes try_std_string
      try_raw_slice try_enum try_u128 try_u256 try_struct starts_with is_named same_text
  match-scalars = (
    past (codes "struct std::u128::U128") nil nil (ok ParamTypes.nil) (ok ParamTypes.nil) refl,
    past (codes "struct std::u256::U256") nil nil (ok ParamTypes.nil) (ok ParamTypes.nil) refl,
    past (codes "struct std::bytes::Bytes") nil nil (ok ParamTypes.nil) (ok ParamTypes.nil) refl,
    past (codes "struct std::string::String") nil nil (ok ParamTypes.nil) (ok ParamTypes.nil) refl,
    past (codes "raw untyped slice") nil nil (ok ParamTypes.nil) (ok ParamTypes.nil) refl,
  )

  pub match-tuple :
      (components : AbiTypes) (ps : ParamTypes)
      → match_type readers (codes "(_, _)") nil components (ok ParamTypes.nil) (ok ps)
        ≡ ok (tuple ps)
  unfolding match_type first_match try_primitive try_str_slice try_array try_str_array try_tuple
      starts_with is_named same_text
  match-tuple components ps =
      rw
        (
          match_type, try_array, try_str_array, try_tuple, r.tuple_no_array, r.tuple_no_str,
          r.tuple_format,
        )
        refl

  pub match-array :
      (len : ℕ) (t : AbiType) (p : ParamType)
      → ltb len usize_limit ≡ true
      → match_type readers
          (array_text digits len)
          nil
          (cons t nil)
          (ok ParamTypes.nil)
          (ok (ParamTypes.cons p ParamTypes.nil))
        ≡ ok (array p len)
  unfolding match_type first_match try_primitive try_array
  match-array len t p h = rw (match_type, try_array, r.array_len len h) refl

  pub match-str :
      (len : ℕ)
      → ltb len usize_limit ≡ true
      → match_type readers (str_text digits len) nil nil (ok ParamTypes.nil) (ok ParamTypes.nil)
        ≡ ok (string_array len)
  unfolding match_type first_match try_primitive try_array try_str_array starts_with is_named
      same_text
  match-str len h =
      rw (match_type, try_array, try_str_array, r.str_no_array len h, r.str_len len h) refl
