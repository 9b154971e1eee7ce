-- ===== src/ParamTypes/FromType/RoundTrip.antt =====
-- fuels-core/src/types/param_types.rs: a schema survives its description by an ABI type, and a
-- `Vec` with a wrong number of arguments does not.
use fuels_rs.Prelude.{ℕ, ◌≡◌, refl, ap, ◌∙◌, true, false, ◌&&◌, ltb}
use fuels_rs.Utils.{usize_limit}
use fuels_rs.Errors.{ok, Text}
use fuels_rs.ParamTypes.{
  ParamType, ParamTypes, unit, bool, u8, u16, u32, u64, u128, u256, b256, bytes, string, raw_slice,
  string_slice, string_array, tuple, array, vector, struct, enum,
}
use fuels_rs.Codec.Selector.{codes}
use fuels_rs.ParamTypes.FromType.{
  same_text, AbiTypes, abi_type, nil, Readers, starts_with, match_type, first_match, try_primitive,
  try_str_slice, try_vector, try_bytes, try_std_string, try_raw_slice, try_enum, try_u128, try_u256,
  try_struct, try_from, try_from_all,
}
use fuels_rs.ParamTypes.FromType.{is_single}
use fuels_rs.ParamTypes.FromType.Matched.{
  both_true, match-array, match-enum, match-scalars, match-str, match-struct, match-tuple,
  match-vec, past,
}
use fuels_rs.ParamTypes.FromType.Canonical.{
  is_named, IsReading, abi_type_of, abi_types_of, is_well_formed, all_well_formed,
}

module _ (digits : ℕ → Text) (readers : Readers) (r : IsReading digits readers) where
  mutual
    unfolding abi_type_of is_well_formed try_from match_type first_match try_primitive

    reads_back :
        (p : ParamType) → is_well_formed p ≡ true → try_from readers (abi_type_of digits p) ≡ ok p
    reads_back unit h = refl
    reads_back bool h = refl
    reads_back u8 h = refl
    reads_back u16 h = refl
    reads_back u32 h = refl
    reads_back u64 h = refl
    reads_back b256 h = refl
    reads_back string_slice h = refl
    reads_back u128 h = (match-scalars digits readers r).0
    reads_back u256 h = (match-scalars digits readers r).1
    reads_back bytes h = (match-scalars digits readers r).2
    reads_back string h = (match-scalars digits readers r).3
    reads_back raw_slice h = (match-scalars digits readers r).4
    reads_back (string_array len) h = match-str digits readers r len h
    reads_back (tuple ps) h =
        ap (match_type readers (codes "(_, _)") nil (abi_types_of digits ps) (ok ParamTypes.nil))
          (read_back ps h)
        ∙ match-tuple digits readers r (abi_types_of digits ps) ps
    reads_back (array p len) h =
        let both = both_true (ltb len usize_limit) (is_well_formed p) h in
        rw (reads_back p both.1) (match-array digits readers r len (abi_type_of digits p) p both.0)
    reads_back (vector p) h =
        rw (reads_back p h)
          (match-vec digits readers r (abi_type_of digits p) p (ok ParamTypes.nil))
    reads_back (struct fields generics) h =
        let both = both_true (all_well_formed fields) (all_well_formed generics) h in
        rw (read_back fields both.0, read_back generics both.1)
          (match-struct digits readers r (abi_types_of digits generics) (abi_types_of digits fields)
            generics fields)
    reads_back (enum ParamTypes.nil generics) h = cc
    reads_back (enum (ParamTypes.cons p ps) generics) h =
        let both =
          both_true (is_well_formed p && all_well_formed ps) (all_well_formed generics) h in
        rw (read_back (ParamTypes.cons p ps) both.0, read_back generics both.1)
          (match-enum digits readers r (abi_types_of digits generics)
            (abi_types_of digits (ParamTypes.cons p ps)) generics p ps)

    read_back :
        (ps : ParamTypes)
        → all_well_formed ps ≡ true
        → try_from_all readers (abi_types_of digits ps) ≡ ok ps
    read_back ParamTypes.nil h = refl
    read_back (ParamTypes.cons p ps) h =
        let both = both_true (is_well_formed p) (all_well_formed ps) h in
        rw (reads_back p both.0, read_back ps both.1) refl

  -- The ABI type that describes a schema, in which every enum has a variant and every length is a
  -- usize, is converted to the schema itself, by readers that read what the description writes.
  pub try_from-abi_type_of :
      (p : ParamType) → is_well_formed p ≡ true → try_from readers (abi_type_of digits p) ≡ ok p
  try_from-abi_type_of p h = reads_back p h

  -- A `Vec` that has not exactly one generic argument, where its generic arguments and its
  -- components convert, is converted to a struct of these.
  pub try_from-Vec_arity :
      (generics components : AbiTypes) (gs fields : ParamTypes)
      → is_single generics ≡ false
      → try_from_all readers generics ≡ ok gs
      → try_from_all readers components ≡ ok fields
      → try_from readers (abi_type (codes "struct Vec") generics components) ≡ ok (struct fields gs)
  unfolding try_from first_match try_primitive try_str_slice try_vector try_bytes try_std_string
      try_raw_slice try_enum try_u128 try_u256 try_struct starts_with is_named same_text
  try_from-Vec_arity generics components gs fields h g f =
      rw (try_from, g, f)
        (past digits readers r (codes "struct Vec") generics components (ok gs) (ok fields) refl
          ∙ rw h refl)
