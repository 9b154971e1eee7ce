-- ===== src/ParamTypes/Receipts.antt =====
-- fuels-core/src/types/param_types.rs: which types live on the heap and need an extra receipt, and
-- which are refused before decoding. The text of `DebugWithDepth` in an error is not modelled.
pub mod Validation
use fuels_rs.Prelude.{
  ℕ, zero, suc, ◌+◌, ltb, if◌then◌else◌, Bool, true, false, not, ◌||◌, Option, none, some, List, [],
  ◌∷◌,
}
use fuels_rs.Errors.{
  Result, ok, err, ◌>>=◌, ◌>>◌, codec, nested_heap_types, enum_heap_too_deep, enum_heap_variants,
}
use fuels_rs.ParamTypes.{
  ParamType, ParamTypes, unit, bool, u8, u64, bytes, string, raw_slice, string_slice, tuple, array,
  vector, struct, enum, nil, cons, compute_encoding_in_bytes,
}

pub data ReturnLocation : Type 0 where
  in_return in_return_data : ReturnLocation

unfoldable pub get_return_location : ParamType → ReturnLocation
get_return_location unit = in_return
get_return_location u8 = in_return
get_return_location ParamType.u16 = in_return
get_return_location ParamType.u32 = in_return
get_return_location u64 = in_return
get_return_location bool = in_return
get_return_location _ = in_return_data

-- `is_extra_receipt_needed(top_level_type)`, and whether it is needed for any of a list.
unfoldable mutual
  pub is_extra_receipt_needed : ParamType → Bool → Bool
  is_extra_receipt_needed (vector p) top = true
  is_extra_receipt_needed bytes top = true
  is_extra_receipt_needed string top = true
  is_extra_receipt_needed (array p n) top = is_extra_receipt_needed p false
  is_extra_receipt_needed (struct fields generics) top = any_extra fields || any_extra generics
  is_extra_receipt_needed (enum variants generics) top = any_extra variants || any_extra generics
  is_extra_receipt_needed (tuple elements) top = any_extra elements
  is_extra_receipt_needed raw_slice top = not top
  is_extra_receipt_needed string_slice top = not top
  is_extra_receipt_needed _ top = false

  pub any_extra : ParamTypes → Bool
  any_extra nil = false
  any_extra (cons p ps) = is_extra_receipt_needed p false || any_extra ps

unfoldable pub children_need_extra_receipts : ParamType → Bool
unfolding is_extra_receipt_needed
children_need_extra_receipts (array p n) = is_extra_receipt_needed p false
children_need_extra_receipts (vector p) = is_extra_receipt_needed p false
children_need_extra_receipts (struct fields generics) = any_extra fields
children_need_extra_receipts (enum variants generics) = any_extra variants
children_need_extra_receipts (tuple elements) = any_extra elements
children_need_extra_receipts _ = false

-- The two passes over the variants of an enum.
unfoldable pub grandchildren_need_receipts : ParamTypes → Bool
unfolding children_need_extra_receipts
grandchildren_need_receipts nil = false
grandchildren_need_receipts (cons p ps) =
    children_need_extra_receipts p || grandchildren_need_receipts ps

unfoldable pub num_of_children_needing_receipts : ParamTypes → ℕ
unfolding is_extra_receipt_needed
num_of_children_needing_receipts nil = 0
num_of_children_needing_receipts (cons p ps) =
    (if is_extra_receipt_needed p false then 1 else 0) + num_of_children_needing_receipts ps

unfoldable pub check_heap_types : ParamType → Result (Unit {0})
unfolding grandchildren_need_receipts num_of_children_needing_receipts
check_heap_types (enum variants generics) =
    let n = num_of_children_needing_receipts variants in
    if grandchildren_need_receipts variants
    then err (codec enum_heap_too_deep)
    else if ltb 1 n
    then err (codec (enum_heap_variants n))
    else ok tt
check_heap_types p = if children_need_extra_receipts p then err (codec nested_heap_types) else ok tt

unfoldable pub validate_is_decodable : ParamType → Result (Unit {0})
unfolding check_heap_types compute_encoding_in_bytes
validate_is_decodable p = do check_heap_types p; compute_encoding_in_bytes p; ok tt

-- `heap_type_variant`: the first variant that lives on the heap, with its discriminant.
unfoldable pub heap_type_from : ℕ → ParamTypes → Option (ℕ × ParamType)
unfolding is_extra_receipt_needed
heap_type_from d nil = none
heap_type_from d (cons p ps) =
    if is_extra_receipt_needed p false then some (d, p) else heap_type_from (d + 1) ps

unfoldable pub heap_type_variant : ParamTypes → Option (ℕ × ParamType)
unfolding heap_type_from
heap_type_variant variants = heap_type_from 0 variants

-- The size of one element of the heap data.
unfoldable pub heap_inner_element_size : ParamType → Bool → Result (Option ℕ)
unfolding compute_encoding_in_bytes
heap_inner_element_size (vector p) top = do size ← compute_encoding_in_bytes p; ok (some size)
heap_inner_element_size bytes top = ok (some 1)
heap_inner_element_size string top = ok (some 1)
heap_inner_element_size string_slice top =
    if top then ok none else do size ← compute_encoding_in_bytes u8; ok (some size)
heap_inner_element_size raw_slice top =
    if top then ok none else do size ← compute_encoding_in_bytes u64; ok (some size)
heap_inner_element_size _ top = ok none
