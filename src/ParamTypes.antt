-- ===== src/ParamTypes.antt =====
-- fuels-core/src/types/param_types.rs and types/enum_variants.rs: the schema of a value, the width
-- of its encoding and the checks before decoding. `EnumVariants` is its list of variants.
pub mod Receipts
pub mod Width
pub mod Fits
pub mod FromType
mod Tests
use fuels_rs.Prelude.{
  ℕ, zero, suc, ◌+◌, ◌-◌, ◌%◌, ◌/◌, ◌≡◌, max, ltb, ◌==◌, if◌then◌else◌, Bool, true, false, not,
  ◌||◌, ◌&&◌, Option, none, some,
}
use fuels_rs.Errors.{
  Result, ok, err, ◌>>=◌, ◌>>◌, codec, other, map_err, Error, size_overflow, too_wide, zero_sized,
  extra_bytes, nested_heap_types, enum_heap_too_deep, enum_heap_variants, no_variants,
  unknown_discriminant,
}
use fuels_rs.Utils.{
  sub_usize, checked_round_up_to_word_alignment, checked_add, checked_mul,
  enum_discriminant_byte_width,
}

-- `ParamTypes` is `Vec<ParamType>`.
mutual
  pub data ParamType : Type 0 where
    unit bool u8 u16 u32 u64 u128 u256 b256 bytes string raw_slice string_slice : ParamType
    string_array : ℕ → ParamType
    tuple : ParamTypes → ParamType
    array : ParamType → ℕ → ParamType
    vector : ParamType → ParamType
    struct : ParamTypes → ParamTypes → ParamType
    enum : ParamTypes → ParamTypes → ParamType

  pub data ParamTypes : Type 0 where
    nil : ParamTypes
    cons : ParamType → ParamTypes → ParamTypes

-- `EnumVariants::new`
unfoldable pub new_variants : ParamTypes → Result ParamTypes
new_variants nil = err (other no_variants)
new_variants (cons p ps) = ok (cons p ps)

unfoldable pub get? : ParamTypes → ℕ → Option ParamType
get? nil d = none
get? (cons p ps) zero = some p
get? (cons p ps) (suc d) = get? ps d

unfoldable pub param_type_of_variant : ParamTypes → ℕ → Result ParamType
param_type_of_variant variants d = elim (get? variants d) [
  | none ↦ err (other (unknown_discriminant d))
  | some p ↦ ok p
]

unfoldable pub is_unit : ParamType → Bool
is_unit unit = true
is_unit _ = false

unfoldable pub only_units_inside : ParamTypes → Bool
unfolding is_unit
only_units_inside nil = true
only_units_inside (cons p ps) = is_unit p && only_units_inside ps

-- `compute_enum_width_in_bytes` on the folded width of the variants.
unfoldable pub enum_width : ParamTypes → Result ℕ → Result ℕ
unfolding only_units_inside checked_round_up_to_word_alignment checked_add
enum_width variants widest =
    if only_units_inside variants then ok enum_discriminant_byte_width else do
      width ← widest
      rounded ← checked_round_up_to_word_alignment width
      checked_add (other too_wide) rounded enum_discriminant_byte_width

-- The accumulators are those of `try_fold`.
unfoldable mutual
  unfolding checked_round_up_to_word_alignment checked_add checked_mul enum_width

  pub compute_encoding_in_bytes : ParamType → Result ℕ
  compute_encoding_in_bytes unit = ok 1
  compute_encoding_in_bytes bool = ok 1
  compute_encoding_in_bytes u8 = ok 1
  compute_encoding_in_bytes u16 = ok 8
  compute_encoding_in_bytes u32 = ok 8
  compute_encoding_in_bytes u64 = ok 8
  compute_encoding_in_bytes u128 = ok 16
  compute_encoding_in_bytes raw_slice = ok 16
  compute_encoding_in_bytes string_slice = ok 16
  compute_encoding_in_bytes u256 = ok 32
  compute_encoding_in_bytes b256 = ok 32
  compute_encoding_in_bytes (vector p) = ok 24
  compute_encoding_in_bytes bytes = ok 24
  compute_encoding_in_bytes string = ok 24
  compute_encoding_in_bytes (array p count) = do
    size ← compute_encoding_in_bytes p
    checked_mul (codec size_overflow) size count
  compute_encoding_in_bytes (string_array len) =
      map_err (codec size_overflow) (checked_round_up_to_word_alignment len)
  compute_encoding_in_bytes (tuple fields) = fold_fields fields 0
  compute_encoding_in_bytes (struct fields generics) = fold_fields fields 0
  compute_encoding_in_bytes (enum variants generics) =
      map_err (codec size_overflow) (enum_width variants (fold_variants variants 0))

  pub fold_fields : ParamTypes → ℕ → Result ℕ
  fold_fields nil a = ok a
  fold_fields (cons p ps) a = do
    width ← compute_encoding_in_bytes p
    size ← checked_round_up_to_word_alignment width
    total ← checked_add (codec size_overflow) a size
    fold_fields ps total

  pub fold_variants : ParamTypes → ℕ → Result ℕ
  fold_variants nil a = ok a
  fold_variants (cons p ps) a = do size ← compute_encoding_in_bytes p; fold_variants ps (max a size)

unfoldable pub compute_enum_width_in_bytes : ParamTypes → Result ℕ
unfolding enum_width compute_encoding_in_bytes
compute_enum_width_in_bytes variants = enum_width variants (fold_variants variants 0)

unfoldable pub compute_padding_amount_in_bytes : ParamTypes → ParamType → Result ℕ
compute_padding_amount_in_bytes variants variant = do
  enum_width ← compute_enum_width_in_bytes variants
  biggest_variant_width ← sub_usize enum_width enum_discriminant_byte_width
  variant_width ← compute_encoding_in_bytes variant
  sub_usize biggest_variant_width variant_width

unfoldable pub calculate_num_of_elements : ParamType → ℕ → Result ℕ
unfolding compute_encoding_in_bytes
calculate_num_of_elements p available_bytes = do
  memory_size ← compute_encoding_in_bytes p
  if memory_size == 0
      then err (codec zero_sized)
      else if available_bytes % memory_size == 0
      then ok (available_bytes / memory_size)
      else err (codec extra_bytes)

pub param_type_of_variant-eq :
    (vs : ParamTypes) (d : ℕ) (p : ParamType)
    → get? vs d ≡ some p
    → param_type_of_variant vs d ≡ ok p
unfolding param_type_of_variant
param_type_of_variant-eq vs d p e = rw (e, param_type_of_variant)
