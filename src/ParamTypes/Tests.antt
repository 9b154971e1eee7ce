-- ===== src/ParamTypes/Tests.antt =====
-- Widths of concrete types, and the theorems on types at these.
use fuels_rs.Prelude.{◌<◌, ◌≡◌, refl, arith}
use fuels_rs.Errors.{ok, err, codec, size_overflow}
use fuels_rs.Utils.{usize_limit, checked_round_up_to_word_alignment, checked_add, checked_mul}
use fuels_rs.ParamTypes.{
  ParamType, u8, bool, u64, b256, array, struct, enum, nil, cons, only_units_inside,
  compute_encoding_in_bytes, enum_width,
}
use fuels_rs.ParamTypes.Width.{width, compute_encoding_in_bytes-width}
use fuels_rs.ParamTypes.Fits.{compute_encoding_in_bytes-eq}

-- struct { u8, enum { bool, u64 }, [b256; 2] }
abbrev sample : ParamType
sample = struct (cons u8 (cons (enum (cons bool (cons u64 nil)) nil) (cons (array b256 2) nil))) nil

sample_width : compute_encoding_in_bytes sample ≡ ok 88
unfolding compute_encoding_in_bytes only_units_inside checked_round_up_to_word_alignment checked_add
    checked_mul enum_width
sample_width = refl

-- An array as wide as the address space.
too_long : compute_encoding_in_bytes (array b256 usize_limit) ≡ err (codec size_overflow)
unfolding compute_encoding_in_bytes checked_mul
too_long = refl

compute_encoding_in_bytes-width_example : (88 ≡ width sample) × (88 < usize_limit)
compute_encoding_in_bytes-width_example = compute_encoding_in_bytes-width sample 88 sample_width

compute_encoding_in_bytes-eq_example : compute_encoding_in_bytes sample ≡ ok (width sample)
unfolding width only_units_inside
compute_encoding_in_bytes-eq_example = compute_encoding_in_bytes-eq 100 sample (omega arith)
