-- ===== src/Codec/Format/Size.antt =====
-- The inline size of a value's format is the width of its type.
use fuels_rs.Prelude.{
  ℕ, ◌+◌, ◌-◌, ◌*◌, ◌≤◌, ◌≡◌, refl, arith, Bool-cases, inl, inr, List, length, length-append,
  length-replicate,
}
use fuels_rs.Prelude.BigEndian.{to_be_bytes, length-to_be_bytes}
use fuels_rs.Utils.{round_up}
use fuels_rs.ParamTypes.{ParamType, ParamTypes, only_units_inside}
use fuels_rs.ParamTypes.Width.{width, width_fields, widest}
use fuels_rs.ParamTypes.Fits.{width-le-widest}
use fuels_rs.Tokens.{External, IsLawful, Token, Tokens, count}
use fuels_rs.Tokens.Typing.{HasType, HasTypes, AreOf}
use fuels_rs.UnresolvedBytes.{Chunks, inline, cons, append, amount_of_inline_bytes}
use fuels_rs.Codec.Format.{
  layout, layout_items, layout_fields, filler, zeros, word_padded, amount-append, amount-filler,
}

pub length-zeros : (n : ℕ) → length (zeros n) ≡ n
length-zeros n = length-replicate {A = ℕ} n 0

pub length-word_padded : (bs : List ℕ) → length (word_padded bs) ≡ round_up (length bs)
length-word_padded bs = omega (
  arith,
  length-append bs (zeros (round_up (length bs) - length bs)),
  length-zeros (round_up (length bs) - length bs),
)

amount-enum :
    (cs : Chunks) (d n : ℕ)
    → amount_of_inline_bytes cs ≤ round_up n
    → amount_of_inline_bytes (
        cons
          (inline (to_be_bytes 8 d))
          (cons (inline (zeros (round_up n - amount_of_inline_bytes cs))) cs))
      ≡ round_up n + 8
unfolding amount_of_inline_bytes
amount-enum cs d n h =
    omega (arith, length-to_be_bytes 8 d, length-zeros (round_up n - amount_of_inline_bytes cs))

module _ (x : External) (l : IsLawful x) where
  mutual
    unfolding layout width amount_of_inline_bytes count

    size-layout :
        {t : Token} {p : ParamType} → HasType t p → amount_of_inline_bytes (layout x t) ≡ width p
    size-layout HasType.unit = omega arith
    size-layout (HasType.u8 h) = omega arith
    size-layout HasType.bool = omega arith
    size-layout (HasType.u16 {n} h) = omega (arith, length-to_be_bytes 2 n)
    size-layout (HasType.u32 {n} h) = omega (arith, length-to_be_bytes 4 n)
    size-layout (HasType.u64 {n} h) = omega (arith, length-to_be_bytes 8 n)
    size-layout (HasType.u128 {n} h) = omega (arith, length-to_be_bytes 16 n)
    size-layout (HasType.u256 {n} h) = omega (arith, l.u256_length n h)
    size-layout (HasType.b256 h) = omega arith
    size-layout (HasType.raw_slice {bs}) = omega (arith, length-to_be_bytes 8 (length bs))
    size-layout (HasType.bytes {bs}) =
        omega
          (arith, length-to_be_bytes 8 (length bs), length-to_be_bytes 8 (length (word_padded bs)))
    size-layout (HasType.string {bs} h) =
        omega
          (arith, length-to_be_bytes 8 (length bs), length-to_be_bytes 8 (length (word_padded bs)))
    size-layout (HasType.string_slice {bs} h) = omega (arith, length-to_be_bytes 8 (length bs))
    size-layout (HasType.string_array {bs} h e) = rw (← e) (omega (arith, length-word_padded bs))
    size-layout (HasType.vector {ts} h) = omega (arith, length-to_be_bytes 8 (count ts))
    size-layout (HasType.array {p = p} h e) = rw (← e) (size-layout_items h)
    size-layout (HasType.tuple h) = size-layout_fields h
    size-layout (HasType.struct h) = size-layout_fields h
    size-layout (HasType.enum {d} {t} {p} {vs} lt e h) = elim (Bool-cases (only_units_inside vs)) [
      | inl u ↦ rw u (omega (arith, length-to_be_bytes 8 d))
      | inr u ↦ rw u (
          amount-enum (layout x t) d (widest vs)
            (omega (arith, size-layout h, width-le-widest vs d e)))
    ]

    size-layout_items :
        {ts : Tokens} {p : ParamType}
        → AreOf ts p
        → amount_of_inline_bytes (layout_items x ts) ≡ width p * count ts
    size-layout_items (AreOf.empty {p}) = omega arith
    size-layout_items (AreOf.more {t} {p} {ts} h hs) =
        omega (
          arith,
          amount-append (layout x t) (layout_items x ts),
          size-layout h,
          size-layout_items hs,
        )

    size-layout_fields :
        {ts : Tokens} {ps : ParamTypes}
        → HasTypes ts ps
        → amount_of_inline_bytes (layout_fields x ts) ≡ width_fields ps
    size-layout_fields HasTypes.nil = refl
    size-layout_fields (HasTypes.cons {t} {p} {ts} {ps} h hs) = omega (
      arith,
      amount-append (append (layout x t) (filler (layout x t))) (layout_fields x ts),
      amount-filler (layout x t),
      size-layout h,
      size-layout_fields hs,
    )

  -- A value takes as many bytes in place as its type is wide.
  pub amount-layout :
      {t : Token} {p : ParamType} → HasType t p → amount_of_inline_bytes (layout x t) ≡ width p
  amount-layout h = size-layout h

  pub amount-layout_items :
      {ts : Tokens} {p : ParamType}
      → AreOf ts p
      → amount_of_inline_bytes (layout_items x ts) ≡ width p * count ts
  amount-layout_items h = size-layout_items h

  pub amount-layout_fields :
      {ts : Tokens} {ps : ParamTypes}
      → HasTypes ts ps
      → amount_of_inline_bytes (layout_fields x ts) ≡ width_fields ps
  amount-layout_fields h = size-layout_fields h
