-- ===== src/Codec/Decoder/Enum.antt =====
-- Decoding an enum whose variants hold no heap data.
use mathlib.Core.Option.{some-injective}
use fuels_rs.Prelude.{
  le→ltb, lt→ltb, ℕ, zero, suc, ◌+◌, ◌-◌, ◌<◌, ◌^◌, ◌≡◌, refl, ap, ◌∙◌, sym, arith, subst, true,
  false, List, ◌++◌, drop, get_elem?, none, some, append_assoc, length-append,
}
use fuels_rs.Prelude.BigEndian.{to_be_bytes, length-to_be_bytes}
use fuels_rs.Errors.{ok}
use fuels_rs.Utils.{usize_limit, round_up}
use fuels_rs.ParamTypes.{
  ParamType, ParamTypes, get?, only_units_inside, param_type_of_variant-eq,
  compute_encoding_in_bytes, compute_enum_width_in_bytes,
}
use fuels_rs.ParamTypes.Receipts.{is_extra_receipt_needed, any_extra, heap_type_from}
use fuels_rs.ParamTypes.Receipts.Validation.{or-eq-false}
use fuels_rs.ParamTypes.Width.{width, widest}
use fuels_rs.ParamTypes.Fits.{
  FitsAll, FitsAll-get?, width-le-widest, compute_encoding_in_bytes-eq,
  compute_enum_width_in_bytes-eq,
}
use fuels_rs.Tokens.{External, Token}
use fuels_rs.Tokens.Typing.{HasType}
use fuels_rs.Codec.Counter.{Trackers, pure, spend, spend-zero}
use fuels_rs.Codec.Format.{zeros}
use fuels_rs.Codec.Format.Size.{length-zeros}
use fuels_rs.Codec.Decoder.{
  decoded, counted, decode_kind, decoders, decode_enum, decode_token_in_enum, skip_extra_in_bytes,
  skip, select,
}
use fuels_rs.Codec.Decoder.Peek.{peek_number-append, skip-append, At, skip-At}

-- The selected variant is decoded by its decoder.
get-decoders :
    (x : External) (vs : ParamTypes) (d : ℕ) (p : ParamType)
    → get? vs d ≡ some p
    → get_elem? (decoders x vs) d ≡ some (counted (decode_kind x p))
unfolding get? decode_kind
get-decoders x ParamTypes.nil d p e = cc
get-decoders x (ParamTypes.cons q vs) zero p e =
    ap (λ r. some (counted (decode_kind x r))) (some-injective q p e)
get-decoders x (ParamTypes.cons q vs) (suc d) p e = get-decoders x vs d p e

-- No variant is on the heap, so none is skipped for.
pub heap-get? :
    (vs : ParamTypes) (d : ℕ) (p : ParamType)
    → any_extra vs ≡ false
    → get? vs d ≡ some p
    → is_extra_receipt_needed p false ≡ false
unfolding get? is_extra_receipt_needed
heap-get? ParamTypes.nil d p h e = cc
heap-get? (ParamTypes.cons q vs) zero p h e =
    subst (λ r. is_extra_receipt_needed r false ≡ false) (some-injective q p e)
      (or-eq-false _ _ h).0
heap-get? (ParamTypes.cons q vs) (suc d) p h e = heap-get? vs d p (or-eq-false _ _ h).1 e

heap_type_from-none : (vs : ParamTypes) (d : ℕ) → any_extra vs ≡ false → heap_type_from d vs ≡ none
unfolding heap_type_from
heap_type_from-none ParamTypes.nil d h = refl
heap_type_from-none (ParamTypes.cons p ps) d h =
    let (e, es) = or-eq-false (is_extra_receipt_needed p false) (any_extra ps) h in
    rw e (heap_type_from-none ps (d + 1) es)

skip_extra-zero : (vs : ParamTypes) (d : ℕ) → any_extra vs ≡ false → skip_extra_in_bytes vs d ≡ ok 0
unfolding skip_extra_in_bytes
skip_extra-zero vs d h = rw (heap_type_from-none vs 0 h, skip_extra_in_bytes)

-- The value of an enum of units is the unit.
pub unit-get? :
    (vs : ParamTypes) (d : ℕ) (p : ParamType)
    → only_units_inside vs ≡ true
    → get? vs d ≡ some p
    → p ≡ ParamType.unit
unfolding only_units_inside get?
unit-get? ParamTypes.nil d p u e = cc
unit-get? (ParamTypes.cons ParamType.unit vs) zero p u e = sym (some-injective ParamType.unit p e)
unit-get? (ParamTypes.cons q vs) zero p u e = ground arith
unit-get? (ParamTypes.cons q vs) (suc d) p u e = unit-get? vs d p (ground arith) e

unit_token : {t : Token} {p : ParamType} → HasType t p → p ≡ ParamType.unit → t ≡ Token.unit
unit_token HasType.unit e = refl
unit_token _ e = cc

enum_width-units :
    (vs : ParamTypes) → only_units_inside vs ≡ true → compute_enum_width_in_bytes vs ≡ ok 8
unfolding compute_enum_width_in_bytes
enum_width-units vs u = rw u

unit_width : compute_encoding_in_bytes ParamType.unit ≡ ok 1
unfolding compute_encoding_in_bytes
unit_width = refl

module _ (x : External) (vs : ParamTypes) (d : ℕ) (t : Token) (p : ParamType) (typed : HasType t p)
    (lt : d < 2 ^ 64) (e : get? vs d ≡ some p) (inline : any_extra vs ≡ false) (rest : List ℕ)
    (s : Trackers) where
  selected :
      (bytes : List ℕ)
      → only_units_inside vs ≡ false
      → decode_token_in_enum (decoders x vs) vs d bytes ≡ counted (decode_kind x p) bytes
  unfolding decode_token_in_enum
  selected bytes u = rw u (rw (get-decoders x vs d p e, select))

  selected-units :
      (bytes : List ℕ)
      → only_units_inside vs ≡ true
      → decode_token_in_enum (decoders x vs) vs d bytes ≡ pure (decoded Token.unit 0)
  unfolding decode_token_in_enum
  selected-units bytes u = rw u

  pub decode_enum-units :
      only_units_inside vs ≡ true
      → decode_enum (decoders x vs) vs (to_be_bytes 8 d ++ rest) s
        ≡ ok (decoded (Token.enum d t vs) 8, spend 0 s)
  unfolding decode_enum
  decode_enum-units u =
      let bytes = to_be_bytes 8 d ++ rest in
      let long : At bytes 7 (drop 7 bytes) =
        (omega (arith, length-append (to_be_bytes 8 d) rest, length-to_be_bytes 8 d), refl) in
      rw
        (
          enum_width-units vs u,
          peek_number-append 8 d rest (omega arith),
          param_type_of_variant-eq vs d p e,
          skip_extra-zero vs d inline,
          ap compute_encoding_in_bytes (unit-get? vs d p u e) ∙ unit_width,
          skip-At bytes 7 (drop 7 bytes) long,
          selected-units (drop 7 bytes) u,
        )
        (ap (λ r. ok (decoded (Token.enum d r vs) 8, s))
            (sym (unit_token typed (unit-get? vs d p u e)))
          ∙ ap (λ r. ok (decoded (Token.enum d t vs) 8, r)) (sym (spend-zero s)))

  pub decode_enum-variant :
      (limit : ℕ) (content : List ℕ) (s' : Trackers) (n : ℕ)
      → only_units_inside vs ≡ false
      → FitsAll limit vs
      → round_up (widest vs) + 8 < usize_limit
      → counted (decode_kind x p) (content ++ rest) s ≡ ok (decoded t n, s')
      → decode_enum
          (decoders x vs)
          vs
          (to_be_bytes 8 d ++ (zeros (round_up (widest vs) - width p) ++ (content ++ rest)))
          s
        ≡ ok (decoded (Token.enum d t vs) (round_up (widest vs) + 8), s')
  unfolding decode_enum
  decode_enum-variant limit content s' n u fs fit run =
      let front = to_be_bytes 8 d ++ zeros (round_up (widest vs) - width p) in
      let skipped : skip
            (to_be_bytes 8 d ++ (zeros (round_up (widest vs) - width p) ++ (content ++ rest)))
            (round_up (widest vs) + 8 - width p + 0)
          ≡ ok (content ++ rest) =
        rw
          (← append_assoc (to_be_bytes 8 d) (zeros (round_up (widest vs) - width p))
            (content ++ rest))
          (skip-append front (content ++ rest) _ (
            omega (
              arith,
              length-append (to_be_bytes 8 d) (zeros (round_up (widest vs) - width p)),
              length-to_be_bytes 8 d,
              length-zeros (round_up (widest vs) - width p),
              width-le-widest vs d e,
            ))) in
      rw (
        compute_enum_width_in_bytes-eq limit vs fs fit u,
        peek_number-append 8 d (zeros (round_up (widest vs) - width p) ++ (content ++ rest))
            (omega arith),
        param_type_of_variant-eq vs d p e,
        skip_extra-zero vs d inline,
        compute_encoding_in_bytes-eq limit p (FitsAll-get? limit vs d fs e),
        le→ltb (round_up (widest vs) + 8) (width p) (omega (arith, width-le-widest vs d e)),
        lt→ltb (round_up (widest vs) + 8 - width p + 0) usize_limit (omega (arith, fit)),
        skipped,
        selected (content ++ rest) u,
        run,
      )
