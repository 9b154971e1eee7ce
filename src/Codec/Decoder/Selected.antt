-- ===== src/Codec/Decoder/Selected.antt =====
-- The bytes that the decoder skips in front of the selected variant are within the enum.
use mathlib.Core.Option.{some-injective}
use fuels_rs.Prelude.{
  ℕ, suc, ◌+◌, ◌≤◌, ◌<◌, ◌≡◌, ap, ◌∙◌, sym, arith, false, ◌==◌, ==_iff, Bool-cases, Option-cases,
  inl, inr, some,
}
use fuels_rs.Errors.{ok, ok_injective}
use fuels_rs.Utils.{usize_limit, round_up}
use fuels_rs.ParamTypes.{
  ParamType, ParamTypes, get?, param_type_of_variant, only_units_inside, compute_encoding_in_bytes,
  compute_enum_width_in_bytes, fold_variants,
}
use fuels_rs.ParamTypes.Receipts.{is_extra_receipt_needed, heap_type_from, heap_type_variant}
use fuels_rs.ParamTypes.Width.{
  width, widest, enum_width-eq-ok, fold_variants-eq-ok, compute_encoding_in_bytes-width,
}
use fuels_rs.ParamTypes.Fits.{width-le-widest}
use fuels_rs.Codec.Decoder.{skip_extra_in_bytes}
use fuels_rs.Codec.Decoder.Enum.{unit-get?}

variant-get? :
    (vs : ParamTypes) (d : ℕ) (p : ParamType)
    → param_type_of_variant vs d ≡ ok p
    → get? vs d ≡ some p
unfolding param_type_of_variant
variant-get? vs d p e = elim (Option-cases (get? vs d)) [
  | inl n ↦ cc (rw (param_type_of_variant, n) at e)
  | inr (q, s) ↦
      let same : q ≡ p = ok_injective (rw (param_type_of_variant, s) at e) in s ∙ ap some same
]

-- The variant on the heap stands at its discriminant.
heap-get? :
    (from : ℕ) (vs : ParamTypes) (h : ℕ) (q : ParamType)
    → heap_type_from from vs ≡ some (h, q)
    → (i : ℕ) × (h ≡ from + i) × (get? vs i ≡ some q)
unfolding heap_type_from get?
heap-get? from ParamTypes.nil h q e = cc
heap-get? from (ParamTypes.cons p ps) h q e = elim (Bool-cases (is_extra_receipt_needed p false)) [
  | inl y ↦
      let same = some-injective (from, p) (h, q) (rw (heap_type_from, y) at e) in
      (0, omega (arith, ap (λ r. r.0) same), ap (λ r. some r.1) same)
  | inr n ↦
      let (i, place, found) = heap-get? (from + 1) ps h q (rw (heap_type_from, n) at e) in
      (suc i, omega (arith, place), found)
]

module _ (vs : ParamTypes) (d : ℕ) (p : ParamType) (selected : param_type_of_variant vs d ≡ ok p)
    (selected_width : ℕ) (computed : compute_encoding_in_bytes p ≡ ok selected_width) where
  -- The selected variant is not wider than the enum, which is of a usize width.
  pub selected-le :
      (enum_width : ℕ)
      → compute_enum_width_in_bytes vs ≡ ok enum_width
      → (selected_width ≤ enum_width) × (enum_width < usize_limit)
  unfolding compute_enum_width_in_bytes width
  selected-le enum_width e =
      let found = variant-get? vs d p selected in
      let (same, _) = compute_encoding_in_bytes-width p selected_width computed in
      let (w, lt) =
        enum_width-eq-ok vs (fold_variants vs 0) e
          (λ n m. omega (arith, fold_variants-eq-ok vs 0 m)) in
      elim (Bool-cases (only_units_inside vs)) [
        | inl u ↦
            let one : width p ≡ 1 = ap width (unit-get? vs d p u found) in
            let eight : enum_width ≡ 8 = rw u at w in (omega arith, lt)
        | inr u ↦
            let whole : enum_width ≡ round_up (widest vs) + 8 = rw u at w in
            (omega (arith, width-le-widest vs d found), lt)
      ]

  -- What is skipped for data on the heap is not more than the selected variant.
  pub extra-le : (extra : ℕ) → skip_extra_in_bytes vs d ≡ ok extra → extra ≤ selected_width
  unfolding skip_extra_in_bytes heap_type_variant
  extra-le extra e = elim (Option-cases (heap_type_variant vs)) [
    | inl n ↦ let none : 0 ≡ extra = ok_injective (rw (skip_extra_in_bytes, n) at e) in omega arith
    | inr ((h, q), s) ↦
        let e' = rw (skip_extra_in_bytes, s) at e in
        elim (Bool-cases (h == d)) [
          | inl y ↦
              let (i, place, found) = heap-get? 0 vs h q s in
              let at : i ≡ d = omega (arith, (==_iff h d).0 y) in
              let own : q ≡ p =
                some-injective q p (sym found ∙ ap (get? vs) at ∙ variant-get? vs d p selected) in
              let same : selected_width ≡ extra =
                ok_injective
                  (sym computed ∙ ap compute_encoding_in_bytes (sym own) ∙ (rw y at e')) in
              omega arith
          | inr n ↦ let none : 0 ≡ extra = ok_injective (rw n at e') in omega arith
        ]
  ]
