-- ===== src/ParamTypes/Fits.antt =====
-- When no computation of a width overflows: `compute_encoding_in_bytes` succeeds there.
use fuels_rs.Prelude.{
  le→ltb, subst, ap, ◌∙◌, ℕ, ◌+◌, ◌-◌, ◌*◌, ◌≤◌, ◌<◌, ◌≡◌, refl, arith, max, if◌then◌else◌, true,
  false, Bool-cases, ◌⊎◌, inl, inr, zero, suc, some,
}
use mathlib.Core.Option.{some-injective}
use fuels_rs.Errors.{ok, codec, other, too_wide, size_overflow}
use fuels_rs.Utils.{usize_limit, round_up, checked_round_up-eq, checked_add-eq, checked_mul-eq}
use fuels_rs.ParamTypes.{
  ParamType, ParamTypes, unit, string_array, tuple, array, vector, struct, enum, nil, cons, get?,
  only_units_inside, enum_width, compute_encoding_in_bytes, fold_fields, fold_variants,
  compute_enum_width_in_bytes, compute_padding_amount_in_bytes,
}
use fuels_rs.ParamTypes.Width.{width, width_fields, widest}

-- Every type within `p`, the elements of vectors included, has a width in range, and every enum
-- that is more than a discriminant is at most `limit` wide.
abbrev mutual
  pub Fits : ℕ → ParamType → Type 0
  Fits limit (array p n) = Fits limit p × (width p * n < usize_limit)
  Fits limit (string_array n) = n + 7 < usize_limit
  Fits limit (tuple ps) = FitsAll limit ps × (width_fields ps < usize_limit)
  Fits limit (struct ps gs) = FitsAll limit ps × (width_fields ps < usize_limit)
  Fits limit (vector p) = Fits limit p
  Fits limit (enum vs gs) =
      (only_units_inside vs ≡ true)
      ⊎ (FitsAll limit vs
          × (round_up (widest vs) + 8 ≤ limit)
          × (round_up (widest vs) + 8 < usize_limit))
  Fits limit _ = Unit {0}

  pub FitsAll : ℕ → ParamTypes → Type 0
  FitsAll limit nil = Unit {0}
  FitsAll limit (cons p ps) = Fits limit p × FitsAll limit ps

enum_width_lem :
    (vs : ParamTypes) (n : ℕ)
    → round_up n + 8 < usize_limit
    → only_units_inside vs ≡ false
    → enum_width vs (ok n) ≡ ok (round_up n + 8)
unfolding enum_width
enum_width_lem vs n h u =
    rw (u, checked_round_up-eq n (omega arith), checked_add-eq (other too_wide) (round_up n) 8 h)

mutual
  unfolding compute_encoding_in_bytes width

  compute-eq :
      (limit : ℕ) (p : ParamType) → Fits limit p → compute_encoding_in_bytes p ≡ ok (width p)
  compute-eq limit (array p n) (f, h) =
      rw (compute-eq limit p f, checked_mul-eq (codec size_overflow) (width p) n h)
  compute-eq limit (string_array n) f = rw (checked_round_up-eq n f)
  compute-eq limit (tuple ps) (f, h) =
      fold_fields-eq limit ps 0 f (omega arith) ∙ ap ok (omega arith)
  compute-eq limit (struct ps gs) (f, h) =
      fold_fields-eq limit ps 0 f (omega arith) ∙ ap ok (omega arith)
  compute-eq limit (enum vs gs) (inl u) = rw (u, enum_width)
  compute-eq limit (enum vs gs) (inr (fs, _, h)) = elim (Bool-cases (only_units_inside vs)) [
    | inl u ↦ rw (u, enum_width)
    | inr u ↦ rw (fold_variants-eq limit vs 0 fs) (
        rw (enum_width_lem vs (max 0 (widest vs)) h' u)
          (rw (u, if◌then◌else◌) (ap ok (omega arith))))
  ]
    where
      h' : round_up (max 0 (widest vs)) + 8 < usize_limit
      h' = omega arith
  compute-eq limit unit f = refl
  compute-eq limit _ f = refl

  fold_fields-eq :
      (limit : ℕ) (ps : ParamTypes) (a : ℕ)
      → FitsAll limit ps
      → a + width_fields ps < usize_limit
      → fold_fields ps a ≡ ok (a + width_fields ps)
  fold_fields-eq limit nil a f h = ap ok (omega arith)
  fold_fields-eq limit (cons p ps) a (f, fs) h =
      rw
        (
          compute-eq limit p f,
          checked_round_up-eq (width p) (omega arith),
          checked_add-eq (codec size_overflow) a (round_up (width p)) (omega arith),
        )
        (fold_fields-eq limit ps (a + round_up (width p)) fs (omega arith) ∙ ap ok (omega arith))

  fold_variants-eq :
      (limit : ℕ) (ps : ParamTypes) (a : ℕ)
      → FitsAll limit ps
      → fold_variants ps a ≡ ok (max a (widest ps))
  fold_variants-eq limit nil a f = ap ok (omega arith)
  fold_variants-eq limit (cons p ps) a (f, fs) =
      rw (compute-eq limit p f)
        (fold_variants-eq limit ps (max a (width p)) fs ∙ ap ok (omega arith))

-- On a type in which no width overflows and no enum is wider than a limit,
-- `compute_encoding_in_bytes` succeeds with the arithmetic width.
pub compute_encoding_in_bytes-eq :
    (limit : ℕ) (p : ParamType) → Fits limit p → compute_encoding_in_bytes p ≡ ok (width p)
compute_encoding_in_bytes-eq = compute-eq

pub compute_enum_width_in_bytes-eq :
    (limit : ℕ) (vs : ParamTypes)
    → FitsAll limit vs
    → round_up (widest vs) + 8 < usize_limit
    → only_units_inside vs ≡ false
    → compute_enum_width_in_bytes vs ≡ ok (round_up (widest vs) + 8)
unfolding compute_enum_width_in_bytes
compute_enum_width_in_bytes-eq limit vs fs h u =
    let h' : round_up (max 0 (widest vs)) + 8 < usize_limit = omega arith in
    rw (fold_variants-eq limit vs 0 fs)
      (enum_width_lem vs (max 0 (widest vs)) h' u ∙ ap ok (omega arith))

-- No variant is wider than the widest.
pub width-le-widest :
    (vs : ParamTypes) (d : ℕ) {p : ParamType} → get? vs d ≡ some p → width p ≤ widest vs
unfolding get? width
width-le-widest nil d e = cc
width-le-widest (cons q vs) zero {p} e =
    let e' : width q ≡ width p = ap width (some-injective q p e) in omega arith
width-le-widest (cons q vs) (suc d) e = omega (arith, width-le-widest vs d e)

pub FitsAll-get? :
    (limit : ℕ) (vs : ParamTypes) (d : ℕ) {p : ParamType}
    → FitsAll limit vs
    → get? vs d ≡ some p
    → Fits limit p
unfolding get?
FitsAll-get? limit nil d fs e = cc
FitsAll-get? limit (cons q vs) zero {p} (f, fs) e =
    subst (λ o. Fits limit o) (some-injective q p e) f
FitsAll-get? limit (cons q vs) (suc d) (f, fs) e = FitsAll-get? limit vs d fs e

-- The padding in front of a variant, where it is not wider than the enum.
pub compute_padding_amount_in_bytes-eq :
    (limit : ℕ) (vs : ParamTypes) (d : ℕ) (p : ParamType)
    → FitsAll limit vs
    → round_up (widest vs) + 8 < usize_limit
    → only_units_inside vs ≡ false
    → get? vs d ≡ some p
    → compute_padding_amount_in_bytes vs p ≡ ok (round_up (widest vs) - width p)
unfolding compute_padding_amount_in_bytes
compute_padding_amount_in_bytes-eq limit vs d p fs h u e =
    let p_width = compute_encoding_in_bytes-eq limit p (FitsAll-get? limit vs d fs e) in
    let rest : round_up (widest vs) + 8 - 8 ≡ round_up (widest vs) = omega arith in
    rw (
      compute_enum_width_in_bytes-eq limit vs fs h u,
      le→ltb (round_up (widest vs) + 8) 8 (omega arith),
      p_width,
      rest,
      le→ltb (round_up (widest vs)) (width p) (omega (arith, width-le-widest vs d e)),
    )
