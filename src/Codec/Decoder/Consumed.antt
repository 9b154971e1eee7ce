-- ===== src/Codec/Decoder/Consumed.antt =====
-- How many bytes the decoder reports for a value of a type: a struct or tuple ends with its last
-- field, without the padding that its encoding has.
use mathlib.Core.Option.{some-injective}
use fuels_rs.Prelude.{zero, suc, some, subst, ℕ, ◌+◌, ◌*◌, ◌%◌, ◌≡◌, refl, ap, arith}
use fuels_rs.Utils.{round_up}
use fuels_rs.ParamTypes.{get?, ParamType, ParamTypes, unit, array, struct, tuple, enum, nil, cons}
use fuels_rs.ParamTypes.Width.{width, width_fields}

unfoldable mutual
  pub consumed : ParamType → ℕ
  consumed (array p n) = consumed p * n
  consumed (struct ps gs) = consumed_fields ps 0
  consumed (tuple ps) = consumed_fields ps 0
  consumed p = width p

  pub consumed_fields : ParamTypes → ℕ → ℕ
  consumed_fields nil a = a
  consumed_fields (cons p ps) a = consumed_fields ps (round_up a + consumed p)

-- Every array holds elements that are consumed whole.
abbrev mutual
  pub HoldsWhole : ParamType → Type 0
  HoldsWhole (array p n) = HoldsWhole p × (consumed p ≡ width p)
  HoldsWhole (struct ps gs) = HoldWhole ps
  HoldsWhole (tuple ps) = HoldWhole ps
  HoldsWhole (enum vs gs) = HoldWhole vs
  HoldsWhole _ = Unit {0}

  pub HoldWhole : ParamTypes → Type 0
  HoldWhole nil = Unit {0}
  HoldWhole (cons p ps) = HoldsWhole p × HoldWhole ps

round_up-add : (a n : ℕ) → round_up (round_up a + n) ≡ round_up a + round_up n
round_up-add a n = omega arith

pub width_fields-aligned : (ps : ParamTypes) → width_fields ps % 8 ≡ 0
unfolding width
width_fields-aligned nil = refl
width_fields-aligned (cons p ps) = omega (arith, width_fields-aligned ps)

mutual
  unfolding consumed width

  rounded : (p : ParamType) → HoldsWhole p → round_up (consumed p) ≡ round_up (width p)
  rounded (array p n) (h, e) = ap (λ (k : ℕ). round_up (k * n)) e
  rounded (struct ps gs) h = omega (arith, rounded_fields ps 0 h, width_fields-aligned ps)
  rounded (tuple ps) h = omega (arith, rounded_fields ps 0 h, width_fields-aligned ps)
  rounded unit h = refl
  rounded _ h = refl

  rounded_fields :
      (ps : ParamTypes) (a : ℕ)
      → HoldWhole ps
      → round_up (consumed_fields ps a) ≡ round_up a + width_fields ps
  rounded_fields nil a h = omega arith
  rounded_fields (cons p ps) a (h, hs) = omega (
    arith,
    rounded_fields ps (round_up a + consumed p) hs,
    rounded p h,
    round_up-add a (consumed p),
  )

-- Up to the padding at the end, the whole width of a value is consumed.
pub round_up-consumed : (p : ParamType) → HoldsWhole p → round_up (consumed p) ≡ round_up (width p)
round_up-consumed p h = rounded p h

pub HoldWhole-get? :
    (vs : ParamTypes) (d : ℕ) {p : ParamType} → HoldWhole vs → get? vs d ≡ some p → HoldsWhole p
unfolding get?
HoldWhole-get? nil d h e = cc
HoldWhole-get? (cons q vs) zero {p} (h, hs) e = subst (λ r. HoldsWhole r) (some-injective q p e) h
HoldWhole-get? (cons q vs) (suc d) (h, hs) e = HoldWhole-get? vs d hs e
