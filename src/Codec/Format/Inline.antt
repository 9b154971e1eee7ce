-- ===== src/Codec/Format/Inline.antt =====
-- A value without heap data has no dynamic chunk, so its format does not depend on its address.
use fuels_rs.Prelude.{
  lt→ltb, ℕ, ◌≡◌, sym, ap, ◌∙◌, arith, false, Bool-cases, inl, inr, List, [], ◌++◌, append-nil,
  append_assoc, zero, suc,
}
use fuels_rs.ParamTypes.{ParamType, ParamTypes, only_units_inside}
use fuels_rs.ParamTypes.Receipts.{is_extra_receipt_needed, any_extra}
use fuels_rs.ParamTypes.Receipts.Validation.{or-eq-false}
use fuels_rs.Tokens.{External, Token, Tokens}
use fuels_rs.Tokens.Typing.{HasType, HasTypes, AreOf}
use fuels_rs.UnresolvedBytes.{
  Chunks, inline, dynamic, nil, cons, append, add_u64, amount_of_inline_bytes, resolve_loop,
  resolve,
}
use fuels_rs.Codec.Format.{layout, layout_items, layout_fields, zero_chunk, flat}
use fuels_rs.Codec.Decoder.Enum.{heap-get?}

abbrev pub IsInline : Chunks → Type 0
IsInline nil = Unit {0}
IsInline (cons (inline bs) cs) = IsInline cs
IsInline (cons (dynamic c) cs) = ⊥

IsInline-append : (cs ds : Chunks) → IsInline cs → IsInline ds → IsInline (append cs ds)
unfolding append
IsInline-append nil ds h k = k
IsInline-append (cons (inline bs) cs) ds h k = IsInline-append cs ds h k
IsInline-append (cons (dynamic c) cs) ds h k = absurd h

IsInline-zero_chunk : (n : ℕ) → IsInline (zero_chunk n)
IsInline-zero_chunk zero = tt
IsInline-zero_chunk (suc n) = rw (lt→ltb 0 (suc n) (omega arith)) tt

resolve_loop-inline :
    (cs : Chunks) (start : ℕ) (i d : List ℕ)
    → IsInline cs
    → resolve_loop cs start i d ≡ (i ++ flat cs, d)
unfolding resolve_loop flat
resolve_loop-inline nil start i d h = ap (λ r. (r, d)) (sym (append-nil i))
resolve_loop-inline (cons (inline bs) cs) start i d h =
    resolve_loop-inline cs start (i ++ bs) d h ∙ ap (λ r. (r, d)) (append_assoc i bs (flat cs))
resolve_loop-inline (cons (dynamic c) cs) start i d h = absurd h

pub resolve-inline : (cs : Chunks) (addr : ℕ) → IsInline cs → resolve cs addr ≡ flat cs
unfolding resolve
resolve-inline cs addr h =
    rw (resolve_loop-inline cs (add_u64 addr (amount_of_inline_bytes cs)) [] [] h)
      (append-nil (flat cs))

module _ (x : External) where
  mutual
    unfolding layout is_extra_receipt_needed

    IsInline-layout :
        {t : Token} {p : ParamType}
        → HasType t p
        → is_extra_receipt_needed p false ≡ false
        → IsInline (layout x t)
    IsInline-layout HasType.unit i = tt
    IsInline-layout (HasType.u8 h) i = tt
    IsInline-layout (HasType.u16 h) i = tt
    IsInline-layout (HasType.u32 h) i = tt
    IsInline-layout (HasType.u64 h) i = tt
    IsInline-layout (HasType.u128 h) i = tt
    IsInline-layout (HasType.u256 h) i = tt
    IsInline-layout HasType.bool i = tt
    IsInline-layout (HasType.b256 h) i = tt
    IsInline-layout (HasType.string_array h e) i = tt
    IsInline-layout (HasType.array h e) i = IsInline-items h i
    IsInline-layout (HasType.struct {ts} {ps} {gs} h) i =
        IsInline-fields h (or-eq-false (any_extra ps) (any_extra gs) i).0
    IsInline-layout (HasType.tuple h) i = IsInline-fields h i
    IsInline-layout (HasType.enum {d} {t} {p} {vs} {gs} lt e h) i =
        elim (Bool-cases (only_units_inside vs)) [
          | inl u ↦ rw u tt
          | inr u ↦ rw u (
              IsInline-layout h
                (heap-get? vs d p (or-eq-false (any_extra vs) (any_extra gs) i).0 e))
        ]
    IsInline-layout HasType.raw_slice i = cc
    IsInline-layout HasType.bytes i = cc
    IsInline-layout (HasType.string h) i = cc
    IsInline-layout (HasType.string_slice h) i = cc
    IsInline-layout (HasType.vector h) i = cc

    IsInline-items :
        {ts : Tokens} {p : ParamType}
        → AreOf ts p
        → is_extra_receipt_needed p false ≡ false
        → IsInline (layout_items x ts)
    IsInline-items AreOf.empty i = tt
    IsInline-items (AreOf.more h hs) i =
        IsInline-append _ _ (IsInline-layout h i) (IsInline-items hs i)

    IsInline-fields :
        {ts : Tokens} {ps : ParamTypes}
        → HasTypes ts ps
        → any_extra ps ≡ false
        → IsInline (layout_fields x ts)
    IsInline-fields HasTypes.nil i = tt
    IsInline-fields (HasTypes.cons {t} {p} {ts} {ps} h hs) i =
        let (i₀, i₁) = or-eq-false (is_extra_receipt_needed p false) (any_extra ps) i in
        IsInline-append _ _ (IsInline-append _ _ (IsInline-layout h i₀) (IsInline-zero_chunk _))
          (IsInline-fields hs i₁)

  pub layout_fields-IsInline :
      {ts : Tokens} {ps : ParamTypes}
      → HasTypes ts ps
      → any_extra ps ≡ false
      → IsInline (layout_fields x ts)
  layout_fields-IsInline h i = IsInline-fields h i
