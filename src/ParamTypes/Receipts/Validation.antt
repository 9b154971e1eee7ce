-- ===== src/ParamTypes/Receipts/Validation.antt =====
-- `validate_is_decodable` and the types that it lets through.
use fuels_rs.Prelude.{ℕ, ◌≡◌, refl, arith, Bool, false, ◌||◌, if◌then◌else◌}
use fuels_rs.Errors.{Error, err, codec, nested_heap_types, ok}
use fuels_rs.ParamTypes.{ParamType, ParamTypes, unit, array, vector, struct, enum, tuple, nil, cons}
use fuels_rs.ParamTypes.Receipts.{
  is_extra_receipt_needed, any_extra, children_need_extra_receipts, grandchildren_need_receipts,
  num_of_children_needing_receipts, check_heap_types, validate_is_decodable,
}
use fuels_rs.ParamTypes.Fits.{Fits, compute_encoding_in_bytes-eq}

pub or-eq-false : (a b : Bool) → (a || b) ≡ false → (a ≡ false) × (b ≡ false)
or-eq-false a b h = ground arith

-- A type off the heap has no child on the heap.
children-inline :
    (p : ParamType)
    → is_extra_receipt_needed p false ≡ false
    → children_need_extra_receipts p ≡ false
unfolding is_extra_receipt_needed children_need_extra_receipts
children-inline (array p n) h = h
children-inline (vector p) h = cc
children-inline (struct ps gs) h = (or-eq-false (any_extra ps) (any_extra gs) h).0
children-inline (enum vs gs) h = (or-eq-false (any_extra vs) (any_extra gs) h).0
children-inline (tuple ps) h = h
children-inline unit h = refl
children-inline _ h = refl

grandchildren-inline :
    (ps : ParamTypes)
    → any_extra ps ≡ false
    → (grandchildren_need_receipts ps ≡ false) × (num_of_children_needing_receipts ps ≡ 0)
unfolding is_extra_receipt_needed grandchildren_need_receipts num_of_children_needing_receipts
grandchildren-inline nil h = (refl, refl)
grandchildren-inline (cons p ps) h =
    let (e, es) = or-eq-false (is_extra_receipt_needed p false) (any_extra ps) h in
    let (g, n) = grandchildren-inline ps es in (rw (children-inline p e) g, rw (e, n))

passes : (b : Bool) (e : Error) → b ≡ false → (if b then err e else ok tt) ≡ ok (tt {0})
passes b e h = rw h

check-inline :
    (p : ParamType) → is_extra_receipt_needed p false ≡ false → check_heap_types p ≡ ok tt
unfolding check_heap_types
check-inline (enum vs gs) h =
    let inline : any_extra vs ≡ false =
      unfold is_extra_receipt_needed in (or-eq-false (any_extra vs) (any_extra gs) h).0 in
    let (g, n) = grandchildren-inline vs inline in rw (g, n)
check-inline unit h = refl
check-inline p h =
    passes (children_need_extra_receipts p) (codec nested_heap_types) (children-inline p h)

-- A type off the heap whose widths fit is decodable.
pub validate-inline :
    (limit : ℕ) (p : ParamType)
    → Fits limit p
    → is_extra_receipt_needed p false ≡ false
    → validate_is_decodable p ≡ ok tt
unfolding validate_is_decodable
validate-inline limit p f h = rw (check-inline p h, compute_encoding_in_bytes-eq limit p f)
