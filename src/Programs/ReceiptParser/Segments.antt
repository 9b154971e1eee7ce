-- ===== src/Programs/ReceiptParser/Segments.antt =====
-- fuels-programs/src/receipt_parser.rs: the receipts that a call leaves for its value, and that an
-- extraction finds them and keeps all others.
use fuels_rs.Prelude.{
  ℕ, ◌≡◌, refl, ap, ◌⊎◌, inl, inr, ◌==◌, ==_iff, Bool, true, false, Bool-cases, Option, none, some,
  List, [], ◌∷◌, ◌++◌,
}
use fuels_rs.Prelude.BigEndian.{to_be_bytes}
use fuels_rs.ParamTypes.{ParamType}
use fuels_rs.ParamTypes.Receipts.{
  ReturnLocation, in_return, in_return_data, get_return_location, is_extra_receipt_needed,
}
use fuels_rs.Receipt.{Receipt, return_data, return, zeroed}
use fuels_rs.Programs.ReceiptParser.{
  behind, extract_heap_data_from_receipts, heap_of_pair, enum_of_pair, extract_window,
  extract_enum_heap_type_data, extract_return_data_heap, extract_return_data, extract_return,
  is_enum, extract_raw_data,
}

-- The receipts in which contract `id` returns `bytes` as a value of type `p`.
pub data Segment (id : ℕ) (p : ParamType) : List Receipt → List ℕ → Type 0 where
  by_return :
      (val : ℕ)
      → get_return_location p ≡ in_return
      → Segment id p (return id val ∷ []) (to_be_bytes 8 val)
  by_data :
      (bytes : List ℕ)
      → get_return_location p ≡ in_return_data
      → is_extra_receipt_needed p true ≡ false
      → Segment id p (return_data id (some bytes) ∷ []) bytes
  by_heap :
      (pointer bytes : List ℕ)
      → get_return_location p ≡ in_return_data
      → is_extra_receipt_needed p true ≡ true
      → is_enum p ≡ false
      → Segment id p (return_data id (some pointer) ∷ return_data zeroed (some bytes) ∷ []) bytes
  by_enum :
      (stack bytes : List ℕ)
      → get_return_location p ≡ in_return_data
      → is_extra_receipt_needed p true ≡ true
      → is_enum p ≡ true
      → Segment id p
          (return_data id (some stack) ∷ return_data zeroed (some bytes) ∷ [])
          (stack ++ bytes)

unfoldable pub is_from : ℕ → Receipt → Bool
is_from contract_id (return_data id bytes) = id == contract_id
is_from contract_id (return id val) = id == contract_id
is_from contract_id _ = false

-- No receipt is from the contract.
pub data Foreign (contract_id : ℕ) : List Receipt → Type 0 where
  nil : Foreign contract_id []
  cons :
      {r : Receipt} {rs : List Receipt}
      → is_from contract_id r ≡ false
      → Foreign contract_id rs
      → Foreign contract_id (r ∷ rs)

own : (n : ℕ) → (n == n) ≡ true
own n = (==_iff n n).1 refl

module _ (id : ℕ) where
  heap_data-foreign :
      (r r' : Receipt)
      → is_from id r ≡ false
      → extract_heap_data_from_receipts r r' id ≡ (none, none)
  unfolding is_from extract_heap_data_from_receipts
  heap_data-foreign (return_data i (some d)) (return_data j o) h = rw h refl
  heap_data-foreign _ _ h = refl

  module _ (pair : Receipt → Receipt → Option (List ℕ)) where
    window-skip :
        ((r r' : Receipt) → is_from id r ≡ false → pair r r' ≡ none)
        → (before rs : List Receipt) (y : Receipt) (bytes : List ℕ) (rest : List Receipt)
        → Foreign id before
        → extract_window pair (y ∷ rs) ≡ some (bytes, rest)
        → extract_window pair (before ++ (y ∷ rs)) ≡ some (bytes, before ++ rest)
    unfolding extract_window
    window-skip apart [] rs y bytes rest f e = e
    window-skip apart (r ∷ []) rs y bytes rest (cons h f) e =
        rw (extract_window, apart r y h) (ap (behind r) e)
    window-skip apart (r ∷ r' ∷ before) rs y bytes rest (cons h f) e =
        rw (extract_window, apart r r' h)
          (ap (behind r) (window-skip apart (r' ∷ before) rs y bytes rest f e))

    window-found :
        (r r' : Receipt) (rest : List Receipt) (bytes : List ℕ)
        → pair r r' ≡ some bytes
        → extract_window pair (r ∷ r' ∷ rest) ≡ some (bytes, rest)
    unfolding extract_window
    window-found r r' rest bytes e = rw (extract_window, e) refl

    window-Foreign :
        ((r r' : Receipt) → is_from id r ≡ false → pair r r' ≡ none)
        → (rs : List Receipt) → Foreign id rs
        → extract_window pair rs ≡ none
    unfolding extract_window
    window-Foreign apart [] f = refl
    window-Foreign apart (r ∷ []) f = refl
    window-Foreign apart (r ∷ r' ∷ rs) (cons h f) =
        rw (extract_window, apart r r' h) (ap (behind r) (window-Foreign apart (r' ∷ rs) f))

  data-skip :
      (before rs rest : List Receipt) (bytes : List ℕ)
      → Foreign id before
      → extract_return_data rs id ≡ some (bytes, rest)
      → extract_return_data (before ++ rs) id ≡ some (bytes, before ++ rest)
  unfolding extract_return_data is_from
  data-skip [] rs rest bytes f e = e
  data-skip (return_data i (some d) ∷ before) rs rest bytes (cons h f) e =
      rw h (ap (behind (return_data i (some d))) (data-skip before rs rest bytes f e))
  data-skip (r ∷ before) rs rest bytes (cons h f) e =
      ap (behind r) (data-skip before rs rest bytes f e)

  data-Foreign : (rs : List Receipt) → Foreign id rs → extract_return_data rs id ≡ none
  unfolding extract_return_data is_from
  data-Foreign [] f = refl
  data-Foreign (return_data i (some d) ∷ rs) (cons h f) =
      rw h (ap (behind (return_data i (some d))) (data-Foreign rs f))
  data-Foreign (r ∷ rs) (cons h f) = ap (behind r) (data-Foreign rs f)

  return-skip :
      (before rs rest : List Receipt) (bytes : List ℕ)
      → Foreign id before
      → extract_return rs id ≡ some (bytes, rest)
      → extract_return (before ++ rs) id ≡ some (bytes, before ++ rest)
  unfolding extract_return is_from
  return-skip [] rs rest bytes f e = e
  return-skip (return i v ∷ before) rs rest bytes (cons h f) e =
      rw h (ap (behind (return i v)) (return-skip before rs rest bytes f e))
  return-skip (r ∷ before) rs rest bytes (cons h f) e =
      ap (behind r) (return-skip before rs rest bytes f e)

  return-Foreign : (rs : List Receipt) → Foreign id rs → extract_return rs id ≡ none
  unfolding extract_return is_from
  return-Foreign [] f = refl
  return-Foreign (return i v ∷ rs) (cons h f) =
      rw h (ap (behind (return i v)) (return-Foreign rs f))
  return-Foreign (r ∷ rs) (cons h f) = ap (behind r) (return-Foreign rs f)

  heap-foreign : (r r' : Receipt) → is_from id r ≡ false → heap_of_pair r r' id ≡ none
  unfolding heap_of_pair
  heap-foreign r r' h = rw (heap_of_pair, heap_data-foreign r r' h) refl

  enum-foreign : (r r' : Receipt) → is_from id r ≡ false → enum_of_pair r r' id ≡ none
  unfolding enum_of_pair
  enum-foreign r r' h = rw (enum_of_pair, heap_data-foreign r r' h) refl

  own_pair :
      (first second : List ℕ)
      → extract_heap_data_from_receipts
          (return_data id (some first))
          (return_data zeroed (some second))
          id
        ≡ (some first, some second)
  unfolding extract_heap_data_from_receipts
  own_pair first second = rw (own id) refl

-- If all receipts before the call's own are from other contracts, `extract_raw_data` finds the bytes that the call returned, takes
-- exactly the call's receipts and keeps all others in their order.
pub extract_raw_data-Segment :
    (id : ℕ) (p : ParamType) (before seg rest : List Receipt) (bytes : List ℕ)
    → Foreign id before
    → Segment id p seg bytes
    → extract_raw_data (before ++ (seg ++ rest)) p id ≡ some (bytes, before ++ rest)
unfolding extract_raw_data extract_enum_heap_type_data extract_return_data_heap extract_window
    heap_of_pair enum_of_pair extract_heap_data_from_receipts extract_return_data extract_return
extract_raw_data-Segment id p before seg rest bytes f (by_return val loc) =
    rw (extract_raw_data, loc) (return-skip id before (seg ++ rest) rest bytes f (rw (own id) refl))
extract_raw_data-Segment id p before seg rest bytes f (by_data bs loc extra) =
    rw (extract_raw_data, loc, extra)
      (data-skip id before (seg ++ rest) rest bytes f (rw (own id) refl))
extract_raw_data-Segment id p before seg rest bytes f (by_heap pointer bs loc extra enum) =
    rw (extract_raw_data, loc, extra, enum)
      (window-skip id (λ r r'. heap_of_pair r r' id) (heap-foreign id) before
        (return_data zeroed (some bs) ∷ rest) (return_data id (some pointer)) bytes rest f
        (window-found id (λ r r'. heap_of_pair r r' id) (return_data id (some pointer))
          (return_data zeroed (some bs)) rest bs (rw (heap_of_pair, own_pair id pointer bs) refl)))
extract_raw_data-Segment id p before seg rest bytes f (by_enum stack bs loc extra enum) =
    rw (extract_raw_data, loc, extra, enum)
      (window-skip id (λ r r'. enum_of_pair r r' id) (enum-foreign id) before
        (return_data zeroed (some bs) ∷ rest) (return_data id (some stack)) bytes rest f
        (window-found id (λ r r'. enum_of_pair r r' id) (return_data id (some stack))
          (return_data zeroed (some bs)) rest (stack ++ bs)
          (rw (enum_of_pair, own_pair id stack bs) refl)))

location-cases : (l : ReturnLocation) → (l ≡ in_return) ⊎ (l ≡ in_return_data)
location-cases in_return = inl refl
location-cases in_return_data = inr refl

-- If every receipt is from another contract, `extract_raw_data` finds nothing.
pub extract_raw_data-Foreign :
    (id : ℕ) (p : ParamType) (rs : List Receipt) → Foreign id rs → extract_raw_data rs p id ≡ none
unfolding extract_raw_data extract_enum_heap_type_data extract_return_data_heap
extract_raw_data-Foreign id p rs f = elim (location-cases (get_return_location p)) [
  | inl l ↦ rw (extract_raw_data, l) (return-Foreign id rs f)
  | inr l ↦ elim (Bool-cases (is_extra_receipt_needed p true)) [
    | inr n ↦ rw (extract_raw_data, l, n) (data-Foreign id rs f)
    | inl y ↦ elim (Bool-cases (is_enum p)) [
      | inl e ↦
          rw (extract_raw_data, l, y, e)
            (window-Foreign id (λ r r'. enum_of_pair r r' id) (enum-foreign id) rs f)
      | inr e ↦
          rw (extract_raw_data, l, y, e)
            (window-Foreign id (λ r r'. heap_of_pair r r' id) (heap-foreign id) rs f)
    ]
  ]
]
