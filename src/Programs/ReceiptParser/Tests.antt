-- ===== src/Programs/ReceiptParser/Tests.antt =====
-- The receipt parser on concrete receipts.
use fuels_rs.Prelude.{ℕ, ◌≡◌, refl, some, List, [], ◌∷◌, ◌++◌}
use fuels_rs.ParamTypes.{ParamType, u64, vector}
use fuels_rs.Receipt.{Receipt, return_data, return, zeroed}
use fuels_rs.Programs.ReceiptParser.{extract_raw_data}
use fuels_rs.Programs.ReceiptParser.Segments.{by_heap, nil, cons, is_from, extract_raw_data-Segment}

abbrev seven : Receipt
seven = return 7 225

-- A vector comes back in two receipts, behind the return of another contract.
extract_raw_data-Segment_example :
    extract_raw_data
      (return 7 225
        ∷ return_data 5 (some (1 ∷ []))
        ∷ return_data 0 (some (8 ∷ 3 ∷ []))
        ∷ return 0 1
        ∷ [])
      (vector u64)
      5
    ≡ some (8 ∷ 3 ∷ [], return 7 225 ∷ return 0 1 ∷ [])
unfolding is_from fuels_rs.ParamTypes.Receipts.is_extra_receipt_needed
    fuels_rs.ParamTypes.Receipts.get_return_location
extract_raw_data-Segment_example =
    extract_raw_data-Segment 5 (vector u64) (seven ∷ [])
      (return_data 5 (some (1 ∷ [])) ∷ return_data zeroed (some (8 ∷ 3 ∷ [])) ∷ [])
      (return 0 1 ∷ []) (8 ∷ 3 ∷ []) (cons refl nil) (by_heap (1 ∷ []) (8 ∷ 3 ∷ []) refl refl refl)

-- A receipt of a call that another contract has made of contract 5 stands before the receipt of
-- the script's own call of it, and is taken for it.
nested_call_first :
    extract_raw_data (return 5 1 ∷ return 7 2 ∷ return 5 3 ∷ []) u64 5
    ≡ some (0 ∷ 0 ∷ 0 ∷ 0 ∷ 0 ∷ 0 ∷ 0 ∷ 1 ∷ [], return 7 2 ∷ return 5 3 ∷ [])
unfolding extract_raw_data fuels_rs.ParamTypes.Receipts.get_return_location
    fuels_rs.Prelude.BigEndian.to_be_bytes
nested_call_first = refl
