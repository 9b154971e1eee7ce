-- ===== src/Programs/ReceiptParser.antt =====
-- fuels-programs/src/receipt_parser.rs: which receipts carry the value that a call returns. An
-- extraction gives the data and the receipts that stay.
pub mod Segments
mod Tests
use fuels_rs.Prelude.{
  ℕ, ◌==◌, ◌&&◌, if◌then◌else◌, Bool, true, false, Option, none, some, List, [], ◌∷◌, ◌++◌,
}
use fuels_rs.Prelude.BigEndian.{to_be_bytes}
use fuels_rs.Errors.{Result, ok, err, codec, missing_receipts, ◌>>=◌, ◌>>◌}
use fuels_rs.ParamTypes.{ParamType}
use fuels_rs.ParamTypes.Receipts.{
  ReturnLocation, in_return, in_return_data, get_return_location, is_extra_receipt_needed,
  validate_is_decodable,
}
use fuels_rs.Tokens.{External, Token}
use fuels_rs.Codec.Decoder.{DecoderConfig, decode}
use fuels_rs.Receipt.{Receipt, return_data, return, zeroed}

pub record ReceiptParser : Type 0 where
  pub receipts : List Receipt
  pub decoder : DecoderConfig

abbrev is_relevant : Receipt → Bool
is_relevant (return_data id bytes) = true
is_relevant (return id val) = true
is_relevant _ = false

unfoldable pub relevant_receipts : List Receipt → List Receipt
relevant_receipts [] = []
relevant_receipts (r ∷ rs) =
    let rest = relevant_receipts rs in if is_relevant r then r ∷ rest else rest

-- `ReceiptParser::new`
unfoldable pub new_receipt_parser : List Receipt → DecoderConfig → ReceiptParser
unfolding relevant_receipts
new_receipt_parser receipts decoder_config = record {
  receipts = relevant_receipts receipts;
  decoder = decoder_config;
}

abbrev pub Extracted : Type 0
Extracted = Option (List ℕ × List Receipt)

-- What is found behind a receipt that stays.
abbrev pub behind : Receipt → Extracted → Extracted
behind r none = none
behind r (some (bytes, rest)) = some (bytes, r ∷ rest)

-- `extract_heap_data_from_receipts`
unfoldable pub extract_heap_data_from_receipts :
    Receipt → Receipt → ℕ → Option (List ℕ) × Option (List ℕ)
extract_heap_data_from_receipts (return_data first_id (some first)) (return_data second_id vec)
      contract_id =
    if first_id == contract_id && second_id == zeroed then (some first, vec) else (none, none)
extract_heap_data_from_receipts _ _ contract_id = (none, none)

-- What a pair of neighbours holds, for a value on the heap and for one in an enum.
unfoldable pub heap_of_pair : Receipt → Receipt → ℕ → Option (List ℕ)
unfolding extract_heap_data_from_receipts
heap_of_pair current next contract_id = (extract_heap_data_from_receipts current next contract_id).1

abbrev pub both_parts : Option (List ℕ) × Option (List ℕ) → Option (List ℕ)
both_parts (some first, some second) = some (first ++ second)
both_parts _ = none

unfoldable pub enum_of_pair : Receipt → Receipt → ℕ → Option (List ℕ)
unfolding extract_heap_data_from_receipts
enum_of_pair current next contract_id =
    both_parts (extract_heap_data_from_receipts current next contract_id)

-- The loop over neighbours of both functions.
unfoldable pub extract_window : (Receipt → Receipt → Option (List ℕ)) → List Receipt → Extracted
extract_window pair [] = none
extract_window pair (r ∷ []) = none
extract_window pair (r ∷ r' ∷ rs) =
    let later = behind r (extract_window pair (r' ∷ rs)) in
    elim (pair r r') [ some bytes ↦ some (bytes, rs) | none ↦ later ]

unfoldable pub extract_enum_heap_type_data : List Receipt → ℕ → Extracted
unfolding extract_window enum_of_pair
extract_enum_heap_type_data receipts contract_id =
    extract_window (λ r r'. enum_of_pair r r' contract_id) receipts

unfoldable pub extract_return_data_heap : List Receipt → ℕ → Extracted
unfolding extract_window heap_of_pair
extract_return_data_heap receipts contract_id =
    extract_window (λ r r'. heap_of_pair r r' contract_id) receipts

unfoldable pub extract_return_data : List Receipt → ℕ → Extracted
extract_return_data [] contract_id = none
extract_return_data (return_data id (some bytes) ∷ rs) contract_id =
    let later = behind (return_data id (some bytes)) (extract_return_data rs contract_id) in
    if id == contract_id then some (bytes, rs) else later
extract_return_data (r ∷ rs) contract_id = behind r (extract_return_data rs contract_id)

unfoldable pub extract_return : List Receipt → ℕ → Extracted
extract_return [] contract_id = none
extract_return (return id val ∷ rs) contract_id =
    let later = behind (return id val) (extract_return rs contract_id) in
    if id == contract_id then some (to_be_bytes 8 val, rs) else later
extract_return (r ∷ rs) contract_id = behind r (extract_return rs contract_id)

abbrev is_enum : ParamType → Bool
is_enum (ParamType.enum variants generics) = true
is_enum _ = false

unfoldable pub extract_raw_data : List Receipt → ParamType → ℕ → Extracted
unfolding extract_enum_heap_type_data extract_return_data_heap extract_return_data extract_return
extract_raw_data receipts output_param contract_id =
    let extra_receipts_needed = is_extra_receipt_needed output_param true in
    elim (get_return_location output_param) [
      | in_return ↦ extract_return receipts contract_id
      | in_return_data ↦
          if extra_receipts_needed && is_enum output_param
          then extract_enum_heap_type_data receipts contract_id
          else if extra_receipts_needed
          then extract_return_data_heap receipts contract_id
          else extract_return_data receipts contract_id
    ]

-- `parse`, with the parser afterwards. A script's contract id is the null id.
unfoldable pub parse :
    External → Option ℕ → ParamType → ReceiptParser → Result Token × ReceiptParser
parse x contract_id output_param parser =
    let id : ℕ = elim contract_id [ none ↦ zeroed | some id ↦ id ] in
    elim (validate_is_decodable output_param) [
      | ok _ ↦ elim (extract_raw_data parser.receipts output_param id) [
        | none ↦ (err (codec missing_receipts), parser)
        | some (bytes, rest) ↦
            (decode x parser.decoder output_param bytes, record parser { receipts = rest })
      ]
      | err e ↦ (err e, parser)
      | fuels_rs.Errors.panic ↦ (fuels_rs.Errors.panic, parser)
    ]
