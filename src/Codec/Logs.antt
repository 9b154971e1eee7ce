-- ===== src/Codec/Logs.antt =====
-- fuels-core/src/codec/logs.rs: the logs among the receipts of a transaction, and their decoding
-- with the formatters that contracts register.
pub mod Last
pub mod Typed
mod Tests
use fuels_rs.Prelude.{
  ℕ, ◌==◌, ◌&&◌, if◌then◌else◌, Bool, true, false, Option, none, some, List, [], ◌∷◌, ◌++◌, map,
  take, length,
}
use fuels_rs.Prelude.BigEndian.{to_be_bytes}
use fuels_rs.Errors.{
  Result, ok, err, ◌>>=◌, ◌>>◌, codec, string_slice_in_log, missing_formatter, no_log,
  expected_two_logs, Text,
}
use fuels_rs.ParamTypes.{ParamType, string_slice}
use fuels_rs.Tokens.{External, Token}
use fuels_rs.Codec.Decoder.{DecoderConfig, default_decoder_config, decode}
use fuels_rs.Receipt.{Receipt, log, log_data}

-- A type that implements `Parameterize`, `Tokenizable` and `Debug`.
pub record Loggable (T : Type 0) : Type 0 where
  pub type_id : ℕ
  pub param_type : ParamType
  pub from_token : Token → Result T
  pub debug : T → Text

pub record LogFormatter : Type 0 where
  pub formatter : DecoderConfig → List ℕ → Result Text
  pub type_id : ℕ

unfoldable pub can_decode_log_with_type : ParamType → Result (Unit {0})
can_decode_log_with_type string_slice = err (codec string_slice_in_log)
can_decode_log_with_type _ = ok tt

module _ (x : External) where
  unfoldable pub decode_as : {T : Type 0} → Loggable T → DecoderConfig → List ℕ → Result T
  decode_as t decoder_config bytes = do
    token ← decode x decoder_config t.param_type bytes
    t.from_token token

  -- `LogFormatter::format_log`
  unfoldable pub format_log_as : {T : Type 0} → Loggable T → DecoderConfig → List ℕ → Result Text
  unfolding can_decode_log_with_type decode_as
  format_log_as t decoder_config bytes = do
    can_decode_log_with_type t.param_type
    value ← decode_as t decoder_config bytes
    ok (t.debug value)

  unfoldable pub new_log_formatter : {T : Type 0} → Loggable T → LogFormatter
  unfolding format_log_as
  new_log_formatter t = record { formatter = format_log_as t; type_id = t.type_id }

unfoldable pub can_handle_type : {T : Type 0} → Loggable T → LogFormatter → Bool
can_handle_type t log_formatter = t.type_id == log_formatter.type_id

-- A contract and the number of the log.
abbrev pub LogId : Type 0
LogId = ℕ × ℕ

abbrev pub same_id : LogId → LogId → Bool
same_id (contract_id, n) (contract_id', n') = contract_id == contract_id' && n == n'

-- The map from log ids, by what it holds for each.
abbrev pub LogFormatters : Type 0
LogFormatters = LogId → Option LogFormatter

pub record LogDecoder : Type 0 where
  pub log_formatters : LogFormatters
  pub decoder_config : DecoderConfig

-- `LogDecoder::new`
abbrev pub new_log_decoder : LogFormatters → LogDecoder
new_log_decoder log_formatters = record {
  log_formatters = log_formatters;
  decoder_config = default_decoder_config;
}

abbrev pub set_decoder_config : DecoderConfig → LogDecoder → LogDecoder
set_decoder_config decoder_config d = record d { decoder_config = decoder_config }

abbrev pub or_else : Option LogFormatter → Option LogFormatter → Option LogFormatter
or_else none before = before
or_else (some formatter) before = some formatter

unfoldable pub merge : LogDecoder → LogDecoder → LogDecoder
merge log_decoder d = record d {
  log_formatters = λ id. or_else (log_decoder.log_formatters id) (d.log_formatters id);
}

-- The pairs are collected in order, and a later pair takes the place of an earlier one.
unfoldable pub log_formatters_lookup : List (ℕ × LogFormatter) → ℕ → LogFormatters
log_formatters_lookup [] contract_id id = none
log_formatters_lookup ((n, log_formatter) ∷ pairs) contract_id id =
    let later = log_formatters_lookup pairs contract_id id in
    or_else later (if same_id (contract_id, n) id then some log_formatter else none)

unfoldable pub extract_log_id_and_data : List Receipt → List (LogId × List ℕ)
extract_log_id_and_data [] = []
extract_log_id_and_data (log_data id rb (some bytes) ∷ rs) =
    ((id, rb), bytes) ∷ extract_log_id_and_data rs
extract_log_id_and_data (log id ra rb ∷ rs) =
    ((id, rb), to_be_bytes 8 ra) ∷ extract_log_id_and_data rs
extract_log_id_and_data (r ∷ rs) = extract_log_id_and_data rs

unfoldable pub format_log : LogDecoder → LogId × List ℕ → Result Text
format_log d (log_id, bytes) = elim (d.log_formatters log_id) [
  | none ↦ err (codec missing_formatter)
  | some log_formatter ↦ log_formatter.formatter d.decoder_config bytes
]

unfoldable pub decode_logs : LogDecoder → List Receipt → List (Result Text)
unfolding extract_log_id_and_data format_log
decode_logs d receipts = map (format_log d) (extract_log_id_and_data receipts)

unfoldable pub reverse {ℓ} : {A : Type ℓ} → List A → List A
reverse [] = []
reverse (x ∷ xs) = reverse xs ++ (x ∷ [])

-- The first log that the iterator gives, if there is one.
unfoldable pub format_next : LogDecoder → List (LogId × List ℕ) → Result Text
unfolding format_log
format_next d [] = err (codec no_log)
format_next d (entry ∷ rest) = format_log d entry

unfoldable pub decode_last_log : LogDecoder → List Receipt → Result Text
unfolding reverse extract_log_id_and_data format_next
decode_last_log d receipts = format_next d (extract_log_id_and_data (reverse receipts))

-- `collect` into a result, with the first error.
unfoldable pub collect {ℓ} : {A : Type ℓ} → List (Result A) → Result (List A)
collect [] = ok []
collect (r ∷ rs) = do value ← r; values ← collect rs; ok (value ∷ values)

unfoldable pub exactly_two : List Text → Result (Text × Text)
exactly_two (rhs ∷ lhs ∷ []) = ok (lhs, rhs)
exactly_two some_slice = err (codec (expected_two_logs (length some_slice)))

unfoldable pub decode_last_two_logs : LogDecoder → List Receipt → Result (Text × Text)
unfolding reverse extract_log_id_and_data format_log collect exactly_two
decode_last_two_logs d receipts = do
  res ← collect (take 2 (map (format_log d) (extract_log_id_and_data (reverse receipts))))
  exactly_two res

-- Whether the id is among the `target_ids`, those with a formatter for the type.
unfoldable pub is_target : {T : Type 0} → Loggable T → LogDecoder → LogId → Bool
unfolding can_handle_type
is_target t d log_id = elim (d.log_formatters log_id) [
  | none ↦ false
  | some log_formatter ↦ can_handle_type t log_formatter
]

unfoldable pub targets :
    {T : Type 0} → Loggable T → LogDecoder → List (LogId × List ℕ) → List (LogId × List ℕ)
unfolding is_target
targets t d [] = []
targets t d ((log_id, bytes) ∷ entries) =
    let rest = targets t d entries in if is_target t d log_id then (log_id, bytes) ∷ rest else rest

unfoldable pub decode_logs_with_type :
    {T : Type 0} → External → Loggable T → LogDecoder → List Receipt → Result (List T)
unfolding targets extract_log_id_and_data decode_as collect
decode_logs_with_type x t d receipts = collect (
    map (λ entry. decode_as x t d.decoder_config entry.1)
      (targets t d (extract_log_id_and_data receipts)))
