-- ===== src/Codec/Logs/Tests.antt =====
-- Logs of concrete receipts.
use fuels_rs.Prelude.{ℕ, ◌==◌, if◌then◌else◌, ◌↔◌, none, ◌≡◌, refl, some, List, [], ◌∷◌}
use fuels_rs.Prelude.BigEndian.{to_be_bytes, from_be_bytes}
use fuels_rs.Errors.{Result, ok, err, codec, no_log}
use fuels_rs.ParamTypes.{u64}
use fuels_rs.ParamTypes.Receipts.{validate_is_decodable}
use fuels_rs.Tokens.{Token}
use fuels_rs.Codec.Sample.{sample_external}
use fuels_rs.Codec.Decoder.{decode, decode_top, decode_param}
use fuels_rs.Codec.Counter.{increase_token, new_trackers}
use fuels_rs.Receipt.{Receipt, log, return}
use fuels_rs.Codec.Logs.{
  Loggable, LogDecoder, new_log_formatter, new_log_decoder, decode_logs_with_type,
}
use fuels_rs.Codec.Logs.{decode_logs, decode_last_two_logs}
use fuels_rs.Codec.Logs.Last.{last_two_results, decode_last_two_logs-last}
use fuels_rs.Codec.Logs.Typed.{Logged, decode_logs_with_type_iff}

abbrev number : Token → Result ℕ
number (Token.u64 n) = ok n
number _ = err (codec no_log)

abbrev numbers : Loggable ℕ
numbers = record { type_id = 3; param_type = u64; from_token = number; debug = λ n. n ∷ [] }

abbrev sample_decoder : LogDecoder
sample_decoder = new_log_decoder (λ id. some (new_log_formatter sample_external numbers))

abbrev sample_receipts : List Receipt
sample_receipts = log 5 7 0 ∷ return 5 1 ∷ log 6 8 1 ∷ []

logged :
    decode_logs_with_type sample_external numbers sample_decoder sample_receipts ≡ ok (7 ∷ 8 ∷ [])
unfolding decode_logs_with_type decode new_log_formatter validate_is_decodable decode_top
    decode_param increase_token new_trackers to_be_bytes from_be_bytes
logged = refl

-- A formatter for the logs with number 0 alone.
abbrev partial_decoder : LogDecoder
partial_decoder =
    new_log_decoder
      (λ (id, n). if n == 0 then some (new_log_formatter sample_external numbers) else none)

abbrev mixed_receipts : List Receipt
mixed_receipts = log 6 8 1 ∷ return 5 1 ∷ log 5 7 0 ∷ log 4 8 2 ∷ log 5 9 0 ∷ []

decode_logs_with_type_iff_example :
    (decode_logs_with_type sample_external numbers partial_decoder mixed_receipts ≡ ok (7 ∷ 9 ∷ []))
    ↔ Logged sample_external numbers partial_decoder mixed_receipts (7 ∷ 9 ∷ [])
decode_logs_with_type_iff_example =
    decode_logs_with_type_iff sample_external numbers partial_decoder mixed_receipts (7 ∷ 9 ∷ [])

logged_between :
    decode_logs_with_type sample_external numbers partial_decoder mixed_receipts ≡ ok (7 ∷ 9 ∷ [])
unfolding decode_logs_with_type decode new_log_formatter validate_is_decodable decode_top
    decode_param increase_token new_trackers to_be_bytes from_be_bytes
logged_between = refl

decode_last_two_logs-last_example :
    decode_last_two_logs sample_decoder sample_receipts
    ≡ last_two_results (decode_logs sample_decoder sample_receipts)
decode_last_two_logs-last_example = decode_last_two_logs-last sample_decoder sample_receipts
