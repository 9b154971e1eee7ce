-- ===== src/Codec/Tests.antt =====
-- The codec on concrete input, and its theorems at concrete values.
use fuels_rs.Prelude.{◌≡◌, refl, arith, [], ◌∷◌, ◌++◌}
use fuels_rs.Errors.{ok}
use fuels_rs.ParamTypes.{only_units_inside}
use fuels_rs.ParamTypes.Width.{width}
use fuels_rs.ParamTypes.Fits.{Fits}
use fuels_rs.ParamTypes.Receipts.{is_extra_receipt_needed}
use fuels_rs.Tokens.{Tokens}
use fuels_rs.UnresolvedBytes.{Chunks, resolve}
use fuels_rs.Codec.Counter.{spend, new_trackers}
use fuels_rs.Codec.Encoder.{encode, default_encoder_config}
use fuels_rs.Codec.Decoder.{decode, default_decoder_config}
use fuels_rs.Codec.Decoder.Consumed.{consumed}
use fuels_rs.Codec.Format.{depth_of, tokens_in}
use fuels_rs.Codec.Encoder.{encode_token}
use fuels_rs.Codec.Encoder.Layout.{encode_token-layout}
use fuels_rs.Codec.Decoder.{decode_param, decoded}
use fuels_rs.Codec.Decoder.RoundTrip.{decode_param-layout}
use fuels_rs.Codec.Format.{layout, flat}
use fuels_rs.Errors.{encoding, decoding}
use fuels_rs.Codec.RoundTrip.{decode-encode}
use fuels_rs.Codec.Decoder.Safety.{Safe}
use fuels_rs.Codec.Decoder.NeverPanics.{decode-Safe}
use fuels_rs.Codec.Narrow.{pair, pair_type, narrow_structs-misread}
use fuels_rs.Codec.Sample.{
  sample_external, sample_external-IsLawful, sample_type, sample_token, sample_token-HasType,
}

sample_type-Fits : Fits 10000 sample_type
unfolding width only_units_inside
sample_type-Fits = omega arith

decode-encode_example :
    (bytes : Chunks) × (encode sample_external default_encoder_config
        (Tokens.cons sample_token Tokens.nil)
      ≡ ok bytes)
    × (decode sample_external default_decoder_config sample_type (resolve bytes 1000)
        ≡ ok sample_token)
unfolding width consumed is_extra_receipt_needed depth_of tokens_in only_units_inside
decode-encode_example =
    decode-encode sample_external default_encoder_config default_decoder_config 1000 sample_token
      sample_type sample_external-IsLawful sample_token-HasType sample_type-Fits (omega arith)
      (omega arith) refl (omega arith) (omega arith)

encode_token-layout_example :
    encode_token sample_external 10000 sample_token (new_trackers 45 10000 encoding)
    ≡ ok (layout sample_external sample_token, spend 5 (new_trackers 45 10000 encoding))
unfolding width depth_of tokens_in only_units_inside new_trackers
encode_token-layout_example =
    encode_token-layout sample_external sample_external-IsLawful 10000 sample_token sample_type
      (new_trackers 45 10000 encoding) sample_token-HasType sample_type-Fits (omega arith)

decode_param-layout_example :
    decode_param sample_external sample_type
      (flat (layout sample_external sample_token) ++ (1 ∷ []))
      (new_trackers 45 10000 decoding)
    ≡ ok (decoded sample_token 40, spend 7 (new_trackers 45 10000 decoding))
unfolding width consumed is_extra_receipt_needed depth_of tokens_in only_units_inside new_trackers
decode_param-layout_example =
    decode_param-layout sample_external sample_external-IsLawful 10000 sample_token sample_type
      (1 ∷ []) (new_trackers 45 10000 decoding) sample_token-HasType sample_type-Fits (omega arith)
      refl (omega arith)

-- [1, 2] comes back as [1, 0].
narrow_structs-misread_example :
    (bytes : Chunks) × (encode sample_external default_encoder_config
        (Tokens.cons (pair 1 2) Tokens.nil)
      ≡ ok bytes)
    × (decode sample_external default_decoder_config pair_type (resolve bytes 1000) ≡ ok (pair 1 0))
narrow_structs-misread_example = narrow_structs-misread sample_external 1 2 1000

decode-Safe_example : Safe (decode sample_external default_decoder_config sample_type (1 ∷ 2 ∷ []))
decode-Safe_example = decode-Safe sample_external default_decoder_config sample_type (1 ∷ 2 ∷ [])
