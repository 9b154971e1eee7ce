-- ===== src/Codec/Experimental/Tests.antt =====
-- The decoder of packed data on concrete input, and its theorems at concrete values.
use fuels_rs.Prelude.{◌+◌, ◌≡◌, refl, arith, [], ◌∷◌, ◌++◌, length}
use fuels_rs.Prelude.Utf8.{is_utf8}
use fuels_rs.Errors.{ok, panic, decoding}
use fuels_rs.ParamTypes.{ParamType, ParamTypes, get?}
use fuels_rs.Tokens.{Token, Tokens, count}
use fuels_rs.Tokens.Typing.{HasType, HasTypes, AreOf}
use fuels_rs.Codec.Counter.{spend, new_trackers}
use fuels_rs.Codec.Decoder.{decoded}
use fuels_rs.Codec.Sample.{sample_external, sample_external-IsLawful}
use fuels_rs.Codec.Experimental.{decode_param}
use fuels_rs.Codec.Experimental.Packed.{packed, levels, below}
use fuels_rs.Codec.Experimental.RoundTrip.{decode_param-packed}
use fuels_rs.Codec.Experimental.Short.{
  first_read, decode_param-short, string_slice-misread, str_and_u8, pair_of,
}

-- (Vec<u16>, Bytes, enum { (), u8 })
abbrev variants : ParamTypes
variants = ParamTypes.cons ParamType.unit (ParamTypes.cons ParamType.u8 ParamTypes.nil)

abbrev sample : ParamType
sample = ParamType.tuple (
    ParamTypes.cons (ParamType.vector ParamType.u16) (
      ParamTypes.cons ParamType.bytes
        (ParamTypes.cons (ParamType.enum variants ParamTypes.nil) ParamTypes.nil)))

abbrev value : Token
value = Token.tuple (
    Tokens.cons (Token.vector (Tokens.cons (Token.u16 513) Tokens.nil)) (
      Tokens.cons (Token.bytes (5 ∷ []))
        (Tokens.cons (Token.enum 1 (Token.u8 9) variants) Tokens.nil)))

value-HasType : HasType value sample
unfolding get?
value-HasType = HasType.tuple (
    HasTypes.cons (HasType.vector (AreOf.more (HasType.u16 (omega arith)) AreOf.empty)) (
      HasTypes.cons HasType.bytes
        (HasTypes.cons (HasType.enum (omega arith) refl (HasType.u8 (omega arith))) HasTypes.nil)))

decode_param-packed_example :
    decode_param sample_external sample
      (packed sample_external value ++ (3 ∷ []))
      (new_trackers 45 10000 decoding)
    ≡ ok (
      decoded value (length (packed sample_external value)),
      spend (1 + below value) (new_trackers 45 10000 decoding),
    )
unfolding levels below count new_trackers
decode_param-packed_example =
    decode_param-packed sample_external sample_external-IsLawful value sample (3 ∷ [])
      (new_trackers 45 10000 decoding) value-HasType (omega arith) (omega arith)

decode_param-short_example :
    decode_param sample_external ParamType.u32 (1 ∷ 2 ∷ []) (new_trackers 45 10000 decoding) ≡ panic
unfolding first_read new_trackers
decode_param-short_example =
    decode_param-short sample_external (1 ∷ 2 ∷ []) ParamType.u32 (new_trackers 45 10000 decoding)
      (omega arith) (omega arith)

-- ("hi", 9) is read as ("hi", 0).
string_slice-misread_example :
    decode_param sample_external str_and_u8
      (packed sample_external (pair_of (104 ∷ 105 ∷ []) 9) ++ [])
      (new_trackers 45 10000 decoding)
    ≡ ok (decoded (pair_of (104 ∷ 105 ∷ []) 0) 3, spend 3 (new_trackers 45 10000 decoding))
unfolding is_utf8 new_trackers
string_slice-misread_example =
    string_slice-misread sample_external (104 ∷ 105 ∷ []) 9 [] (new_trackers 45 10000 decoding) refl
      (omega arith) (omega arith)
