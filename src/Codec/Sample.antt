-- ===== src/Codec/Sample.antt =====
-- A value for the parameter of the codec, and a value that the examples share.
use fuels_rs.Prelude.{refl, arith}
use fuels_rs.Prelude.BigEndian.{
  to_be_bytes, from_be_bytes, length-to_be_bytes, from_be_bytes-to_be_bytes,
}
use fuels_rs.Utils.{round_up}
use fuels_rs.ParamTypes.{ParamType, ParamTypes, get?}
use fuels_rs.Tokens.{External, IsLawful, Token, Tokens, count}
use fuels_rs.Tokens.Typing.{HasType, HasTypes, AreOf}

abbrev pub sample_external : External
sample_external = record {
  padded_len = round_up;
  u256_to_big_endian = to_be_bytes 32;
  u256_from_big_endian = from_be_bytes;
}

pub sample_external-IsLawful : IsLawful sample_external
sample_external-IsLawful = record {
  padded_len_bounds = λ n. omega arith;
  padded_len_aligned = λ n. omega arith;
  u256_length = λ n h. length-to_be_bytes 32 n;
  u256_round_trip = λ n h. from_be_bytes-to_be_bytes 32 n h;
}

-- (u8, enum { bool, u64 }, [u16; 2])
abbrev pub sample_variants : ParamTypes
sample_variants = ParamTypes.cons ParamType.bool (ParamTypes.cons ParamType.u64 ParamTypes.nil)

abbrev pub sample_type : ParamType
sample_type = ParamType.tuple (
    ParamTypes.cons ParamType.u8 (
      ParamTypes.cons (ParamType.enum sample_variants ParamTypes.nil)
        (ParamTypes.cons (ParamType.array ParamType.u16 2) ParamTypes.nil)))

abbrev pub sample_token : Token
sample_token = Token.tuple (
    Tokens.cons (Token.u8 7) (
      Tokens.cons (Token.enum 1 (Token.u64 5) sample_variants) (
        Tokens.cons (Token.array (Tokens.cons (Token.u16 1) (Tokens.cons (Token.u16 2) Tokens.nil)))
          Tokens.nil)))

pub sample_token-HasType : HasType sample_token sample_type
unfolding count get?
sample_token-HasType = HasType.tuple (
    HasTypes.cons (HasType.u8 (omega arith)) (
      HasTypes.cons (HasType.enum (omega arith) refl (HasType.u64 (omega arith))) (
        HasTypes.cons
          (HasType.array
            (AreOf.more (HasType.u16 (omega arith))
              (AreOf.more (HasType.u16 (omega arith)) AreOf.empty))
            refl)
          HasTypes.nil)))
