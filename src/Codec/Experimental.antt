-- ===== src/Codec/Experimental.antt =====
-- fuels-core/src/codec/abi_decoder/experimental_bounded_decoder.rs: the decoder of packed data. Its
-- own copy of `CounterWithLimit` behaves like the shared one with the direction `decoding`.
pub mod Packed
pub mod Steps
pub mod Scalars
pub mod RoundTrip
pub mod Short
mod Tests
use fuels_rs.Prelude.{
  ℕ, ◌+◌, ◌*◌, ltb, ◌==◌, if◌then◌else◌, not, none, some, Bool, true, false, List, [], ◌∷◌, length,
  take, drop, replicate,
}
use fuels_rs.Prelude.BigEndian.{from_be_bytes}
use fuels_rs.Errors
use fuels_rs.Errors.{Result, ok, panic}
use fuels_rs.Utils.{word_size}
use fuels_rs.ParamTypes.{ParamType, ParamTypes, param_type_of_variant}
use fuels_rs.Tokens.{External, Token, Tokens}
use fuels_rs.Codec.Counter.{M, pure, lift, ◌>>=◌, ◌>>◌, increase_token, run_w_depth_tracking}
use fuels_rs.Codec.Decoder.{
  DecoderConfig, Decoded, decoded, Decode, from_utf8, wrap, select, counted, run,
}

-- `(len <= data.len()).then_some(&data[..len])` evaluates the slice first: out of range it panics,
-- and the error that follows in the code is never returned.
unfoldable pub peek_slice : List ℕ → ℕ → Result (List ℕ)
peek_slice bytes len = if ltb (length bytes) len then panic else ok (take len bytes)

-- `then_some(&slice[num_bytes..])` likewise.
unfoldable pub skip_slice : List ℕ → ℕ → Result (List ℕ)
skip_slice slice num_bytes =
    if ltb (length slice) num_bytes then panic else ok (drop num_bytes slice)

-- `u64::from_be_bytes` of a fixed number of bytes, and of the other widths.
unfoldable pub peek_be : List ℕ → ℕ → Result ℕ
unfolding peek_slice
peek_be bytes width = Errors.◌>>=◌ (peek_slice bytes width) (λ s. ok (from_be_bytes s))

-- A u64 is always a usize.
unfoldable pub peek_length : List ℕ → Result ℕ
unfolding peek_be
peek_length bytes = peek_be bytes word_size

unfoldable pub peek_discriminant : List ℕ → Result ℕ
unfolding peek_be
peek_discriminant bytes = peek_be bytes word_size

-- The integers, each of its own width.
unfoldable pub decode_number : (ℕ → Token) → ℕ → List ℕ → Result Decoded
unfolding peek_be
decode_number token_of width bytes =
    Errors.◌>>=◌ (peek_be bytes width) (λ n. ok (decoded (token_of n) width))

-- A length and as many bytes.
unfoldable pub peek_sized : List ℕ → Result (List ℕ)
unfolding peek_length skip_slice peek_slice
peek_sized bytes =
    Errors.◌>>=◌ (peek_length bytes)
      λ len. Errors.◌>>=◌ (skip_slice bytes word_size) (λ content. peek_slice content len)

module _ (bytes : List ℕ) where
  unfoldable pub decode_unit : Result Decoded
  decode_unit = ok (decoded Token.unit 0)

  unfoldable pub decode_bool : Result Decoded
  unfolding peek_be
  decode_bool = Errors.◌>>=◌ (peek_be bytes 1) (λ n. ok (decoded (Token.bool (not (n == 0))) 1))

  unfoldable pub decode_u256 : External → Result Decoded
  unfolding peek_slice
  decode_u256 x =
      Errors.◌>>=◌ (peek_slice bytes (4 * word_size))
        (λ s. ok (decoded (Token.u256 (x.u256_from_big_endian s)) (4 * word_size)))

  unfoldable pub decode_b256 : Result Decoded
  unfolding peek_slice
  decode_b256 =
      Errors.◌>>=◌ (peek_slice bytes (4 * word_size))
        (λ s. ok (decoded (Token.b256 s) (4 * word_size)))

  unfoldable pub decode_bytes : Result Decoded
  unfolding peek_sized
  decode_bytes =
      Errors.◌>>=◌ (peek_sized bytes) (λ s. ok (decoded (Token.bytes s) (word_size + length s)))

  unfoldable pub decode_std_string : Result Decoded
  unfolding peek_sized from_utf8
  decode_std_string = Errors.◌>>=◌ (peek_sized bytes) λ s.
      Errors.◌>>=◌ (from_utf8 s) (λ str. ok (decoded (Token.string str) (word_size + length s)))

  unfoldable pub decode_raw_slice : Result Decoded
  unfolding peek_sized
  decode_raw_slice =
      Errors.◌>>=◌ (peek_sized bytes) (λ s. ok (decoded (Token.raw_slice s) (word_size + length s)))

  unfoldable pub decode_string_array : ℕ → Result Decoded
  unfolding peek_slice from_utf8
  decode_string_array len = Errors.◌>>=◌ (peek_slice bytes len) λ s.
      Errors.◌>>=◌ (from_utf8 s) (λ str.
        ok
          (decoded (Token.string_array (record { data_bytes = str; expected_len = some len })) len))

  -- The bytes read leave out those of the length.
  unfoldable pub decode_string_slice : Result Decoded
  unfolding peek_sized from_utf8
  decode_string_slice = Errors.◌>>=◌ (peek_sized bytes) λ s. Errors.◌>>=◌ (from_utf8 s) (λ str.
      ok (
        decoded (Token.string_slice (record { data_bytes = str; expected_len = none })) (length s)))

-- The loop of `decode_params`, each parameter type given by what decodes it.
unfoldable pub decode_params : List Decode → List ℕ → ℕ → M (Tokens × ℕ)
unfolding skip_slice
decode_params [] bytes bytes_read = pure (Tokens.nil, bytes_read)
decode_params (decode ∷ rest) bytes bytes_read = do
  res ← decode (← lift (skip_slice bytes bytes_read))
  (tokens, total) ← decode_params rest bytes (bytes_read + res.bytes_read)
  pure (Tokens.cons res.token tokens, total)

unfoldable pub decode_vector : Decode → Decode
unfolding peek_length skip_slice decode_params
decode_vector decode bytes = do
  len ← lift (peek_length bytes)
  content ← lift (skip_slice bytes word_size)
  (tokens, bytes_read) ← decode_params (replicate len decode) content 0
  pure (decoded (Token.vector tokens) (word_size + bytes_read))

unfoldable pub decode_enum : List Decode → ParamTypes → Decode
unfolding peek_discriminant skip_slice
decode_enum decoders variants bytes = do
  discriminant ← lift (peek_discriminant bytes)
  variant_bytes ← lift (skip_slice bytes word_size)
  selected ← lift (param_type_of_variant variants discriminant)
  result ← select decoders discriminant variant_bytes
  pure (decoded (Token.enum discriminant result.token variants) (word_size + result.bytes_read))

module _ (x : External) where
  unfoldable mutual
    unfolding decode_unit decode_number decode_bool decode_u256 decode_b256 decode_bytes
        decode_std_string decode_raw_slice decode_string_array decode_string_slice decode_params
        decode_vector decode_enum

    -- The match of `decode_param`.
    pub decode_kind : ParamType → Decode
    decode_kind ParamType.unit bytes = lift (decode_unit bytes)
    decode_kind ParamType.bool bytes = lift (decode_bool bytes)
    decode_kind ParamType.u8 bytes = lift (decode_number Token.u8 1 bytes)
    decode_kind ParamType.u16 bytes = lift (decode_number Token.u16 2 bytes)
    decode_kind ParamType.u32 bytes = lift (decode_number Token.u32 4 bytes)
    decode_kind ParamType.u64 bytes = lift (decode_number Token.u64 8 bytes)
    decode_kind ParamType.u128 bytes = lift (decode_number Token.u128 16 bytes)
    decode_kind ParamType.u256 bytes = lift (decode_u256 bytes x)
    decode_kind ParamType.b256 bytes = lift (decode_b256 bytes)
    decode_kind ParamType.bytes bytes = lift (decode_bytes bytes)
    decode_kind ParamType.string bytes = lift (decode_std_string bytes)
    decode_kind ParamType.raw_slice bytes = lift (decode_raw_slice bytes)
    decode_kind (ParamType.string_array len) bytes = lift (decode_string_array bytes len)
    decode_kind ParamType.string_slice bytes = lift (decode_string_slice bytes)
    decode_kind (ParamType.tuple types) bytes =
        run_w_depth_tracking (wrap Token.tuple (decode_params (decoders types) bytes 0))
    decode_kind (ParamType.array p len) bytes =
        run_w_depth_tracking
          (wrap Token.array (decode_params (replicate len (counted (decode_kind p))) bytes 0))
    decode_kind (ParamType.vector p) bytes =
        run_w_depth_tracking (decode_vector (counted (decode_kind p)) bytes)
    decode_kind (ParamType.struct fields generics) bytes =
        run_w_depth_tracking (wrap Token.struct (decode_params (decoders fields) bytes 0))
    decode_kind (ParamType.enum variants generics) bytes =
        run_w_depth_tracking (decode_enum (decoders variants) variants bytes)

    -- `decode_param` at each of a list of types.
    pub decoders : ParamTypes → List Decode
    decoders ParamTypes.nil = []
    decoders (ParamTypes.cons p ps) = counted (decode_kind p) ∷ decoders ps

  unfoldable pub decode_param : ParamType → Decode
  unfolding decode_kind
  decode_param p = counted (decode_kind p)

-- `ABIDecoder::experimental_decode`
unfoldable pub experimental_decode : External → DecoderConfig → ParamType → List ℕ → Result Token
unfolding decode_param
experimental_decode x config p bytes = run config do res ← decode_param x p bytes; pure res.token

-- `ABIDecoder::experimental_decode_multiple`
unfoldable pub experimental_decode_multiple :
    External → DecoderConfig → ParamTypes → List ℕ → Result Tokens
unfolding decode_params decode_kind
experimental_decode_multiple x config ps bytes =
    run config do (tokens, _) ← decode_params (decoders x ps) bytes 0; pure tokens
