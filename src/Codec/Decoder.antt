-- ===== src/Codec/Decoder.antt =====
-- fuels-core/src/codec/abi_decoder.rs and abi_decoder/bounded_decoder.rs.
pub mod Consumed
pub mod Peek
pub mod Enum
pub mod Selected
pub mod Steps
pub mod Scalars
pub mod RoundTrip
pub mod Safety
pub mod NeverPanics
use fuels_rs.Prelude.{
  ℕ, ◌+◌, ◌-◌, ◌*◌, ◌%◌, ◌≤◌, ◌<◌, ltb, ◌==◌, if◌then◌else◌, Bool, true, false, not, Option, none,
  some, List, [], ◌∷◌, length, take, drop, replicate, get_elem?,
}
use fuels_rs.Prelude.BigEndian.{from_be_bytes}
use fuels_rs.Prelude.Utf8.{is_utf8}
use fuels_rs.Errors
use fuels_rs.Errors.{
  Result, ok, err, panic, codec, other, tried_to_read, tried_to_consume, invalid_utf8,
  unknown_discriminant, decoding,
}
use fuels_rs.Utils.{
  sub_usize, add_usize, slice_to, slice_from, to_array, word_size,
  checked_round_up_to_word_alignment,
}
use fuels_rs.ParamTypes.{
  ParamType, ParamTypes, only_units_inside, param_type_of_variant, compute_encoding_in_bytes,
  compute_enum_width_in_bytes, calculate_num_of_elements,
}
use fuels_rs.ParamTypes.Receipts.{validate_is_decodable, heap_type_variant}
use fuels_rs.Tokens.{External, StaticStringToken, Token, Tokens}
use fuels_rs.Codec.Counter.{
  M, pure, lift, ◌>>=◌, ◌>>◌, increase_token, run_w_depth_tracking, new_trackers,
}

pub record DecoderConfig : Type 0 where
  pub max_depth : ℕ
  pub max_tokens : ℕ

abbrev pub default_decoder_config : DecoderConfig
default_decoder_config = record { max_depth = 45; max_tokens = 10000 }

pub record Decoded : Type 0 where
  pub token : Token
  pub bytes_read : ℕ

abbrev pub decoded : Token → ℕ → Decoded
decoded t n = record { token = t; bytes_read = n }

-- What decodes a value from the front of some bytes.
abbrev pub Decode : Type 0
Decode = List ℕ → M Decoded

unfoldable pub peek : List ℕ → ℕ → Result (List ℕ)
peek bytes len =
    if ltb (length bytes) len
    then err (codec (tried_to_read len (length bytes)))
    else slice_to bytes len

unfoldable pub skip : List ℕ → ℕ → Result (List ℕ)
skip bytes num_bytes =
    if ltb (length bytes) num_bytes
    then err (codec (tried_to_consume num_bytes (length bytes)))
    else slice_from bytes num_bytes

-- `peek_fixed::<LEN>`
unfoldable pub peek_fixed : List ℕ → ℕ → Result (List ℕ)
unfolding peek
peek_fixed bytes len = Errors.◌>>=◌ (peek bytes len) (λ s. to_array s len)

-- `u64::from_be_bytes` of the first bytes, and of the same width for the other integers.
unfoldable pub peek_number : List ℕ → ℕ → Result ℕ
unfolding peek_fixed
peek_number bytes width = Errors.◌>>=◌ (peek_fixed bytes width) (λ s. ok (from_be_bytes s))

-- An integer below a word stands at the end of its word.
unfoldable pub peek_padded : List ℕ → ℕ → Result ℕ
unfolding peek_fixed
peek_padded bytes width = Errors.◌>>=◌ (peek_fixed bytes word_size) λ s.
    Errors.◌>>=◌ (slice_from s (word_size - width))
      λ low. Errors.◌>>=◌ (to_array low width) λ number. ok (from_be_bytes number)

unfoldable pub from_utf8 : List ℕ → Result (List ℕ)
from_utf8 bytes = if is_utf8 bytes then ok bytes else err (other invalid_utf8)

module _ (bytes : List ℕ) where
  unfoldable pub decode_unit : Result Decoded
  unfolding peek_fixed
  decode_unit = Errors.◌>>=◌ (peek_fixed bytes 1) (λ _. ok (decoded Token.unit 1))

  unfoldable pub decode_u8 : Result Decoded
  unfolding peek_number
  decode_u8 = Errors.◌>>=◌ (peek_number bytes 1) (λ n. ok (decoded (Token.u8 n) 1))

  unfoldable pub decode_u16 : Result Decoded
  unfolding peek_padded
  decode_u16 = Errors.◌>>=◌ (peek_padded bytes 2) (λ n. ok (decoded (Token.u16 n) word_size))

  unfoldable pub decode_u32 : Result Decoded
  unfolding peek_padded
  decode_u32 = Errors.◌>>=◌ (peek_padded bytes 4) (λ n. ok (decoded (Token.u32 n) word_size))

  unfoldable pub decode_u64 : Result Decoded
  unfolding peek_number
  decode_u64 = Errors.◌>>=◌ (peek_number bytes 8) (λ n. ok (decoded (Token.u64 n) word_size))

  unfoldable pub decode_u128 : Result Decoded
  unfolding peek_number
  decode_u128 =
      Errors.◌>>=◌ (peek_number bytes (2 * word_size))
        (λ n. ok (decoded (Token.u128 n) (2 * word_size)))

  unfoldable pub decode_u256 : External → Result Decoded
  unfolding peek_fixed
  decode_u256 x =
      Errors.◌>>=◌ (peek_fixed bytes (4 * word_size))
        (λ s. ok (decoded (Token.u256 (x.u256_from_big_endian s)) (4 * word_size)))

  unfoldable pub decode_bool : Result Decoded
  unfolding peek_number
  decode_bool = Errors.◌>>=◌ (peek_number bytes 1) (λ n. ok (decoded (Token.bool (not (n == 0))) 1))

  unfoldable pub decode_b256 : Result Decoded
  unfolding peek_fixed
  decode_b256 =
      Errors.◌>>=◌ (peek_fixed bytes (4 * word_size))
        (λ s. ok (decoded (Token.b256 s) (4 * word_size)))

  unfoldable pub decode_raw_slice : Result Decoded
  decode_raw_slice = ok (decoded (Token.raw_slice bytes) (length bytes))

  unfoldable pub decode_bytes : Result Decoded
  decode_bytes = ok (decoded (Token.bytes bytes) (length bytes))

  unfoldable pub decode_std_string : Result Decoded
  unfolding from_utf8
  decode_std_string =
      Errors.◌>>=◌ (from_utf8 bytes) (λ str. ok (decoded (Token.string str) (length bytes)))

  unfoldable pub decode_string_slice : Result Decoded
  unfolding from_utf8
  decode_string_slice = Errors.◌>>=◌ (from_utf8 bytes) λ str.
      let s : StaticStringToken = record { data_bytes = str; expected_len = none } in
      ok (decoded (Token.string_slice s) (length str))

  unfoldable pub decode_string_array : ℕ → Result Decoded
  unfolding peek from_utf8 checked_round_up_to_word_alignment
  decode_string_array len = Errors.◌>>=◌ (peek bytes len) λ encoded_str.
      Errors.◌>>=◌ (from_utf8 encoded_str) λ str.
        Errors.◌>>=◌ (checked_round_up_to_word_alignment len) λ bytes_read.
          let s : StaticStringToken = record { data_bytes = str; expected_len = some len } in
          ok (decoded (Token.string_array s) bytes_read)

-- `decode_params`: each parameter type is given by what decodes it.
unfoldable pub decode_params : List Decode → List ℕ → ℕ → M (Tokens × ℕ)
unfolding skip
decode_params [] bytes bytes_read = pure (Tokens.nil, bytes_read)
decode_params (decode ∷ rest) bytes bytes_read = do
  res ← decode (← lift (skip bytes bytes_read))
  (tokens, total) ← decode_params rest bytes (bytes_read + res.bytes_read)
  pure (Tokens.cons res.token tokens, total)

-- The loop of `decode_tuple` and `decode_struct`, which takes the padding into account.
unfoldable pub decode_fields : List Decode → List ℕ → ℕ → M (Tokens × ℕ)
unfolding skip checked_round_up_to_word_alignment
decode_fields [] bytes bytes_read = pure (Tokens.nil, bytes_read)
decode_fields (decode ∷ rest) bytes bytes_read = do
  aligned ← lift (checked_round_up_to_word_alignment bytes_read)
  res ← decode (← lift (skip bytes aligned))
  (tokens, total) ← decode_fields rest bytes (aligned + res.bytes_read)
  pure (Tokens.cons res.token tokens, total)

abbrev pub wrap : (Tokens → Token) → M (Tokens × ℕ) → M Decoded
wrap f m = m >>= λ (tokens, bytes_read). pure (decoded (f tokens) bytes_read)

-- The bytes of `heap_type`, if the variant that was selected is the one on the heap.
unfoldable pub skip_extra_in_bytes : ParamTypes → ℕ → Result ℕ
unfolding heap_type_variant
skip_extra_in_bytes variants discriminant = elim (heap_type_variant variants) [
  | none ↦ ok 0
  | some (heap_type_discriminant, heap_type) ↦
      if heap_type_discriminant == discriminant then compute_encoding_in_bytes heap_type else ok 0
]

abbrev pub select : List Decode → ℕ → Decode
select decoders discriminant bytes = elim (get_elem? decoders discriminant) [
  | none ↦ lift (err (other (unknown_discriminant discriminant)))
  | some decode ↦ decode bytes
]

-- `decode_token_in_enum`
unfoldable pub decode_token_in_enum : List Decode → ParamTypes → ℕ → Decode
decode_token_in_enum decoders variants discriminant bytes =
    if only_units_inside variants
    then pure (decoded Token.unit 0)
    else select decoders discriminant bytes

unfoldable pub decode_enum : List Decode → ParamTypes → Decode
decode_enum decoders variants bytes = do
  enum_width ← lift (compute_enum_width_in_bytes variants)
  discriminant ← lift (peek_number bytes word_size)
  selected ← lift (param_type_of_variant variants discriminant)
  extra ← lift (skip_extra_in_bytes variants discriminant)
  selected_width ← lift (compute_encoding_in_bytes selected)
  unselected ← lift (sub_usize enum_width selected_width)
  bytes_to_skip ← lift (add_usize unselected extra)
  content ← lift (skip bytes bytes_to_skip)
  result ← decode_token_in_enum decoders variants discriminant content
  pure (decoded (Token.enum discriminant result.token variants) enum_width)

unfoldable pub decode_vector : Decode → ParamType → Decode
unfolding decode_params calculate_num_of_elements
decode_vector decode p bytes = do
  num_of_elements ← lift (calculate_num_of_elements p (length bytes))
  wrap Token.vector (decode_params (replicate num_of_elements decode) bytes 0)

-- The start of `decode_param`: every parameter counts as a token.
abbrev pub counted : Decode → Decode
counted decode bytes = increase_token >> decode bytes

module _ (x : External) where
  unfoldable mutual
    unfolding decode_unit decode_u8 decode_u16 decode_u32 decode_u64 decode_u128 decode_u256
        decode_bool decode_b256 decode_raw_slice decode_bytes decode_std_string decode_string_slice
        decode_string_array decode_params decode_fields decode_vector

    -- The match of `decode_param`.
    pub decode_kind : ParamType → Decode
    decode_kind ParamType.unit bytes = lift (decode_unit bytes)
    decode_kind ParamType.u8 bytes = lift (decode_u8 bytes)
    decode_kind ParamType.u16 bytes = lift (decode_u16 bytes)
    decode_kind ParamType.u32 bytes = lift (decode_u32 bytes)
    decode_kind ParamType.u64 bytes = lift (decode_u64 bytes)
    decode_kind ParamType.u128 bytes = lift (decode_u128 bytes)
    decode_kind ParamType.u256 bytes = lift (decode_u256 bytes x)
    decode_kind ParamType.bool bytes = lift (decode_bool bytes)
    decode_kind ParamType.b256 bytes = lift (decode_b256 bytes)
    decode_kind ParamType.raw_slice bytes = lift (decode_raw_slice bytes)
    decode_kind ParamType.string_slice bytes = lift (decode_string_slice bytes)
    decode_kind (ParamType.string_array len) bytes = lift (decode_string_array bytes len)
    decode_kind (ParamType.array p len) bytes =
        run_w_depth_tracking
          (wrap Token.array (decode_params (replicate len (counted (decode_kind p))) bytes 0))
    decode_kind (ParamType.struct fields generics) bytes =
        run_w_depth_tracking (wrap Token.struct (decode_fields (decoders fields) bytes 0))
    decode_kind (ParamType.enum variants generics) bytes =
        run_w_depth_tracking (decode_enum (decoders variants) variants bytes)
    decode_kind (ParamType.tuple types) bytes =
        run_w_depth_tracking (wrap Token.tuple (decode_fields (decoders types) bytes 0))
    decode_kind (ParamType.vector p) bytes =
        run_w_depth_tracking (decode_vector (counted (decode_kind p)) p bytes)
    decode_kind ParamType.bytes bytes = lift (decode_bytes bytes)
    decode_kind ParamType.string bytes = lift (decode_std_string bytes)

    -- `decode_param` at each of a list of types.
    pub decoders : ParamTypes → List Decode
    decoders ParamTypes.nil = []
    decoders (ParamTypes.cons p ps) = counted (decode_kind p) ∷ decoders ps

  unfoldable pub decode_param : ParamType → Decode
  unfolding decode_kind
  decode_param p = counted (decode_kind p)

abbrev pub as_u64 : (ℕ → Token) → Result Decoded → Result Token
as_u64 f m = Errors.◌>>=◌ m (λ r. elim r.token [ Token.u64 v ↦ ok (f v) | _ ↦ panic ])

-- Unit, u8 and bool come as a u64 from a `Return` receipt. The `unreachable!` arms panic.
unfoldable pub decode_top : External → ParamType → List ℕ → M Token
decode_top x ParamType.unit bytes = pure Token.unit
decode_top x ParamType.u8 bytes = lift (as_u64 (λ v. Token.u8 (v % 256)) (decode_u64 bytes))
decode_top x ParamType.bool bytes =
    lift (as_u64 (λ v. Token.bool (not (v == 0))) (decode_u64 bytes))
decode_top x p bytes = decode_param x p bytes >>= λ r. pure r.token

abbrev pub run {ℓ} : {A : Type ℓ} → DecoderConfig → M A → Result A
run config m =
    Errors.◌>>=◌ (m (new_trackers config.max_depth config.max_tokens decoding)) (λ (a, _). ok a)

-- `ABIDecoder::decode`
unfoldable pub decode : External → DecoderConfig → ParamType → List ℕ → Result Token
decode x config p bytes = run config do lift (validate_is_decodable p); decode_top x p bytes

unfoldable pub validate_all : ParamTypes → Result (Unit {0})
unfolding validate_is_decodable
validate_all ParamTypes.nil = ok tt
validate_all (ParamTypes.cons p ps) = Errors.◌>>◌ (validate_is_decodable p) (validate_all ps)

-- `ABIDecoder::decode_multiple`
unfoldable pub decode_multiple : External → DecoderConfig → ParamTypes → List ℕ → Result Tokens
unfolding decode_kind decode_params validate_all new_trackers increase_token run_w_depth_tracking
decode_multiple x config ps bytes =
    run config
      do lift (validate_all ps); (tokens, _) ← decode_params (decoders x ps) bytes 0; pure tokens
