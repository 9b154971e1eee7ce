-- ===== src/Codec/Encoder.antt =====
-- fuels-core/src/codec/abi_encoder.rs and abi_encoder/bounded_encoder.rs. `x` stands for the calls
-- of other crates; the encoder's `max_total_enum_width` is an argument.
pub mod Layout
use fuels_rs.Prelude.{
  ℕ, ◌+◌, ◌-◌, ◌≤◌, ◌<◌, ltb, if◌then◌else◌, Bool, true, false, List, [], ◌∷◌, ◌++◌, length,
  replicate, take,
}
use fuels_rs.Prelude.BigEndian.{to_be_bytes}
use fuels_rs.Errors
use fuels_rs.Errors.{Result, ok, err, codec, enum_width_limit, encoding}
use fuels_rs.Utils.{checked_round_up_to_word_alignment}
use fuels_rs.ParamTypes.{
  ParamTypes, only_units_inside, param_type_of_variant, compute_enum_width_in_bytes,
  compute_padding_amount_in_bytes,
}
use fuels_rs.Tokens.{
  External, StaticStringToken, Token, Tokens, get_encodable_str, count, pad_u16, pad_u32,
  pad_string,
}
use fuels_rs.UnresolvedBytes.{
  Data, Chunks, inline, dynamic, nil, cons, append, amount_of_inline_bytes,
}
use fuels_rs.Codec.Counter.{
  M, pure, lift, ◌>>=◌, ◌>>◌, increase_token, run_w_depth_tracking, new_trackers,
}

pub record EncoderConfig : Type 0 where
  pub max_depth : ℕ
  pub max_tokens : ℕ
  pub max_total_enum_width : ℕ

abbrev pub default_encoder_config : EncoderConfig
default_encoder_config = record { max_depth = 45; max_tokens = 10000; max_total_enum_width = 10000 }

abbrev pub one : Data → Chunks
one d = cons d nil

abbrev byte_of : Bool → ℕ
byte_of b = if b then 1 else 0

abbrev pub encode_unit : Data
encode_unit = inline (0 ∷ [])

abbrev pub encode_bool_as_byte : Bool → Data
encode_bool_as_byte b = inline (byte_of b ∷ [])

abbrev pub encode_bool_as_u64 : Bool → Data
encode_bool_as_u64 b = inline (0 ∷ 0 ∷ 0 ∷ 0 ∷ 0 ∷ 0 ∷ 0 ∷ byte_of b ∷ [])

abbrev pub encode_u8_as_byte : ℕ → Data
encode_u8_as_byte n = inline (n ∷ [])

abbrev pub encode_u8_as_u64 : ℕ → Data
encode_u8_as_u64 n = inline (0 ∷ 0 ∷ 0 ∷ 0 ∷ 0 ∷ 0 ∷ 0 ∷ n ∷ [])

abbrev pub encode_u16 : ℕ → Data
encode_u16 n = inline (pad_u16 n)

abbrev pub encode_u32 : ℕ → Data
encode_u32 n = inline (pad_u32 n)

abbrev pub encode_u64 : ℕ → Data
encode_u64 n = inline (to_be_bytes 8 n)

abbrev pub encode_u128 : ℕ → Data
encode_u128 n = inline (to_be_bytes 16 n)

abbrev pub encode_u256 : External → ℕ → Data
encode_u256 x n = inline (x.u256_to_big_endian n)

abbrev pub encode_b256 : List ℕ → Data
encode_b256 bits = inline bits

abbrev pub encode_discriminant : ℕ → Data
encode_discriminant d = encode_u64 d

-- `data.resize(padded_length, 0)`
unfoldable pub zeropad_to_word_alignment : External → List ℕ → List ℕ
zeropad_to_word_alignment x bytes =
    let padded_length = x.padded_len (length bytes) in
    take padded_length bytes ++ replicate (padded_length - length bytes) 0

unfoldable pub encode_raw_slice : External → List ℕ → Chunks
unfolding zeropad_to_word_alignment
encode_raw_slice x bytes =
    cons (dynamic (one (inline (zeropad_to_word_alignment x bytes))))
      (one (encode_u64 (length bytes)))

unfoldable pub encode_string_slice : StaticStringToken → Result Chunks
encode_string_slice s =
    Errors.◌>>=◌ (get_encodable_str s)
      λ str. ok (cons (dynamic (one (inline str))) (one (encode_u64 (length str))))

unfoldable pub encode_string_array : External → StaticStringToken → Result Chunks
encode_string_array x s =
    Errors.◌>>=◌ (get_encodable_str s) λ str. ok (one (inline (pad_string x str)))

unfoldable pub encode_bytes : External → List ℕ → Chunks
unfolding zeropad_to_word_alignment
encode_bytes x bytes =
    let padded = zeropad_to_word_alignment x bytes in
    cons (dynamic (one (inline padded)))
      (cons (encode_u64 (length padded)) (one (encode_u64 (length bytes))))

unfoldable pub encode_vector : ℕ → Chunks → Chunks
encode_vector len encoded_data =
    cons (dynamic encoded_data) (cons (encode_u64 len) (one (encode_u64 len)))

-- `encode_enum`, with the encoding of the token within as an action that runs where the code
-- makes the call.
unfoldable pub encode_enum : ℕ → ℕ → ParamTypes → M Chunks → M Chunks
encode_enum max_total_enum_width discriminant variants encode_token_within =
    if only_units_inside variants then pure (one (encode_discriminant discriminant)) else do
      variant ← lift (param_type_of_variant variants discriminant)
      enum_width ← lift (compute_enum_width_in_bytes variants)
      lift (
          if ltb max_total_enum_width enum_width
          then err (codec (enum_width_limit enum_width))
          else ok tt)
      padding_amount ← lift (compute_padding_amount_in_bytes variants variant)
      token_data ← encode_token_within
      pure (
          cons (encode_discriminant discriminant)
            (cons (inline (replicate padding_amount 0)) token_data))

-- The end of a round of `encode_tokens`: the new offset and data, padded to a word if asked.
unfoldable pub push_padded : Bool → ℕ → Chunks → Chunks → Result (ℕ × Chunks)
unfolding checked_round_up_to_word_alignment
push_padded word_aligned offset_in_bytes encoded new_data =
    let offset = offset_in_bytes + amount_of_inline_bytes new_data in
    let together = append encoded new_data in
    if word_aligned
    then Errors.◌>>=◌ (checked_round_up_to_word_alignment offset) (λ rounded.
      if ltb 0 (rounded - offset)
      then ok (rounded, append together (one (inline (replicate (rounded - offset) 0))))
      else ok (offset, together))
    else ok (offset, together)

module _ (x : External) (max_total_enum_width : ℕ) where
  unfoldable mutual
    unfolding encode_raw_slice encode_string_slice encode_string_array encode_bytes encode_vector
        push_padded

    pub encode_token : Token → M Chunks
    encode_token Token.unit = pure (one encode_unit)
    encode_token (Token.u8 n) = pure (one (encode_u8_as_byte n))
    encode_token (Token.u16 n) = pure (one (encode_u16 n))
    encode_token (Token.u32 n) = pure (one (encode_u32 n))
    encode_token (Token.u64 n) = pure (one (encode_u64 n))
    encode_token (Token.u128 n) = pure (one (encode_u128 n))
    encode_token (Token.u256 n) = pure (one (encode_u256 x n))
    encode_token (Token.bool b) = pure (one (encode_bool_as_byte b))
    encode_token (Token.b256 bits) = pure (one (encode_b256 bits))
    encode_token (Token.raw_slice bytes) = pure (encode_raw_slice x bytes)
    encode_token (Token.string_slice s) = lift (encode_string_slice s)
    encode_token (Token.string_array s) = lift (encode_string_array x s)
    encode_token (Token.array ts) = run_w_depth_tracking (encode_tokens ts false 0 nil)
    encode_token (Token.struct ts) = run_w_depth_tracking (encode_tokens ts true 0 nil)
    encode_token (Token.enum d t vs) =
        run_w_depth_tracking (encode_enum max_total_enum_width d vs (encode_token t))
    encode_token (Token.tuple ts) = run_w_depth_tracking (encode_tokens ts true 0 nil)
    encode_token (Token.vector ts) =
        run_w_depth_tracking do
          encoded_data ← encode_tokens ts false 0 nil
          pure (encode_vector (count ts) encoded_data)
    encode_token (Token.bytes bytes) = pure (encode_bytes x bytes)
    encode_token (Token.string bytes) = pure (encode_bytes x bytes)

    -- The loop of `encode_tokens(tokens, word_aligned)`, from a given offset and data.
    pub encode_tokens : Tokens → Bool → ℕ → Chunks → M Chunks
    encode_tokens Tokens.nil word_aligned offset_in_bytes encoded = pure encoded
    encode_tokens (Tokens.cons t ts) word_aligned offset_in_bytes encoded = do
      increase_token
      new_data ← encode_token t
      (offset, together) ← lift (push_padded word_aligned offset_in_bytes encoded new_data)
      encode_tokens ts word_aligned offset together

-- `ABIEncoder::encode`: a lone bool or u8 takes a whole word.
unfoldable pub encode : External → EncoderConfig → Tokens → Result Chunks
encode x config (Tokens.cons (Token.bool b) Tokens.nil) = ok (one (encode_bool_as_u64 b))
encode x config (Tokens.cons (Token.u8 n) Tokens.nil) = ok (one (encode_u8_as_u64 n))
encode x config args =
    let start = new_trackers config.max_depth config.max_tokens encoding in
    Errors.◌>>=◌ (encode_tokens x config.max_total_enum_width args true 0 nil start)
      (λ (encoded, _). ok encoded)
