-- ===== src/Codec/RoundTrip.antt =====
-- The codec as a whole: what `ABIEncoder::encode` makes of a value, `ABIDecoder::decode` reads back.
use native.Mathlib.Nat.{zero-add}
use fuels_rs.Prelude.{
  ℕ, ◌+◌, ◌≤◌, ◌<◌, ◌≡◌, refl, ap, ◌∙◌, arith, Bool, true, false, not, ◌||◌, ◌==◌, if◌then◌else◌,
  [], ◌++◌, append_assoc,
}
use fuels_rs.Prelude.BigEndian.{from_be_bytes}
use fuels_rs.Errors.{ok, encoding, decoding, ◌>>=◌}
use fuels_rs.Utils.{usize_limit}
use fuels_rs.ParamTypes.{ParamType, ParamTypes}
use fuels_rs.ParamTypes.Receipts.{is_extra_receipt_needed, any_extra}
use fuels_rs.ParamTypes.Receipts.Validation.{validate-inline}
use fuels_rs.ParamTypes.Width.{width, width_fields}
use fuels_rs.ParamTypes.Fits.{Fits, FitsAll}
use fuels_rs.Tokens.{External, IsLawful, Token, Tokens}
use fuels_rs.Tokens.Typing.{HasType, HasTypes}
use fuels_rs.UnresolvedBytes.{Chunks, nil, append, resolve}
use fuels_rs.Codec.Counter.{Trackers, HasRoom, spend, new_trackers}
use fuels_rs.Codec.Encoder.{
  EncoderConfig, encode, encode_tokens, encode_bool_as_u64, encode_u8_as_u64, one,
}
use fuels_rs.Codec.Encoder.Layout.{encode_tokens-layout_fields}
use fuels_rs.Codec.Decoder.{DecoderConfig, decode, decode_top, decode_param, decode_u64, decoded}
use fuels_rs.Codec.Decoder.Consumed.{HoldsWhole, consumed}
use fuels_rs.Codec.Decoder.RoundTrip.{decode_param-layout}
use fuels_rs.Codec.Format.{
  layout, layout_fields, depth_of, depth_of_all, tokens_in, tokens_in_all, flat, flat-append,
  filler,
}
use fuels_rs.Codec.Format.Inline.{resolve-inline, layout_fields-IsInline}

-- A lone bool or u8 takes a word; other arguments are aligned like fields.
unfoldable pub encoded_args : External → Tokens → Chunks
encoded_args x (Tokens.cons (Token.bool b) Tokens.nil) = one (encode_bool_as_u64 b)
encoded_args x (Tokens.cons (Token.u8 n) Tokens.nil) = one (encode_u8_as_u64 n)
encoded_args x ts = layout_fields x ts

module _ (x : External) (l : IsLawful x) (config : EncoderConfig) where
  encode-cases :
      (ts : Tokens) (s : Trackers)
      → encode_tokens x config.max_total_enum_width ts true 0 nil
          (new_trackers config.max_depth config.max_tokens encoding)
        ≡ ok (layout_fields x ts, s)
      → encode x config ts ≡ ok (encoded_args x ts)
  unfolding encode encoded_args
  encode-cases (Tokens.cons (Token.bool b) Tokens.nil) s e = refl
  encode-cases (Tokens.cons (Token.u8 n) Tokens.nil) s e = refl
  encode-cases ts s e = ap (λ r. r >>= λ (encoded, _). ok encoded) e

  -- Arguments of types that fit, within the limits of the configuration, are encoded.
  pub encode-encoded_args :
      (ts : Tokens) (ps : ParamTypes)
      → HasTypes ts ps
      → FitsAll config.max_total_enum_width ps
      → width_fields ps < usize_limit
      → depth_of_all ts ≤ config.max_depth
      → tokens_in_all 0 ts ≤ config.max_tokens
      → encode x config ts ≡ ok (encoded_args x ts)
  unfolding new_trackers
  encode-encoded_args ts ps h f lt d n =
      encode-cases ts _
        (encode_tokens-layout_fields x l config.max_total_enum_width ts ps _ h f lt (omega arith))

-- A lone bool or u8 is read back from its word.
decode_u64-narrow :
    (n : ℕ) (addr : ℕ)
    → decode_u64 (resolve (one (encode_u8_as_u64 n)) addr) ≡ ok (decoded (Token.u64 n) 8)
unfolding decode_u64 resolve append from_be_bytes
decode_u64-narrow n addr = ap (λ k. ok (decoded (Token.u64 k) 8)) (zero-add n)

layout_fields-one :
    (x : External) (t : Token)
    → layout_fields x (Tokens.cons t Tokens.nil)
      ≡ append (append (layout x t) (filler (layout x t))) nil
unfolding layout
layout_fields-one x t = refl

any_extra-one :
    (p : ParamType)
    → is_extra_receipt_needed p false ≡ false
    → any_extra (ParamTypes.cons p ParamTypes.nil) ≡ false
unfolding is_extra_receipt_needed
any_extra-one p i = ap (λ b. b || false) i

flat-one : (c d : Chunks) → flat (append (append c d) nil) ≡ flat c ++ (flat d ++ [])
unfolding flat
flat-one c d =
    rw (flat-append (append c d) nil, flat-append c d) (append_assoc (flat c) (flat d) [])

bool_byte : (b : Bool) → not ((if b then 1 else 0) == 0) ≡ b
bool_byte true = refl
bool_byte false = refl

module _ (x : External) (l : IsLawful x) (limit : ℕ) (addr : ℕ) where
  decode_param-general :
      (t : Token) (p : ParamType) (s : Trackers)
      → HasType t p
      → Fits limit p
      → HoldsWhole p
      → is_extra_receipt_needed p false ≡ false
      → HasRoom s (depth_of t) (1 + tokens_in 1 t)
      → decode_param x p (resolve (layout_fields x (Tokens.cons t Tokens.nil)) addr) s
        ≡ ok (decoded t (consumed p), spend (1 + tokens_in 1 t) s)
  decode_param-general t p s h f w i room =
      let c = layout x t in
      ap (λ bs. decode_param x p bs s)
        (resolve-inline _ addr
            (layout_fields-IsInline x (HasTypes.cons h HasTypes.nil) (any_extra-one p i))
          ∙ ap flat (layout_fields-one x t)
          ∙ flat-one c (filler c))
      ∙ decode_param-layout x l limit t p (flat (filler c) ++ []) s h f w i room

  decode_top-cases :
      {t : Token} {p : ParamType} (s : Trackers)
      → HasType t p
      → Fits limit p
      → HoldsWhole p
      → is_extra_receipt_needed p false ≡ false
      → HasRoom s (depth_of t) (1 + tokens_in 1 t)
      → (s' : Trackers) × (decode_top x p
            (resolve (encoded_args x (Tokens.cons t Tokens.nil)) addr)
            s
          ≡ ok (t, s'))
  unfolding decode_top encoded_args
  decode_top-cases s HasType.unit f w i room = (s, refl)
  decode_top-cases s (HasType.u8 {n} h) f w i room =
      (s, rw (decode_u64-narrow n addr) (ap (λ k. ok (Token.u8 k, s)) (omega arith)))
  decode_top-cases s (HasType.bool {b}) f w i room =
      (s, rw (decode_u64-narrow (if b then 1 else 0) addr, bool_byte b))
  decode_top-cases {t} {p} s h f w i room = (
    spend (1 + tokens_in 1 t) s,
    ap (λ r. r >>= λ (d, s'). ok (d.token, s')) (decode_param-general t p s h f w i room),
  )

module _ (x : External) (l : IsLawful x) (limit : ℕ) (config : DecoderConfig) (addr : ℕ) where
  decode-encoded_args :
      (t : Token) (p : ParamType)
      → HasType t p
      → Fits limit p
      → HoldsWhole p
      → is_extra_receipt_needed p false ≡ false
      → depth_of t ≤ config.max_depth
      → 1 + tokens_in 1 t ≤ config.max_tokens
      → decode x config p (resolve (encoded_args x (Tokens.cons t Tokens.nil)) addr) ≡ ok t
  unfolding decode new_trackers
  decode-encoded_args t p h f w i d n =
      let (s', e) =
        decode_top-cases x l limit addr (new_trackers config.max_depth config.max_tokens decoding) h
          f w i (omega arith) in
      rw (validate-inline limit p f i) (ap (λ r. r >>= λ (t, _). ok t) e)

-- Encoding a value and decoding the bytes, loaded at any address, gives that value. The type has no
-- heap data, its widths fit, its arrays hold elements that are consumed whole, both limits of both
-- configurations admit the value, and the functions of other crates are lawful.
pub decode-encode :
    (x : External) (encoder : EncoderConfig) (decoder : DecoderConfig) (addr : ℕ) (t : Token)
    (p : ParamType)
    → IsLawful x
    → HasType t p
    → Fits encoder.max_total_enum_width p
    → width p + 7 < usize_limit
    → HoldsWhole p
    → is_extra_receipt_needed p false ≡ false
    → (depth_of t ≤ encoder.max_depth) × (1 + tokens_in 0 t ≤ encoder.max_tokens)
    → (depth_of t ≤ decoder.max_depth) × (1 + tokens_in 1 t ≤ decoder.max_tokens)
    → (bytes : Chunks) × (encode x encoder (Tokens.cons t Tokens.nil) ≡ ok bytes)
      × (decode x decoder p (resolve bytes addr) ≡ ok t)
unfolding width depth_of tokens_in
decode-encode x encoder decoder addr t p l h f fit w i e d = (
  encoded_args x (Tokens.cons t Tokens.nil),
  encode-encoded_args x l encoder (Tokens.cons t Tokens.nil) (ParamTypes.cons p ParamTypes.nil)
      (HasTypes.cons h HasTypes.nil) (f, tt) (omega arith) (omega arith) (omega arith),
  decode-encoded_args x l encoder.max_total_enum_width decoder addr t p h f w i d.0 d.1,
)
