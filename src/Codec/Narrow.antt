-- ===== src/Codec/Narrow.antt =====
-- Arrays of structs whose last field is narrower than a word: the decoder reports for such a struct
-- only the bytes up to that field, and reads the next element from the padding.
use fuels_rs.Prelude.{ℕ, ◌≡◌, refl, ap, ◌∙◌, arith, replicate, [], ◌∷◌}
use fuels_rs.Prelude.BigEndian.{from_be_bytes}
use fuels_rs.Errors.{ok}
use fuels_rs.ParamTypes.{ParamType, ParamTypes}
use fuels_rs.ParamTypes.Receipts.{validate_is_decodable, is_extra_receipt_needed}
use fuels_rs.Tokens.{External, Token, Tokens}
use fuels_rs.UnresolvedBytes.{Chunks, inline, nil, cons, resolve, append, amount_of_inline_bytes}
use fuels_rs.Codec.Counter.{increase_token, run_w_depth_tracking, new_trackers}
use fuels_rs.Codec.Encoder.{encode, default_encoder_config, encode_token}
use fuels_rs.Codec.Decoder.{decode, default_decoder_config, decode_top, decode_param}

abbrev pub wrapped : ℕ → Token
wrapped n = Token.struct (Tokens.cons (Token.u8 n) Tokens.nil)

abbrev pub pair : ℕ → ℕ → Token
pair a b = Token.array (Tokens.cons (wrapped a) (Tokens.cons (wrapped b) Tokens.nil))

-- [struct { u8 }; 2]
abbrev pub pair_type : ParamType
pair_type =
    ParamType.array (ParamType.struct (ParamTypes.cons ParamType.u8 ParamTypes.nil) ParamTypes.nil)
      2

abbrev pub pair_bytes : ℕ → ℕ → Chunks
pair_bytes a b =
    cons (inline (a ∷ []))
      (cons (inline (replicate 7 0)) (cons (inline (b ∷ [])) (cons (inline (replicate 7 0)) nil)))

encodes :
    (x : External) (a b : ℕ)
    → encode x default_encoder_config (Tokens.cons (pair a b) Tokens.nil) ≡ ok (pair_bytes a b)
unfolding encode encode_token increase_token new_trackers run_w_depth_tracking
    amount_of_inline_bytes append
encodes x a b = refl

resolves :
    (a b addr : ℕ)
    → resolve (pair_bytes a b) addr
      ≡ a ∷ 0 ∷ 0 ∷ 0 ∷ 0 ∷ 0 ∷ 0 ∷ 0 ∷ b ∷ 0 ∷ 0 ∷ 0 ∷ 0 ∷ 0 ∷ 0 ∷ 0 ∷ []
unfolding resolve
resolves a b addr = refl

decodes :
    (x : External) (a b : ℕ)
    → decode x default_decoder_config pair_type
        (a ∷ 0 ∷ 0 ∷ 0 ∷ 0 ∷ 0 ∷ 0 ∷ 0 ∷ b ∷ 0 ∷ 0 ∷ 0 ∷ 0 ∷ 0 ∷ 0 ∷ 0 ∷ [])
      ≡ ok (pair a 0)
unfolding decode from_be_bytes decode_top decode_param increase_token new_trackers
    run_w_depth_tracking validate_is_decodable is_extra_receipt_needed
decodes x a b = ap (λ n. ok (pair n 0)) (omega arith)

-- Of an array of two structs with a single u8 each, the second u8 is lost: with the default limits
-- it is encoded, and what `resolve` makes of the encoding at any address is decoded to an array
-- whose second u8 is 0, whatever was encoded.
pub narrow_structs-misread :
    (x : External) (a b addr : ℕ)
    → (bytes : Chunks) × (encode x default_encoder_config (Tokens.cons (pair a b) Tokens.nil)
        ≡ ok bytes)
      × (decode x default_decoder_config pair_type (resolve bytes addr) ≡ ok (pair a 0))
narrow_structs-misread x a b addr = (
  pair_bytes a b,
  encodes x a b,
  ap (decode x default_decoder_config pair_type) (resolves a b addr) ∙ decodes x a b,
)
