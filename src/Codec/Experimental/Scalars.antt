-- ===== src/Codec/Experimental/Scalars.antt =====
-- The types that are read by a plain function, each from its packed format.
use fuels_rs.Prelude.{
  ℕ, ◌+◌, ◌<◌, ◌^◌, ◌≡◌, refl, sym, Bool, true, if◌then◌else◌, List, [], ◌∷◌, ◌++◌, length, none,
  some,
}
use fuels_rs.Prelude.BigEndian.{from_be_bytes_one}
use fuels_rs.Prelude.Utf8.{is_ascii, is_utf8, is_utf8-is_ascii}
use fuels_rs.Errors.{ok}
use fuels_rs.Tokens.{External, IsLawful, Token}
use fuels_rs.Codec.Counter.{Trackers, lift, spend}
use fuels_rs.Codec.Decoder.{decoded}
use fuels_rs.Codec.Decoder.Scalars.{to_bool}
use fuels_rs.Codec.Experimental.{
  decode_bool, decode_u256, decode_b256, decode_bytes, decode_std_string, decode_raw_slice,
  decode_string_array, decode_string_slice,
}
use fuels_rs.Codec.Experimental.Packed.{sized}
use fuels_rs.Codec.Experimental.Steps.{passed, peek_slice-append, peek_sized-sized, length-sized}

module _ (rest : List ℕ) (s : Trackers) where
  pub read_bool :
      (b : Bool)
      → lift (decode_bool ((if b then 1 else 0) ∷ rest)) s
        ≡ ok (decoded (Token.bool b) 1, spend 0 s)
  unfolding decode_bool
  read_bool b =
      passed _ (Token.bool b) 1 1 s
        (rw (
          peek_slice-append ((if b then 1 else 0) ∷ []) rest 1 refl,
          from_be_bytes_one (if b then 1 else 0),
          to_bool b,
        ))
        refl

  pub read_u256 :
      (x : External)
      → IsLawful x
      → (n : ℕ) → n < 2 ^ 256
      → lift (decode_u256 (x.u256_to_big_endian n ++ rest) x) s
        ≡ ok (decoded (Token.u256 n) (length (x.u256_to_big_endian n)), spend 0 s)
  unfolding decode_u256
  read_u256 x l n h =
      passed _ (Token.u256 n) 32 _ s
        (rw (
          peek_slice-append (x.u256_to_big_endian n) rest 32 (l.u256_length n h),
          l.u256_round_trip n h,
        ))
        (sym (l.u256_length n h))

  pub read_b256 :
      (bs : List ℕ)
      → length bs ≡ 32
      → lift (decode_b256 (bs ++ rest)) s ≡ ok (decoded (Token.b256 bs) (length bs), spend 0 s)
  unfolding decode_b256
  read_b256 bs h = passed _ (Token.b256 bs) 32 _ s (rw (peek_slice-append bs rest 32 h)) (sym h)

  pub read_bytes :
      (bs : List ℕ)
      → length bs < 2 ^ 64
      → lift (decode_bytes (sized bs ++ rest)) s
        ≡ ok (decoded (Token.bytes bs) (length (sized bs)), spend 0 s)
  unfolding decode_bytes
  read_bytes bs h =
      passed _ (Token.bytes bs) (8 + length bs) _ s (rw (peek_sized-sized bs rest h))
        (length-sized bs)

  pub read_raw_slice :
      (bs : List ℕ)
      → length bs < 2 ^ 64
      → lift (decode_raw_slice (sized bs ++ rest)) s
        ≡ ok (decoded (Token.raw_slice bs) (length (sized bs)), spend 0 s)
  unfolding decode_raw_slice
  read_raw_slice bs h =
      passed _ (Token.raw_slice bs) (8 + length bs) _ s (rw (peek_sized-sized bs rest h))
        (length-sized bs)

  pub read_std_string :
      (bs : List ℕ)
      → is_utf8 bs ≡ true
      → length bs < 2 ^ 64
      → lift (decode_std_string (sized bs ++ rest)) s
        ≡ ok (decoded (Token.string bs) (length (sized bs)), spend 0 s)
  unfolding decode_std_string
  read_std_string bs u h =
      passed _ (Token.string bs) (8 + length bs) _ s (rw (peek_sized-sized bs rest h, u))
        (length-sized bs)

  pub read_string_array :
      (bs : List ℕ) (n : ℕ)
      → is_ascii bs ≡ true
      → length bs ≡ n
      → lift (decode_string_array (bs ++ rest) n) s
        ≡ ok (
          decoded
              (Token.string_array (record { data_bytes = bs; expected_len = some n }))
              (length bs),
          spend 0 s,
        )
  unfolding decode_string_array
  read_string_array bs n a h =
      passed _ (Token.string_array (record { data_bytes = bs; expected_len = some n })) n _ s
        (rw (peek_slice-append bs rest n h, is_utf8-is_ascii bs a)) (sym h)

  -- Not the length of the format: the length in front of a string slice is left out.
  pub read_string_slice :
      (bs : List ℕ)
      → is_utf8 bs ≡ true
      → length bs < 2 ^ 64
      → lift (decode_string_slice (sized bs ++ rest)) s
        ≡ ok (
          decoded
              (Token.string_slice (record { data_bytes = bs; expected_len = none }))
              (length bs),
          spend 0 s,
        )
  unfolding decode_string_slice
  read_string_slice bs u h =
      passed _ (Token.string_slice (record { data_bytes = bs; expected_len = none })) (length bs) _
        s (rw (peek_sized-sized bs rest h, u)) refl
