-- ===== src/Codec/Decoder/Scalars.antt =====
-- The types that are read by a plain function, each from its single chunk.
use fuels_rs.Prelude.{
  ℕ, ◌+◌, ◌-◌, ◌<◌, ◌^◌, ◌≡◌, refl, ap, ◌∙◌, arith, Bool, true, false, not, if◌then◌else◌, List, [],
  ◌∷◌, ◌++◌, length, some, append_assoc, append-nil, ◌==◌,
}
use fuels_rs.Prelude.BigEndian.{to_be_bytes, from_be_bytes_one}
use fuels_rs.Prelude.Utf8.{is_ascii, is_utf8-is_ascii}
use fuels_rs.Errors.{◌>>=◌, Result, ok}
use fuels_rs.Utils.{usize_limit, round_up, checked_round_up-eq}
use fuels_rs.Tokens.{External, IsLawful, Token}
use fuels_rs.Codec.Counter.{Trackers, lift, spend}
use fuels_rs.Codec.Format.{zeros, word_padded}
use fuels_rs.Codec.Decoder.{
  decode_u8, decode_u16, decode_u32, decode_u64, decode_u128, decode_u256, decode_bool, decode_b256,
  decode_string_array, Decoded, decoded,
}
use fuels_rs.Codec.Decoder.Peek.{
  peek-append, peek_fixed-append, peek_number-append, peek_padded-append,
}
use fuels_rs.Codec.Decoder.Steps.{finish}

pub to_bool : (b : Bool) → not ((if b then 1 else 0) == 0) ≡ b
to_bool true = refl
to_bool false = refl

-- Reassociating what stands behind a value.
pub regroup : (a b c d : List ℕ) → (a ++ (b ++ c)) ++ d ≡ a ++ (b ++ (c ++ d))
regroup a b c d = append_assoc a (b ++ c) d ∙ ap (λ r. a ++ r) (append_assoc b c d)

-- A type that is read by a plain function, from its single chunk.
pub scalar :
    (decode : List ℕ → Result Decoded) (bs rest : List ℕ) (r : Decoded) (s : Trackers)
    → decode (bs ++ rest) ≡ ok r
    → lift (decode ((bs ++ []) ++ rest)) s ≡ ok (r, spend 0 s)
scalar decode bs rest r s e = rw (append-nil bs, e) (finish r s)

-- What is read is passed on.
pub passed {ℓ} :
    {A : Type ℓ} (m : Result A) (f : A → Decoded) (a : A)
    → m ≡ ok a
    → (m >>= λ a. ok (f a)) ≡ ok (f a)
passed m f a e = ap (λ m. m >>= λ a. ok (f a)) e

module _ (rest : List ℕ) where
  pub read_u8 : (n : ℕ) → decode_u8 (n ∷ rest) ≡ ok (decoded (Token.u8 n) 1)
  unfolding decode_u8
  read_u8 n = rw (peek-append (n ∷ []) rest 1 refl, from_be_bytes_one n)

  pub read_bool :
      (b : Bool) → decode_bool ((if b then 1 else 0) ∷ rest) ≡ ok (decoded (Token.bool b) 1)
  unfolding decode_bool
  read_bool b = rw (
    peek-append ((if b then 1 else 0) ∷ []) rest 1 refl,
    from_be_bytes_one (if b then 1 else 0),
    to_bool b,
  )

  pub read_u16 :
      (n : ℕ)
      → n < 2 ^ 16
      → decode_u16 ((zeros 6 ++ to_be_bytes 2 n) ++ rest) ≡ ok (decoded (Token.u16 n) 8)
  unfolding decode_u16
  read_u16 n h =
      passed _ (λ n. decoded (Token.u16 n) 8) n
        (peek_padded-append 2 n rest (omega arith) (omega arith))

  pub read_u32 :
      (n : ℕ)
      → n < 2 ^ 32
      → decode_u32 ((zeros 4 ++ to_be_bytes 4 n) ++ rest) ≡ ok (decoded (Token.u32 n) 8)
  unfolding decode_u32
  read_u32 n h =
      passed _ (λ n. decoded (Token.u32 n) 8) n
        (peek_padded-append 4 n rest (omega arith) (omega arith))

  pub read_u64 :
      (n : ℕ) → n < 2 ^ 64 → decode_u64 (to_be_bytes 8 n ++ rest) ≡ ok (decoded (Token.u64 n) 8)
  unfolding decode_u64
  read_u64 n h =
      passed _ (λ n. decoded (Token.u64 n) 8) n (peek_number-append 8 n rest (omega arith))

  pub read_u128 :
      (n : ℕ)
      → n < 2 ^ 128
      → decode_u128 (to_be_bytes 16 n ++ rest) ≡ ok (decoded (Token.u128 n) 16)
  unfolding decode_u128
  read_u128 n h =
      passed _ (λ n. decoded (Token.u128 n) 16) n (peek_number-append 16 n rest (omega arith))

  pub read_u256 :
      (x : External)
      → IsLawful x
      → (n : ℕ) → n < 2 ^ 256
      → decode_u256 (x.u256_to_big_endian n ++ rest) x ≡ ok (decoded (Token.u256 n) 32)
  unfolding decode_u256
  read_u256 x l n h = rw (
    peek_fixed-append (x.u256_to_big_endian n) rest 32 (l.u256_length n h),
    l.u256_round_trip n h,
  )

  pub read_b256 :
      (bs : List ℕ) → length bs ≡ 32 → decode_b256 (bs ++ rest) ≡ ok (decoded (Token.b256 bs) 32)
  unfolding decode_b256
  read_b256 bs h = passed _ (λ s. decoded (Token.b256 s) 32) bs (peek_fixed-append bs rest 32 h)

  pub read_string_array :
      (bs : List ℕ) (n : ℕ)
      → is_ascii bs ≡ true
      → length bs ≡ n
      → n + 7 < usize_limit
      → decode_string_array (word_padded bs ++ rest) n
        ≡ ok (
            decoded
              (Token.string_array (record { data_bytes = bs; expected_len = some n }))
              (round_up n))
  unfolding decode_string_array
  read_string_array bs n h e f =
      let zs = zeros (round_up (length bs) - length bs) in
      rw append_assoc
        (rw (peek-append bs (zs ++ rest) n e, is_utf8-is_ascii bs h, checked_round_up-eq n f))
