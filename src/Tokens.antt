-- ===== src/Tokens.antt =====
-- fuels-core/src/types.rs: `Token`, `StaticStringToken` and the padding of numbers and strings.
-- A string is the list of its UTF-8 bytes.
pub mod Typing
use fuels_rs.Prelude.{
  suc, ℕ, ◌+◌, ◌-◌, ◌%◌, ◌≤◌, ◌<◌, ◌^◌, ◌≡◌, ◌==◌, if◌then◌else◌, Bool, true, false, not, Option,
  none, some, List, [], ◌∷◌, ◌++◌, length, replicate,
}
use fuels_rs.Prelude.BigEndian.{to_be_bytes}
use fuels_rs.Prelude.Utf8.{is_ascii}
use fuels_rs.Errors.{Result, ok, err, ◌>>=◌, ◌>>◌, codec, not_ascii, wrong_length}
use fuels_rs.ParamTypes.{ParamTypes}

-- What the codec calls of other crates: `padded_len` and `padded_len_usize` of fuel_types, as
-- functions of a length, and the conversions of the `U256` that `construct_uint!` generates.
pub record External : Type 0 where
  pub padded_len : ℕ → ℕ
  pub u256_to_big_endian : ℕ → List ℕ
  pub u256_from_big_endian : List ℕ → ℕ

-- Their documented behaviour: padding to the next word, and 32 bytes that are read back.
pub record IsLawful (x : External) : Type 0 where
  pub padded_len_bounds : (n : ℕ) → (n ≤ x.padded_len n) × (x.padded_len n < n + 8)
  pub padded_len_aligned : (n : ℕ) → x.padded_len n % 8 ≡ 0
  pub u256_length : (n : ℕ) → n < 2 ^ 256 → length (x.u256_to_big_endian n) ≡ 32
  pub u256_round_trip : (n : ℕ) → n < 2 ^ 256 → x.u256_from_big_endian (x.u256_to_big_endian n) ≡ n

pub record StaticStringToken : Type 0 where
  pub data_bytes : List ℕ
  pub expected_len : Option ℕ

unfoldable pub validate_len : ℕ → Option ℕ → Result (Unit {0})
validate_len len none = ok tt
validate_len len (some expected_len) =
    if len == expected_len then ok tt else err (codec (wrong_length len expected_len))

unfoldable pub validate : StaticStringToken → Result (Unit {0})
unfolding validate_len is_ascii
validate s =
    if not (is_ascii s.data_bytes)
    then err (codec not_ascii)
    else validate_len (length s.data_bytes) s.expected_len

-- `get_encodable_str`, and `TryFrom<StaticStringToken> for String`.
unfoldable pub get_encodable_str : StaticStringToken → Result (List ℕ)
unfolding validate
get_encodable_str s = do validate s; ok s.data_bytes

-- `Tokens` is `Vec<Token>`. A U256 is its value; `enum` holds the three parts of `EnumSelector`.
mutual
  pub data Token : Type 0 where
    unit : Token
    u8 u16 u32 u64 u128 u256 : ℕ → Token
    bool : Bool → Token
    b256 : List ℕ → Token
    array vector : Tokens → Token
    string_slice string_array : StaticStringToken → Token
    struct : Tokens → Token
    enum : ℕ → Token → ParamTypes → Token
    tuple : Tokens → Token
    raw_slice bytes string : List ℕ → Token

  pub data Tokens : Type 0 where
    nil : Tokens
    cons : Token → Tokens → Tokens

unfoldable pub count : Tokens → ℕ
count nil = 0
count (cons t ts) = suc (count ts)

-- A right aligned array of 8 bytes.
unfoldable pub pad_u16 : ℕ → List ℕ
unfolding to_be_bytes
pad_u16 n = replicate 6 0 ++ to_be_bytes 2 n

unfoldable pub pad_u32 : ℕ → List ℕ
unfolding to_be_bytes
pad_u32 n = replicate 4 0 ++ to_be_bytes 4 n

unfoldable pub pad_string : External → List ℕ → List ℕ
pad_string x s = s ++ replicate (x.padded_len (length s) - length s) 0
