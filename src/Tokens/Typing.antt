-- ===== src/Tokens/Typing.antt =====
-- Which tokens are values of which schema, every number within its width.
use fuels_rs.Prelude.{ℕ, ◌<◌, ◌^◌, ◌≡◌, true, none, some, Bool, List, length}
use fuels_rs.Prelude.Utf8.{is_ascii, is_utf8}
use fuels_rs.ParamTypes.{ParamType, ParamTypes, get?}
use fuels_rs.Tokens.{Token, Tokens, count}

-- `AreOf ts p`: every one of `ts` is a value of `p`.
mutual
  pub data HasType : Token → ParamType → Type 0 where
    unit : HasType Token.unit ParamType.unit
    u8 : {n : ℕ} → n < 2 ^ 8 → HasType (Token.u8 n) ParamType.u8
    u16 : {n : ℕ} → n < 2 ^ 16 → HasType (Token.u16 n) ParamType.u16
    u32 : {n : ℕ} → n < 2 ^ 32 → HasType (Token.u32 n) ParamType.u32
    u64 : {n : ℕ} → n < 2 ^ 64 → HasType (Token.u64 n) ParamType.u64
    u128 : {n : ℕ} → n < 2 ^ 128 → HasType (Token.u128 n) ParamType.u128
    u256 : {n : ℕ} → n < 2 ^ 256 → HasType (Token.u256 n) ParamType.u256
    bool : {b : Bool} → HasType (Token.bool b) ParamType.bool
    b256 : {bs : List ℕ} → length bs ≡ 32 → HasType (Token.b256 bs) ParamType.b256
    raw_slice : {bs : List ℕ} → HasType (Token.raw_slice bs) ParamType.raw_slice
    bytes : {bs : List ℕ} → HasType (Token.bytes bs) ParamType.bytes
    string : {bs : List ℕ} → is_utf8 bs ≡ true → HasType (Token.string bs) ParamType.string
    string_slice :
        {bs : List ℕ}
        → is_ascii bs ≡ true
        → HasType
            (Token.string_slice (record { data_bytes = bs; expected_len = none }))
            ParamType.string_slice
    string_array :
        {bs : List ℕ} {n : ℕ}
        → is_ascii bs ≡ true
        → length bs ≡ n
        → HasType
            (Token.string_array (record { data_bytes = bs; expected_len = some n }))
            (ParamType.string_array n)
    array :
        {ts : Tokens} {p : ParamType} {n : ℕ}
        → AreOf ts p
        → count ts ≡ n
        → HasType (Token.array ts) (ParamType.array p n)
    vector :
        {ts : Tokens} {p : ParamType} → AreOf ts p → HasType (Token.vector ts) (ParamType.vector p)
    tuple :
        {ts : Tokens} {ps : ParamTypes}
        → HasTypes ts ps
        → HasType (Token.tuple ts) (ParamType.tuple ps)
    struct :
        {ts : Tokens} {ps gs : ParamTypes}
        → HasTypes ts ps
        → HasType (Token.struct ts) (ParamType.struct ps gs)
    enum :
        {d : ℕ} {t : Token} {p : ParamType} {vs gs : ParamTypes}
        → d < 2 ^ 64
        → get? vs d ≡ some p
        → HasType t p
        → HasType (Token.enum d t vs) (ParamType.enum vs gs)

  pub data HasTypes : Tokens → ParamTypes → Type 0 where
    nil : HasTypes Tokens.nil ParamTypes.nil
    cons :
        {t : Token} {p : ParamType} {ts : Tokens} {ps : ParamTypes}
        → HasType t p
        → HasTypes ts ps
        → HasTypes (Tokens.cons t ts) (ParamTypes.cons p ps)

  pub data AreOf : Tokens → ParamType → Type 0 where
    empty : {p : ParamType} → AreOf Tokens.nil p
    more :
        {t : Token} {p : ParamType} {ts : Tokens}
        → HasType t p
        → AreOf ts p
        → AreOf (Tokens.cons t ts) p
