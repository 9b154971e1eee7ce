-- ===== src/Codec/Experimental/Packed.antt =====
-- The packed format, written down independently of the decoder: no padding, and a length in front
-- of everything whose size the type does not fix.
use fuels_rs.Prelude.{
  ℕ, ◌+◌, ◌<◌, ◌^◌, ◌≡◌, max, if◌then◌else◌, true, false, List, [], ◌∷◌, ◌++◌, length,
}
use fuels_rs.Prelude.BigEndian.{to_be_bytes}
use fuels_rs.Tokens.{External, Token, Tokens, count}

abbrev pub sized : List ℕ → List ℕ
sized bs = to_be_bytes 8 (length bs) ++ bs

module _ (x : External) where
  unfoldable mutual
    pub packed : Token → List ℕ
    packed Token.unit = []
    packed (Token.bool b) = (if b then 1 else 0) ∷ []
    packed (Token.u8 n) = to_be_bytes 1 n
    packed (Token.u16 n) = to_be_bytes 2 n
    packed (Token.u32 n) = to_be_bytes 4 n
    packed (Token.u64 n) = to_be_bytes 8 n
    packed (Token.u128 n) = to_be_bytes 16 n
    packed (Token.u256 n) = x.u256_to_big_endian n
    packed (Token.b256 bits) = bits
    packed (Token.bytes bs) = sized bs
    packed (Token.string bs) = sized bs
    packed (Token.raw_slice bs) = sized bs
    packed (Token.string_array s) = s.data_bytes
    packed (Token.string_slice s) = sized s.data_bytes
    packed (Token.tuple ts) = packed_all ts
    packed (Token.array ts) = packed_all ts
    packed (Token.struct ts) = packed_all ts
    packed (Token.vector ts) = to_be_bytes 8 (count ts) ++ packed_all ts
    packed (Token.enum d t vs) = to_be_bytes 8 d ++ packed t

    pub packed_all : Tokens → List ℕ
    packed_all Tokens.nil = []
    packed_all (Tokens.cons t ts) = packed t ++ packed_all ts

-- How many levels the decoder opens for a token, and how many tokens it counts below it.
unfoldable mutual
  pub levels : Token → ℕ
  levels (Token.tuple ts) = 1 + levels_all ts
  levels (Token.array ts) = 1 + levels_all ts
  levels (Token.struct ts) = 1 + levels_all ts
  levels (Token.vector ts) = 1 + levels_all ts
  levels (Token.enum d t vs) = 1 + levels t
  levels _ = 0

  pub levels_all : Tokens → ℕ
  levels_all Tokens.nil = 0
  levels_all (Tokens.cons t ts) = max (levels t) (levels_all ts)

unfoldable mutual
  pub below : Token → ℕ
  below (Token.tuple ts) = below_all ts
  below (Token.array ts) = below_all ts
  below (Token.struct ts) = below_all ts
  below (Token.vector ts) = below_all ts
  below (Token.enum d t vs) = 1 + below t
  below _ = 0

  pub below_all : Tokens → ℕ
  below_all Tokens.nil = 0
  below_all (Tokens.cons t ts) = 1 + below t + below_all ts

-- Every length fits a u64, and there is no string slice, whose length the decoder does not count.
abbrev mutual
  pub IsReadable : Token → Type 0
  IsReadable (Token.bytes bs) = length bs < 2 ^ 64
  IsReadable (Token.string bs) = length bs < 2 ^ 64
  IsReadable (Token.raw_slice bs) = length bs < 2 ^ 64
  IsReadable (Token.string_slice s) = true ≡ false
  IsReadable (Token.tuple ts) = AreReadable ts
  IsReadable (Token.array ts) = AreReadable ts
  IsReadable (Token.struct ts) = AreReadable ts
  IsReadable (Token.vector ts) = (count ts < 2 ^ 64) × AreReadable ts
  IsReadable (Token.enum d t vs) = IsReadable t
  IsReadable _ = Unit {0}

  pub AreReadable : Tokens → Type 0
  AreReadable Tokens.nil = Unit {0}
  AreReadable (Tokens.cons t ts) = IsReadable t × AreReadable ts
