-- ===== src/Codec/Format.antt =====
-- The ABI format written down independently of the encoder: the chunks that a token becomes, and
-- what a token costs the trackers.
pub mod Size
pub mod Inline
use fuels_rs.Prelude.{
  lt→ltb, zero, suc, ℕ, ◌+◌, ◌-◌, ◌%◌, ◌≡◌, refl, max, ltb, if◌then◌else◌, Bool, true, false, List,
  [], ◌∷◌, ◌++◌, length, replicate, arith, length-append, length-replicate, length-drop, append-nil,
  append_assoc, ap, ◌∙◌,
}
use fuels_rs.Prelude.BigEndian.{to_be_bytes}
use fuels_rs.Utils.{round_up}
use fuels_rs.ParamTypes.{ParamTypes, only_units_inside}
use fuels_rs.ParamTypes.Width.{widest}
use fuels_rs.Tokens.{External, StaticStringToken, Token, Tokens, count, pad_u16, pad_u32}
use fuels_rs.UnresolvedBytes.{
  Data, Chunks, inline, dynamic, nil, cons, append, amount_of_inline_bytes,
}

abbrev pub one : Data → Chunks
one d = cons d nil

abbrev pub word_of : ℕ → Data
word_of n = inline (to_be_bytes 8 n)

abbrev pub zeros : ℕ → List ℕ
zeros n = replicate n 0

-- Bytes, and zeros up to the next word.
abbrev pub word_padded : List ℕ → List ℕ
word_padded bs = bs ++ zeros (round_up (length bs) - length bs)

-- A chunk of `n` zeros, if there are any.
abbrev pub zero_chunk : ℕ → Chunks
zero_chunk n = if ltb 0 n then one (inline (zeros n)) else nil

-- What fills some chunks up to the next word.
abbrev pub filler : Chunks → Chunks
filler cs = zero_chunk (round_up (amount_of_inline_bytes cs) - amount_of_inline_bytes cs)

module _ (x : External) where
  unfoldable mutual
    pub layout : Token → Chunks
    layout Token.unit = one (inline (0 ∷ []))
    layout (Token.u8 n) = one (inline (n ∷ []))
    layout (Token.bool b) = one (inline ((if b then 1 else 0) ∷ []))
    layout (Token.u16 n) = one (inline (zeros 6 ++ to_be_bytes 2 n))
    layout (Token.u32 n) = one (inline (zeros 4 ++ to_be_bytes 4 n))
    layout (Token.u64 n) = one (word_of n)
    layout (Token.u128 n) = one (inline (to_be_bytes 16 n))
    layout (Token.u256 n) = one (inline (x.u256_to_big_endian n))
    layout (Token.b256 bits) = one (inline bits)
    layout (Token.string_array s) = one (inline (word_padded s.data_bytes))
    layout (Token.string_slice s) =
        cons (dynamic (one (inline s.data_bytes))) (one (word_of (length s.data_bytes)))
    layout (Token.raw_slice bs) =
        cons (dynamic (one (inline (word_padded bs)))) (one (word_of (length bs)))
    layout (Token.bytes bs) =
        cons (dynamic (one (inline (word_padded bs))))
          (cons (word_of (length (word_padded bs))) (one (word_of (length bs))))
    layout (Token.string bs) =
        cons (dynamic (one (inline (word_padded bs))))
          (cons (word_of (length (word_padded bs))) (one (word_of (length bs))))
    layout (Token.vector ts) =
        cons (dynamic (layout_items ts)) (cons (word_of (count ts)) (one (word_of (count ts))))
    layout (Token.array ts) = layout_items ts
    layout (Token.struct ts) = layout_fields ts
    layout (Token.tuple ts) = layout_fields ts
    -- The value stands at the end of the space that the widest variant takes.
    layout (Token.enum d t vs) =
        if only_units_inside vs
        then one (word_of d)
        else cons (word_of d) (
            cons (inline (zeros (round_up (widest vs) - amount_of_inline_bytes (layout t))))
              (layout t))

    -- Elements stand side by side, fields are aligned to words.
    pub layout_items : Tokens → Chunks
    layout_items Tokens.nil = nil
    layout_items (Tokens.cons t ts) = append (layout t) (layout_items ts)

    pub layout_fields : Tokens → Chunks
    layout_fields Tokens.nil = nil
    layout_fields (Tokens.cons t ts) =
        append (append (layout t) (filler (layout t))) (layout_fields ts)

-- How many levels a token opens.
unfoldable mutual
  pub depth_of : Token → ℕ
  depth_of (Token.array ts) = 1 + depth_of_all ts
  depth_of (Token.vector ts) = 1 + depth_of_all ts
  depth_of (Token.struct ts) = 1 + depth_of_all ts
  depth_of (Token.tuple ts) = 1 + depth_of_all ts
  depth_of (Token.enum d t vs) = 1 + (if only_units_inside vs then 0 else depth_of t)
  depth_of _ = 0

  pub depth_of_all : Tokens → ℕ
  depth_of_all Tokens.nil = 0
  depth_of_all (Tokens.cons t ts) = max (depth_of t) (depth_of_all ts)

-- How many tokens stand below a token, where the value of an enum counts as `k`: the encoder does
-- not count it, the decoder does.
module _ (k : ℕ) where
  unfoldable mutual
    pub tokens_in : Token → ℕ
    tokens_in (Token.array ts) = tokens_in_all ts
    tokens_in (Token.vector ts) = tokens_in_all ts
    tokens_in (Token.struct ts) = tokens_in_all ts
    tokens_in (Token.tuple ts) = tokens_in_all ts
    tokens_in (Token.enum d t vs) = if only_units_inside vs then 0 else k + tokens_in t
    tokens_in _ = 0

    pub tokens_in_all : Tokens → ℕ
    tokens_in_all Tokens.nil = 0
    tokens_in_all (Tokens.cons t ts) = 1 + tokens_in t + tokens_in_all ts

-- The bytes in place, a pointer read as 0.
unfoldable pub flat : Chunks → List ℕ
flat nil = []
flat (cons (inline bs) cs) = bs ++ flat cs
flat (cons (dynamic c) cs) = zeros 8 ++ flat cs

pub length-flat : (cs : Chunks) → length (flat cs) ≡ amount_of_inline_bytes cs
unfolding flat amount_of_inline_bytes
length-flat nil = refl
length-flat (cons (inline bs) cs) = omega (arith, length-append bs (flat cs), length-flat cs)
length-flat (cons (dynamic c) cs) = omega (arith, length-append (zeros 8) (flat cs), length-flat cs)

pub flat-append : (cs ds : Chunks) → flat (append cs ds) ≡ flat cs ++ flat ds
unfolding flat append
flat-append nil ds = refl
flat-append (cons (inline bs) cs) ds = rw (flat-append cs ds, append_assoc bs (flat cs) (flat ds))
flat-append (cons (dynamic c) cs) ds = rw (flat-append cs ds)

pub amount-append :
    (cs ds : Chunks)
    → amount_of_inline_bytes (append cs ds) ≡ amount_of_inline_bytes cs + amount_of_inline_bytes ds
unfolding amount_of_inline_bytes append
amount-append nil ds = omega arith
amount-append (cons c cs) ds = omega (arith, amount-append cs ds)

pub append-nil_chunks : (cs : Chunks) → append cs nil ≡ cs
unfolding append
append-nil_chunks nil = refl
append-nil_chunks (cons c cs) = ap (cons c) (append-nil_chunks cs)

pub append_assoc_chunks : (cs ds es : Chunks) → append (append cs ds) es ≡ append cs (append ds es)
unfolding append
append_assoc_chunks nil ds es = refl
append_assoc_chunks (cons c cs) ds es = ap (cons c) (append_assoc_chunks cs ds es)

amount-zero_chunk : (n : ℕ) → amount_of_inline_bytes (zero_chunk n) ≡ n
unfolding amount_of_inline_bytes
amount-zero_chunk zero = refl
amount-zero_chunk (suc n) =
    rw (lt→ltb 0 (suc n) (omega arith)) (omega (arith, length-replicate {A = ℕ} n 0))

pub flat-zero_chunk : (n : ℕ) → flat (zero_chunk n) ≡ zeros n
unfolding flat
flat-zero_chunk zero = refl
flat-zero_chunk (suc n) = rw (lt→ltb 0 (suc n) (omega arith)) (append-nil (zeros (suc n)))

-- With its filler a value takes whole words.
pub amount-filler :
    (cs : Chunks)
    → amount_of_inline_bytes (append cs (filler cs)) ≡ round_up (amount_of_inline_bytes cs)
amount-filler cs = omega (
  arith,
  amount-append cs (filler cs),
  amount-zero_chunk (round_up (amount_of_inline_bytes cs) - amount_of_inline_bytes cs),
)
