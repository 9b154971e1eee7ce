-- ===== src/Codec/Experimental/Steps.antt =====
-- The parts of the decoder of packed data on the packed format of their parts.
use mathlib.Core.Option.{some-injective}
use fuels_rs.Prelude.{
  ℕ, zero, suc, ◌+◌, ◌≤◌, ◌<◌, ◌^◌, ◌≡◌, refl, ap, ◌∙◌, sym, arith, List, ◌∷◌, ◌++◌, length,
  replicate, get_elem?, some, append_assoc, length-append, le→ltb, take-append_eq, drop-append_eq,
}
use fuels_rs.Prelude.BigEndian.{to_be_bytes, length-to_be_bytes, from_be_bytes-to_be_bytes}
use fuels_rs.Errors.{Result, ok}
use fuels_rs.ParamTypes.{ParamType, ParamTypes, get?, param_type_of_variant-eq}
use fuels_rs.Tokens.{External, Token, Tokens, count}
use fuels_rs.Codec.Counter.{Trackers, lift, HasRoom, spend, spend-spend, increase_token-HasRoom}
use fuels_rs.Codec.Decoder.{Decode, Decoded, decoded, counted, select}
use fuels_rs.Codec.Decoder.Peek.{At}
use fuels_rs.Codec.Decoder.Steps.{finish, spend_rest}
use fuels_rs.Codec.Experimental.{
  peek_slice, skip_slice, peek_be, peek_sized, decode_number, decode_params, decode_vector,
  decode_enum, decode_kind, decoders,
}
use fuels_rs.Codec.Experimental.Packed.{sized, packed, packed_all, levels, below}

pub peek_slice-append :
    (xs rest : List ℕ) (n : ℕ) → length xs ≡ n → peek_slice (xs ++ rest) n ≡ ok xs
unfolding peek_slice
peek_slice-append xs rest n e = rw (
  le→ltb (length (xs ++ rest)) n (omega (arith, length-append xs rest)),
  take-append_eq n xs rest e,
)

pub skip_slice-At :
    (bytes : List ℕ) (k : ℕ) (rest : List ℕ) → At bytes k rest → skip_slice bytes k ≡ ok rest
unfolding skip_slice
skip_slice-At bytes k rest (le, e) = rw (le→ltb (length bytes) k le, e)

pub skip_slice-append :
    (xs rest : List ℕ) (n : ℕ) → length xs ≡ n → skip_slice (xs ++ rest) n ≡ ok rest
skip_slice-append xs rest n e =
    skip_slice-At (xs ++ rest) n rest
      (omega (arith, length-append xs rest), drop-append_eq n xs rest e)

pub peek_be-append :
    (k n : ℕ) (rest : List ℕ) → n < 256 ^ k → peek_be (to_be_bytes k n ++ rest) k ≡ ok n
unfolding peek_be
peek_be-append k n rest h = rw (
  peek_slice-append (to_be_bytes k n) rest k (length-to_be_bytes k n),
  from_be_bytes-to_be_bytes k n h,
)

pub peek_sized-sized :
    (bs rest : List ℕ) → length bs < 2 ^ 64 → peek_sized (sized bs ++ rest) ≡ ok bs
unfolding peek_sized
peek_sized-sized bs rest h = rw (append_assoc (to_be_bytes 8 (length bs)) bs rest) (
    rw (
      peek_be-append 8 (length bs) (bs ++ rest) (omega arith),
      skip_slice-append (to_be_bytes 8 (length bs)) (bs ++ rest) 8
          (length-to_be_bytes 8 (length bs)),
      peek_slice-append bs rest (length bs) refl,
    ))

pub length-sized : (bs : List ℕ) → 8 + length bs ≡ length (sized bs)
length-sized bs =
    omega (arith, length-append (to_be_bytes 8 (length bs)) bs, length-to_be_bytes 8 (length bs))

-- What `decode` returns for `t` on its packed format in front of anything.
abbrev pub Reads : External → Decode → Token → Type 0
Reads x decode t =
    (rest : List ℕ) (s : Trackers)
    → HasRoom s (levels t) (below t)
    → decode (packed x t ++ rest) s ≡ ok (decoded t (length (packed x t)), spend (below t) s)

pub passed :
    (m : Result Decoded) (t : Token) (n n' : ℕ) (s : Trackers)
    → m ≡ ok (decoded t n)
    → n ≡ n'
    → lift m s ≡ ok (decoded t n', spend 0 s)
passed m t n n' s e e' = rw e (ap (λ k. ok (decoded t k, s)) e' ∙ finish (decoded t n') s)

pub read_number :
    (f : ℕ → Token) (k n : ℕ) (rest : List ℕ) (s : Trackers)
    → n < 256 ^ k
    → lift (decode_number f k (to_be_bytes k n ++ rest)) s
      ≡ ok (decoded (f n) (length (to_be_bytes k n)), spend 0 s)
unfolding decode_number
read_number f k n rest s h =
    passed _ (f n) k (length (to_be_bytes k n)) s (rw (peek_be-append k n rest h))
      (sym (length-to_be_bytes k n))

pub get_elem?-decoders :
    (x : External) (vs : ParamTypes) (d : ℕ) (p : ParamType)
    → get? vs d ≡ some p
    → get_elem? (decoders x vs) d ≡ some (counted (decode_kind x p))
unfolding decode_kind get?
get_elem?-decoders x ParamTypes.nil d p e = cc
get_elem?-decoders x (ParamTypes.cons q vs) zero p e =
    ap (λ r. some (counted (decode_kind x r))) (some-injective q p e)
get_elem?-decoders x (ParamTypes.cons q vs) (suc d) p e = get_elem?-decoders x vs d p e

-- A value in a run of them, and one that is counted by itself.
module _ (x : External) (decode : Decode) (t : Token) (reads : Reads x decode t) where
  pub counted-Reads :
      (rest : List ℕ) (d : ℕ) (s : Trackers)
      → levels t ≤ d
      → HasRoom s d (1 + below t)
      → counted decode (packed x t ++ rest) s
        ≡ ok (decoded t (length (packed x t)), spend (1 + below t) s)
  counted-Reads rest d s le room =
      rw (increase_token-HasRoom s d (below t) (omega arith), reads rest (spend 1 s) (omega arith))
        (ap (λ s'. ok (decoded t (length (packed x t)), s')) (spend-spend 1 (below t) s))

  pub params_step :
      (rest_of : List Decode) (d m : ℕ) (bytes rest : List ℕ) (s : Trackers) (ts : Tokens)
      (total k : ℕ)
      → HasRoom s d (1 + below t + m)
      → levels t ≤ d
      → At bytes k (packed x t ++ rest)
      → decode_params rest_of bytes (k + length (packed x t)) (spend (1 + below t) s)
        ≡ ok ((ts, total), spend m (spend (1 + below t) s))
      → decode_params (counted decode ∷ rest_of) bytes k s
        ≡ ok ((Tokens.cons t ts, total), spend (1 + below t + m) s)
  unfolding decode_params
  params_step rest_of d m bytes rest s ts total k room le at go = rw (
    skip_slice-At bytes k _ at,
    increase_token-HasRoom s d (below t + m) (omega arith),
    reads rest (spend 1 s) (omega arith),
    spend_rest (decode_params rest_of bytes (k + length (packed x t))) _ (below t) m s go,
  )

-- `decode_enum` on a variant that is read.
pub decode_enum-eq :
    (x : External) (vs : ParamTypes) (d : ℕ) (t : Token) (p : ParamType) (rest : List ℕ)
    (s s' : Trackers)
    → d < 2 ^ 64
    → get? vs d ≡ some p
    → counted (decode_kind x p) (packed x t ++ rest) s ≡ ok (decoded t (length (packed x t)), s')
    → decode_enum (decoders x vs) vs ((to_be_bytes 8 d ++ packed x t) ++ rest) s
      ≡ ok (decoded (Token.enum d t vs) (length (to_be_bytes 8 d ++ packed x t)), s')
unfolding decode_enum
decode_enum-eq x vs d t p rest s s' lt e go =
    let size : 8 + length (packed x t) ≡ length (to_be_bytes 8 d ++ packed x t) =
      omega (arith, length-append (to_be_bytes 8 d) (packed x t), length-to_be_bytes 8 d) in
    rw (append_assoc (to_be_bytes 8 d) (packed x t) rest) (
      rw
        (
          peek_be-append 8 d (packed x t ++ rest) (omega arith),
          skip_slice-append (to_be_bytes 8 d) (packed x t ++ rest) 8 (length-to_be_bytes 8 d),
          param_type_of_variant-eq vs d p e,
          select,
          get_elem?-decoders x vs d p e,
          go,
        )
        (ap (λ k. ok (decoded (Token.enum d t vs) k, s')) size))

-- `decode_vector` on elements that are read.
pub decode_vector-eq :
    (x : External) (p : ParamType) (ts : Tokens) (rest : List ℕ) (s s' : Trackers)
    → count ts < 2 ^ 64
    → decode_params (replicate (count ts) (counted (decode_kind x p))) (packed_all x ts ++ rest) 0 s
      ≡ ok ((ts, length (packed_all x ts)), s')
    → decode_vector
        (counted (decode_kind x p))
        ((to_be_bytes 8 (count ts) ++ packed_all x ts) ++ rest)
        s
      ≡ ok (decoded (Token.vector ts) (length (to_be_bytes 8 (count ts) ++ packed_all x ts)), s')
unfolding decode_vector
decode_vector-eq x p ts rest s s' lt go =
    let size : 8 + length (packed_all x ts) ≡ length (to_be_bytes 8 (count ts) ++ packed_all x ts) =
      omega (
        arith,
        length-append (to_be_bytes 8 (count ts)) (packed_all x ts),
        length-to_be_bytes 8 (count ts),
      ) in
    rw (append_assoc (to_be_bytes 8 (count ts)) (packed_all x ts) rest) (
      rw
        (
          peek_be-append 8 (count ts) (packed_all x ts ++ rest) (omega arith),
          skip_slice-append (to_be_bytes 8 (count ts)) (packed_all x ts ++ rest) 8
              (length-to_be_bytes 8 (count ts)),
          go,
        )
        (ap (λ k. ok (decoded (Token.vector ts) k, s')) size))
