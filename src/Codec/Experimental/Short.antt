-- ===== src/Codec/Experimental/Short.antt =====
-- Where the decoder of packed data departs from what it means to do: input that is too short, and
-- what stands behind a string slice.
use fuels_rs.Prelude.{
  ℕ, zero, suc, ◌/◌, ◌%◌, drop, replicate, length-append, ◌+◌, ◌<◌, ◌≡◌, refl, ap, ◌∙◌, arith, true,
  List, [], ◌∷◌, ◌++◌, length, lt→ltb, le→ltb, none, append_assoc, if◌then◌else◌,
}
use fuels_rs.Prelude.BigEndian.{from_be_bytes, to_be_bytes}
use fuels_rs.Prelude.Utf8.{is_utf8}
use fuels_rs.Errors.{ok, panic}
use fuels_rs.ParamTypes.{ParamType, ParamTypes}
use fuels_rs.Tokens.{External, Token, Tokens}
use fuels_rs.Codec.Decoder.{counted, decoded}
use fuels_rs.Codec.Decoder.Steps.{wrap-ok}
use fuels_rs.Codec.Counter.{
  Trackers, lift, spend-spend, HasRoom, increase_token, spend, deeper, increase_token-HasRoom,
  run_w_depth_tracking-eq,
}
use fuels_rs.Codec.Experimental.Packed.{sized, packed}
use fuels_rs.Codec.Experimental.Scalars.{read_string_slice}
use fuels_rs.Codec.Experimental.Steps.{skip_slice-At, peek_slice-append, length-sized}
use fuels_rs.Codec.Decoder.Peek.{At}
use native.Mathlib.Nat.{zero-add}
use fuels_rs.Codec.Experimental.{
  peek_slice, decode_number, decode_bool, decode_kind, decode_params, decoders, decode_param,
}

-- The least number of bytes that the decoder reads for a type before it does anything else.
unfoldable pub first_read : ParamType → ℕ
first_read ParamType.bool = 1
first_read ParamType.u8 = 1
first_read ParamType.u16 = 2
first_read ParamType.u32 = 4
first_read ParamType.u64 = 8
first_read ParamType.u128 = 16
first_read ParamType.u256 = 32
first_read ParamType.b256 = 32
first_read ParamType.bytes = 8
first_read ParamType.string = 8
first_read ParamType.raw_slice = 8
first_read ParamType.string_slice = 8
first_read (ParamType.string_array len) = len
first_read _ = 0

peek_slice-short : (bytes : List ℕ) (n : ℕ) → length bytes < n → peek_slice bytes n ≡ panic
unfolding peek_slice
peek_slice-short bytes n h = rw (lt→ltb (length bytes) n h)

module _ (x : External) (bytes : List ℕ) where
  kind-short :
      (p : ParamType) (s : Trackers) → length bytes < first_read p → decode_kind x p bytes s ≡ panic
  unfolding decode_kind first_read
  kind-short ParamType.bool s h = rw (decode_bool, peek_slice-short bytes 1 h)
  kind-short ParamType.u8 s h = rw (peek_slice-short bytes 1 h)
  kind-short ParamType.u16 s h = rw (peek_slice-short bytes 2 h)
  kind-short ParamType.u32 s h = rw (peek_slice-short bytes 4 h)
  kind-short ParamType.u64 s h = rw (peek_slice-short bytes 8 h)
  kind-short ParamType.u128 s h = rw (peek_slice-short bytes 16 h)
  kind-short ParamType.u256 s h = rw (peek_slice-short bytes 32 h)
  kind-short ParamType.b256 s h = rw (peek_slice-short bytes 32 h)
  kind-short ParamType.bytes s h = rw (peek_slice-short bytes 8 h)
  kind-short ParamType.string s h = rw (peek_slice-short bytes 8 h)
  kind-short ParamType.raw_slice s h = rw (peek_slice-short bytes 8 h)
  kind-short ParamType.string_slice s h = rw (peek_slice-short bytes 8 h)
  kind-short (ParamType.string_array len) s h = rw (peek_slice-short bytes len h)
  kind-short ParamType.unit s h = ground arith
  kind-short _ s h = ground arith

  -- On fewer bytes than the first read of a type needs, `decode_param` of the experimental decoder
  -- panics instead of returning an error, if the tokens are not used up.
  pub decode_param-short :
      (p : ParamType) (s : Trackers)
      → length bytes < first_read p
      → s.token_tracker.count < s.token_tracker.max_count
      → decode_param x p bytes s ≡ panic
  unfolding decode_param increase_token
  decode_param-short p s h room =
      rw (le→ltb s.token_tracker.max_count (s.token_tracker.count + 1) (omega arith), if◌then◌else◌)
        (kind-short p (spend 1 s) h)

abbrev pub slice_of : List ℕ → Token
slice_of bs = Token.string_slice (record { data_bytes = bs; expected_len = none })

abbrev pub two_types : ParamTypes
two_types = ParamTypes.cons ParamType.string_slice (ParamTypes.cons ParamType.u8 ParamTypes.nil)

abbrev pub pair_of : List ℕ → ℕ → Token
pair_of bs b = Token.tuple (Tokens.cons (slice_of bs) (Tokens.cons (Token.u8 b) Tokens.nil))

abbrev pub misread : List ℕ → Token
misread bs = pair_of bs 0

-- A pair of a string slice and a u8.
abbrev pub str_and_u8 : ParamType
str_and_u8 = ParamType.tuple two_types

drop-zeros :
    (n m : ℕ) (r : List ℕ) → n < m → (tail : List ℕ) × (drop n (replicate m 0 ++ r) ≡ 0 ∷ tail)
drop-zeros n zero r h = ground arith
drop-zeros zero (suc m) r h = (replicate m 0 ++ r, refl)
drop-zeros (suc n) (suc m) r h = drop-zeros n m r (omega arith)

to_be_bytes-small : (n : ℕ) → n < 256 → to_be_bytes 8 n ≡ replicate 7 0 ++ (n ∷ [])
unfolding to_be_bytes
to_be_bytes-small n h =
    let q : n / 256 ≡ 0 = omega arith in
    let r : n % 256 ≡ n = omega arith in
    rw (ap (λ k. to_be_bytes 7 k ++ (n % 256 ∷ [])) q) (ap (λ k. to_be_bytes 7 0 ++ (k ∷ [])) r)

-- A short enough length is followed by its own zeros.
sized-At :
    (bs rest : List ℕ)
    → length bs < 7
    → (tail : List ℕ) × At (sized bs ++ rest) (length bs) (0 ∷ tail)
sized-At bs rest h =
    let n = length bs in
    let (tail, e) = drop-zeros n 7 ((n ∷ []) ++ (bs ++ rest)) h in
    let e' : drop n (sized bs ++ rest) ≡ 0 ∷ tail =
      ap (drop n) (
        append_assoc (to_be_bytes 8 n) bs rest
        ∙ ap (λ r. r ++ (bs ++ rest)) (to_be_bytes-small n (omega arith)))
      ∙ e in
    (tail, (omega (arith, length-append (sized bs) rest, length-sized bs), e'))

read_zero :
    (tail : List ℕ) (s : Trackers)
    → HasRoom s 0 1
    → counted (λ bytes. lift (decode_number Token.u8 1 bytes)) (0 ∷ tail) s
      ≡ ok (decoded (Token.u8 0) 1, spend 1 s)
unfolding decode_number from_be_bytes
read_zero tail s room =
    rw (increase_token-HasRoom s 0 0 (omega arith), peek_slice-append (0 ∷ []) tail 1 refl) refl

module _ (x : External) (bs : List ℕ) where
  slice_then_u8 :
      (b : ℕ) (rest : List ℕ) (s : Trackers)
      → is_utf8 bs ≡ true
      → length bs < 7
      → HasRoom s 0 2
      → decode_params (decoders x two_types) (sized bs ++ (b ∷ rest)) 0 s
        ≡ ok (
          (Tokens.cons (slice_of bs) (Tokens.cons (Token.u8 0) Tokens.nil), length bs + 1),
          spend 2 s,
        )
  unfolding decode_kind decode_params
  slice_then_u8 b rest s u h room =
      let (tail, at) = sized-At bs (b ∷ rest) h in
      rw
        (
          skip_slice-At (sized bs ++ (b ∷ rest)) 0 (sized bs ++ (b ∷ rest)) (omega arith, refl),
          increase_token-HasRoom s 0 1 (omega arith),
          read_string_slice (b ∷ rest) (spend 1 s) bs u (omega arith),
          zero-add (length bs),
          skip_slice-At (sized bs ++ (b ∷ rest)) (length bs) (0 ∷ tail) at,
          read_zero tail (spend 0 (spend 1 s)) (omega arith),
        )
        (ap
          (λ c. ok (
            (Tokens.cons (slice_of bs) (Tokens.cons (Token.u8 0) Tokens.nil), length bs + 1),
            record s { token_tracker = record (s.token_tracker) { count = c } },
          ))
          (omega arith))

  kind_misread :
      (b : ℕ) (rest : List ℕ) (s : Trackers)
      → is_utf8 bs ≡ true
      → length bs < 7
      → HasRoom s 1 2
      → decode_kind x str_and_u8 (sized bs ++ (b ∷ rest)) s
        ≡ ok (decoded (misread bs) (length bs + 1), spend 2 s)
  unfolding decode_kind
  kind_misread b rest s u h room = run_w_depth_tracking-eq _ s 0 2 2 _ (omega arith) (
      wrap-ok Token.tuple (decode_params (decoders x two_types) (sized bs ++ (b ∷ rest)) 0)
        (deeper s) _ (Tokens.cons (slice_of bs) (Tokens.cons (Token.u8 0) Tokens.nil)) _ _
        (slice_then_u8 b rest (deeper s) u h (omega arith)) refl)

  -- A byte behind a string slice of at most six bytes is lost: on the packed format of a string slice
  -- and a u8, with room for one level and three tokens, the decoder takes the u8 from the length in
  -- front of the string, and returns 0 whatever the byte is.
  pub string_slice-misread :
      (b : ℕ) (rest : List ℕ) (s : Trackers)
      → is_utf8 bs ≡ true
      → length bs < 7
      → HasRoom s 1 3
      → decode_param x str_and_u8 (packed x (pair_of bs b) ++ rest) s
        ≡ ok (decoded (pair_of bs 0) (length bs + 1), spend 3 s)
  unfolding decode_param packed to_be_bytes
  string_slice-misread b rest s u h room =
      ap (λ bytes. decode_param x str_and_u8 bytes s) (append_assoc (sized bs) (b % 256 ∷ []) rest)
      ∙ rw
          (
            increase_token-HasRoom s 1 2 (omega arith),
            kind_misread (b % 256) rest (spend 1 s) u h (omega arith),
          )
          (ap (λ s'. ok (decoded (misread bs) (length bs + 1), s')) (spend-spend 1 2 s))
