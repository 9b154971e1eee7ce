-- ===== src/Codec/Decoder/Steps.antt =====
-- One value in a run of them: what it takes from the bytes, the tokens and the depth.
use fuels_rs.Prelude.{
  ℕ, ◌+◌, ◌-◌, ◌≤◌, ◌<◌, ◌≡◌, ap, ◌∙◌, sym, arith, List, ◌∷◌, ◌++◌, length, append_assoc,
  length-append,
}
use fuels_rs.Errors.{ok}
use fuels_rs.Utils.{usize_limit, round_up, checked_round_up-eq}
use fuels_rs.Tokens.{External, Token, Tokens}
use fuels_rs.UnresolvedBytes.{Chunks, append, amount_of_inline_bytes}
use fuels_rs.Codec.Counter.{
  Trackers, M, pure, HasRoom, spend, spend-spend, spend-zero, increase_token-HasRoom,
}
use fuels_rs.Codec.Format.{
  layout, filler, zeros, depth_of, tokens_in, flat, flat-append, flat-zero_chunk, length-flat,
}
use fuels_rs.Codec.Format.Size.{length-zeros}
use fuels_rs.Codec.Decoder.{Decode, Decoded, decoded, counted, decode_params, decode_fields, wrap}
use fuels_rs.Codec.Decoder.Peek.{At, skip-At}

-- `decode` reads `t` off the front of its format and reports `n` bytes.
abbrev pub Reads : External → Decode → Token → ℕ → Type 0
Reads x decode t n =
    (rest : List ℕ) (s : Trackers)
    → HasRoom s (depth_of t) (tokens_in 1 t)
    → decode (flat (layout x t) ++ rest) s ≡ ok (decoded t n, spend (tokens_in 1 t) s)

pub finish : (r : Decoded) (s : Trackers) → pure r s ≡ ok (r, spend 0 s)
finish r s = ap (λ s'. ok (r, s')) (sym (spend-zero s))

-- The state after one value and `m` more tokens.
pub spend_rest :
    {A : Type 0} (run : M A) (a : A) (n m : ℕ) (s : Trackers)
    → run (spend (1 + n) s) ≡ ok (a, spend m (spend (1 + n) s))
    → run (spend n (spend 1 s)) ≡ ok (a, spend (1 + n + m) s)
spend_rest run a n m s go =
    ap run (spend-spend 1 n s) ∙ go ∙ ap (λ s'. ok (a, s')) (spend-spend (1 + n) m s)

-- One round of `decode_params`, and of the loop over fields.
module _ (x : External) (decode : Decode) (rest_of : List Decode) (t : Token) (n d m : ℕ)
    (bytes rest : List ℕ) (s : Trackers) (ts : Tokens) (total : ℕ) (reads : Reads x decode t n)
    (room : HasRoom s d (1 + tokens_in 1 t + m)) (le : depth_of t ≤ d) where
  pub params_step :
      (k : ℕ)
      → At bytes k (flat (layout x t) ++ rest)
      → decode_params rest_of bytes (k + n) (spend (1 + tokens_in 1 t) s)
        ≡ ok ((ts, total), spend m (spend (1 + tokens_in 1 t) s))
      → decode_params (counted decode ∷ rest_of) bytes k s
        ≡ ok ((Tokens.cons t ts, total), spend (1 + tokens_in 1 t + m) s)
  unfolding decode_params
  params_step k at go = rw (
    skip-At bytes k _ at,
    increase_token-HasRoom s d (tokens_in 1 t + m) (omega arith),
    reads rest (spend 1 s) (omega arith),
    spend_rest (decode_params rest_of bytes (k + n)) _ (tokens_in 1 t) m s go,
  )

  pub fields_step :
      (a : ℕ)
      → a + 7 < usize_limit
      → At bytes (round_up a) (flat (layout x t) ++ rest)
      → decode_fields rest_of bytes (round_up a + n) (spend (1 + tokens_in 1 t) s)
        ≡ ok ((ts, total), spend m (spend (1 + tokens_in 1 t) s))
      → decode_fields (counted decode ∷ rest_of) bytes a s
        ≡ ok ((Tokens.cons t ts, total), spend (1 + tokens_in 1 t + m) s)
  unfolding decode_fields
  fields_step a fit at go = rw (
    checked_round_up-eq a fit,
    skip-At bytes (round_up a) _ at,
    increase_token-HasRoom s d (tokens_in 1 t + m) (omega arith),
    reads rest (spend 1 s) (omega arith),
    spend_rest (decode_fields rest_of bytes (round_up a + n)) _ (tokens_in 1 t) m s go,
  )

pub counted-Reads :
    (x : External) (decode : Decode) (t : Token) (n d : ℕ) (rest : List ℕ) (s : Trackers)
    → Reads x decode t n
    → HasRoom s d (1 + tokens_in 1 t)
    → depth_of t ≤ d
    → counted decode (flat (layout x t) ++ rest) s ≡ ok (decoded t n, spend (1 + tokens_in 1 t) s)
counted-Reads x decode t n d rest s reads room le =
    rw
      (
        increase_token-HasRoom s d (tokens_in 1 t) (omega arith),
        reads rest (spend 1 s) (omega arith),
      )
      (ap (λ s'. ok (decoded t n, s')) (spend-spend 1 (tokens_in 1 t) s))

pub wrap-ok :
    (f : Tokens → Token) (m : M (Tokens × ℕ)) (s s' : Trackers) (ts : Tokens) (n n' : ℕ)
    → m s ≡ ok ((ts, n), s')
    → n ≡ n'
    → wrap f m s ≡ ok (decoded (f ts) n', s')
wrap-ok f m s s' ts n n' e e' = rw e (ap (λ k. ok (decoded (f ts) k, s')) e')

-- The format of a field, its filler and the fields behind it.
pub flat-field :
    (c ds : Chunks) (rest : List ℕ)
    → flat (append (append c (filler c)) ds) ++ rest
      ≡ (flat c ++ zeros (round_up (amount_of_inline_bytes c) - amount_of_inline_bytes c))
        ++ (flat ds ++ rest)
flat-field c ds rest =
    rw
      (
        flat-append (append c (filler c)) ds,
        flat-append c (filler c),
        flat-zero_chunk (round_up (amount_of_inline_bytes c) - amount_of_inline_bytes c),
      )
      (append_assoc _ (flat ds) rest)

pub length-field :
    (c : Chunks)
    → length (flat c ++ zeros (round_up (amount_of_inline_bytes c) - amount_of_inline_bytes c))
      ≡ round_up (amount_of_inline_bytes c)
length-field c = omega (
  arith,
  length-append (flat c) (zeros (round_up (amount_of_inline_bytes c) - amount_of_inline_bytes c)),
  length-zeros (round_up (amount_of_inline_bytes c) - amount_of_inline_bytes c),
  length-flat c,
)
