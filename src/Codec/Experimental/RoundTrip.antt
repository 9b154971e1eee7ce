-- ===== src/Codec/Experimental/RoundTrip.antt =====
-- What the packed format of a value holds is decoded to that value.
use native.Mathlib.Nat.{zero-add, add-zero}
use fuels_rs.Prelude.{
  subst, ℕ, ◌+◌, ◌≡◌, refl, ap, ◌∙◌, sym, arith, List, [], ◌++◌, length, replicate, append_assoc,
  length-append,
}
use fuels_rs.Errors.{Result, ok}
use fuels_rs.ParamTypes.{ParamType, ParamTypes}
use fuels_rs.Tokens.{External, IsLawful, Token, Tokens, count}
use fuels_rs.Tokens.Typing.{HasType, HasTypes, AreOf}
use fuels_rs.Codec.Counter.{Trackers, HasRoom, deeper, spend, spend-zero, run_w_depth_tracking-eq}
use fuels_rs.Codec.Decoder.{decoded, counted}
use fuels_rs.Codec.Decoder.Peek.{At, At-advance}
use fuels_rs.Codec.Decoder.Steps.{finish, wrap-ok}
use fuels_rs.Codec.Experimental.{decode_params, decode_kind, decoders, decode_param}
use fuels_rs.Codec.Experimental.Packed.{
  packed, packed_all, levels, levels_all, below, below_all, IsReadable, AreReadable,
}
use fuels_rs.Codec.Experimental.Scalars.{
  read_bool, read_u256, read_b256, read_bytes, read_raw_slice, read_std_string, read_string_array,
}
use fuels_rs.Codec.Experimental.Steps.{
  Reads, read_number, counted-Reads, params_step, decode_enum-eq, decode_vector-eq,
}

-- No parameters: nothing is read.
run_nil :
    (bytes : List ℕ) (k : ℕ) (s : Trackers)
    → decode_params [] bytes k s ≡ ok ((Tokens.nil, k + 0), spend 0 s)
unfolding decode_params
run_nil bytes k s =
    ap (λ n. ok ((Tokens.nil, n), s)) (sym (add-zero k))
    ∙ ap (λ s'. ok ((Tokens.nil, k + 0), s')) (sym (spend-zero s))

-- The first of some packed values, and the position behind all of them.
module _ (x : External) (t : Token) (ts : Tokens) where
  regrouped :
      (bytes : List ℕ) (k : ℕ) (rest : List ℕ)
      → At bytes k ((packed x t ++ packed_all x ts) ++ rest)
      → At bytes k (packed x t ++ (packed_all x ts ++ rest))
  regrouped bytes k rest at =
      subst (λ r. At bytes k r) (append_assoc (packed x t) (packed_all x ts) rest) at

  total :
      (k : ℕ) (s : Trackers)
      → ◌≡◌ {A = Result ((Tokens × ℕ) × Trackers)}
          (ok ((ts, k + length (packed x t) + length (packed_all x ts)), s))
          (ok ((ts, k + length (packed x t ++ packed_all x ts)), s))
  total k s =
      ap (λ n. ok ((ts, n), s)) (omega (arith, length-append (packed x t) (packed_all x ts)))

module _ (x : External) (l : IsLawful x) where
  mutual
    unfolding decode_kind packed levels below count

    reads : {t : Token} {p : ParamType} → HasType t p → IsReadable t → Reads x (decode_kind x p) t
    reads HasType.unit r rest s room = finish (decoded Token.unit 0) s
    reads (HasType.u8 {n} h) r rest s room = read_number Token.u8 1 n rest s (omega arith)
    reads (HasType.u16 {n} h) r rest s room = read_number Token.u16 2 n rest s (omega arith)
    reads (HasType.u32 {n} h) r rest s room = read_number Token.u32 4 n rest s (omega arith)
    reads (HasType.u64 {n} h) r rest s room = read_number Token.u64 8 n rest s (omega arith)
    reads (HasType.u128 {n} h) r rest s room = read_number Token.u128 16 n rest s (omega arith)
    reads (HasType.bool {b}) r rest s room = read_bool rest s b
    reads (HasType.u256 {n} h) r rest s room = read_u256 rest s x l n h
    reads (HasType.b256 {bs} h) r rest s room = read_b256 rest s bs h
    reads (HasType.bytes {bs}) r rest s room = read_bytes rest s bs r
    reads (HasType.string {bs} h) r rest s room = read_std_string rest s bs h r
    reads (HasType.raw_slice {bs}) r rest s room = read_raw_slice rest s bs r
    reads (HasType.string_array {bs} {n} h e) r rest s room = read_string_array rest s bs n h e
    reads (HasType.string_slice h) r rest s room = cc
    reads (HasType.vector {ts} {p} h) (lt, r) rest s room =
        run_w_depth_tracking-eq _ s (levels_all ts) (below_all ts) (below_all ts) _ (omega arith) (
          decode_vector-eq x p ts rest (deeper s) _ lt (
            reads_items h r (packed_all x ts ++ rest) 0 rest (deeper s) (omega arith, refl)
              (omega arith)
            ∙ ap (λ n. ok ((ts, n), spend (below_all ts) (deeper s)))
                (zero-add (length (packed_all x ts)))))
    reads (HasType.array {ts} {p} {n} h e) r rest s room = rw (← e) (
        run_w_depth_tracking-eq _ s (levels_all ts) (below_all ts) (below_all ts) _ (omega arith) (
          wrap-ok Token.array
            (decode_params (replicate (count ts) (counted (decode_kind x p)))
              (packed_all x ts ++ rest) 0)
            (deeper s) _ ts _ _
            (reads_items h r (packed_all x ts ++ rest) 0 rest (deeper s) (omega arith, refl)
              (omega arith))
            (zero-add (length (packed_all x ts)))))
    reads (HasType.tuple {ts} {ps} h) r rest s room =
        run_w_depth_tracking-eq _ s (levels_all ts) (below_all ts) (below_all ts) _ (omega arith) (
          wrap-ok Token.tuple (decode_params (decoders x ps) (packed_all x ts ++ rest) 0) (deeper s)
            _ ts _ _
            (reads_fields h r (packed_all x ts ++ rest) 0 rest (deeper s) (omega arith, refl)
              (omega arith))
            (zero-add (length (packed_all x ts))))
    reads (HasType.struct {ts} {ps} h) r rest s room =
        run_w_depth_tracking-eq _ s (levels_all ts) (below_all ts) (below_all ts) _ (omega arith) (
          wrap-ok Token.struct (decode_params (decoders x ps) (packed_all x ts ++ rest) 0)
            (deeper s) _ ts _ _
            (reads_fields h r (packed_all x ts ++ rest) 0 rest (deeper s) (omega arith, refl)
              (omega arith))
            (zero-add (length (packed_all x ts))))
    reads (HasType.enum {d} {t} {p} {vs} lt e h) r rest s room =
        run_w_depth_tracking-eq _ s (levels t) (1 + below t) (1 + below t) _ (omega arith) (
          decode_enum-eq x vs d t p rest (deeper s) _ lt e (
            counted-Reads x (decode_kind x p) t (reads h r) rest (levels t) (deeper s) (omega arith)
              (omega arith)))

    reads_items :
        {ts : Tokens} {p : ParamType}
        → AreOf ts p
        → AreReadable ts
        → (bytes : List ℕ) (k : ℕ) (rest : List ℕ) (s : Trackers)
        → At bytes k (packed_all x ts ++ rest)
        → HasRoom s (levels_all ts) (below_all ts)
        → decode_params (replicate (count ts) (counted (decode_kind x p))) bytes k s
          ≡ ok ((ts, k + length (packed_all x ts)), spend (below_all ts) s)
    reads_items (AreOf.empty {p}) r bytes k rest s at room = run_nil bytes k s
    reads_items (AreOf.more {t} {p} {ts} h hs) (r, rs) bytes k rest s at room =
        params_step x (decode_kind x p) t (reads h r)
          (replicate (count ts) (counted (decode_kind x p))) (levels_all (Tokens.cons t ts))
          (below_all ts) bytes (packed_all x ts ++ rest) s ts _ k room (omega arith)
          (regrouped x t ts bytes k rest at)
          (reads_items hs rs bytes (k + length (packed x t)) rest (spend (1 + below t) s)
              (At-advance bytes k _ (packed x t) _ (regrouped x t ts bytes k rest at) refl)
              (omega arith)
            ∙ total x t ts k (spend (below_all ts) (spend (1 + below t) s)))

    reads_fields :
        {ts : Tokens} {ps : ParamTypes}
        → HasTypes ts ps
        → AreReadable ts
        → (bytes : List ℕ) (k : ℕ) (rest : List ℕ) (s : Trackers)
        → At bytes k (packed_all x ts ++ rest)
        → HasRoom s (levels_all ts) (below_all ts)
        → decode_params (decoders x ps) bytes k s
          ≡ ok ((ts, k + length (packed_all x ts)), spend (below_all ts) s)
    reads_fields HasTypes.nil r bytes k rest s at room = run_nil bytes k s
    reads_fields (HasTypes.cons {t} {p} {ts} {ps} h hs) (r, rs) bytes k rest s at room =
        params_step x (decode_kind x p) t (reads h r) (decoders x ps)
          (levels_all (Tokens.cons t ts)) (below_all ts) bytes (packed_all x ts ++ rest) s ts _ k
          room (omega arith) (regrouped x t ts bytes k rest at)
          (reads_fields hs rs bytes (k + length (packed x t)) rest (spend (1 + below t) s)
              (At-advance bytes k _ (packed x t) _ (regrouped x t ts bytes k rest at) refl)
              (omega arith)
            ∙ total x t ts k (spend (below_all ts) (spend (1 + below t) s)))

  -- Off the front of the packed format of a value of a type, in which no string slice occurs and
  -- every length fits a u64, `decode_param` of the experimental decoder reads that value, if it has
  -- room for the depth and the tokens of the value and the functions of other crates are lawful. It
  -- reports the whole length of the format, and counts the value and the tokens in it.
  pub decode_param-packed :
      (t : Token) (p : ParamType) (rest : List ℕ) (s : Trackers)
      → HasType t p
      → IsReadable t
      → HasRoom s (levels t) (1 + below t)
      → decode_param x p (packed x t ++ rest) s
        ≡ ok (decoded t (length (packed x t)), spend (1 + below t) s)
  unfolding decode_param
  decode_param-packed t p rest s h r room =
      counted-Reads x (decode_kind x p) t (reads h r) rest (levels t) s (omega arith) room
