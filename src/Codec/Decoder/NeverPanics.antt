-- ===== src/Codec/Decoder/NeverPanics.antt =====
-- The decoder never panics: every slice is taken behind a test, and the arms that the source marks
-- unreachable are.
use fuels_rs.Prelude.{
  ◌+◌, ◌<◌, arith, subst, ℕ, zero, suc, ◌≡◌, ltb, length, Bool-cases, some, Option-cases, inl, inr,
  List, [], ◌∷◌, replicate, get_elem?,
}
use mathlib.Core.Option.{some-injective}
use fuels_rs.Errors
use fuels_rs.Errors.{Result, ok, err, panic, Error, map_err}
use fuels_rs.ParamTypes.{
  ParamType, ParamTypes, param_type_of_variant, get?, only_units_inside,
  compute_enum_width_in_bytes, calculate_num_of_elements,
}
use fuels_rs.Tokens.{External, Token, Tokens}
use fuels_rs.Codec.Counter.{M, Trackers}
use fuels_rs.Codec.Decoder.{
  DecoderConfig, Decode, decoded, select, wrap, peek_number, decode_kind, decoders, decode_params,
  decode_fields, decode_enum, decode_vector, decode_token_in_enum, skip_extra_in_bytes,
  decode_param, decode_top, decode,
}
use fuels_rs.ParamTypes.Receipts.{
  children_need_extra_receipts, grandchildren_need_receipts, num_of_children_needing_receipts,
  check_heap_types, validate_is_decodable, heap_type_variant,
}
use fuels_rs.Utils.{usize_limit}
use fuels_rs.Codec.Decoder.Selected.{selected-le, extra-le}
use fuels_rs.Codec.Decoder.{decode_u64, as_u64}
use fuels_rs.Codec.Decoder.Safety.{
  Safe, SafeM, bind-Safe, if-Safe, peek-Safe, fixed-Safe, padded-Safe, sub_usize-Safe,
  sub_usize-eq-ok, add_usize-Safe, lift_ok-Safe, skip-Safe, from_utf8-Safe, round_up-Safe,
  enum_width-Safe, compute-Safe, variants-Safe, lift-Safe, tracked-Safe, counted-Safe,
}

abbrev Reader : Decode → Type 0
Reader d = (bs : List ℕ) → SafeM (d bs)

data Readers : List Decode → Type 0 where
  nil : Readers []
  cons : {q : Decode} {ds : List Decode} → Reader q → Readers ds → Readers (q ∷ ds)

replicate-Readers : (n : ℕ) (d : Decode) → Reader d → Readers (replicate n d)
replicate-Readers zero d h = Readers.nil
replicate-Readers (suc n) d h = Readers.cons h (replicate-Readers n d h)

params-Safe :
    {ds : List Decode} → Readers ds → (bs : List ℕ) (k : ℕ) → SafeM (decode_params ds bs k)
unfolding decode_params
params-Safe Readers.nil bs k s = Safe.returns _
params-Safe (Readers.cons h hs) bs k s =
    bind-Safe _ _ (lift-Safe _ (skip-Safe bs k) s) (λ (rest, s₁).
      bind-Safe _ _ (h rest s₁)
        (λ (r, s₂). bind-Safe _ _ (params-Safe hs bs _ s₂) (λ (ts, s₃). Safe.returns _)))

fields-Safe :
    {ds : List Decode} → Readers ds → (bs : List ℕ) (k : ℕ) → SafeM (decode_fields ds bs k)
unfolding decode_fields
fields-Safe Readers.nil bs k s = Safe.returns _
fields-Safe (Readers.cons h hs) bs k s =
    bind-Safe _ _ (lift-Safe _ (round_up-Safe k) s) (λ (aligned, s₀).
      bind-Safe _ _ (lift-Safe _ (skip-Safe bs aligned) s₀) (λ (rest, s₁).
        bind-Safe _ _ (h rest s₁)
          (λ (r, s₂). bind-Safe _ _ (fields-Safe hs bs _ s₂) (λ (ts, s₃). Safe.returns _))))

wrap-Safe : (f : Tokens → Token) (m : M (Tokens × ℕ)) → SafeM m → SafeM (wrap f m)
wrap-Safe f m h s = bind-Safe _ _ (h s) (λ (ts, s₁). Safe.returns _)

get_elem?-Reader :
    {ds : List Decode} (d : ℕ) (r : Decode) → Readers ds → get_elem? ds d ≡ some r → Reader r
get_elem?-Reader d r Readers.nil e = cc
get_elem?-Reader zero r (Readers.cons {q} h hs) e = subst (λ d. Reader d) (some-injective q r e) h
get_elem?-Reader (suc d) r (Readers.cons h hs) e = get_elem?-Reader d r hs e

select-Safe : (ds : List Decode) → Readers ds → (d : ℕ) → Reader (select ds d)
select-Safe ds hs d bs s = elim (Option-cases (get_elem? ds d)) [
  | inl e ↦ rw (select, e) (Safe.refuses _)
  | inr (r, e) ↦ rw (select, e) (get_elem?-Reader d r hs e bs s)
]

variant-Safe : (vs : ParamTypes) (d : ℕ) → Safe (param_type_of_variant vs d)
unfolding param_type_of_variant
variant-Safe vs d = elim (Option-cases (get? vs d)) [
  | inl e ↦ rw (param_type_of_variant, e) (Safe.refuses _)
  | inr (r, e) ↦ rw (param_type_of_variant, e) (Safe.returns _)
]

extra-Safe : (vs : ParamTypes) (d : ℕ) → Safe (skip_extra_in_bytes vs d)
unfolding skip_extra_in_bytes
extra-Safe vs d = elim (Option-cases (heap_type_variant vs)) [
  | inl e ↦ rw (skip_extra_in_bytes, e) (Safe.returns _)
  | inr ((h, p), e) ↦ rw (skip_extra_in_bytes, e) (if-Safe _ _ _ (compute-Safe p) (Safe.returns _))
]

width-Safe : (vs : ParamTypes) → Safe (compute_enum_width_in_bytes vs)
unfolding compute_enum_width_in_bytes
width-Safe vs = enum_width-Safe vs _ (variants-Safe vs 0)

number-Safe : (bs : List ℕ) (n : ℕ) → Safe (peek_number bs n)
unfolding peek_number
number-Safe bs n = bind-Safe _ _ (fixed-Safe bs n) (λ a. Safe.returns _)

within-Safe :
    (ds : List Decode) (vs : ParamTypes)
    → Readers ds
    → (d : ℕ) → Reader (decode_token_in_enum ds vs d)
unfolding decode_token_in_enum
within-Safe ds vs hs d bs s = elim (Bool-cases (only_units_inside vs)) [
  | inl u ↦ rw u (Safe.returns _)
  | inr u ↦ rw u (select-Safe ds hs d bs s)
]

enum-Safe : (ds : List Decode) (vs : ParamTypes) → Readers ds → Reader (decode_enum ds vs)
unfolding decode_enum
enum-Safe ds vs hs bs = lift_ok-Safe _ _ (width-Safe vs) λ w ew.
    lift_ok-Safe _ _ (number-Safe bs 8) λ d ed. lift_ok-Safe _ _ (variant-Safe vs d) λ p ep.
      lift_ok-Safe _ _ (extra-Safe vs d) λ n en. lift_ok-Safe _ _ (compute-Safe p) λ pw epw.
        let (fits, lt) = selected-le vs d p ep pw epw w ew in
        lift_ok-Safe _ _ (sub_usize-Safe w pw fits) λ u eu.
          let within : u + n < usize_limit =
            omega (arith, extra-le vs d p ep pw epw n en, sub_usize-eq-ok w pw u eu, lt) in
          lift_ok-Safe _ _ (add_usize-Safe u n within) λ k ek.
            lift_ok-Safe _ _ (skip-Safe bs k) λ content ec s.
              bind-Safe _ _ (within-Safe ds vs hs d content s) (λ (r, s'). Safe.returns _)

elements-Safe : (p : ParamType) (n : ℕ) → Safe (calculate_num_of_elements p n)
unfolding calculate_num_of_elements
elements-Safe p n =
    bind-Safe _ _ (compute-Safe p)
      (λ w. if-Safe _ _ _ (Safe.refuses _) (if-Safe _ _ _ (Safe.returns _) (Safe.refuses _)))

vector-Safe : (d : Decode) (p : ParamType) → Reader d → Reader (decode_vector d p)
unfolding decode_vector
vector-Safe d p h bs s =
    bind-Safe _ _ (lift-Safe _ (elements-Safe p (length bs)) s)
      (λ (n, s₁). wrap-Safe Token.vector _ (params-Safe (replicate-Readers n d h) bs 0) s₁)

as_u64-Safe :
    (f : ℕ → Token) (m : Result ℕ)
    → Safe m
    → Safe (as_u64 f (Errors.◌>>=◌ m (λ n. ok (decoded (Token.u64 n) 8))))
as_u64-Safe f _ (Safe.returns n) = Safe.returns _
as_u64-Safe f _ (Safe.refuses e) = Safe.refuses e

check-Safe : (p : ParamType) → Safe (check_heap_types p)
unfolding check_heap_types
check-Safe (ParamType.enum vs gs) =
    if-Safe (grandchildren_need_receipts vs) _ _
      (Safe.refuses (Errors.codec Errors.enum_heap_too_deep))
      (if-Safe (ltb 1 (num_of_children_needing_receipts vs)) _ _
        (Safe.refuses
          (Errors.codec (Errors.enum_heap_variants (num_of_children_needing_receipts vs))))
        (Safe.returns _))
check-Safe ParamType.unit =
    if-Safe (children_need_extra_receipts ParamType.unit) _ _
      (Safe.refuses (Errors.codec Errors.nested_heap_types)) (Safe.returns _)
check-Safe p =
    if-Safe (children_need_extra_receipts p) _ _
      (Safe.refuses (Errors.codec Errors.nested_heap_types)) (Safe.returns _)

validate-Safe : (p : ParamType) → Safe (validate_is_decodable p)
unfolding validate_is_decodable
validate-Safe p =
    bind-Safe _ _ (check-Safe p) (λ u. bind-Safe _ _ (compute-Safe p) (λ w. Safe.returns _))

module _ (x : External) where
  mutual
    unfolding decode_kind

    kind-Safe : (p : ParamType) → Reader (decode_kind x p)
    kind-Safe ParamType.unit bs =
        lift-Safe _ (bind-Safe _ _ (fixed-Safe bs 1) (λ a. Safe.returns _))
    kind-Safe ParamType.u8 bs = lift-Safe _ (bind-Safe _ _ (number-Safe bs 1) (λ a. Safe.returns _))
    kind-Safe ParamType.bool bs =
        lift-Safe _ (bind-Safe _ _ (number-Safe bs 1) (λ a. Safe.returns _))
    kind-Safe ParamType.u16 bs =
        lift-Safe _ (bind-Safe _ _ (padded-Safe bs 2 (omega arith)) (λ a. Safe.returns _))
    kind-Safe ParamType.u32 bs =
        lift-Safe _ (bind-Safe _ _ (padded-Safe bs 4 (omega arith)) (λ a. Safe.returns _))
    kind-Safe ParamType.u64 bs =
        lift-Safe _ (bind-Safe _ _ (number-Safe bs 8) (λ a. Safe.returns _))
    kind-Safe ParamType.u128 bs =
        lift-Safe _ (bind-Safe _ _ (number-Safe bs 16) (λ a. Safe.returns _))
    kind-Safe ParamType.u256 bs =
        lift-Safe _ (bind-Safe _ _ (fixed-Safe bs 32) (λ a. Safe.returns _))
    kind-Safe ParamType.b256 bs =
        lift-Safe _ (bind-Safe _ _ (fixed-Safe bs 32) (λ a. Safe.returns _))
    kind-Safe ParamType.bytes bs = λ s. Safe.returns _
    kind-Safe ParamType.raw_slice bs = λ s. Safe.returns _
    kind-Safe ParamType.string bs =
        lift-Safe _ (bind-Safe _ _ (from_utf8-Safe bs) (λ a. Safe.returns _))
    kind-Safe ParamType.string_slice bs =
        lift-Safe _ (bind-Safe _ _ (from_utf8-Safe bs) (λ a. Safe.returns _))
    kind-Safe (ParamType.string_array n) bs = lift-Safe _ (
        bind-Safe _ _ (peek-Safe bs n) (λ c.
          bind-Safe _ _ (from_utf8-Safe c)
            (λ a. bind-Safe _ _ (round_up-Safe n) (λ k. Safe.returns _))))
    kind-Safe (ParamType.array p n) bs = tracked-Safe _ (
        wrap-Safe Token.array _
          (params-Safe (replicate-Readers n _ (counted-Safe _ (kind-Safe p))) bs 0))
    kind-Safe (ParamType.struct ps gs) bs =
        tracked-Safe _ (wrap-Safe Token.struct _ (fields-Safe (decoders-Readers ps) bs 0))
    kind-Safe (ParamType.tuple ps) bs =
        tracked-Safe _ (wrap-Safe Token.tuple _ (fields-Safe (decoders-Readers ps) bs 0))
    kind-Safe (ParamType.enum vs gs) bs =
        tracked-Safe _ (enum-Safe (decoders x vs) vs (decoders-Readers vs) bs)
    kind-Safe (ParamType.vector p) bs =
        tracked-Safe _ (vector-Safe _ p (counted-Safe _ (kind-Safe p)) bs)

    decoders-Readers : (ps : ParamTypes) → Readers (decoders x ps)
    decoders-Readers ParamTypes.nil = Readers.nil
    decoders-Readers (ParamTypes.cons p ps) =
        Readers.cons (counted-Safe _ (kind-Safe p)) (decoders-Readers ps)

  decode_param-Safe :
      (p : ParamType) (bytes : List ℕ) (s : Trackers) → Safe (decode_param x p bytes s)
  unfolding decode_param
  decode_param-Safe p bytes s = counted-Safe _ (kind-Safe p) bytes s

  top-Safe : (p : ParamType) (bs : List ℕ) → SafeM (decode_top x p bs)
  unfolding decode_top decode_u64
  top-Safe ParamType.unit bs s = Safe.returns _
  top-Safe ParamType.u8 bs s = lift-Safe _ (as_u64-Safe _ _ (number-Safe bs 8)) s
  top-Safe ParamType.bool bs s = lift-Safe _ (as_u64-Safe _ _ (number-Safe bs 8)) s
  top-Safe p bs s = bind-Safe _ _ (decode_param-Safe p bs s) (λ (r, s₁). Safe.returns _)

  -- `decode` returns a token or an error for any type, on any bytes and within any limits: no slice of
  -- the bytes, no conversion to an array, no subtraction or addition for an enum and no arm marked as
  -- unreachable panics.
  pub decode-Safe :
      (config : DecoderConfig) (p : ParamType) (bytes : List ℕ) → Safe (decode x config p bytes)
  unfolding decode
  decode-Safe config p bytes =
      bind-Safe _ _ (bind-Safe _ _ (lift-Safe _ (validate-Safe p) _) (λ (u, s). top-Safe p bytes s))
        (λ (t, s). Safe.returns _)
