-- ===== src/Codec/Encoder/Layout.antt =====
-- The encoder writes the format: on a value of a type whose widths fit, within the limits of the
-- trackers, `encode_token` succeeds with the chunks of the layout.
use fuels_rs.Prelude.{
  ℕ, ◌+◌, ◌-◌, ◌%◌, ◌≤◌, ◌<◌, ◌≡◌, refl, ap, ◌∙◌, sym, arith, Bool, true, false, Bool-cases, inl,
  inr, List, length, take-eq_of_le, ltb→le, none, some, le→ltb, ltb, ==_iff,
}
use fuels_rs.Prelude.Utf8.{is_ascii}
use native.Mathlib.Nat.{zero-add}
use fuels_rs.Errors.{ok}
use fuels_rs.Utils.{usize_limit, round_up, checked_round_up-eq}
use fuels_rs.ParamTypes.{param_type_of_variant-eq, ParamType, ParamTypes, get?, only_units_inside}
use fuels_rs.ParamTypes.Width.{width, width_fields, widest}
use fuels_rs.ParamTypes.Fits.{
  Fits, FitsAll, FitsAll-get?, compute_padding_amount_in_bytes-eq, compute_enum_width_in_bytes-eq,
}
use fuels_rs.Tokens.{
  pad_u16, pad_u32, External, IsLawful, Token, Tokens, pad_string, get_encodable_str,
}
use fuels_rs.Tokens.Typing.{HasType, HasTypes, AreOf}
use fuels_rs.UnresolvedBytes.{Chunks, inline, nil, cons, append, amount_of_inline_bytes}
use fuels_rs.Codec.Counter.{
  Trackers, M, pure, HasRoom, deeper, spend, spend-spend, spend-zero, increase_token-HasRoom,
  run_w_depth_tracking-eq,
}
use fuels_rs.Codec.Encoder.{
  encode_token, encode_tokens, encode_enum, encode_vector, push_padded, zeropad_to_word_alignment,
}
use fuels_rs.Codec.Format.{
  layout, layout_items, layout_fields, filler, zeros, word_of, word_padded, one, depth_of,
  depth_of_all, tokens_in, tokens_in_all, append-nil_chunks, append_assoc_chunks,
}
use fuels_rs.Codec.Format.Size.{amount-layout}

-- An ASCII string of the expected length is encodable.
get_encodable_str-eq :
    (bs : List ℕ)
    → is_ascii bs ≡ true
    → get_encodable_str (record { data_bytes = bs; expected_len = none }) ≡ ok bs
unfolding get_encodable_str
get_encodable_str-eq bs h = rw h

get_encodable_str_len :
    (bs : List ℕ)
    → is_ascii bs ≡ true
    → get_encodable_str (record { data_bytes = bs; expected_len = some (length bs) }) ≡ ok bs
unfolding get_encodable_str
get_encodable_str_len bs h = rw (h, (==_iff (length bs) (length bs)).1 refl)

module _ (x : External) (l : IsLawful x) where
  padded_len-round_up : (n : ℕ) → x.padded_len n ≡ round_up n
  padded_len-round_up n = omega (arith, l.padded_len_bounds n, l.padded_len_aligned n)

  pad_string-eq : (bs : List ℕ) → pad_string x bs ≡ word_padded bs
  unfolding pad_string
  pad_string-eq bs = rw (padded_len-round_up (length bs))

  zeropad-eq : (bs : List ℕ) → zeropad_to_word_alignment x bs ≡ word_padded bs
  unfolding zeropad_to_word_alignment
  zeropad-eq bs =
      rw (padded_len-round_up (length bs), take-eq_of_le (round_up (length bs)) bs (omega arith))

-- A round of the loop over fields keeps the offset aligned.
push_padded-eq :
    (off : ℕ) (done new : Chunks)
    → off % 8 ≡ 0
    → off + round_up (amount_of_inline_bytes new) < usize_limit
    → push_padded true off done new
      ≡ ok (off + round_up (amount_of_inline_bytes new), append done (append new (filler new)))
unfolding push_padded
push_padded-eq off done new a h =
    let n = amount_of_inline_bytes new in
    let total : round_up (off + n) ≡ off + round_up n = omega arith in
    let missing : off + round_up n - (off + n) ≡ round_up n - n = omega arith in
    rw (checked_round_up-eq (off + n) (omega arith)) (
      rw (total, missing)
        (elim (Bool-cases (ltb 0 (round_up n - n))) [
          | inl some_left ↦ rw (some_left, append_assoc_chunks done new)
          | inr none_left ↦
              let e : off + n ≡ off + round_up n =
                omega (arith, ltb→le 0 (round_up n - n) none_left) in
              rw (none_left, append-nil_chunks new) (ap (λ (k : ℕ). ok (k, append done new)) e)
        ]))

-- The conclusion about a value `t`: with room for it, it is encoded as its layout.
abbrev Encodes : External → ℕ → Token → Type 0
Encodes x limit t =
    (s : Trackers)
    → HasRoom s (depth_of t) (tokens_in 0 t)
    → encode_token x limit t s ≡ ok (layout x t, spend (tokens_in 0 t) s)

-- One round of `encode_tokens`.
encode_tokens_step :
    (x : External) (limit : ℕ) (t : Token) (ts : Tokens) (aligned : Bool) (off off' : ℕ)
    (done done' : Chunks) (s : Trackers) (d n : ℕ)
    → HasRoom s d (1 + tokens_in 0 t + n)
    → depth_of t ≤ d
    → Encodes x limit t
    → push_padded aligned off done (layout x t) ≡ ok (off', done')
    → encode_tokens x limit (Tokens.cons t ts) aligned off done s
      ≡ encode_tokens x limit ts aligned off' done' (spend (1 + tokens_in 0 t) s)
unfolding encode_token
encode_tokens_step x limit t ts aligned off off' done done' s d n room le enc push =
    rw (increase_token-HasRoom s d (tokens_in 0 t + n) (omega arith)) (
      rw (enc (spend 1 s) (omega arith)) (
        rw push
          (ap (encode_tokens x limit ts aligned off' done') (spend-spend 1 (tokens_in 0 t) s))))

-- `encode_enum` on a variant that is encoded as `cs`.
encode_enum-eq :
    (limit d : ℕ) (vs : ParamTypes) (p : ParamType) (inner : M Chunks) (cs : Chunks)
    (s s' : Trackers)
    → only_units_inside vs ≡ false
    → get? vs d ≡ some p
    → FitsAll limit vs
    → round_up (widest vs) + 8 ≤ limit
    → round_up (widest vs) + 8 < usize_limit
    → amount_of_inline_bytes cs ≡ width p
    → inner s ≡ ok (cs, s')
    → encode_enum limit d vs inner s
      ≡ ok (
        cons
            (word_of d)
            (cons (inline (zeros (round_up (widest vs) - amount_of_inline_bytes cs))) cs),
        s',
      )
unfolding encode_enum
encode_enum-eq limit d vs p inner cs s s' u e fs le lt size run = rw (
  u,
  param_type_of_variant-eq vs d p e,
  compute_enum_width_in_bytes-eq limit vs fs lt u,
  le→ltb limit (round_up (widest vs) + 8) le,
  compute_padding_amount_in_bytes-eq limit vs d p fs lt u e,
  run,
  size,
)

finish : (cs : Chunks) (s : Trackers) → pure cs s ≡ ok (cs, spend 0 s)
finish cs s = ap (λ s'. ok (cs, s')) (sym (spend-zero s))

encode_enum-units :
    (limit d : ℕ) (vs : ParamTypes) (inner : M Chunks) (s : Trackers)
    → only_units_inside vs ≡ true
    → encode_enum limit d vs inner s ≡ ok (one (word_of d), spend 0 s)
unfolding encode_enum
encode_enum-units limit d vs inner s u = rw u (finish (one (word_of d)) s)

merge :
    (done cs ds : Chunks) (m n : ℕ) (s : Trackers)
    → pure (append (append done cs) ds) (spend n (spend m s))
      ≡ ok (append done (append cs ds), spend (m + n) s)
merge done cs ds m n s =
    rw (append_assoc_chunks done cs ds) (ap (pure (append done (append cs ds))) (spend-spend m n s))

module _ (x : External) (l : IsLawful x) (limit : ℕ) where
  mutual
    unfolding encode_token layout depth_of tokens_in pad_u16 pad_u32 append encode_vector width

    encodes : {t : Token} {p : ParamType} → HasType t p → Fits limit p → Encodes x limit t
    encodes HasType.unit f s room = finish _ s
    encodes (HasType.u8 h) f s room = finish _ s
    encodes (HasType.u16 h) f s room = finish _ s
    encodes (HasType.u32 h) f s room = finish _ s
    encodes (HasType.u64 h) f s room = finish _ s
    encodes (HasType.u128 h) f s room = finish _ s
    encodes (HasType.u256 h) f s room = finish _ s
    encodes HasType.bool f s room = finish _ s
    encodes (HasType.b256 h) f s room = finish _ s
    encodes (HasType.raw_slice {bs}) f s room = rw (zeropad-eq x l bs) (finish _ s)
    encodes (HasType.bytes {bs}) f s room = rw (zeropad-eq x l bs) (finish _ s)
    encodes (HasType.string {bs} h) f s room = rw (zeropad-eq x l bs) (finish _ s)
    encodes (HasType.string_slice {bs} h) f s room = rw (get_encodable_str-eq bs h) (finish _ s)
    encodes (HasType.string_array {bs} {n} h e) f s room =
        rw (← e) (rw (get_encodable_str_len bs h, pad_string-eq x l bs) (finish _ s))
    encodes (HasType.array {ts} {p} h e) f s room =
        run_w_depth_tracking-eq (encode_tokens x limit ts false 0 nil) s (depth_of_all ts)
          (tokens_in_all 0 ts) (tokens_in_all 0 ts) (layout_items x ts) (omega arith)
          (encodes_items h f.0 0 nil (deeper s) (omega arith))
    encodes (HasType.vector {ts} {p} h) f s room =
        run_w_depth_tracking-eq _ s (depth_of_all ts) (tokens_in_all 0 ts) (tokens_in_all 0 ts) _
          (omega arith) (rw (encodes_items h f 0 nil (deeper s) (omega arith)))
    encodes (HasType.struct {ts} {ps} h) f s room =
        run_w_depth_tracking-eq (encode_tokens x limit ts true 0 nil) s (depth_of_all ts)
          (tokens_in_all 0 ts) (tokens_in_all 0 ts) (layout_fields x ts) (omega arith)
          (encodes_fields h f.0 0 nil (deeper s) refl (omega arith) (omega arith))
    encodes (HasType.tuple {ts} {ps} h) f s room =
        run_w_depth_tracking-eq (encode_tokens x limit ts true 0 nil) s (depth_of_all ts)
          (tokens_in_all 0 ts) (tokens_in_all 0 ts) (layout_fields x ts) (omega arith)
          (encodes_fields h f.0 0 nil (deeper s) refl (omega arith) (omega arith))
    encodes (HasType.enum {d} {t} {p} {vs} lt e h) (inl u) s room = rw u (
        run_w_depth_tracking-eq _ s 0 0 0 (one (word_of d)) (omega arith)
          (encode_enum-units limit d vs (encode_token x limit t) (deeper s) u))
    encodes (HasType.enum {d} {t} {p} {vs} lt e h) (inr (fs, le, fit)) s room =
        elim (Bool-cases (only_units_inside vs)) [
          | inl u ↦ rw u (
              run_w_depth_tracking-eq _ s 0 0 0 (one (word_of d)) (omega arith)
                (encode_enum-units limit d vs (encode_token x limit t) (deeper s) u))
          | inr u ↦
              let room' = rw u at room in
              rw u (
                run_w_depth_tracking-eq _ s (depth_of t) (tokens_in 0 t) (0 + tokens_in 0 t) _
                  (omega arith)
                  (encode_enum-eq limit d vs p (encode_token x limit t) (layout x t) (deeper s) _ u
                    e fs le fit (amount-layout x l h)
                    (encodes h (FitsAll-get? limit vs d fs e) (deeper s) (omega arith)
                      ∙ ap (λ k. ok (layout x t, spend k (deeper s)))
                          (sym (zero-add (tokens_in 0 t))))))
        ]

    encodes_items :
        {ts : Tokens} {p : ParamType}
        → AreOf ts p
        → Fits limit p
        → (off : ℕ) (done : Chunks) (s : Trackers)
        → HasRoom s (depth_of_all ts) (tokens_in_all 0 ts)
        → encode_tokens x limit ts false off done s
          ≡ ok (append done (layout_items x ts), spend (tokens_in_all 0 ts) s)
    encodes_items AreOf.empty f off done s room = rw (append-nil_chunks done) (finish done s)
    encodes_items (AreOf.more {t} {p} {ts} h hs) f off done s room =
        encode_tokens_step x limit t ts false off _ done _ s (depth_of_all (Tokens.cons t ts))
          (tokens_in_all 0 ts) room (omega arith) (encodes h f) refl
        ∙ encodes_items hs f _ (append done (layout x t)) (spend (1 + tokens_in 0 t) s)
            (omega arith)
        ∙ merge done (layout x t) (layout_items x ts) (1 + tokens_in 0 t) (tokens_in_all 0 ts) s

    encodes_fields :
        {ts : Tokens} {ps : ParamTypes}
        → HasTypes ts ps
        → FitsAll limit ps
        → (off : ℕ) (done : Chunks) (s : Trackers) → off % 8 ≡ 0
        → off + width_fields ps < usize_limit
        → HasRoom s (depth_of_all ts) (tokens_in_all 0 ts)
        → encode_tokens x limit ts true off done s
          ≡ ok (append done (layout_fields x ts), spend (tokens_in_all 0 ts) s)
    encodes_fields HasTypes.nil f off done s a lt room = rw (append-nil_chunks done) (finish done s)
    encodes_fields (HasTypes.cons {t} {p} {ts} {ps} h hs) (f, fs) off done s a lt room =
        encode_tokens_step x limit t ts true off _ done _ s (depth_of_all (Tokens.cons t ts))
          (tokens_in_all 0 ts) room (omega arith) (encodes h f)
          (push_padded-eq off done (layout x t) a (omega (arith, amount-layout x l h)))
        ∙ encodes_fields hs fs _ (append done (append (layout x t) (filler (layout x t))))
            (spend (1 + tokens_in 0 t) s) (omega (arith, a)) (omega (arith, amount-layout x l h))
            (omega arith)
        ∙ merge done (append (layout x t) (filler (layout x t))) (layout_fields x ts)
            (1 + tokens_in 0 t) (tokens_in_all 0 ts) s

  -- A value of a type whose widths fit is encoded as its layout by an encoder with room for its
  -- depth and its tokens, if the functions of other crates are lawful, and the token count grows by
  -- those tokens alone.
  pub encode_token-layout :
      (t : Token) (p : ParamType) (s : Trackers)
      → HasType t p
      → Fits limit p
      → HasRoom s (depth_of t) (tokens_in 0 t)
      → encode_token x limit t s ≡ ok (layout x t, spend (tokens_in 0 t) s)
  encode_token-layout t p s h f room = encodes h f s room

  pub encode_tokens-layout_fields :
      (ts : Tokens) (ps : ParamTypes) (s : Trackers)
      → HasTypes ts ps
      → FitsAll limit ps
      → width_fields ps < usize_limit
      → HasRoom s (depth_of_all ts) (tokens_in_all 0 ts)
      → encode_tokens x limit ts true 0 nil s
        ≡ ok (layout_fields x ts, spend (tokens_in_all 0 ts) s)
  unfolding append
  encode_tokens-layout_fields ts ps s h f lt room =
      encodes_fields h f 0 nil s refl (omega arith) room
