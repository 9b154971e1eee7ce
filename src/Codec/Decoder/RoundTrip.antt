-- ===== src/Codec/Decoder/RoundTrip.antt =====
-- What the layout of a value without heap data holds is decoded to that value.
use fuels_rs.Prelude.{
  subst, ℕ, suc, ◌+◌, ◌-◌, ◌*◌, ◌<◌, ◌≡◌, refl, ap, ◌∙◌, sym, arith, false, Bool-cases, inl, inr,
  if◌then◌else◌, List, [], ◌∷◌, ◌++◌, replicate, append_assoc, append-nil,
}
use fuels_rs.Prelude.BigEndian.{to_be_bytes}
use native.Mathlib.Nat.{zero-add}
use fuels_rs.Errors.{ok}
use fuels_rs.Utils.{usize_limit, round_up}
use fuels_rs.ParamTypes.{ParamType, ParamTypes, only_units_inside}
use fuels_rs.ParamTypes.Receipts.{is_extra_receipt_needed, any_extra}
use fuels_rs.ParamTypes.Receipts.Validation.{or-eq-false}
use fuels_rs.ParamTypes.Width.{width, width_fields, widest}
use fuels_rs.ParamTypes.Fits.{Fits, FitsAll, FitsAll-get?}
use fuels_rs.Tokens.{External, IsLawful, Token, Tokens, count}
use fuels_rs.Tokens.Typing.{HasType, HasTypes, AreOf}
use fuels_rs.UnresolvedBytes.{amount_of_inline_bytes}
use fuels_rs.Codec.Counter.{Trackers, HasRoom, deeper, spend, spend-zero, run_w_depth_tracking-eq}
use fuels_rs.Codec.Format.{
  layout, layout_items, layout_fields, zeros, word_padded, depth_of, depth_of_all, tokens_in,
  tokens_in_all, flat, flat-append, length-flat,
}
use fuels_rs.Codec.Format.Size.{amount-layout}
use fuels_rs.Codec.Decoder.{
  decode_param, decode_unit, decode_u8, decode_u16, decode_u32, decode_u64, decode_u128,
  decode_u256, decode_bool, decode_b256, decode_string_array, decoded, counted, decode_kind,
  decoders, decode_params, decode_fields,
}
use fuels_rs.Codec.Decoder.Enum.{heap-get?, decode_enum-units, decode_enum-variant}
use fuels_rs.Codec.Decoder.Consumed.{
  HoldWhole-get?, consumed, consumed_fields, HoldsWhole, HoldWhole, round_up-consumed,
}
use fuels_rs.Codec.Decoder.Peek.{peek-append, At, At-advance}
use fuels_rs.Codec.Decoder.Steps.{
  Reads, counted-Reads, wrap-ok, flat-field, length-field, params_step, fields_step,
}
use fuels_rs.Codec.Decoder.Scalars.{
  regroup, scalar, read_u8, read_bool, read_u16, read_u32, read_u64, read_u128, read_u256,
  read_b256, read_string_array,
}

module _ (x : External) (l : IsLawful x) (limit : ℕ) where
  mutual
    unfolding decode_kind layout consumed width depth_of tokens_in is_extra_receipt_needed flat
        count

    reads :
        {t : Token} {p : ParamType}
        → HasType t p
        → Fits limit p
        → HoldsWhole p
        → is_extra_receipt_needed p false ≡ false
        → Reads x (decode_kind x p) t (consumed p)
    reads HasType.unit f w i rest s room =
        scalar decode_unit (0 ∷ []) rest _ s (rw (peek-append (0 ∷ []) rest 1 refl))
    reads (HasType.u8 {n} h) f w i rest s room = scalar decode_u8 (n ∷ []) rest _ s (read_u8 rest n)
    reads (HasType.u16 {n} h) f w i rest s room =
        scalar decode_u16 (zeros 6 ++ to_be_bytes 2 n) rest _ s (read_u16 rest n h)
    reads (HasType.u32 {n} h) f w i rest s room =
        scalar decode_u32 (zeros 4 ++ to_be_bytes 4 n) rest _ s (read_u32 rest n h)
    reads (HasType.u64 {n} h) f w i rest s room =
        scalar decode_u64 (to_be_bytes 8 n) rest _ s (read_u64 rest n h)
    reads (HasType.u128 {n} h) f w i rest s room =
        scalar decode_u128 (to_be_bytes 16 n) rest _ s (read_u128 rest n h)
    reads (HasType.u256 {n} h) f w i rest s room =
        scalar (λ bs. decode_u256 bs x) (x.u256_to_big_endian n) rest _ s (read_u256 rest x l n h)
    reads (HasType.bool {b}) f w i rest s room =
        scalar decode_bool ((if b then 1 else 0) ∷ []) rest _ s (read_bool rest b)
    reads (HasType.b256 {bs} h) f w i rest s room =
        scalar decode_b256 bs rest _ s (read_b256 rest bs h)
    reads (HasType.string_array {bs} {n} h e) f w i rest s room =
        scalar (λ r. decode_string_array r n) (word_padded bs) rest _ s
          (read_string_array rest bs n h e f)
    reads (HasType.array {ts} {p} {n} h e) f w i rest s room = rw (← e) (
        run_w_depth_tracking-eq _ s (depth_of_all ts) (tokens_in_all 1 ts) (tokens_in_all 1 ts) _
          (omega arith)
          (wrap-ok Token.array
            (decode_params (replicate (count ts) (counted (decode_kind x p)))
              (flat (layout_items x ts) ++ rest) 0)
            (deeper s) _ ts _ _
            (reads_items h f.0 w.0 i w.1 (flat (layout_items x ts) ++ rest) 0 rest (deeper s)
              (omega arith, refl) (omega arith))
            (zero-add (consumed p * count ts))))
    reads (HasType.struct {ts} {ps} {gs} h) f w i rest s room =
        run_w_depth_tracking-eq _ s (depth_of_all ts) (tokens_in_all 1 ts) (tokens_in_all 1 ts) _
          (omega arith)
          (wrap-ok Token.struct
            (decode_fields (decoders x ps) (flat (layout_fields x ts) ++ rest) 0) (deeper s) _ ts _
            _
            (reads_fields h f.0 w (or-eq-false _ _ i).0 (flat (layout_fields x ts) ++ rest) 0 rest
              (deeper s) (omega arith) (omega arith, refl) (omega arith))
            refl)
    reads (HasType.tuple {ts} {ps} h) f w i rest s room =
        run_w_depth_tracking-eq _ s (depth_of_all ts) (tokens_in_all 1 ts) (tokens_in_all 1 ts) _
          (omega arith)
          (wrap-ok Token.tuple (decode_fields (decoders x ps) (flat (layout_fields x ts) ++ rest) 0)
            (deeper s) _ ts _ _
            (reads_fields h f.0 w i (flat (layout_fields x ts) ++ rest) 0 rest (deeper s)
              (omega arith) (omega arith, refl) (omega arith))
            refl)
    reads (HasType.enum {d} {t} {p} {vs} {gs} lt e h) (inl u) w i rest s room = rw u (
        rw (append-nil (to_be_bytes 8 d)) (
          run_w_depth_tracking-eq _ s 0 0 0 _ (omega arith)
            (decode_enum-units x vs d t p h lt e (or-eq-false _ _ i).0 rest (deeper s) u)))
    reads (HasType.enum {d} {t} {p} {vs} {gs} lt e h) (inr (fs, le, fit)) w i rest s room =
        elim (Bool-cases (only_units_inside vs)) [
          | inl u ↦ rw u (
              rw (append-nil (to_be_bytes 8 d)) (
                run_w_depth_tracking-eq _ s 0 0 0 _ (omega arith)
                  (decode_enum-units x vs d t p h lt e (or-eq-false _ _ i).0 rest (deeper s) u)))
          | inr u ↦
              let room' = rw u at room in
              let inline = (or-eq-false (any_extra vs) (any_extra gs) i).0 in
              rw u (
                rw (amount-layout x l h) (
                  rw
                    (regroup (to_be_bytes 8 d) (zeros (round_up (widest vs) - width p))
                      (flat (layout x t)) rest)
                    (run_w_depth_tracking-eq _ s (depth_of t) (1 + tokens_in 1 t)
                      (1 + tokens_in 1 t) _ (omega arith)
                      (decode_enum-variant x vs d t p h lt e inline rest (deeper s) limit
                        (flat (layout x t)) _ (consumed p) u fs fit
                        (counted-Reads x (decode_kind x p) t (consumed p) (depth_of t) rest
                          (deeper s)
                          (reads h (FitsAll-get? limit vs d fs e) (HoldWhole-get? vs d w e)
                            (heap-get? vs d p inline e))
                          (omega arith) (omega arith))))))
        ]
    reads HasType.raw_slice f w i rest s room = cc
    reads HasType.bytes f w i rest s room = cc
    reads (HasType.string h) f w i rest s room = cc
    reads (HasType.string_slice h) f w i rest s room = cc
    reads (HasType.vector h) f w i rest s room = cc

    reads_items :
        {ts : Tokens} {p : ParamType}
        → AreOf ts p
        → Fits limit p
        → HoldsWhole p
        → is_extra_receipt_needed p false ≡ false
        → consumed p ≡ width p
        → (bytes : List ℕ) (k : ℕ) (rest : List ℕ) (s : Trackers)
        → At bytes k (flat (layout_items x ts) ++ rest)
        → HasRoom s (depth_of_all ts) (tokens_in_all 1 ts)
        → decode_params (replicate (count ts) (counted (decode_kind x p))) bytes k s
          ≡ ok ((ts, k + consumed p * count ts), spend (tokens_in_all 1 ts) s)
    reads_items (AreOf.empty {p}) f w i e bytes k rest s at room =
        let e' : k ≡ k + consumed p * 0 = omega arith in
        ap (λ n. ok ((Tokens.nil, n), s)) e'
        ∙ ap (λ s'. ok ((Tokens.nil, k + consumed p * 0), s')) (sym (spend-zero s))
    reads_items (AreOf.more {t} {p} {ts} h hs) f w i e bytes k rest s at room =
        let at' =
          subst (λ r. At bytes k r)
            (ap (λ r. r ++ rest) (flat-append (layout x t) (layout_items x ts))
              ∙ append_assoc (flat (layout x t)) _ rest)
            at in
        let total : k + consumed p + consumed p * count ts ≡ k + consumed p * suc (count ts) =
          omega arith in
        params_step x (decode_kind x p) (replicate (count ts) (counted (decode_kind x p))) t
          (consumed p) (depth_of_all (Tokens.cons t ts)) (tokens_in_all 1 ts) bytes
          (flat (layout_items x ts) ++ rest) s ts (k + consumed p * suc (count ts)) (reads h f w i)
          room (omega arith) k at'
          (reads_items hs f w i e bytes (k + consumed p) rest (spend (1 + tokens_in 1 t) s)
              (At-advance bytes k (consumed p) (flat (layout x t)) _ at'
                (omega (arith, e, length-flat (layout x t), amount-layout x l h)))
              (omega arith)
            ∙ ap (λ n. ok ((ts, n), spend (tokens_in_all 1 ts) (spend (1 + tokens_in 1 t) s)))
                total)

    reads_fields :
        {ts : Tokens} {ps : ParamTypes}
        → HasTypes ts ps
        → FitsAll limit ps
        → HoldWhole ps
        → any_extra ps ≡ false
        → (bytes : List ℕ) (a : ℕ) (rest : List ℕ) (s : Trackers)
        → round_up a + width_fields ps < usize_limit
        → At bytes (round_up a) (flat (layout_fields x ts) ++ rest)
        → HasRoom s (depth_of_all ts) (tokens_in_all 1 ts)
        → decode_fields (decoders x ps) bytes a s
          ≡ ok ((ts, consumed_fields ps a), spend (tokens_in_all 1 ts) s)
    reads_fields HasTypes.nil f w i bytes a rest s lt at room =
        ap (λ s'. ok ((Tokens.nil, a), s')) (sym (spend-zero s))
    reads_fields (HasTypes.cons {t} {p} {ts} {ps} h hs) (f, fs) (w, ws) i bytes a rest s lt at
          room =
        let c = layout x t in
        let zs = zeros (round_up (amount_of_inline_bytes c) - amount_of_inline_bytes c) in
        let at' =
          subst (λ r. At bytes (round_up a) r) (flat-field c (layout_fields x ts) rest) at in
        let at'' =
          subst (λ r. At bytes (round_up a) r)
            (append_assoc (flat c) zs (flat (layout_fields x ts) ++ rest)) at' in
        let (i₀, i₁) = or-eq-false (is_extra_receipt_needed p false) (any_extra ps) i in
        let next : round_up a + round_up (amount_of_inline_bytes c)
            ≡ round_up (round_up a + consumed p) =
          omega (arith, round_up-consumed p w, amount-layout x l h) in
        fields_step x (decode_kind x p) (decoders x ps) t (consumed p)
          (depth_of_all (Tokens.cons t ts)) (tokens_in_all 1 ts) bytes
          (zs ++ (flat (layout_fields x ts) ++ rest)) s ts _ (reads h f w i₀) room (omega arith) a
          (omega arith) at''
          (reads_fields hs fs ws i₁ bytes (round_up a + consumed p) rest
            (spend (1 + tokens_in 1 t) s) (omega (arith, next, amount-layout x l h))
            (subst (λ k. At bytes k (flat (layout_fields x ts) ++ rest)) next
              (At-advance bytes (round_up a) _ (flat c ++ zs) _ at' (length-field c)))
            (omega arith))

  -- Off the front of the format of a value of a type without heap data, whose widths fit and whose
  -- arrays hold elements that are consumed whole, `decode_param` with room for the depth and the
  -- tokens of the value reads that value, if the functions of other crates are lawful. It reports
  -- the bytes up to the padding of a last field, and counts the value and the tokens in it.
  pub decode_param-layout :
      (t : Token) (p : ParamType) (rest : List ℕ) (s : Trackers)
      → HasType t p
      → Fits limit p
      → HoldsWhole p
      → is_extra_receipt_needed p false ≡ false
      → HasRoom s (depth_of t) (1 + tokens_in 1 t)
      → decode_param x p (flat (layout x t) ++ rest) s
        ≡ ok (decoded t (consumed p), spend (1 + tokens_in 1 t) s)
  unfolding decode_param
  decode_param-layout t p rest s h f w i room =
      counted-Reads x (decode_kind x p) t (consumed p) (depth_of t) rest s (reads h f w i) room
        (omega arith)
