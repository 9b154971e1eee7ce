-- ===== src/Codec/Logs/Typed.antt =====
-- fuels-core/src/codec/logs.rs: the values of one type among the logs of some receipts.
use fuels_rs.Prelude.{
  ℕ, ◌≡◌, ◌↔◌, refl, ap, ◌∙◌, sym, true, Bool-cases, Option-cases, inl, inr, none, some, Option,
  List, [], ◌∷◌, map, ==_iff,
}
use fuels_rs.Prelude.BigEndian.{to_be_bytes}
use fuels_rs.Errors.{Result, ok, >>=-eq-ok}
use fuels_rs.Tokens.{External}
use fuels_rs.Receipt.{Receipt, return_data, return, log, log_data, revert, panic, other}
use fuels_rs.Codec.Logs.{
  Loggable, LogFormatter, decode_as, can_handle_type, LogId, LogDecoder, extract_log_id_and_data,
  collect, is_target, targets, decode_logs_with_type,
}

-- The log that a receipt carries, if it does: its id and its bytes.
unfoldable pub carried : Receipt → Option (LogId × List ℕ)
carried (log id ra rb) = some ((id, rb), to_be_bytes 8 ra)
carried (log_data id rb (some bytes)) = some ((id, rb), bytes)
carried _ = none

extract-none :
    (r : Receipt) (rs : List Receipt)
    → carried r ≡ none
    → extract_log_id_and_data (r ∷ rs) ≡ extract_log_id_and_data rs
unfolding carried extract_log_id_and_data
extract-none (log id ra rb) rs h = cc
extract-none (log_data id rb (some bytes)) rs h = cc
extract-none (log_data id rb none) rs h = refl
extract-none (return_data id bytes) rs h = refl
extract-none (return id n) rs h = refl
extract-none (revert id) rs h = refl
extract-none (panic reason id) rs h = refl
extract-none other rs h = refl

extract-some :
    (r : Receipt) (rs : List Receipt) (entry : LogId × List ℕ)
    → carried r ≡ some entry
    → extract_log_id_and_data (r ∷ rs) ≡ entry ∷ extract_log_id_and_data rs
unfolding carried extract_log_id_and_data
extract-some (log id ra rb) rs entry h =
    let same : entry ≡ ((id, rb), to_be_bytes 8 ra) = cc in rw same refl
extract-some (log_data id rb (some bytes)) rs entry h =
    let same : entry ≡ ((id, rb), bytes) = cc in rw same refl
extract-some (log_data id rb none) rs entry h = cc
extract-some (return_data id bytes) rs entry h = cc
extract-some (return id n) rs entry h = cc
extract-some (revert id) rs entry h = cc
extract-some (panic reason id) rs entry h = cc
extract-some other rs entry h = cc

module _ {T : Type 0} (x : External) (t : Loggable T) (d : LogDecoder) where
  -- A formatter for the type is registered for the log.
  abbrev pub Registered : LogId → Type 0
  Registered id = (f : LogFormatter) × (d.log_formatters id ≡ some f) × (t.type_id ≡ f.type_id)

  -- The values of the type that some receipts have logged, one for each of its logs, in order.
  pub data Logged : List Receipt → List T → Type 0 where
    done : Logged [] []
    value :
        {r : Receipt} {id : LogId} {bytes : List ℕ} {v : T} {rs : List Receipt} {vs : List T}
        → carried r ≡ some (id, bytes)
        → Registered id
        → decode_as x t d.decoder_config bytes ≡ ok v
        → Logged rs vs
        → Logged (r ∷ rs) (v ∷ vs)
    other_type :
        {r : Receipt} {id : LogId} {bytes : List ℕ} {rs : List Receipt} {vs : List T}
        → carried r ≡ some (id, bytes)
        → ¬ (Registered id)
        → Logged rs vs
        → Logged (r ∷ rs) vs
    no_log :
        {r : Receipt} {rs : List Receipt} {vs : List T}
        → carried r ≡ none
        → Logged rs vs
        → Logged (r ∷ rs) vs

  is_target-Registered : (id : LogId) → is_target t d id ≡ true → Registered id
  unfolding is_target can_handle_type
  is_target-Registered id h = elim (Option-cases (d.log_formatters id)) [
    | inl n ↦ cc (rw (is_target, n) at h)
    | inr (f, s) ↦ (f, s, (==_iff t.type_id f.type_id).0 (rw (is_target, s) at h))
  ]

  Registered-is_target : (id : LogId) → Registered id → is_target t d id ≡ true
  unfolding is_target can_handle_type
  Registered-is_target id (f, s, e) = rw (is_target, s) ((==_iff t.type_id f.type_id).1 e)

  abbrev decoded_targets : List (LogId × List ℕ) → Result (List T)
  decoded_targets es =
      collect (map (λ entry. decode_as x t d.decoder_config entry.1) (targets t d es))

  loop-Logged :
      (rs : List Receipt) (values : List T)
      → decoded_targets (extract_log_id_and_data rs) ≡ ok values
      → Logged rs values
  unfolding targets collect extract_log_id_and_data
  loop-Logged [] values e = let none : values ≡ [] = cc in rw none Logged.done
  loop-Logged (r ∷ rs) values e = elim (Option-cases (carried r)) [
    | inl n ↦
        Logged.no_log n (loop-Logged rs values (ap decoded_targets (sym (extract-none r rs n)) ∙ e))
    | inr ((id, bytes), s) ↦
        let e' : decoded_targets ((id, bytes) ∷ extract_log_id_and_data rs) ≡ ok values =
          ap decoded_targets (sym (extract-some r rs (id, bytes) s)) ∙ e in
        elim (Bool-cases (is_target t d id)) [
          | inl y ↦
              let e2 = rw (targets, y) at e' in
              let (v, decoded, e3) = >>=-eq-ok (decode_as x t d.decoder_config bytes) _ e2 in
              let (vs, later, e4) = >>=-eq-ok (decoded_targets (extract_log_id_and_data rs)) _ e3 in
              let both : values ≡ v ∷ vs = cc in
              rw both (Logged.value s (is_target-Registered id y) decoded (loop-Logged rs vs later))
          | inr n ↦
              Logged.other_type s (λ g. cc (Registered-is_target id g, n))
                (loop-Logged rs values (rw (targets, n) at e'))
        ]
  ]

  Logged-loop :
      {rs : List Receipt} {values : List T}
      → Logged rs values
      → decoded_targets (extract_log_id_and_data rs) ≡ ok values
  unfolding targets collect extract_log_id_and_data
  Logged-loop Logged.done = refl
  Logged-loop (Logged.value {r} {id} {bytes} {v} {rs} {vs} s g e later) =
      ap decoded_targets (extract-some r rs (id, bytes) s)
      ∙ rw (targets, Registered-is_target id g, collect, e, Logged-loop later) refl
  Logged-loop (Logged.other_type {r} {id} {bytes} {rs} {vs} s g later) =
      ap decoded_targets (extract-some r rs (id, bytes) s) ∙ elim (Bool-cases (is_target t d id)) [
        | inl y ↦ absurd (g (is_target-Registered id y))
        | inr n ↦ rw (targets, n) (Logged-loop later)
      ]
  Logged-loop (Logged.no_log {r} {rs} {vs} n later) =
      ap decoded_targets (extract-none r rs n) ∙ Logged-loop later

-- `decode_logs_with_type` returns some values exactly if they are, in order, what the logs with a
-- formatter for the type decode to, one for each such log, wherever it stands among the receipts;
-- receipts without a log and logs of other types or without a formatter give none.
pub decode_logs_with_type_iff :
    {T : Type 0} (x : External) (t : Loggable T) (d : LogDecoder) (rs : List Receipt)
    (values : List T)
    → (decode_logs_with_type x t d rs ≡ ok values) ↔ Logged x t d rs values
unfolding decode_logs_with_type
decode_logs_with_type_iff x t d rs values = (loop-Logged x t d rs values, Logged-loop x t d)
