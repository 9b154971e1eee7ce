-- ===== src/Codec/Logs/Last.antt =====
-- fuels-core/src/codec/logs.rs: the last one and the last two logs, against all logs in order.
use fuels_rs.Prelude.{
  ℕ, zero, suc, ◌≤◌, ◌≡◌, refl, sym, ap, ◌∙◌, arith, some, List, [], ◌∷◌, ◌++◌, map, take, length,
  length-append, append_assoc, append-nil,
}
use fuels_rs.Prelude.BigEndian.{to_be_bytes}
use fuels_rs.Errors.{Result, ok, err, ◌>>=◌, codec, no_log, expected_two_logs, Text}
use fuels_rs.Receipt.{Receipt, log, log_data}
use fuels_rs.Codec.Logs.{
  LogId, LogDecoder, extract_log_id_and_data, format_log, decode_logs, reverse, format_next,
  decode_last_log, collect, exactly_two, decode_last_two_logs,
}

extract-append :
    (rs rs' : List Receipt)
    → extract_log_id_and_data (rs ++ rs')
      ≡ extract_log_id_and_data rs ++ extract_log_id_and_data rs'
unfolding extract_log_id_and_data
extract-append [] rs' = refl
extract-append (log_data id rb (some bytes) ∷ rs) rs' =
    ap (λ e. ((id, rb), bytes) ∷ e) (extract-append rs rs')
extract-append (log id ra rb ∷ rs) rs' =
    ap (λ e. ((id, rb), to_be_bytes 8 ra) ∷ e) (extract-append rs rs')
extract-append (r ∷ rs) rs' = extract-append rs rs'

extract-one :
    (r : Receipt) → reverse (extract_log_id_and_data (r ∷ [])) ≡ extract_log_id_and_data (r ∷ [])
unfolding extract_log_id_and_data reverse
extract-one (log_data id rb (some bytes)) = refl
extract-one (log id ra rb) = refl
extract-one r = refl

module _ {ℓ} {A : Type ℓ} where
  reverse-append : (xs ys : List A) → reverse (xs ++ ys) ≡ reverse ys ++ reverse xs
  unfolding reverse
  reverse-append [] ys = sym (append-nil (reverse ys))
  reverse-append (x ∷ xs) ys =
      ap (λ l. l ++ (x ∷ [])) (reverse-append xs ys)
      ∙ append_assoc (reverse ys) (reverse xs) (x ∷ [])

  length-reverse : (xs : List A) → length (reverse xs) ≡ length xs
  unfolding reverse
  length-reverse [] = refl
  length-reverse (x ∷ xs) = omega (arith, length-append (reverse xs) (x ∷ []), length-reverse xs)

  map_append {κ} :
      {B : Type κ} (f : A → B) (xs ys : List A) → map f (xs ++ ys) ≡ map f xs ++ map f ys
  map_append f [] ys = refl
  map_append f (x ∷ xs) ys = ap (λ l. f x ∷ l) (map_append f xs ys)

  map-reverse {κ} : {B : Type κ} (f : A → B) (xs : List A) → map f (reverse xs) ≡ reverse (map f xs)
  unfolding reverse
  map-reverse f [] = refl
  map-reverse f (x ∷ xs) =
      map_append f (reverse xs) (x ∷ []) ∙ ap (λ l. l ++ (f x ∷ [])) (map-reverse f xs)

  take-append_le : (n : ℕ) (xs ys : List A) → n ≤ length xs → take n (xs ++ ys) ≡ take n xs
  take-append_le zero xs ys h = refl
  take-append_le (suc n) [] ys h = absurd (omega arith)
  take-append_le (suc n) (x ∷ xs) ys h = ap (λ l. x ∷ l) (take-append_le n xs ys (omega arith))

extract-reverse :
    (rs : List Receipt)
    → extract_log_id_and_data (reverse rs) ≡ reverse (extract_log_id_and_data rs)
unfolding reverse extract_log_id_and_data
extract-reverse [] = refl
extract-reverse (r ∷ rs) =
    extract-append (reverse rs) (r ∷ [])
    ∙ ap (λ e. e ++ extract_log_id_and_data (r ∷ [])) (extract-reverse rs)
    ∙ ap (λ e. reverse (extract_log_id_and_data rs) ++ e) (sym (extract-one r))
    ∙ sym (
        ap reverse (extract-append (r ∷ []) rs)
        ∙ reverse-append (extract_log_id_and_data (r ∷ [])) (extract_log_id_and_data rs))

-- The last result, or the error for none.
unfoldable pub last_result : List (Result Text) → Result Text
last_result [] = err (codec no_log)
last_result (r ∷ []) = r
last_result (r ∷ r' ∷ rs) = last_result (r' ∷ rs)

-- The last two results, the last of which is looked at first.
unfoldable pub last_two_results : List (Result Text) → Result (Text × Text)
last_two_results [] = err (codec (expected_two_logs 0))
last_two_results (r ∷ []) = r >>= λ _. err (codec (expected_two_logs 1))
last_two_results (l ∷ r ∷ []) = r >>= λ rhs. l >>= λ lhs. ok (lhs, rhs)
last_two_results (r ∷ r' ∷ r'' ∷ rs) = last_two_results (r' ∷ r'' ∷ rs)

collect_two :
    (rs : List (Result Text))
    → (collect (take 2 (reverse rs)) >>= exactly_two) ≡ last_two_results rs
unfolding collect reverse last_two_results exactly_two
collect_two [] = refl
collect_two (ok r ∷ []) = refl
collect_two (err e ∷ []) = refl
collect_two (fuels_rs.Errors.panic ∷ []) = refl
collect_two (ok l ∷ ok r ∷ []) = refl
collect_two (err e ∷ ok r ∷ []) = refl
collect_two (fuels_rs.Errors.panic ∷ ok r ∷ []) = refl
collect_two (l ∷ err e ∷ []) = refl
collect_two (l ∷ fuels_rs.Errors.panic ∷ []) = refl
collect_two (r ∷ r' ∷ r'' ∷ rs) =
    ap (λ l. collect l >>= exactly_two)
      (take-append_le 2 (reverse (r' ∷ r'' ∷ rs)) (r ∷ [])
        (omega (arith, length-reverse (r' ∷ r'' ∷ rs))))
    ∙ collect_two (r' ∷ r'' ∷ rs)

format_next-append :
    (d : LogDecoder) (es more : List (LogId × List ℕ))
    → 1 ≤ length es
    → format_next d (es ++ more) ≡ format_next d es
unfolding format_next
format_next-append d [] more h = absurd (omega arith)
format_next-append d (e ∷ es) more h = refl

format_next-reverse :
    (d : LogDecoder) (es : List (LogId × List ℕ))
    → format_next d (reverse es) ≡ last_result (map (format_log d) es)
unfolding reverse last_result format_next
format_next-reverse d [] = refl
format_next-reverse d (e ∷ []) = refl
format_next-reverse d (e ∷ e' ∷ es) =
    format_next-append d (reverse (e' ∷ es)) (e ∷ []) (omega (arith, length-reverse (e' ∷ es)))
    ∙ format_next-reverse d (e' ∷ es)

-- `decode_last_log` is the last of the results of `decode_logs`, or the error that there is no log.
pub decode_last_log-last :
    (d : LogDecoder) (rs : List Receipt) → decode_last_log d rs ≡ last_result (decode_logs d rs)
unfolding decode_last_log decode_logs
decode_last_log-last d rs =
    ap (format_next d) (extract-reverse rs) ∙ format_next-reverse d (extract_log_id_and_data rs)

-- `decode_last_two_logs` gives the last two results of `decode_logs` in the order of the logs. If
-- one of them fails it gives that error, the last log's first, and if there are fewer than two logs
-- it fails.
pub decode_last_two_logs-last :
    (d : LogDecoder) (rs : List Receipt)
    → decode_last_two_logs d rs ≡ last_two_results (decode_logs d rs)
unfolding decode_last_two_logs decode_logs
decode_last_two_logs-last d rs =
    ap (λ e. collect (take 2 (map (format_log d) e)) >>= exactly_two) (extract-reverse rs)
    ∙ ap (λ l. collect (take 2 l) >>= exactly_two)
        (map-reverse (format_log d) (extract_log_id_and_data rs))
    ∙ collect_two (map (format_log d) (extract_log_id_and_data rs))
