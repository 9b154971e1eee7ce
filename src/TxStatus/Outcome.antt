-- ===== src/TxStatus/Outcome.antt =====
-- fuels-core/src/types/tx_status.rs: which outcomes give receipts, and how a failed `assert_eq` is
-- explained.
use fuels_rs.Prelude.{
  ℕ, ◌==◌, ==_iff, ◌≡◌, ◌≢◌, refl, ap, ◌∙◌, ◌↔◌, ◌⊎◌, inl, inr, true, false, Option, some, List, [],
  ◌∷◌, ◌++◌,
}
use fuels_rs.Errors.{Result, ok, err, >>=-eq-ok, reverted, assert_eq_failed, Text}
use fuels_rs.Receipt.{Receipt}
use fuels_rs.Codec.Logs.{LogDecoder, decode_logs, decode_last_two_logs}
use fuels_rs.Codec.Logs.Last.{last_two_results, decode_last_two_logs-last}
use fuels_rs.TxStatus.{
  TxStatus, success, submitted, squeezed, revert, Signals, revert_reason, map_revert_error, check,
  take_receipts, take_receipts_checked,
}

revert_not_ok :
    (signals : Signals) (receipts : List Receipt) (reason : Text) (id : ℕ)
    (log_decoder : Option LogDecoder)
    → map_revert_error signals receipts reason id log_decoder ≢ ok tt
unfolding map_revert_error
revert_not_ok signals receipts reason id log_decoder h =
    let (_, _, e) = >>=-eq-ok (revert_reason signals receipts reason id log_decoder) _ h in cc

checked :
    (signals : Signals) (status : TxStatus) (log_decoder : Option LogDecoder)
    (receipts : List Receipt)
    → take_receipts_checked signals status log_decoder ≡ ok receipts
    → (status ≡ success receipts) ⊎ ((status ≡ submitted) × (receipts ≡ []))
unfolding take_receipts_checked check take_receipts
checked signals (success rs) log_decoder receipts h = inl cc
checked signals submitted log_decoder receipts h = inr (refl, cc)
checked signals (squeezed reason) log_decoder receipts h = cc
checked signals (revert rs reason id) log_decoder receipts h =
    let (t, failed, _) = >>=-eq-ok (map_revert_error signals rs reason id log_decoder) _ h in
    absurd (revert_not_ok signals rs reason id log_decoder failed)

checked_back :
    (signals : Signals) (status : TxStatus) (log_decoder : Option LogDecoder)
    (receipts : List Receipt)
    → (status ≡ success receipts) ⊎ ((status ≡ submitted) × (receipts ≡ []))
    → take_receipts_checked signals status log_decoder ≡ ok receipts
unfolding take_receipts_checked check take_receipts
checked_back signals status log_decoder receipts (inl e) = rw e refl
checked_back signals status log_decoder receipts (inr (e, e')) = rw (e, e') refl

-- `take_receipts_checked` gives receipts exactly for a transaction that succeeded, and then its own,
-- and for one that was only submitted, and then none.
pub take_receipts_checked_iff :
    (signals : Signals) (status : TxStatus) (log_decoder : Option LogDecoder)
    (receipts : List Receipt)
    → (take_receipts_checked signals status log_decoder ≡ ok receipts)
      ↔ ((status ≡ success receipts) ⊎ ((status ≡ submitted) × (receipts ≡ [])))
take_receipts_checked_iff signals status log_decoder receipts =
    (checked signals status log_decoder receipts, checked_back signals status log_decoder receipts)

last_two_results_at :
    (before : List (Result Text)) (lhs rhs : Text)
    → last_two_results (before ++ (ok lhs ∷ ok rhs ∷ [])) ≡ ok (lhs, rhs)
unfolding last_two_results
last_two_results_at [] lhs rhs = refl
last_two_results_at (r ∷ []) lhs rhs = refl
last_two_results_at (r ∷ r' ∷ []) lhs rhs = refl
last_two_results_at (r ∷ r' ∷ r'' ∷ before) lhs rhs =
    last_two_results_at (r' ∷ r'' ∷ before) lhs rhs

-- If a transaction reverted with the signal of `assert_eq`, which is not that of `require`, and the
-- last two logs of its receipts decode, `check` reports the failed assertion with the two values in
-- the order in which they were logged, the revert id and all receipts.
pub check-assert_eq :
    (signals : Signals) (receipts : List Receipt) (reason : Text) (log_decoder : LogDecoder)
    (before : List (Result Text)) (lhs rhs : Text)
    → (signals.failed_assert_eq == signals.failed_require) ≡ false
    → decode_logs log_decoder receipts ≡ before ++ (ok lhs ∷ ok rhs ∷ [])
    → check signals (revert receipts reason signals.failed_assert_eq) (some log_decoder)
      ≡ err (reverted (assert_eq_failed lhs rhs) signals.failed_assert_eq receipts)
unfolding check map_revert_error revert_reason
check-assert_eq signals receipts reason log_decoder before lhs rhs other logs =
    let own : (signals.failed_assert_eq == signals.failed_assert_eq) ≡ true =
      (==_iff signals.failed_assert_eq signals.failed_assert_eq).1 refl in
    let two : decode_last_two_logs log_decoder receipts ≡ ok (lhs, rhs) =
      decode_last_two_logs-last log_decoder receipts
      ∙ ap last_two_results logs
      ∙ last_two_results_at before lhs rhs in
    rw (revert_reason, other, own, two) refl
