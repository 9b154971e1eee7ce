-- ===== src/TxStatus.antt =====
-- fuels-core/src/types/tx_status.rs: the outcome of a transaction, and the error that it becomes.
pub mod Outcome
mod Tests
use fuels_rs.Prelude.{ℕ, ◌==◌, ◌≡◌, refl, ap, ◌∙◌, ◌↔◌, if◌then◌else◌, Option, none, some, List, []}
use fuels_rs.Errors.{
  Result, ok, err, panic, ◌>>=◌, ◌>>◌, Error, squeezed_out, reverted, Reason, node_reason,
  decoded_log, require_not_decoded, assert_eq_not_decoded, assert_eq_failed, assert_failed,
  send_message_failed, transfer_failed, Text,
}
use fuels_rs.Receipt.{Receipt}
use fuels_rs.Codec.Logs.{LogDecoder, decode_logs, decode_last_log, decode_last_two_logs}
use fuels_rs.Codec.Logs.Last.{
  last_result, last_two_results, decode_last_log-last, decode_last_two_logs-last,
}

pub data TxStatus : Type 0 where
  success : List Receipt → TxStatus
  submitted : TxStatus
  squeezed : Text → TxStatus
  revert : List Receipt → Text → ℕ → TxStatus

-- The signals of fuel_abi_types, with which a contract reverts.
pub record Signals : Type 0 where
  pub failed_require : ℕ
  pub failed_assert_eq : ℕ
  pub failed_assert : ℕ
  pub failed_send_message : ℕ
  pub failed_transfer_to_address : ℕ

-- A panic in the decoding of the log is a panic of the whole.
abbrev require_reason : Result Text → Result Reason
require_reason (ok text) = ok (decoded_log text)
require_reason (err e) = ok (require_not_decoded e)
require_reason panic = panic

abbrev assert_eq_reason : Result (Text × Text) → Result Reason
assert_eq_reason (ok (lhs, rhs)) = ok (assert_eq_failed lhs rhs)
assert_eq_reason (err e) = ok (assert_eq_not_decoded e)
assert_eq_reason panic = panic

-- The reasons that need no log.
unfoldable pub plain_reason : Signals → Text → ℕ → Reason
plain_reason signals reason id =
    if id == signals.failed_assert
    then assert_failed
    else if id == signals.failed_send_message
    then send_message_failed
    else if id == signals.failed_transfer_to_address
    then transfer_failed
    else node_reason reason

unfoldable pub revert_reason : Signals → List Receipt → Text → ℕ → Option LogDecoder → Result Reason
unfolding plain_reason
revert_reason signals receipts reason id none = ok (plain_reason signals reason id)
revert_reason signals receipts reason id (some log_decoder) =
    if id == signals.failed_require
    then require_reason (decode_last_log log_decoder receipts)
    else if id == signals.failed_assert_eq
    then assert_eq_reason (decode_last_two_logs log_decoder receipts)
    else ok (plain_reason signals reason id)

unfoldable pub map_revert_error :
    Signals → List Receipt → Text → ℕ → Option LogDecoder → Result (Unit {0})
unfolding revert_reason
map_revert_error signals receipts reason id log_decoder = do
  reason ← revert_reason signals receipts reason id log_decoder
  err (reverted reason id receipts)

unfoldable pub check : Signals → TxStatus → Option LogDecoder → Result (Unit {0})
unfolding map_revert_error
check signals (squeezed reason) log_decoder = err (squeezed_out reason)
check signals (revert receipts reason id) log_decoder =
    map_revert_error signals receipts reason id log_decoder
check signals status log_decoder = ok tt

unfoldable pub take_receipts : TxStatus → List Receipt
take_receipts (success receipts) = receipts
take_receipts (revert receipts reason id) = receipts
take_receipts status = []

unfoldable pub take_receipts_checked :
    Signals → TxStatus → Option LogDecoder → Result (List Receipt)
unfolding check take_receipts
take_receipts_checked signals status log_decoder = do
  check signals status log_decoder
  ok (take_receipts status)

-- The status that the client reports, where a failed transaction has a revert id or none.
pub data ClientTransactionStatus : Type 0 where
  submitted : ClientTransactionStatus
  success : List Receipt → ClientTransactionStatus
  failure : Text → Option ℕ → List Receipt → ClientTransactionStatus
  squeezed : Text → ClientTransactionStatus

-- `From<ClientTransactionStatus>`, with its `expect`.
unfoldable pub from_client_status : ClientTransactionStatus → Result TxStatus
from_client_status ClientTransactionStatus.submitted = ok submitted
from_client_status (ClientTransactionStatus.success receipts) = ok (success receipts)
from_client_status (failure reason none receipts) = panic
from_client_status (failure reason (some revert_id) receipts) =
    ok (revert receipts reason revert_id)
from_client_status (ClientTransactionStatus.squeezed reason) = ok (squeezed reason)
