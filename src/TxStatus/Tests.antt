-- ===== src/TxStatus/Tests.antt =====
-- Outcomes of concrete transactions.
use fuels_rs.Prelude.{ℕ, ◌≡◌, ◌↔◌, ◌⊎◌, refl, Option, none, some, List, [], ◌∷◌, ◌++◌}
use fuels_rs.Errors.{ok, err, reverted, assert_eq_failed}
use fuels_rs.Receipt.{Receipt, return, log}
use fuels_rs.Codec.Decoder.{default_decoder_config}
use fuels_rs.Codec.Logs.{LogDecoder, decode_logs}
use fuels_rs.TxStatus.{TxStatus, success, submitted, revert, Signals, check, take_receipts_checked}
use fuels_rs.TxStatus.Outcome.{take_receipts_checked_iff, check-assert_eq}

abbrev sample_signals : Signals
sample_signals = record {
  failed_require = 1;
  failed_assert_eq = 2;
  failed_assert = 3;
  failed_send_message = 4;
  failed_transfer_to_address = 5;
}

abbrev some_receipts : List Receipt
some_receipts = return 0 1 ∷ []

abbrev successful : TxStatus
successful = success some_receipts

take_receipts_checked_iff_example :
    (take_receipts_checked sample_signals successful none ≡ ok some_receipts)
    ↔ ((successful ≡ success some_receipts) ⊎ ((successful ≡ submitted) × (some_receipts ≡ [])))
take_receipts_checked_iff_example =
    take_receipts_checked_iff sample_signals successful none some_receipts

-- A formatter that shows the last byte.
abbrev last_byte : List ℕ → List ℕ
last_byte [] = []
last_byte (b ∷ []) = b ∷ []
last_byte (b ∷ c ∷ bs) = last_byte (c ∷ bs)

abbrev sample_decoder : LogDecoder
sample_decoder = record {
  log_formatters =
      λ id. some (record { formatter = λ config bytes. ok (last_byte bytes); type_id = 0 });
  decoder_config = default_decoder_config;
}

check-assert_eq_example :
    check sample_signals
      (revert (log 5 7 0 ∷ return 5 1 ∷ log 5 8 0 ∷ []) [] 2)
      (some sample_decoder)
    ≡ err
        (reverted (assert_eq_failed (7 ∷ []) (8 ∷ [])) 2 (log 5 7 0 ∷ return 5 1 ∷ log 5 8 0 ∷ []))
unfolding decode_logs fuels_rs.Prelude.BigEndian.to_be_bytes
check-assert_eq_example =
    check-assert_eq sample_signals (log 5 7 0 ∷ return 5 1 ∷ log 5 8 0 ∷ []) [] sample_decoder []
      (7 ∷ []) (8 ∷ []) refl refl
