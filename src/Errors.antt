-- ===== src/Errors.antt =====
-- `Result` and `Error` of fuels-core/src/types/errors.rs, as far as the modelled code raises them.
use fuels_rs.Prelude.{ℕ, ◌≡◌, refl, List}
use fuels_rs.Receipt.{Receipt}

-- What `CounterWithLimit` counts, its `name`.
pub data Counted : Type 0 where
  depth token : Counted

pub data CodecDirection : Type 0 where
  encoding decoding : CodecDirection

-- The formatted text of an error, one constructor for each text with the numbers that it shows.
pub data Message : Type 0 where
  limit_reached : Counted → ℕ → CodecDirection → Message
  addition_overflow : ℕ → Message
  size_overflow : Message
  too_wide : Message
  zero_sized extra_bytes : Message
  nested_heap_types enum_heap_too_deep : Message
  enum_heap_variants : ℕ → Message
  no_variants : Message
  unknown_discriminant : ℕ → Message
  enum_width_limit : ℕ → Message
  not_ascii : Message
  wrong_length : ℕ → ℕ → Message
  tried_to_read tried_to_consume : ℕ → ℕ → Message
  invalid_utf8 : Message
  max_attempts_zero missing_receipts : Message
  ascii_only : Message
  forwarded_to_non_payable : Message
  vec_generics array_components no_param_type : Message
  no_transaction_fee : Message
  already_added_signer too_many_witnesses : Message
  signature_missing_for_coin signature_missing_for_message : Message
  string_slice_in_log missing_formatter no_log : Message
  expected_two_logs : ℕ → Message
  cannot_encode_arguments : Message
  no_calls_added heap_call_not_last too_many_heap_calls : Message
  sized_length : ℕ → Message
  sized_too_long : ℕ → ℕ → Message

-- A string, by its UTF-8 bytes.
abbrev pub Text : Type 0
Text = List ℕ

-- `squeezed_out` and `reverted` are reasons of a failed transaction. A `Reason` stands for the text
-- that a revert is explained with.
mutual
  pub data Error : Type 0 where
    codec other builder other_transaction : Message → Error
    squeezed_out : Text → Error
    reverted : Reason → ℕ → List Receipt → Error

  pub data Reason : Type 0 where
    node_reason decoded_log : Text → Reason
    require_not_decoded assert_eq_not_decoded : Error → Reason
    assert_eq_failed : Text → Text → Reason
    assert_failed send_message_failed transfer_failed : Reason

-- `panic` stands for a panicking expression.
pub data Result {ℓ} (A : Type ℓ) : Type ℓ where
  ok : A → Result A
  err : Error → Result A
  panic : Result A

-- The operator `?`, as a bind.
infixl 5 ◌>>=◌ ◌>>◌
abbrev pub ◌>>=◌ {ℓ κ} : {T : Type ℓ} {U : Type κ} → Result T → (T → Result U) → Result U
panic >>= op = panic
err error >>= op = err error
ok value >>= op = op value

abbrev pub ◌>>◌ {ℓ κ} : {T : Type ℓ} {U : Type κ} → Result T → Result U → Result U
first >> second = first >>= λ _. second

-- `map_err(|_| e)`
abbrev pub map_err {ℓ} : {A : Type ℓ} → Error → Result A → Result A
map_err e (ok a) = ok a
map_err e (err _) = err e
map_err e panic = panic

-- Where a bind succeeds, the first part returned a value and the second succeeds on it.
pub >>=-eq-ok {ℓ κ} :
    {T : Type ℓ} {U : Type κ} (first : Result T) (op : T → Result U) {result : U}
    → (first >>= op) ≡ ok result
    → (value : T) × (first ≡ ok value) × (op value ≡ ok result)
>>=-eq-ok panic op e = cc
>>=-eq-ok (err error) op e = cc
>>=-eq-ok (ok value) op e = (value, refl, e)

pub map_err-eq-ok {ℓ} :
    {A : Type ℓ} (e : Error) (result : Result A) {a : A} → map_err e result ≡ ok a → result ≡ ok a
map_err-eq-ok e (ok a) h = h
map_err-eq-ok e (err _) h = cc
map_err-eq-ok e panic h = cc

pub ok_injective {ℓ} : {A : Type ℓ} {a b : A} → ok a ≡ ok b → a ≡ b
ok_injective e = cc
