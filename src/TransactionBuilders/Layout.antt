-- ===== src/TransactionBuilders/Layout.antt =====
-- The serialized inputs of a transaction, which are their fixed fields and, each padded to words, the
-- data of a message, the code and the data of a predicate; and what
-- fuels-core/src/utils/offsets.rs says of their sizes.
use fuels_rs.Prelude.{
  ℕ, ◌+◌, ◌%◌, ◌≡◌, refl, true, Bool-cases, inl, inr, arith, List, [], ◌∷◌, length,
}
use fuels_rs.Tokens.{External, IsLawful}
use fuels_rs.Inputs.{is_empty, CoinType, coin, message, InputRepr}
use fuels_rs.TransactionBuilders.Resolve.{
  FuelInput, coin_signed, message_data_signed, coin_predicate, message_coin_predicate,
  message_data_predicate, contract,
}
use fuels_rs.TransactionBuilders.Placed.{
  signed_input, predicate_input, predicate_data_offset, signed_size,
}

-- The parts of a serialized input that are not of a fixed size.
unfoldable pub payload_of : FuelInput → List ℕ
payload_of (message_data_signed m index) = m.payload
payload_of (message_data_predicate m code predicate_data) = m.payload
payload_of _ = []

unfoldable pub code_of : FuelInput → List ℕ
code_of (coin_predicate c code predicate_data) = code
code_of (message_coin_predicate m code predicate_data) = code
code_of (message_data_predicate m code predicate_data) = code
code_of _ = []

unfoldable pub data_of : FuelInput → List ℕ
data_of (coin_predicate c code predicate_data) = predicate_data
data_of (message_coin_predicate m code predicate_data) = predicate_data
data_of (message_data_predicate m code predicate_data) = predicate_data
data_of _ = []

module _ (x : External) (repr : InputRepr) where
  unfoldable pub fixed_size : FuelInput → ℕ
  fixed_size (coin_signed c index) = repr.coin_predicate_offset
  fixed_size (coin_predicate c code predicate_data) = repr.coin_predicate_offset
  fixed_size (contract utxo balance state pointer id) = repr.contract_id_offset + 32
  fixed_size _ = repr.message_data_offset

  -- Where the data of the predicate begins within its input.
  abbrev pub data_start : FuelInput → ℕ
  data_start input =
      fixed_size input
      + x.padded_len (length (payload_of input))
      + x.padded_len (length (code_of input))

  abbrev pub serialized_size : FuelInput → ℕ
  serialized_size input = data_start input + x.padded_len (length (data_of input))

  unfoldable pub serialized_sizes : List FuelInput → ℕ
  serialized_sizes [] = 0
  serialized_sizes (input ∷ inputs) = serialized_size input + serialized_sizes inputs

  empty_size :
      (bytes : List ℕ) → is_empty bytes ≡ true → x.padded_len (length bytes) ≡ x.padded_len 0
  empty_size [] h = refl
  empty_size (b ∷ bs) h = cc

  module _ (lawful : IsLawful x) where
    pub padded-zero : x.padded_len 0 ≡ 0
    padded-zero = omega (arith, lawful.padded_len_bounds 0, lawful.padded_len_aligned 0)

    pub padded-words : (n : ℕ) → n % 8 ≡ 0 → x.padded_len n ≡ n
    padded-words n h = omega (arith, lawful.padded_len_bounds n, lawful.padded_len_aligned n)

    pub signed-size :
        (resource : CoinType) (index : ℕ)
        → serialized_size (signed_input resource index) ≡ signed_size x repr resource
    unfolding fixed_size payload_of code_of data_of
    signed-size (coin c) index = omega (arith, padded-zero)
    signed-size (message m) index = elim (Bool-cases (is_empty m.payload)) [
      | inl y ↦ rw y (omega (arith, padded-zero, empty_size m.payload y))
      | inr n ↦ rw n (omega (arith, padded-zero))
    ]

    pub data-start :
        (resource : CoinType) (code predicate_data : List ℕ)
        → data_start (predicate_input resource code predicate_data)
          ≡ predicate_data_offset x repr resource code
    unfolding fixed_size payload_of code_of
    data-start (coin c) code predicate_data = omega (arith, padded-zero)
    data-start (message m) code predicate_data = elim (Bool-cases (is_empty m.payload)) [
      | inl y ↦ rw y (omega (arith, padded-zero, empty_size m.payload y))
      | inr n ↦ rw n refl
    ]

    pub data-own :
        (resource : CoinType) (code predicate_data : List ℕ)
        → data_of (predicate_input resource code predicate_data) ≡ predicate_data
    unfolding data_of
    data-own (coin c) code predicate_data = refl
    data-own (message m) code predicate_data = elim (Bool-cases (is_empty m.payload)) [
      | inl y ↦ rw y refl
      | inr n ↦ rw n refl
    ]
