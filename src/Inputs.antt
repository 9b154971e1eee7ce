-- ===== src/Inputs.antt =====
-- fuels-core/src/types/wrappers/{coin,message,coin_type,input}.rs: what a transaction spends, and
-- fuels-core/src/utils/offsets.rs: the sizes of inputs up to the data of their predicates.
use fuels_rs.Prelude.{ℕ, ◌+◌, Bool, true, false, not, Option, none, some, List, [], ◌∷◌}
use fuels_rs.UnresolvedBytes.{Chunks}
use fuels_rs.Tokens.{External}

pub data SpendStatus : Type 0 where
  unspent spent : SpendStatus

pub record Coin : Type 0 where
  pub amount : ℕ
  pub block_created : ℕ
  pub asset_id : ℕ
  pub utxo_id : ℕ
  pub maturity : ℕ
  pub owner : ℕ
  pub status : SpendStatus

pub record Message : Type 0 where
  pub amount : ℕ
  pub sender : ℕ
  pub recipient : ℕ
  pub nonce : ℕ
  pub payload : List ℕ
  pub da_height : ℕ
  pub status : SpendStatus

pub data CoinType : Type 0 where
  coin : Coin → CoinType
  message : Message → CoinType

-- The id of the base asset.
abbrev pub base_asset_id : ℕ
base_asset_id = 0

abbrev pub resource_amount : CoinType → ℕ
resource_amount (coin c) = c.amount
resource_amount (message m) = m.amount

abbrev pub resource_asset_id : CoinType → ℕ
resource_asset_id (coin c) = c.asset_id
resource_asset_id (message m) = base_asset_id

abbrev pub owner_of : CoinType → ℕ
owner_of (coin c) = c.owner
owner_of (message m) = m.recipient

pub data Input : Type 0 where
  resource_signed : CoinType → Input
  resource_predicate : CoinType → List ℕ → Chunks → Input
  contract : ℕ → ℕ → ℕ → ℕ → ℕ → Input

abbrev pub input_amount : Input → Option ℕ
input_amount (resource_signed resource) = some (resource_amount resource)
input_amount (resource_predicate resource code predicate_data) = some (resource_amount resource)
input_amount _ = none

abbrev pub input_asset_id : Input → Option ℕ
input_asset_id (resource_signed resource) = some (resource_asset_id resource)
input_asset_id (resource_predicate resource code predicate_data) = some (resource_asset_id resource)
input_asset_id _ = none

abbrev pub is_empty : List ℕ → Bool
is_empty [] = true
is_empty (b ∷ bs) = false

abbrev pub contains_data : Input → Bool
contains_data (resource_signed (message m)) = not (is_empty m.payload)
contains_data (resource_predicate (message m) code predicate_data) = not (is_empty m.payload)
contains_data _ = false

-- The offsets within the inputs of fuel_tx.
pub record InputRepr : Type 0 where
  pub coin_predicate_offset : ℕ
  pub message_data_offset : ℕ
  pub contract_id_offset : ℕ

module _ (x : External) (repr : InputRepr) where
  abbrev pub coin_predicate_data_offset : ℕ → ℕ
  coin_predicate_data_offset code_len = repr.coin_predicate_offset + x.padded_len code_len

  abbrev pub message_predicate_data_offset : ℕ → ℕ → ℕ
  message_predicate_data_offset message_data_len code_len =
      repr.message_data_offset + x.padded_len message_data_len + x.padded_len code_len

  abbrev pub coin_signed_data_offset : ℕ
  coin_signed_data_offset = repr.coin_predicate_offset

  abbrev pub message_signed_data_offset : ℕ → ℕ
  message_signed_data_offset message_data_len =
      repr.message_data_offset + x.padded_len message_data_len

  abbrev pub contract_input_offset : ℕ
  contract_input_offset = repr.contract_id_offset + 32
