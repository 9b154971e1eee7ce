-- ===== src/TransactionBuilders.antt =====
-- fuels-core/src/types/transaction_builders.rs: what the builders of script and create transactions
-- share, and the inputs and witnesses of the transaction that they build.
pub mod Resolve
pub mod Signers
pub mod Signed
pub mod Placed
pub mod Layout
pub mod PredicateData
pub mod Script
pub mod DryRun
mod Tests
use fuels_rs.Prelude.{
  ℕ, ◌+◌, ◌*◌, ◌%◌, ◌==◌, ltb, if◌then◌else◌, Bool, true, false, ◌||◌, Option, none, some, List, [],
  ◌∷◌, ◌++◌, length, replicate,
}
use fuels_rs.Errors.{Result, ok, err, ◌>>=◌, builder, already_added_signer, too_many_witnesses}
use fuels_rs.Utils.{calculate_witnesses_size, witness_static_size}
use fuels_rs.Tokens.{External}
use fuels_rs.Inputs.{CoinType, owner_of, Input, resource_signed, resource_predicate, contract}
use fuels_rs.Transaction.{Output}

pub record TxPolicies : Type 0 where
  pub gas_price : Option ℕ
  pub witness_limit : Option ℕ
  pub maturity : Option ℕ
  pub max_fee : Option ℕ
  pub script_gas_limit : Option ℕ

-- The map `owner_to_idx_offset`, with one entry for an owner.
abbrev pub WitnessIndexes : Type 0
WitnessIndexes = List (ℕ × ℕ)

-- The fields that both builders have. A signer is known by its address.
pub record TransactionBuilder : Type 0 where
  pub inputs : List Input
  pub outputs : List Output
  pub witnesses : List (List ℕ)
  pub tx_policies : TxPolicies
  pub owner_to_idx_offset : WitnessIndexes
  pub unresolved_signers : List ℕ

unfoldable pub get_index : ℕ → WitnessIndexes → Option ℕ
get_index address [] = none
get_index address ((owner, index) ∷ rest) =
    let later = get_index address rest in if owner == address then some index else later

abbrev pub is_some : Option ℕ → Bool
is_some none = false
is_some (some index) = true

-- A new entry goes to the end.
abbrev pub with_signer : ℕ → TransactionBuilder → TransactionBuilder
with_signer address b = record b {
  owner_to_idx_offset = b.owner_to_idx_offset ++ ((address, length b.unresolved_signers) ∷ []);
  unresolved_signers = b.unresolved_signers ++ (address ∷ []);
}

unfoldable pub add_signer : ℕ → TransactionBuilder → Result TransactionBuilder
unfolding get_index
add_signer address b =
    if is_some (get_index address b.owner_to_idx_offset)
    then err (builder already_added_signer)
    else ok (with_signer address b)

-- The owners of the signed inputs, each once, in the order of their first appearance.
unfoldable pub member : ℕ → List ℕ → Bool
member owner [] = false
member owner (o ∷ os) = o == owner || member owner os

unfoldable pub unique_owners : List Input → List ℕ → List ℕ
unfolding member
unique_owners [] seen = []
unique_owners (resource_signed resource ∷ inputs) seen =
    let owner = owner_of resource in
    let later = unique_owners inputs (owner ∷ seen) in
    let same = unique_owners inputs seen in if member owner seen then same else owner ∷ later
unique_owners (_ ∷ inputs) seen = unique_owners inputs seen

unfoldable pub enumerate : ℕ → List ℕ → WitnessIndexes
enumerate index [] = []
enumerate index (owner ∷ owners) = (owner, index) ∷ enumerate (index + 1) owners

unfoldable pub set_witness_indexes : TransactionBuilder → TransactionBuilder
unfolding unique_owners enumerate
set_witness_indexes b = record b { owner_to_idx_offset = enumerate 0 (unique_owners b.inputs []) }

-- The start of `build_without_signatures`.
unfoldable pub without_signatures : TransactionBuilder → TransactionBuilder
unfolding set_witness_indexes
without_signatures b = record (set_witness_indexes b) { unresolved_signers = [] }

unfoldable pub is_using_predicates : List Input → Bool
is_using_predicates [] = false
is_using_predicates (resource_predicate resource code predicate_data ∷ inputs) = true
is_using_predicates (_ ∷ inputs) = is_using_predicates inputs

-- The number is converted to u8.
unfoldable pub num_witnesses : TransactionBuilder → Result ℕ
num_witnesses b =
    if ltb 256 (length b.witnesses + length b.unresolved_signers)
    then err (builder too_many_witnesses)
    else ok (length b.witnesses % 256)

-- `SIGNATURE_WITNESS_SIZE`
abbrev pub signature_witness_size : ℕ
signature_witness_size = witness_static_size + 64

module _ (x : External) where
  unfoldable pub witnesses_size : TransactionBuilder → Option ℕ
  unfolding calculate_witnesses_size
  witnesses_size b = some (
      x.padded_len (
        calculate_witnesses_size b.witnesses
        + signature_witness_size * length b.owner_to_idx_offset))

  abbrev or_else : Option ℕ → Option ℕ → Option ℕ
  or_else none default = default
  or_else (some value) default = some value

  -- The policies of fuel_tx that are set.
  unfoldable pub generate_fuel_policies : ℕ → TransactionBuilder → TxPolicies
  unfolding witnesses_size
  generate_fuel_policies network_min_gas_price b = record b.tx_policies {
    witness_limit = or_else b.tx_policies.witness_limit (witnesses_size b);
    gas_price = or_else b.tx_policies.gas_price (some network_min_gas_price);
  }

-- With a witness of the default signature.
unfoldable pub create_dry_run_witnesses : List ℕ → ℕ → TransactionBuilder → List (List ℕ)
create_dry_run_witnesses witness num b = replicate (num + length b.owner_to_idx_offset) witness

-- The signatures of the transaction's id, by the signers in order.
unfoldable pub generate_missing_witnesses :
    (ℕ → ℕ → Result (List ℕ)) → ℕ → List ℕ → Result (List (List ℕ))
generate_missing_witnesses sign id [] = ok []
generate_missing_witnesses sign id (signer ∷ signers) = do
  signature ← sign signer id
  signatures ← generate_missing_witnesses sign id signers
  ok (signature ∷ signatures)
