-- ===== src/Accounts/BaseAmount.antt =====
-- fuels-accounts/src/accounts_utils.rs: the amount of the base asset that a transaction still needs
-- for its fee, and the inputs and outputs that are added for it.
mod Tests
use fuels_rs.Prelude.{
  ℕ, ◌+◌, ◌-◌, ◌%◌, ◌^◌, ◌≤◌, ◌<◌, ◌==◌, ◌≡◌, refl, sym, ap, ◌∙◌, arith, ltb, ltb→lt, ltb→le,
  if◌then◌else◌, Bool, true, false, not, ◌||◌, Bool-cases, inl, inr, Option, none, some, List, [],
  ◌∷◌, ◌++◌,
}
use fuels_rs.Errors.{Result, ok, err, ◌>>=◌, other_transaction, no_transaction_fee}
use fuels_rs.UnresolvedBytes.{add_u64}
use fuels_rs.Inputs.{
  CoinType, Input, resource_signed, resource_predicate, contract, resource_amount,
  resource_asset_id, base_asset_id,
}
use fuels_rs.Transaction.{Output, change}
use fuels_rs.TransactionBuilders.{TransactionBuilder}

-- The amount of the base asset in an input.
abbrev base_amount_of : CoinType → ℕ
base_amount_of resource =
    if resource_asset_id resource == base_asset_id then resource_amount resource else 0

abbrev base_amount : Input → ℕ
base_amount (resource_signed resource) = base_amount_of resource
base_amount (resource_predicate resource code predicate_data) = base_amount_of resource
base_amount _ = 0

unfoldable pub available_base_amount : List Input → ℕ
available_base_amount [] = 0
available_base_amount (input ∷ inputs) = add_u64 (base_amount input) (available_base_amount inputs)

unfoldable pub is_consuming_utxos : List Input → Bool
is_consuming_utxos [] = false
is_consuming_utxos (contract utxo balance state pointer id ∷ inputs) = is_consuming_utxos inputs
is_consuming_utxos (_ ∷ inputs) = true

-- With the maximal fee that is estimated for the builder, or none.
unfoldable pub calculate_missing_base_amount : Result (Option ℕ) → TransactionBuilder → ℕ → Result ℕ
unfolding available_base_amount is_consuming_utxos
calculate_missing_base_amount fee b used_base_amount = do
  transaction_fee ← fee
  elim transaction_fee [
    | none ↦ err (other_transaction no_transaction_fee)
    | some max_fee ↦
        let available_amount = available_base_amount b.inputs in
        let total_used = add_u64 max_fee used_base_amount in
        ok (
          if ltb available_amount total_used
          then total_used - available_amount
          else if not (is_consuming_utxos b.inputs)
          then 1
          else 0)
  ]

unfoldable pub is_base_change_present : List Output → Bool
is_base_change_present [] = false
is_base_change_present (change to amount asset_id ∷ outputs) =
    asset_id == base_asset_id || is_base_change_present outputs
is_base_change_present (_ ∷ outputs) = is_base_change_present outputs

unfoldable pub adjust_inputs_outputs : List Input → ℕ → TransactionBuilder → TransactionBuilder
unfolding is_base_change_present
adjust_inputs_outputs new_base_inputs address b = record b {
  inputs = b.inputs ++ new_base_inputs;
  outputs =
      if not (is_base_change_present b.outputs)
      then b.outputs ++ (change address 0 base_asset_id ∷ [])
      else b.outputs;
}

-- The amount of the base asset in all inputs together.
unfoldable pub base_total : List Input → ℕ
base_total [] = 0
base_total (input ∷ inputs) = base_amount input + base_total inputs

available-eq : (inputs : List Input) → available_base_amount inputs ≡ base_total inputs % 2 ^ 64
unfolding available_base_amount base_total
available-eq [] = refl
available-eq (input ∷ inputs) = omega (arith, available-eq inputs)

base_total-append :
    (inputs more : List Input) → base_total (inputs ++ more) ≡ base_total inputs + base_total more
unfolding base_total
base_total-append [] more = omega arith
base_total-append (input ∷ inputs) more = omega (arith, base_total-append inputs more)

consuming_append :
    (inputs more : List Input)
    → is_consuming_utxos inputs ≡ true
    → is_consuming_utxos (inputs ++ more) ≡ true
unfolding is_consuming_utxos
consuming_append [] more h = cc
consuming_append (contract utxo balance state pointer id ∷ inputs) more h =
    consuming_append inputs more h
consuming_append (_ ∷ inputs) more h = refl

consuming_later :
    (inputs more : List Input) → 1 ≤ base_total more → is_consuming_utxos (inputs ++ more) ≡ true
unfolding is_consuming_utxos base_total
consuming_later [] [] h = absurd (omega arith)
consuming_later [] (contract utxo balance state pointer id ∷ more) h =
    consuming_later [] more (omega arith)
consuming_later [] (resource_signed resource ∷ more) h = refl
consuming_later [] (resource_predicate resource code predicate_data ∷ more) h = refl
consuming_later (contract utxo balance state pointer id ∷ inputs) more h =
    consuming_later inputs more h
consuming_later (resource_signed resource ∷ inputs) more h = refl
consuming_later (resource_predicate resource code predicate_data ∷ inputs) more h = refl

change_last :
    (outputs : List Output) (address : ℕ)
    → is_base_change_present (outputs ++ (change address 0 base_asset_id ∷ [])) ≡ true
unfolding is_base_change_present
change_last [] address = refl
change_last (change to amount asset_id ∷ outputs) address =
    elim (Bool-cases (asset_id == base_asset_id)) [
      | inl y ↦ rw y refl
      | inr n ↦ rw n (change_last outputs address)
    ]
change_last (Output.contract i ∷ outputs) address = change_last outputs address
change_last (Output.coin t a i ∷ outputs) address = change_last outputs address
change_last (Output.variable t a i ∷ outputs) address = change_last outputs address

change_present :
    (b : TransactionBuilder) (new_base_inputs : List Input) (address : ℕ)
    → is_base_change_present (adjust_inputs_outputs new_base_inputs address b).outputs ≡ true
unfolding adjust_inputs_outputs
change_present b new_base_inputs address = elim (Bool-cases (is_base_change_present b.outputs)) [
  | inl y ↦ rw (adjust_inputs_outputs, y) y
  | inr n ↦ rw (adjust_inputs_outputs, n) (change_last b.outputs address)
]

-- If the new inputs hold at least the missing amount of the base asset and no sum leaves u64, then
-- after `adjust_inputs_outputs` the inputs hold the maximal fee and the used amount, some input is
-- not a contract, and there is an output for the change of the base asset.
pub adjust_inputs_outputs-covers :
    (b : TransactionBuilder) (new_base_inputs : List Input) (address max_fee used missing : ℕ)
    → calculate_missing_base_amount (ok (some max_fee)) b used ≡ ok missing
    → missing ≤ base_total new_base_inputs
    → max_fee + used < 2 ^ 64
    → base_total b.inputs + base_total new_base_inputs < 2 ^ 64
    → (max_fee + used
        ≤ available_base_amount (adjust_inputs_outputs new_base_inputs address b).inputs)
      × (is_consuming_utxos (adjust_inputs_outputs new_base_inputs address b).inputs ≡ true)
      × (is_base_change_present (adjust_inputs_outputs new_base_inputs address b).outputs ≡ true)
unfolding calculate_missing_base_amount adjust_inputs_outputs
adjust_inputs_outputs-covers b new_base_inputs address max_fee used missing e enough fits room =
    let all = b.inputs ++ new_base_inputs in
    let available = available_base_amount b.inputs in
    let total_used = add_u64 max_fee used in
    let amount : missing ≡ (
        if ltb available total_used
        then total_used - available
        else if not (is_consuming_utxos b.inputs)
        then 1
        else 0) =
      cc in
    let held : available_base_amount all ≡ base_total b.inputs + base_total new_base_inputs =
      omega (arith, available-eq all, base_total-append b.inputs new_base_inputs) in
    let change = change_present b new_base_inputs address in
    elim (Bool-cases (ltb available total_used)) [
      | inl y ↦
          let lacking = rw y at amount in
          let less = ltb→lt available total_used y in
          (
            omega (arith, held, lacking, less, available-eq b.inputs),
            consuming_later b.inputs new_base_inputs (omega (arith, lacking, less)),
            change,
          )
      | inr n ↦
          let more = ltb→le available total_used n in
          elim (Bool-cases (is_consuming_utxos b.inputs)) [
            | inl y ↦ (
              omega (arith, held, more, available-eq b.inputs),
              consuming_append b.inputs new_base_inputs y,
              change,
            )
            | inr k ↦
                let lacking = rw (n, k) at amount in
                (
                  omega (arith, held, more, available-eq b.inputs),
                  consuming_later b.inputs new_base_inputs (omega (arith, lacking)),
                  change,
                )
          ]
    ]
