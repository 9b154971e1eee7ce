-- ===== src/TransactionBuilders/DryRun.antt =====
-- fuels-core/src/types/transaction_builders.rs: `set_script_gas_limit_to_gas_used` adds an input and a
-- witness for the dry run if the transaction spends nothing, and takes both away again.
use fuels_rs.Prelude.{
  ℕ, ◌+◌, ◌-◌, ◌%◌, ◌^◌, ◌<◌, ◌≡◌, ◌≢◌, refl, ap, ◌∙◌, arith, Bool, true, false, Bool-cases,
  Option-cases, inl, inr, Option, none, some, List, [], ◌∷◌, ◌++◌,
}
use fuels_rs.Errors.{ok, >>=-eq-ok}
use fuels_rs.Utils.{witness_static_size}
use fuels_rs.UnresolvedBytes.{add_u64}
use fuels_rs.Inputs.{is_empty}
use fuels_rs.Inputs.{Coin, Message}
use fuels_rs.TransactionBuilders.Resolve.{
  FuelInput, coin_signed, message_coin_signed, message_data_signed, coin_predicate,
  message_coin_predicate, message_data_predicate, contract,
}
use fuels_rs.TransactionBuilders.{TxPolicies}
use fuels_rs.TransactionBuilders.Script.{
  ScriptTx, Network, no_spendable_input, sub_u64, map_limit, change_witness_limit, pop,
  dry_run_input, extend_for_dry_run, restore_after_dry_run, with_free_gas, dry_run_script,
  set_script_gas_limit_to_gas_used, limit_script_gas,
}

pop-append : {A : Type 0} (xs : List A) (x : A) → pop (xs ++ (x ∷ [])) ≡ xs
unfolding pop
pop-append [] x = refl
pop-append (y ∷ []) x = refl
pop-append (y ∷ z ∷ xs) x = ap (λ l. y ∷ l) (pop-append (z ∷ xs) x)

limit_back :
    (o : Option ℕ) (limit : ℕ)
    → o ≡ some limit
    → limit < 2 ^ 64
    → map_limit
        (λ l. sub_u64 l witness_static_size)
        (map_limit (λ l. add_u64 l witness_static_size) o)
      ≡ o
limit_back none limit e lt = refl
limit_back (some l) limit e lt = let same : l ≡ limit = cc in ap some (omega (arith, same))

change_back :
    (policies : TxPolicies) (limit : ℕ)
    → policies.witness_limit ≡ some limit
    → limit < 2 ^ 64
    → change_witness_limit
        (λ l. sub_u64 l witness_static_size)
        (change_witness_limit (λ l. add_u64 l witness_static_size) policies)
      ≡ policies
change_back policies limit e lt =
    λ k. record policies { witness_limit = limit_back policies.witness_limit limit e lt k }

module _ (network : Network) (tx : ScriptTx) (limit : ℕ)
    (limited : tx.policies.witness_limit ≡ some limit) (lt : limit < 2 ^ 64) where
  restored_eq :
      (no_spendable : Bool) (gas : ℕ)
      → record (restore_after_dry_run no_spendable
          (with_free_gas network (extend_for_dry_run no_spendable tx))) { script_gas_limit = gas }
        ≡ record tx { script_gas_limit = gas }
  unfolding restore_after_dry_run extend_for_dry_run
  restored_eq true gas = λ k. record tx {
    script_gas_limit = gas;
    inputs = pop-append tx.inputs dry_run_input k;
    witnesses = pop-append tx.witnesses [] k;
    policies = change_back tx.policies limit limited lt k;
  }
  restored_eq false gas = refl

-- An input that a dry run takes as spendable: a coin or a message without data.
pub data Spends : List FuelInput → Type 0 where
  by_coin : {c : Coin} {index : ℕ} {rest : List FuelInput} → Spends (coin_signed c index ∷ rest)
  by_message :
      {m : Message} {index : ℕ} {rest : List FuelInput}
      → Spends (message_coin_signed m index ∷ rest)
  by_coin_predicate :
      {c : Coin} {code predicate_data : List ℕ} {rest : List FuelInput}
      → Spends (coin_predicate c code predicate_data ∷ rest)
  by_message_predicate :
      {m : Message} {code predicate_data : List ℕ} {rest : List FuelInput}
      → Spends (message_coin_predicate m code predicate_data ∷ rest)
  later : {input : FuelInput} {rest : List FuelInput} → Spends rest → Spends (input ∷ rest)

no_spendable_input-Spends :
    (inputs : List FuelInput) → no_spendable_input inputs ≡ false → Spends inputs
unfolding no_spendable_input
no_spendable_input-Spends [] h = cc
no_spendable_input-Spends (coin_signed c index ∷ rest) h = Spends.by_coin
no_spendable_input-Spends (message_coin_signed m index ∷ rest) h = Spends.by_message
no_spendable_input-Spends (coin_predicate c code predicate_data ∷ rest) h = Spends.by_coin_predicate
no_spendable_input-Spends (message_coin_predicate m code predicate_data ∷ rest) h =
    Spends.by_message_predicate
no_spendable_input-Spends (message_data_signed m index ∷ rest) h =
    Spends.later (no_spendable_input-Spends rest h)
no_spendable_input-Spends (message_data_predicate m code predicate_data ∷ rest) h =
    Spends.later (no_spendable_input-Spends rest h)
no_spendable_input-Spends (contract utxo balance state pointer id ∷ rest) h =
    Spends.later (no_spendable_input-Spends rest h)

Spends-no_spendable_input :
    {inputs : List FuelInput} → Spends inputs → no_spendable_input inputs ≢ true
unfolding no_spendable_input
Spends-no_spendable_input Spends.by_coin h = cc
Spends-no_spendable_input Spends.by_message h = cc
Spends-no_spendable_input Spends.by_coin_predicate h = cc
Spends-no_spendable_input Spends.by_message_predicate h = cc
Spends-no_spendable_input (Spends.later {input = coin_signed c index} s) h = cc
Spends-no_spendable_input (Spends.later {input = message_coin_signed m index} s) h = cc
Spends-no_spendable_input (Spends.later {input = coin_predicate c code predicate_data} s) h = cc
Spends-no_spendable_input (Spends.later {input = message_coin_predicate m code predicate_data} s)
      h =
    cc
Spends-no_spendable_input (Spends.later {input = message_data_signed m index} s) h =
    Spends-no_spendable_input s h
Spends-no_spendable_input (Spends.later {input = message_data_predicate m code predicate_data} s)
      h =
    Spends-no_spendable_input s h
Spends-no_spendable_input (Spends.later {input = contract utxo balance state pointer id} s) h =
    Spends-no_spendable_input s h

module _ (network : Network) (tx : ScriptTx) (limit : ℕ) where
  -- What the largest gas of a transaction leaves to a script, in u64 arithmetic.
  abbrev pub gas_left : ScriptTx → ℕ
  gas_left t = (network.max_gas_per_tx + 2 ^ 64 - (network.max_gas t + 1) % 2 ^ 64) % 2 ^ 64

  -- The transaction with one more input, which spends a coin signed by an empty last witness.
  abbrev pub with_coin : Coin → ScriptTx
  with_coin c = record tx {
    inputs = tx.inputs ++ (coin_signed c 0 ∷ []);
    witnesses = tx.witnesses ++ ([] ∷ []);
    policies = record tx.policies { witness_limit = some ((limit + 8) % 2 ^ 64) };
  }

  -- The transaction whose gas is to be found out: the one given, and with a coin if it spends
  -- nothing, with all the gas that is left.
  pub data DryRun : ScriptTx → Type 0 where
    as_given : Spends tx.inputs → DryRun (record tx { script_gas_limit = gas_left tx })
    given_a_coin :
        (c : Coin)
        → ¬ (Spends tx.inputs)
        → c.amount ≡ 1000000000
        → DryRun (record (with_coin c) { script_gas_limit = gas_left (with_coin c) })

  runs :
      tx.policies.witness_limit ≡ some limit
      → DryRun (with_free_gas network (extend_for_dry_run (no_spendable_input tx.inputs) tx))
  unfolding extend_for_dry_run
  runs limited = elim (Bool-cases (no_spendable_input tx.inputs)) [
    | inl y ↦ rw (y, limited) (DryRun.given_a_coin _ (λ s. Spends-no_spendable_input s y) refl)
    | inr n ↦ rw n (DryRun.as_given (no_spendable_input-Spends tx.inputs n))
  ]

-- If the policies have a witness limit, `set_script_gas_limit_to_gas_used` changes nothing but the gas
-- limit of the script, which becomes the amount that a dry run reports: that of the transaction
-- itself, and with a coin and an empty witness added and counted in the witness limit if none of
-- its inputs spends a coin or a message without data, with all the gas that the rest leaves.
pub set_script_gas_limit_to_gas_used-only_gas :
    (network : Network) (tx tx' : ScriptTx) (limit : ℕ)
    → tx.policies.witness_limit ≡ some limit
    → limit < 2 ^ 64
    → set_script_gas_limit_to_gas_used network tx ≡ ok tx'
    → (dry : ScriptTx) × (gas : ℕ) × (DryRun network tx limit dry)
      × (network.dry_run_and_get_used_gas dry ≡ ok gas)
      × (tx' ≡ record tx { script_gas_limit = gas })
unfolding set_script_gas_limit_to_gas_used dry_run_script
set_script_gas_limit_to_gas_used-only_gas network tx tx' limit limited lt e =
    let alone = no_spendable_input tx.inputs in
    let dry = with_free_gas network (extend_for_dry_run alone tx) in
    let (gas, ran, e1) =
      >>=-eq-ok (network.dry_run_and_get_used_gas dry)
        (λ g. ok (record (restore_after_dry_run alone dry) { script_gas_limit = g })) e in
    let same : tx' ≡ record (restore_after_dry_run alone dry) { script_gas_limit = gas } = cc in
    (
      dry,
      gas,
      runs network tx limit limited,
      ran,
      same ∙ restored_eq network tx limit limited lt alone gas,
    )

restored_inputs :
    (network : Network) (tx : ScriptTx) (no_spendable : Bool)
    → (restore_after_dry_run no_spendable
        (with_free_gas network (extend_for_dry_run no_spendable tx))).inputs
      ≡ tx.inputs
unfolding restore_after_dry_run extend_for_dry_run
restored_inputs network tx true = pop-append tx.inputs dry_run_input
restored_inputs network tx false = refl

-- However the gas limit is found, the inputs stay.
pub limit_script_gas-inputs :
    (network : Network) (user_limit : Option ℕ) (tx tx' : ScriptTx)
    → limit_script_gas network user_limit tx ≡ ok tx'
    → tx'.inputs ≡ tx.inputs
unfolding limit_script_gas set_script_gas_limit_to_gas_used dry_run_script
limit_script_gas-inputs network user_limit tx tx' e = elim (Bool-cases (is_empty tx.script)) [
  | inl y ↦
      let e' = rw (limit_script_gas, y) at e in
      let same : tx' ≡ record tx { script_gas_limit = 0 } = cc in ap (λ t. t.inputs) same
  | inr n ↦ elim (Option-cases user_limit) [
    | inr (gas, s) ↦
        let e' = rw (limit_script_gas, n, s) at e in
        let same : tx' ≡ record tx { script_gas_limit = gas } = cc in ap (λ t. t.inputs) same
    | inl s ↦
        let e' : set_script_gas_limit_to_gas_used network tx ≡ ok tx' =
          rw (limit_script_gas, n, s) at e in
        let alone = no_spendable_input tx.inputs in
        let dry = with_free_gas network (extend_for_dry_run alone tx) in
        let (gas, _, e1) =
          >>=-eq-ok (network.dry_run_and_get_used_gas dry)
            (λ g. ok (record (restore_after_dry_run alone dry) { script_gas_limit = g })) e' in
        let same : tx' ≡ record (restore_after_dry_run alone dry) { script_gas_limit = gas } = cc in
        ap (λ t. t.inputs) same ∙ restored_inputs network tx alone
  ]
]
