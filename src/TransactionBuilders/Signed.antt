-- ===== src/TransactionBuilders/Signed.antt =====
-- fuels-core/src/types/transaction_builders.rs: the witness at the index of a signed input is the
-- signature of its owner.
use fuels_rs.Prelude.{
  ℕ, zero, suc, ◌+◌, ◌%◌, ◌≤◌, ltb, ltb→le, ◌≡◌, sym, ap, ◌∙◌, arith, Bool-cases, inl, inr, some,
  List, [], ◌∷◌, ◌++◌, length, get_elem?,
}
use fuels_rs.Errors.{Result, ok, >>=-eq-ok, ok_injective}
use fuels_rs.Tokens.{External}
use fuels_rs.Inputs.{CoinType, owner_of, Input, resource_signed, InputRepr}
use fuels_rs.TransactionBuilders.{
  TransactionBuilder, num_witnesses, generate_missing_witnesses, generate_fuel_policies,
  create_dry_run_witnesses,
}
use fuels_rs.TransactionBuilders.Placed.{signed_input, inputs_size, signed-cases, inputs-place}
use fuels_rs.TransactionBuilders.Script.{
  ScriptTx, ScriptTransactionBuilder, Network, limit_script_gas, resolve_fuel_tx,
}
use fuels_rs.TransactionBuilders.DryRun.{limit_script_gas-inputs}
use fuels_rs.TransactionBuilders.Resolve.{witness_index, resolve_fuel_input, resolve_fuel_inputs}
use fuels_rs.TransactionBuilders.Signers.{Indexed, get_elem-length, get_elem-lt}

missing_at :
    (sign : ℕ → ℕ → Result (List ℕ)) (id : ℕ) (signers : List ℕ) (missing : List (List ℕ)) (i : ℕ)
    {signer : ℕ}
    → generate_missing_witnesses sign id signers ≡ ok missing
    → get_elem? signers i ≡ some signer
    → (signature : List ℕ) × (sign signer id ≡ ok signature)
      × (get_elem? missing i ≡ some signature)
unfolding generate_missing_witnesses
missing_at sign id [] missing i e at = cc
missing_at sign id (s ∷ signers) missing zero {signer} e at =
    let (signature, signed, e1) = >>=-eq-ok (sign s id) _ e in
    let (rest, _, e2) = >>=-eq-ok (generate_missing_witnesses sign id signers) _ e1 in
    let same : missing ≡ signature ∷ rest = cc in
    let own : s ≡ signer = cc in
    (signature, ap (λ a. sign a id) (sym own) ∙ signed, ap (λ m. get_elem? m 0) same)
missing_at sign id (s ∷ signers) missing (suc i) e at =
    let (signature, signed, e1) = >>=-eq-ok (sign s id) _ e in
    let (rest, made, e2) = >>=-eq-ok (generate_missing_witnesses sign id signers) _ e1 in
    let same : missing ≡ signature ∷ rest = cc in
    let (signature', signed', place) = missing_at sign id signers rest i made at in
    (signature', signed', ap (λ m. get_elem? m (suc i)) same ∙ place)

num-eq-ok :
    (b : TransactionBuilder) (num : ℕ)
    → num_witnesses b ≡ ok num
    → (num ≡ length b.witnesses % 256) × (length b.witnesses + length b.unresolved_signers ≤ 256)
unfolding num_witnesses
num-eq-ok b num e =
    let total = length b.witnesses + length b.unresolved_signers in
    elim (Bool-cases (ltb 256 total)) [
      | inl y ↦ cc (rw (num_witnesses, y) at e)
      | inr n ↦ let e' = rw (num_witnesses, n) at e in (cc, ltb→le 256 total n)
    ]

-- What `resolve_fuel_tx` puts together, if it succeeds.
record Parts (network : Network) (x : External) (repr : InputRepr) (b : TransactionBuilder)
    (tx : ScriptTx) : Type 0 where
  num : ℕ
  data_offset : ℕ
  missing : List (List ℕ)
  counted : num_witnesses b ≡ ok num
  resolved :
      resolve_fuel_inputs x repr b.inputs data_offset num b.owner_to_idx_offset ≡ ok tx.inputs
  signed :
      generate_missing_witnesses network.sign (network.tx_id tx) b.unresolved_signers ≡ ok missing
  joined : tx.witnesses ≡ b.witnesses ++ missing

abbrev IdFixed : Network → Type 0
IdFixed network =
    (t : ScriptTx) (ws : List (List ℕ))
    → network.tx_id (record t { witnesses = ws }) ≡ network.tx_id t

resolve_fuel_tx-Parts :
    (network : Network) (x : External) (repr : InputRepr) (base_offset : ℕ)
    (tb : ScriptTransactionBuilder) (tx : ScriptTx)
    → IdFixed network
    → resolve_fuel_tx network x repr base_offset tb ≡ ok tx
    → Parts network x repr tb.builder tx
unfolding resolve_fuel_tx
resolve_fuel_tx-Parts network x repr base_offset tb tx id_fixed e =
    let b = tb.builder in
    let (num, counted, e1) = >>=-eq-ok (num_witnesses b) _ e in
    let (price, _, e2) = >>=-eq-ok network.min_gas_price _ e1 in
    let offset = base_offset + network.size_dynamic (generate_fuel_policies x price b) in
    let (inputs, made, e3) =
      >>=-eq-ok (resolve_fuel_inputs x repr b.inputs offset num b.owner_to_idx_offset) _ e2 in
    let first : ScriptTx = record {
      script_gas_limit = 0;
      script = tb.script;
      script_data = tb.script_data;
      policies = generate_fuel_policies x price b;
      inputs = inputs;
      outputs = b.outputs;
      witnesses = create_dry_run_witnesses network.default_signature num b;
    } in
    let (limited, kept, e4) =
      >>=-eq-ok (limit_script_gas network b.tx_policies.script_gas_limit first) _ e3 in
    let (missing, made', e5) =
      >>=-eq-ok
        (generate_missing_witnesses network.sign (network.tx_id limited) b.unresolved_signers) _
        e4 in
    let same : record limited { witnesses = b.witnesses ++ missing } ≡ tx = ok_injective e5 in
    let inputs_kept =
      limit_script_gas-inputs network b.tx_policies.script_gas_limit first limited kept in
    record {
      num = num;
      data_offset = offset;
      missing = missing;
      counted = counted;
      resolved = made ∙ ap ok (sym inputs_kept ∙ ap (λ t. t.inputs) same);
      signed =
          ap (λ i. generate_missing_witnesses network.sign i b.unresolved_signers)
            (ap (λ t. network.tx_id t) (sym same) ∙ id_fixed limited (b.witnesses ++ missing))
          ∙ made';
      joined = ap (λ t. t.witnesses) (sym same);
    }

-- If every index in the map is that of the owner among the signers, the id of a transaction does not
-- depend on its witnesses, and `resolve_fuel_tx` succeeds, then each signed input of the builder
-- becomes an input with an index at which the transaction's witnesses have the signature of the
-- input's owner over the transaction's id.
pub resolve_fuel_tx-signed :
    (network : Network) (x : External) (repr : InputRepr) (base_offset : ℕ)
    (tb : ScriptTransactionBuilder) (before : List Input) (resource : CoinType) (after : List Input)
    (tx : ScriptTx)
    → ((t : ScriptTx) (ws : List (List ℕ))
        → network.tx_id (record t { witnesses = ws }) ≡ network.tx_id t)
    → Indexed tb.builder
    → tb.builder.inputs ≡ before ++ (resource_signed resource ∷ after)
    → resolve_fuel_tx network x repr base_offset tb ≡ ok tx
    → (index : ℕ) × (signature : List ℕ) × (get_elem? tx.inputs (length before)
        ≡ some (signed_input resource index))
      × (network.sign (owner_of resource) (network.tx_id tx) ≡ ok signature)
      × (get_elem? tx.witnesses index ≡ some signature)
unfolding resolve_fuel_input
resolve_fuel_tx-signed network x repr base_offset tb before resource after tx id_fixed indexed split
      e =
    let b = tb.builder in
    let parts = resolve_fuel_tx-Parts network x repr base_offset tb tx id_fixed e in
    let num = parts.num in
    let (num_eq, room) = num-eq-ok b num parts.counted in
    let (result, found, place) =
      inputs-place x repr before (resource_signed resource) after parts.data_offset num
        b.owner_to_idx_offset
        (ap (λ i. resolve_fuel_inputs x repr i parts.data_offset num b.owner_to_idx_offset)
            (sym split)
          ∙ parts.resolved) in
    let (index, got, result_eq) =
      signed-cases x repr resource (parts.data_offset + inputs_size x repr before) num
        b.owner_to_idx_offset result found in
    let signer = indexed.owner_at (owner_of resource) index got in
    let bound = get_elem-lt b.unresolved_signers index signer in
    let (signature, own, at) =
      missing_at network.sign (network.tx_id tx) b.unresolved_signers parts.missing index
        parts.signed signer in
    let position : witness_index num index ≡ length b.witnesses + index = omega (arith, num_eq) in
    (
      witness_index num index,
      signature,
      place ∙ ap (λ r. some r.0) result_eq,
      own,
      ap (λ w. get_elem? w (witness_index num index)) parts.joined
          ∙ ap (λ n. get_elem? (b.witnesses ++ parts.missing) n) position
          ∙ get_elem-length b.witnesses parts.missing index
          ∙ at,
    )
