-- ===== src/Programs/Dependencies/Tests.antt =====
-- The estimation of dependencies against a node that wants two variable outputs.
use fuels_rs.Prelude.{
  ℕ, suc, ◌-◌, ◌≤◌, ◌≡◌, ◌↔◌, refl, arith, ltb, lt→ltb, le→ltb, if◌then◌else◌, false, some, List,
  [], ◌∷◌, length, length-append,
}
use fuels_rs.Errors.{Result, ok, err, reverted, Reason, node_reason}
use fuels_rs.UnresolvedBytes.{nil}
use fuels_rs.ParamTypes.{u64}
use fuels_rs.Receipt.{Receipt, revert}
use fuels_rs.Transaction.{variable}
use fuels_rs.Programs.ContractCall.{
  ContractCall, default_call_parameters, append_variable_outputs, new_variable_outputs,
}
use fuels_rs.Programs.Dependencies.{
  single_handler, append_missing_dependencies, estimate_tx_dependencies,
}
use fuels_rs.Programs.Dependencies.Estimated.{
  Repaired, estimate_tx_dependencies_iff, estimate_tx_dependencies-repairs,
}

abbrev sample_call : ContractCall
sample_call = record {
  contract_id = 5;
  encoded_args = ok nil;
  encoded_selector = [];
  call_parameters = default_call_parameters;
  compute_custom_input_offset = false;
  variable_outputs = [];
  external_contracts = [];
  output_param = u64;
  is_payable = false;
  custom_assets = [];
}

abbrev asking : List Receipt
asking = revert 9 ∷ []

abbrev two_outputs_node : ℕ → ContractCall → Result (Unit {0})
two_outputs_node k call =
    if ltb (length call.variable_outputs) 2 then err (reverted (node_reason []) 9 asking) else ok tt

abbrev missing_outputs : ContractCall → ℕ
missing_outputs call = 2 - length call.variable_outputs

complete : (k : ℕ) (s : ContractCall) → missing_outputs s ≡ 0 → two_outputs_node k s ≡ ok tt
complete k s e = rw (le→ltb (length s.variable_outputs) 2 (omega arith)) refl

progress :
    (k m : ℕ) (s : ContractCall)
    → missing_outputs s ≡ suc m
    → (reason : Reason) × (id : ℕ) × (receipts : List Receipt) × (s' : ContractCall)
      × (two_outputs_node k s ≡ err (reverted reason id receipts))
      × (append_missing_dependencies (single_handler two_outputs_node) 9 receipts s ≡ ok s')
      × (missing_outputs s' ≡ m)
unfolding append_missing_dependencies append_variable_outputs new_variable_outputs
progress k m s e = (
  node_reason [],
  9,
  asking,
  append_variable_outputs 1 s,
  (rw (lt→ltb (length s.variable_outputs) 2 (omega arith)) refl),
  refl,
  omega (arith, length-append s.variable_outputs (variable 0 0 0 ∷ [])),
)

estimate_tx_dependencies-repairs_example :
    (t : ContractCall) × (estimate_tx_dependencies
        (single_handler two_outputs_node)
        9
        (some 2)
        sample_call
      ≡ ok t)
    × (missing_outputs t ≡ 0)
estimate_tx_dependencies-repairs_example =
    estimate_tx_dependencies-repairs (single_handler two_outputs_node) 9 missing_outputs complete
      progress 2 sample_call (omega arith)

abbrev two_outputs : ContractCall
two_outputs = record sample_call { variable_outputs = variable 0 0 0 ∷ variable 0 0 0 ∷ [] }

estimate_tx_dependencies_iff_example :
    (estimate_tx_dependencies (single_handler two_outputs_node) 9 (some 2) sample_call
      ≡ ok two_outputs)
    ↔ ((n : ℕ) × (n ≤ 2)
        × Repaired (single_handler two_outputs_node) 9 0 sample_call n two_outputs
        × (two_outputs_node n two_outputs ≡ ok tt))
estimate_tx_dependencies_iff_example =
    estimate_tx_dependencies_iff (single_handler two_outputs_node) 9 2 sample_call two_outputs
