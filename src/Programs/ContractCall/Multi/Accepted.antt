-- ===== src/Programs/ContractCall/Multi/Accepted.antt =====
-- fuels-programs/src/contract.rs: which lists of calls `validate_contract_calls` accepts.
use fuels_rs.Prelude.{
  ℕ, zero, suc, ◌≤◌, ◌≡◌, ◌↔◌, ◌⊎◌, inl, inr, refl, ◌∙◌, true, false, Bool-cases, arith, List, [],
  ◌∷◌,
}
use fuels_rs.Errors.{ok}
use fuels_rs.Programs.ContractCall.{ContractCall}
use fuels_rs.Programs.ContractCall.Multi.{
  returns_heap_type, number_of_heap_type_calls, last_returns_heap_type, validate_contract_calls,
}

-- Calls of which all but the last return no heap type.
pub data Accepted : List ContractCall → Type 0 where
  last : (call : ContractCall) → Accepted (call ∷ [])
  before :
      {call : ContractCall} {next : ContractCall} {calls : List ContractCall}
      → returns_heap_type call ≡ false
      → Accepted (next ∷ calls)
      → Accepted (call ∷ next ∷ calls)

module _ (call : ContractCall) (calls : List ContractCall) where
  number_plain :
      returns_heap_type call ≡ false
      → number_of_heap_type_calls (call ∷ calls) ≡ number_of_heap_type_calls calls
  unfolding number_of_heap_type_calls
  number_plain h = rw h (omega arith)

  number_heap :
      returns_heap_type call ≡ true
      → number_of_heap_type_calls (call ∷ calls) ≡ suc (number_of_heap_type_calls calls)
  unfolding number_of_heap_type_calls
  number_heap h = rw h (omega arith)

none-Accepted :
    (call : ContractCall) (calls : List ContractCall)
    → number_of_heap_type_calls (call ∷ calls) ≡ 0
    → Accepted (call ∷ calls)
none-Accepted call [] e = last call
none-Accepted call (next ∷ calls) e = elim (Bool-cases (returns_heap_type call)) [
  | inl y ↦ absurd (omega (arith, number_heap call (next ∷ calls) y))
  | inr n ↦ before n (none-Accepted next calls (omega (arith, number_plain call (next ∷ calls) n)))
]

last-counted :
    (call : ContractCall) (calls : List ContractCall)
    → last_returns_heap_type call calls ≡ true
    → 1 ≤ number_of_heap_type_calls (call ∷ calls)
unfolding last_returns_heap_type
last-counted call [] e = omega (arith, number_heap call [] e)
last-counted call (next ∷ calls) e = elim (Bool-cases (returns_heap_type call)) [
  | inl y ↦ omega (arith, number_heap call (next ∷ calls) y)
  | inr n ↦ omega (arith, number_plain call (next ∷ calls) n, last-counted next calls e)
]

one-Accepted :
    (call : ContractCall) (calls : List ContractCall)
    → number_of_heap_type_calls (call ∷ calls) ≡ 1
    → last_returns_heap_type call calls ≡ true
    → Accepted (call ∷ calls)
unfolding last_returns_heap_type
one-Accepted call [] e l = last call
one-Accepted call (next ∷ calls) e l = elim (Bool-cases (returns_heap_type call)) [
  | inl y ↦ absurd (omega (arith, number_heap call (next ∷ calls) y, last-counted next calls l))
  | inr n ↦ before n (one-Accepted next calls (omega (arith, number_plain call (next ∷ calls) n)) l)
]

Accepted-number :
    (call : ContractCall) (calls : List ContractCall)
    → Accepted (call ∷ calls)
    → (number_of_heap_type_calls (call ∷ calls) ≡ 0)
      ⊎ ((number_of_heap_type_calls (call ∷ calls) ≡ 1)
          × (last_returns_heap_type call calls ≡ true))
unfolding number_of_heap_type_calls last_returns_heap_type
Accepted-number call [] a = elim (Bool-cases (returns_heap_type call)) [
  | inl y ↦ inr (number_heap call [] y, y)
  | inr n ↦ inl (number_plain call [] n)
]
Accepted-number call (next ∷ calls) (before h a) = elim (Accepted-number next calls a) [
  | inl z ↦ inl (number_plain call (next ∷ calls) h ∙ z)
  | inr (o, l) ↦ inr (number_plain call (next ∷ calls) h ∙ o, l)
]

module _ (call : ContractCall) (calls : List ContractCall) where
  abbrev number : ℕ
  number = number_of_heap_type_calls (call ∷ calls)

  number_cases : (n : ℕ) → (n ≡ 0) ⊎ ((n ≡ 1) ⊎ ((k : ℕ) × (n ≡ suc (suc k))))
  number_cases zero = inl refl
  number_cases (suc zero) = inr (inl refl)
  number_cases (suc (suc k)) = inr (inr (k, refl))

  ok-Accepted : validate_contract_calls (call ∷ calls) ≡ ok tt → Accepted (call ∷ calls)
  unfolding validate_contract_calls
  ok-Accepted h = elim (number_cases number) [
    | inl z ↦ none-Accepted call calls z
    | inr (inl o) ↦ elim (Bool-cases (last_returns_heap_type call calls)) [
      | inl l ↦ one-Accepted call calls o l
      | inr l ↦ cc (rw (validate_contract_calls, o, l) at h)
    ]
    | inr (inr (k, m)) ↦ cc (rw (validate_contract_calls, m) at h)
  ]

  Accepted-ok : Accepted (call ∷ calls) → validate_contract_calls (call ∷ calls) ≡ ok tt
  unfolding validate_contract_calls
  Accepted-ok a = elim (Accepted-number call calls a) [
    | inl z ↦ rw (validate_contract_calls, z) refl
    | inr (o, l) ↦ rw (validate_contract_calls, o, l) refl
  ]

-- `validate_contract_calls` accepts exactly the lists of calls that are not empty and in which at
-- most the last call returns a heap type.
pub validate_contract_calls_iff :
    (calls : List ContractCall) → (validate_contract_calls calls ≡ ok tt) ↔ Accepted calls
unfolding validate_contract_calls
validate_contract_calls_iff [] = (λ h. cc, λ a. elim a [ ])
validate_contract_calls_iff (call ∷ calls) = (ok-Accepted call calls, Accepted-ok call calls)
