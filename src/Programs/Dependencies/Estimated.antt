-- ===== src/Programs/Dependencies/Estimated.antt =====
-- fuels-programs/src/call_utils.rs: what `estimate_tx_dependencies` returns, and when it gets there.
use fuels_rs.Prelude.{
  ℕ, zero, suc, ◌+◌, ◌≤◌, ◌≡◌, ◌↔◌, ◌⊎◌, inl, inr, refl, ◌∙◌, subst, arith, some, List,
}
use fuels_rs.Errors.{
  Result, ok, err, ◌>>=◌, ◌>>◌, >>=-eq-ok, Error, codec, other, builder, other_transaction,
  squeezed_out, reverted, Reason,
}
use fuels_rs.Receipt.{Receipt}
use fuels_rs.Programs.Dependencies.{
  TxDependencyExtension, append_missing_dependencies, estimate_loop, estimate_tx_dependencies,
}

-- From one number of simulations and one state to another, each step by a simulation that reverts and
-- by adding what its receipts ask for.
pub data Repaired {S : Type 0} (extension : TxDependencyExtension S) (signal : ℕ)
    : ℕ → S → ℕ → S → Type 0 where
  here : (k : ℕ) (s : S) → Repaired extension signal k s k s
  step :
      {k n : ℕ} {s s' t : S} (reason : Reason) (id : ℕ) (receipts : List Receipt)
      → extension.simulate k s ≡ err (reverted reason id receipts)
      → append_missing_dependencies extension signal receipts s ≡ ok s'
      → Repaired extension signal (k + 1) s' n t
      → Repaired extension signal k s n t

result-cases :
    {A : Type 0} (r : Result A)
    → ((a : A) × (r ≡ ok a)) ⊎ (((e : Error) × (r ≡ err e)) ⊎ (r ≡ fuels_rs.Errors.panic))
result-cases (ok a) = inl (a, refl)
result-cases (err e) = inr (inl (e, refl))
result-cases fuels_rs.Errors.panic = inr (inr refl)

module _ {S : Type 0} (extension : TxDependencyExtension S) (signal : ℕ) where
  abbrev Estimated : ℕ → ℕ → S → S → Type 0
  Estimated attempts k s t =
      (n : ℕ) × (n ≤ k + attempts)
      × Repaired extension signal k s n t
      × (extension.simulate n t ≡ ok tt)

  loop-stop :
      (attempts k : ℕ) (s : S)
      → extension.simulate k s ≡ ok tt
      → estimate_loop extension signal attempts k s ≡ ok s
  unfolding estimate_loop
  loop-stop zero k s e = rw (estimate_loop, e) refl
  loop-stop (suc attempts) k s e = rw (estimate_loop, e) refl

  loop-step :
      (attempts k : ℕ) (s s' : S) (reason : Reason) (id : ℕ) (receipts : List Receipt)
      → extension.simulate k s ≡ err (reverted reason id receipts)
      → append_missing_dependencies extension signal receipts s ≡ ok s'
      → estimate_loop extension signal (suc attempts) k s
        ≡ estimate_loop extension signal attempts (k + 1) s'
  unfolding estimate_loop
  loop-step attempts k s s' reason id receipts e a = rw (estimate_loop, e, a) refl

  Repaired-le : {k n : ℕ} {s t : S} → Repaired extension signal k s n t → k ≤ n
  Repaired-le (here k s) = omega arith
  Repaired-le (step reason id receipts e a r) = omega (arith, Repaired-le r)

  loop-returns :
      (attempts : ℕ) {k n : ℕ} {s t : S}
      → Repaired extension signal k s n t
      → n ≤ k + attempts
      → extension.simulate n t ≡ ok tt
      → estimate_loop extension signal attempts k s ≡ ok t
  loop-returns attempts (here k s) le e = loop-stop attempts k s e
  loop-returns zero (step reason id receipts e a r) le done = absurd (omega (arith, Repaired-le r))
  loop-returns (suc attempts) {k} {n} {s} {t} (step {s' = s'} reason id receipts e a r) le done =
      loop-step attempts k s s' reason id receipts e a ∙ loop-returns attempts r (omega arith) done

  stopped :
      (attempts k : ℕ) (s t : S) → s ≡ t → extension.simulate k s ≡ ok tt → Estimated attempts k s t
  stopped attempts k s t same e = (
    k,
    omega arith,
    subst (λ v. Repaired extension signal k s k v) same (here k s),
    subst (λ v. extension.simulate k v ≡ ok tt) same e,
  )

  loop_sound :
      (attempts k : ℕ) (s t : S)
      → estimate_loop extension signal attempts k s ≡ ok t
      → Estimated attempts k s t
  unfolding estimate_loop
  loop_sound zero k s t h =
      let (_, e, same) = >>=-eq-ok (extension.simulate k s) (λ _. ok s) h in
      let same' : s ≡ t = cc in stopped zero k s t same' e
  loop_sound (suc attempts) k s t h = elim (result-cases (extension.simulate k s)) [
    | inl (_, e) ↦
        let same : ok s ≡ ok t = rw (estimate_loop, e) at h in
        let same' : s ≡ t = cc in stopped (suc attempts) k s t same' e
    | inr (inl (codec m, e)) ↦ cc (rw (estimate_loop, e) at h)
    | inr (inl (other m, e)) ↦ cc (rw (estimate_loop, e) at h)
    | inr (inl (builder m, e)) ↦ cc (rw (estimate_loop, e) at h)
    | inr (inl (other_transaction m, e)) ↦ cc (rw (estimate_loop, e) at h)
    | inr (inl (squeezed_out m, e)) ↦ cc (rw (estimate_loop, e) at h)
    | inr (inl (reverted reason id receipts, e)) ↦
        let h' = rw (estimate_loop, e) at h in
        let (s', a, later) =
          >>=-eq-ok (append_missing_dependencies extension signal receipts s) _ h' in
        let (n, le, r, done) = loop_sound attempts (k + 1) s' t later in
        (n, omega arith, step reason id receipts e a r, done)
    | inr (inr e) ↦ cc (rw (estimate_loop, e) at h)
  ]

-- `estimate_tx_dependencies` with a number of attempts succeeds exactly with a state that is reached
-- by at most so many reverted simulations, each followed by the additions that its receipts ask
-- for, and whose own simulation succeeds.
pub estimate_tx_dependencies_iff :
    {S : Type 0} (extension : TxDependencyExtension S) (signal : ℕ) (attempts : ℕ) (s t : S)
    → (estimate_tx_dependencies extension signal (some attempts) s ≡ ok t) ↔ (
        (n : ℕ) × (n ≤ attempts)
        × Repaired extension signal 0 s n t
        × (extension.simulate n t ≡ ok tt))
unfolding estimate_tx_dependencies
estimate_tx_dependencies_iff extension signal attempts s t = (
  λ h.
      let (n, le, r, done) = loop_sound extension signal attempts 0 s t h in
      (n, omega arith, r, done),
  λ (n, le, r, done). loop-returns extension signal attempts r (omega arith) done,
)

-- From a measure of what a state misses, whose every positive value makes the simulation revert with
-- receipts that lower it by one.
module _ {S : Type 0} (extension : TxDependencyExtension S) (signal : ℕ) (missing : S → ℕ)
    (complete : (k : ℕ) (s : S) → missing s ≡ 0 → extension.simulate k s ≡ ok tt)
    (progress : (k m : ℕ) (s : S)
      → missing s ≡ suc m
      → (reason : Reason) × (id : ℕ) × (receipts : List Receipt) × (s' : S) × (extension.simulate k
            s
          ≡ err (reverted reason id receipts))
        × (append_missing_dependencies extension signal receipts s ≡ ok s')
        × (missing s' ≡ m)) where
  loop-repairs :
      (m attempts k : ℕ) (s : S)
      → missing s ≡ m
      → m ≤ attempts
      → (t : S) × (estimate_loop extension signal attempts k s ≡ ok t) × (missing t ≡ 0)
  loop-repairs zero attempts k s e le =
      (s, loop-stop extension signal attempts k s (complete k s e), e)
  loop-repairs (suc m) zero k s e le = absurd (omega arith)
  loop-repairs (suc m) (suc attempts) k s e le =
      let (reason, id, receipts, s', failed, appended, less) = progress k m s e in
      let (t, found, whole) = loop-repairs m attempts (k + 1) s' less (omega arith) in
      (
        t,
        loop-step extension signal attempts k s s' reason id receipts failed appended ∙ found,
        whole,
      )

-- If a simulation succeeds when nothing is missing, and otherwise reverts with receipts whose
-- additions leave one thing less missing, then `estimate_tx_dependencies` succeeds, with nothing
-- missing, if it is given at least as many attempts as things are missing.
pub estimate_tx_dependencies-repairs :
    {S : Type 0} (extension : TxDependencyExtension S) (signal : ℕ) (missing : S → ℕ)
    → ((k : ℕ) (s : S) → missing s ≡ 0 → extension.simulate k s ≡ ok tt)
    → ((k m : ℕ) (s : S)
        → missing s ≡ suc m
        → (reason : Reason) × (id : ℕ) × (receipts : List Receipt) × (s' : S) × (extension.simulate
              k s
            ≡ err (reverted reason id receipts))
          × (append_missing_dependencies extension signal receipts s ≡ ok s')
          × (missing s' ≡ m))
    → (attempts : ℕ) (s : S) → missing s ≤ attempts
    → (t : S) × (estimate_tx_dependencies extension signal (some attempts) s ≡ ok t)
      × (missing t ≡ 0)
unfolding estimate_tx_dependencies
estimate_tx_dependencies-repairs extension signal missing complete progress attempts s le =
    loop-repairs extension signal missing complete progress (missing s) attempts 0 s refl le
