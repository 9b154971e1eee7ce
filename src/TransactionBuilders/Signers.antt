-- ===== src/TransactionBuilders/Signers.antt =====
-- fuels-core/src/types/transaction_builders.rs: `add_signer` keeps the indexes of the owners those of
-- their signers.
use fuels_rs.Prelude.{
  ℕ, zero, suc, ◌+◌, ◌<◌, ◌==◌, ==_iff, ◌≡◌, ◌⊎◌, sym, ap, ◌∙◌, subst, arith, Bool-cases, inl, inr,
  some, List, [], ◌∷◌, ◌++◌, length, get_elem?,
}
use native.Mathlib.Nat.{zero-add, suc-add, add-zero}
use fuels_rs.Errors.{ok}
use fuels_rs.TransactionBuilders.{
  TransactionBuilder, WitnessIndexes, get_index, is_some, with_signer, add_signer,
}

-- Every index in the map is that of the owner among the signers.
pub record Indexed (b : TransactionBuilder) : Type 0 where
  pub owner_at :
      (owner index : ℕ)
      → get_index owner b.owner_to_idx_offset ≡ some index
      → get_elem? b.unresolved_signers index ≡ some owner

get_elem-some :
    {A : Type 0} (xs ys : List A) (i : ℕ) {a : A}
    → get_elem? xs i ≡ some a
    → get_elem? (xs ++ ys) i ≡ some a
get_elem-some [] ys i e = cc
get_elem-some (x ∷ xs) ys zero e = e
get_elem-some (x ∷ xs) ys (suc i) e = get_elem-some xs ys i e

pub get_elem-length :
    {A : Type 0} (xs ys : List A) (i : ℕ) → get_elem? (xs ++ ys) (length xs + i) ≡ get_elem? ys i
get_elem-length [] ys i = ap (λ n. get_elem? ys n) (zero-add i)
get_elem-length (x ∷ xs) ys i =
    ap (λ n. get_elem? (x ∷ (xs ++ ys)) n) (suc-add (length xs) i) ∙ get_elem-length xs ys i

pub get_elem-lt :
    {A : Type 0} (xs : List A) (i : ℕ) {a : A} → get_elem? xs i ≡ some a → i < length xs
get_elem-lt [] i e = cc
get_elem-lt (x ∷ xs) zero e = omega arith
get_elem-lt (x ∷ xs) (suc i) e = omega (arith, get_elem-lt xs i e)

-- A new last entry is found only for its own key.
get_index-last :
    (entries : WitnessIndexes) (owner address last index : ℕ)
    → get_index owner (entries ++ ((address, last) ∷ [])) ≡ some index
    → (get_index owner entries ≡ some index) ⊎ ((address ≡ owner) × (last ≡ index))
unfolding get_index
get_index-last [] owner address last index e = elim (Bool-cases (address == owner)) [
  | inl y ↦ let e' = rw (get_index, y) at e in inr ((==_iff address owner).0 y, cc)
  | inr n ↦ cc (rw (get_index, n) at e)
]
get_index-last ((o, i) ∷ entries) owner address last index e = elim (Bool-cases (o == owner)) [
  | inl y ↦ let e' = rw (get_index, y) at e in inl (rw (get_index, y) e')
  | inr n ↦ elim (get_index-last entries owner address last index (rw (get_index, n) at e)) [
    | inl f ↦ inl (rw (get_index, n) f)
    | inr l ↦ inr l
  ]
]

with_signer-Indexed :
    (address : ℕ) (b : TransactionBuilder) → Indexed b → Indexed (with_signer address b)
with_signer-Indexed address b i = record {
  owner_at = λ owner index e.
      elim (get_index-last b.owner_to_idx_offset owner address (length b.unresolved_signers) index
        e) [
          | inl f ↦
              get_elem-some b.unresolved_signers (address ∷ []) index (i.owner_at owner index f)
          | inr (same, last) ↦
              ap (λ n. get_elem? (b.unresolved_signers ++ (address ∷ [])) n)
                (sym last ∙ sym (add-zero (length b.unresolved_signers)))
              ∙ get_elem-length b.unresolved_signers (address ∷ []) 0
              ∙ ap some same
        ];
}

-- If `add_signer` succeeds, every index in the map stays that of the owner among the signers.
pub add_signer-Indexed :
    (address : ℕ) (b b' : TransactionBuilder)
    → Indexed b
    → add_signer address b ≡ ok b'
    → Indexed b'
unfolding add_signer
add_signer-Indexed address b b' i e =
    elim (Bool-cases (is_some (get_index address b.owner_to_idx_offset))) [
      | inl y ↦ cc (rw (add_signer, y) at e)
      | inr n ↦
          let e' = rw (add_signer, n) at e in
          let same : with_signer address b ≡ b' = cc in
          subst Indexed same (with_signer-Indexed address b i)
    ]
