-- ===== src/Accounts/CoinsCache/View.antt =====
-- The cache as a map from keys and coins to the times at which they were put in.
use fuels_rs.Prelude.{
  ℕ, ◌≡◌, refl, ap, sym, ◌∙◌, if◌then◌else◌, true, false, ◌&&◌, Bool-cases, inl, inr, Option, none,
  some, List, [], ◌∷◌,
}
use fuels_rs.Accounts.CoinsCache.{
  Equality, CoinCacheItem, CoinsCache, set_remove, get_or_default, entry_or_default, get_mut,
  remove,
}

module _ {K : Type 0} {I : Type 0} (keys : Equality K) (ids : Equality I) where
  unfoldable pub find : List (CoinCacheItem I) → I → Option ℕ
  find [] i = none
  find (x ∷ set) i = if ids.eq x.id i then some x.created_at else find set i

  -- When the coin was put in, if it is there.
  unfoldable pub created : CoinsCache K I → K → I → Option ℕ
  unfolding find
  created cache k i = find (get_or_default keys ids cache.items k) i

  eq-of-path : (a b : K) → a ≡ b → keys.eq a b ≡ true
  eq-of-path a b e = sym (ap (λ c. keys.eq a c) e) ∙ keys.eq-refl a

  -- The key of an entry that is changed, and of one that is not.
  same-key : (q k k' : K) → keys.eq q k ≡ true → keys.eq k k' ≡ keys.eq q k'
  same-key q k k' e = ap (λ c. keys.eq c k') (sym (keys.eq-path q k e))

  other-key : (q k k' : K) → keys.eq q k ≡ false → keys.eq q k' ≡ true → keys.eq k k' ≡ false
  other-key q k k' e e' = elim (Bool-cases (keys.eq k k')) [
    | inl t ↦
        let path : q ≡ k = keys.eq-path q k' e' ∙ sym (keys.eq-path k k' t) in
        let t' = eq-of-path q k path in cc
    | inr f ↦ f
  ]

  -- A changed entry is found under its key, and the others are as before.
  pub get-entry_or_default :
      (k k' : K) (f : List (CoinCacheItem I) → List (CoinCacheItem I))
      (items : List (K × List (CoinCacheItem I)))
      → get_or_default keys ids (entry_or_default keys ids k f items) k' ≡ (
          if keys.eq k k'
          then f (get_or_default keys ids items k')
          else get_or_default keys ids items k')
  unfolding get_or_default entry_or_default
  get-entry_or_default k k' f [] = refl
  get-entry_or_default k k' f ((q, set) ∷ rest) = elim (Bool-cases (keys.eq q k)) [
    | inl t ↦ elim (Bool-cases (keys.eq q k')) [
      | inl t' ↦ rw (t, same-key q k k' t, t') refl
      | inr f' ↦ rw (t, same-key q k k' t, f') refl
    ]
    | inr n ↦ elim (Bool-cases (keys.eq q k')) [
      | inl t' ↦ rw (n, other-key q k k' n t', t') refl
      | inr f' ↦ rw (n, f') (get-entry_or_default k k' f rest)
    ]
  ]

  pub get-get_mut :
      (k k' : K) (f : List (CoinCacheItem I) → List (CoinCacheItem I))
      (items : List (K × List (CoinCacheItem I)))
      → f [] ≡ []
      → get_or_default keys ids (get_mut keys ids k f items) k' ≡ (
          if keys.eq k k'
          then f (get_or_default keys ids items k')
          else get_or_default keys ids items k')
  unfolding get_or_default get_mut
  get-get_mut k k' f [] e = elim (Bool-cases (keys.eq k k')) [
    | inl t ↦ rw t (sym e)
    | inr n ↦ rw n refl
  ]
  get-get_mut k k' f ((q, set) ∷ rest) e = elim (Bool-cases (keys.eq q k)) [
    | inl t ↦ elim (Bool-cases (keys.eq q k')) [
      | inl t' ↦ rw (t, same-key q k k' t, t') refl
      | inr f' ↦ rw (t, same-key q k k' t, f') refl
    ]
    | inr n ↦ elim (Bool-cases (keys.eq q k')) [
      | inl t' ↦ rw (n, other-key q k k' n t', t') refl
      | inr f' ↦ rw (n, f') (get-get_mut k k' f rest e)
    ]
  ]

  same-id : (x i j : I) → ids.eq x i ≡ true → ids.eq i j ≡ ids.eq x j
  same-id x i j e = ap (λ c. ids.eq c j) (sym (ids.eq-path x i e))

  other-id : (x i j : I) → ids.eq x i ≡ false → ids.eq x j ≡ true → ids.eq i j ≡ false
  other-id x i j e e' = elim (Bool-cases (ids.eq i j)) [
    | inl t ↦
        let path : x ≡ i = ids.eq-path x j e' ∙ sym (ids.eq-path i j t) in
        let t' : ids.eq x i ≡ true = sym (ap (λ c. ids.eq x c) path) ∙ ids.eq-refl x in cc
    | inr f ↦ f
  ]

  find-set_remove :
      (i j : I) (set : List (CoinCacheItem I))
      → find (set_remove keys ids i set) j ≡ (if ids.eq i j then none else find set j)
  unfolding find set_remove
  find-set_remove i j [] = elim (Bool-cases (ids.eq i j)) [ inl t ↦ rw t refl | inr n ↦ rw n refl ]
  find-set_remove i j (x ∷ set) = elim (Bool-cases (ids.eq x.id i)) [
    | inl t ↦ elim (Bool-cases (ids.eq x.id j)) [
      | inl t' ↦ rw t (find-set_remove i j set ∙ rw (same-id x.id i j t, t') refl)
      | inr f' ↦ rw t (find-set_remove i j set ∙ rw (f') refl)
    ]
    | inr n ↦ elim (Bool-cases (ids.eq x.id j)) [
      | inl t' ↦ rw (n, other-id x.id i j n t', t') refl
      | inr f' ↦ rw (n, f') (find-set_remove i j set)
    ]
  ]

  -- A coin that is removed is there no longer, and every other coin of every key is as before.
  pub created-remove :
      (cache : CoinsCache K I) (k k' : K) (i j : I)
      → created (remove keys ids k i cache) k' j
        ≡ (if keys.eq k k' && ids.eq i j then none else created cache k' j)
  unfolding created remove
  created-remove cache k k' i j =
      ap (λ set. find set j) (get-get_mut k k' (set_remove keys ids i) cache.items refl)
      ∙ elim (Bool-cases (keys.eq k k')) [
        | inl t ↦ rw t (find-set_remove i j (get_or_default keys ids cache.items k'))
        | inr n ↦ rw n refl
      ]
