-- ===== src/Accounts/CoinsCache/Insert.antt =====
-- Which coins are in the cache after `insert_multiple`, and which of them `get_active` returns.
use fuels_rs.Prelude.{
  ℕ, ◌+◌, ◌<◌, ◌≡◌, refl, arith, ap, sym, ◌∙◌, ltb→lt, if◌then◌else◌, true, false, Bool-cases, inl,
  inr, Option, none, some, List, [], ◌∷◌,
}
use mathlib.Core.Option.{some-injective}
use fuels_rs.Accounts.CoinsCache.{
  Equality, CoinCacheItem, CoinsCache, contains, set_insert, extend, is_valid, retain,
  get_or_default, get_mut, insert_multiple, get_active,
}
use fuels_rs.Accounts.CoinsCache.View.{find, created, get-entry_or_default, get-get_mut}

unfoldable pub or_else : Option ℕ → Option ℕ → Option ℕ
or_else (some t) u = some t
or_else none u = u

or_else_assoc : (a b c : Option ℕ) → or_else (or_else a b) c ≡ or_else a (or_else b c)
unfolding or_else
or_else_assoc (some t) b c = refl
or_else_assoc none b c = refl

or_else-none : (a : Option ℕ) → or_else a none ≡ a
unfolding or_else
or_else-none (some t) = refl
or_else-none none = refl

module _ {K : Type 0} {I : Type 0} (keys : Equality K) (ids : Equality I) where
  contains-cases :
      (set : List (CoinCacheItem I)) (i j : I)
      → contains keys ids set i ≡ true
      → ids.eq i j ≡ true
      → (u : Option ℕ) → or_else (find keys ids set j) u ≡ find keys ids set j
  unfolding find contains or_else
  contains-cases [] i j e e' u = cc
  contains-cases (x ∷ set) i j e e' u = elim (Bool-cases (ids.eq x.id j)) [
    | inl t ↦ rw t refl
    | inr n ↦ elim (Bool-cases (ids.eq x.id i)) [
      | inl t' ↦
          let same : ids.eq x.id j ≡ true = ap (λ c. ids.eq c j) (ids.eq-path x.id i t') ∙ e' in cc
      | inr n' ↦ rw n (contains-cases set i j (rw n' at e) e' u)
    ]
  ]

  find-contains :
      (set : List (CoinCacheItem I)) (i j : I)
      → contains keys ids set i ≡ false
      → ids.eq i j ≡ true
      → find keys ids set j ≡ none
  unfolding find contains
  find-contains [] i j e e' = refl
  find-contains (x ∷ set) i j e e' = elim (Bool-cases (ids.eq x.id i)) [
    | inl t ↦ let e'' = rw t at e in cc
    | inr n ↦
        let other : ids.eq x.id j ≡ false =
          ap (λ c. ids.eq x.id c) (sym (ids.eq-path i j e')) ∙ n in
        rw other (find-contains set i j (rw n at e) e')
  ]

  find-set_insert :
      (item : CoinCacheItem I) (set : List (CoinCacheItem I)) (j : I)
      → find keys ids (set_insert keys ids item set) j
        ≡ or_else (find keys ids set j) (if ids.eq item.id j then some item.created_at else none)
  unfolding find set_insert or_else
  find-set_insert item set j = elim (Bool-cases (contains keys ids set item.id)) [
    | inl c ↦ elim (Bool-cases (ids.eq item.id j)) [
      | inl t ↦ rw (c, t) (sym (contains-cases set item.id j c t (some item.created_at)))
      | inr n ↦ rw (c, n) (sym (or_else-none (find keys ids set j)))
    ]
    | inr c ↦ elim (Bool-cases (ids.eq item.id j)) [
      | inl t ↦ rw (c, t, find-contains set item.id j c t) refl
      | inr n ↦ rw (c, n) (sym (or_else-none (find keys ids set j)))
    ]
  ]

  head-first :
      (item : CoinCacheItem I) (rest : List (CoinCacheItem I)) (j : I)
      → or_else (if ids.eq item.id j then some item.created_at else none) (find keys ids rest j)
        ≡ find keys ids (item ∷ rest) j
  unfolding find or_else
  head-first item rest j = elim (Bool-cases (ids.eq item.id j)) [
    | inl t ↦ rw t refl
    | inr n ↦ rw n refl
  ]

  find-extend :
      (set new_items : List (CoinCacheItem I)) (j : I)
      → find keys ids (extend keys ids set new_items) j
        ≡ or_else (find keys ids set j) (find keys ids new_items j)
  unfolding extend find
  find-extend set [] j = sym (or_else-none (find keys ids set j))
  find-extend set (item ∷ rest) j =
      find-extend (set_insert keys ids item set) rest j
      ∙ ap (λ a. or_else a (find keys ids rest j)) (find-set_insert item set j)
      ∙ or_else_assoc (find keys ids set j) _ (find keys ids rest j)
      ∙ ap (or_else (find keys ids set j)) (head-first item rest j)

  -- The first time that some insertions offer for a coin of a key.
  unfoldable pub offered : List (K × List (CoinCacheItem I)) → K → I → Option ℕ
  offered [] k j = none
  offered ((k', new_items) ∷ rest) k j =
      let later = offered rest k j in
      if keys.eq k' k then or_else (find keys ids new_items j) later else later

  -- After `insert_multiple` a coin of a key keeps the time at which it was put in before, and is
  -- there with the first time that is offered for it if it was not.
  pub created-insert_multiple :
      (inputs : List (K × List (CoinCacheItem I))) (cache : CoinsCache K I) (k : K) (j : I)
      → created keys ids (insert_multiple keys ids inputs cache) k j
        ≡ or_else (created keys ids cache k j) (offered inputs k j)
  unfolding created insert_multiple offered
  created-insert_multiple [] cache k j = sym (or_else-none _)
  created-insert_multiple ((k', new_items) ∷ rest) cache k j =
      let old = get_or_default keys ids cache.items k in
      let later = offered rest k j in
      created-insert_multiple rest _ k j
      ∙ ap (λ set. or_else (find keys ids set j) later)
          (get-entry_or_default keys ids k' k (λ set. extend keys ids set new_items) cache.items)
      ∙ elim (Bool-cases (keys.eq k' k)) [
        | inl t ↦ rw t (
            ap (λ a. or_else a later) (find-extend old new_items j)
            ∙ or_else_assoc (find keys ids old j) (find keys ids new_items j) later)
        | inr n ↦ rw n refl
      ]

  valid-lt :
      (now ttl : ℕ) (x : CoinCacheItem I)
      → is_valid keys ids now ttl x ≡ true
      → now < x.created_at + ttl
  unfolding is_valid
  valid-lt now ttl x v = ltb→lt now (x.created_at + ttl) v

  find-retain :
      (now ttl : ℕ) (set : List (CoinCacheItem I)) (j : I) (t : ℕ)
      → find keys ids (retain keys ids now ttl set) j ≡ some t
      → now < t + ttl
  unfolding find retain
  find-retain now ttl [] j t e = cc
  find-retain now ttl (x ∷ set) j t e = elim (Bool-cases (is_valid keys ids now ttl x)) [
    | inl v ↦ elim (Bool-cases (ids.eq x.id j)) [
      | inl q ↦
          let at : x.created_at ≡ t = some-injective x.created_at t (rw (v, q) at e) in
          omega (arith, valid-lt now ttl x v, at)
      | inr n ↦ find-retain now ttl set j t (rw (v, n) at e)
    ]
    | inr v ↦ find-retain now ttl set j t (rw v at e)
  ]

  -- Every coin of a key that is still in the cache after `get_active` for that key was put in less
  -- than `ttl` before the time of the call.
  pub get_active-valid :
      (cache : CoinsCache K I) (k : K) (now : ℕ) (j : I) (t : ℕ)
      → created keys ids (get_active keys ids k now cache).1 k j ≡ some t
      → now < t + cache.ttl
  unfolding created get_active
  get_active-valid cache k now j t e =
      let swept : get_or_default keys ids
            (get_mut keys ids k (retain keys ids now cache.ttl) cache.items) k
          ≡ retain keys ids now cache.ttl (get_or_default keys ids cache.items k) =
        get-get_mut keys ids k k (retain keys ids now cache.ttl) cache.items refl
        ∙ rw (keys.eq-refl k) refl in
      find-retain now cache.ttl (get_or_default keys ids cache.items k) j t
        (sym (ap (λ set. find keys ids set j) swept) ∙ e)
