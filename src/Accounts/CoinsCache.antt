-- ===== src/Accounts/CoinsCache.antt =====
-- fuels-accounts/src/coin_cache.rs: the coins that were spent a short time ago. Keys and coin ids are
-- types with an equality test. A reading of the clock is an argument, in the units of `ttl`.
pub mod View
pub mod Insert
mod Tests
use fuels_rs.Prelude.{
  ℕ, ◌+◌, ◌≡◌, ltb, if◌then◌else◌, Bool, true, false, not, ◌||◌, Option, none, some, List, [], ◌∷◌,
  ◌++◌, map,
}

-- `PartialEq`, with the laws that a hash map relies on.
pub record Equality (A : Type 0) : Type 0 where
  pub eq : A → A → Bool
  pub eq-refl : (a : A) → eq a a ≡ true
  pub eq-path : (a b : A) → eq a b ≡ true → a ≡ b

pub record CoinCacheItem (I : Type 0) : Type 0 where
  pub created_at : ℕ
  pub id : I

-- `HashMap` is an association list, `HashSet` a list without repetitions.
pub record CoinsCache (K : Type 0) (I : Type 0) : Type 0 where
  pub ttl : ℕ
  pub items : List (K × List (CoinCacheItem I))

module _ {K : Type 0} {I : Type 0} (keys : Equality K) (ids : Equality I) where
  unfoldable pub contains : List (CoinCacheItem I) → I → Bool
  contains [] i = false
  contains (x ∷ set) i = ids.eq x.id i || contains set i

  -- `HashSet::insert` keeps an equal item that is there already, with its own time.
  unfoldable pub set_insert : CoinCacheItem I → List (CoinCacheItem I) → List (CoinCacheItem I)
  unfolding contains
  set_insert item set = if contains set item.id then set else item ∷ set

  unfoldable pub extend : List (CoinCacheItem I) → List (CoinCacheItem I) → List (CoinCacheItem I)
  unfolding set_insert
  extend set [] = set
  extend set (item ∷ rest) = extend (set_insert item set) rest

  -- `HashSet::remove` and `HashSet::retain`
  unfoldable pub set_remove : I → List (CoinCacheItem I) → List (CoinCacheItem I)
  set_remove i [] = []
  set_remove i (x ∷ set) = let rest = set_remove i set in if ids.eq x.id i then rest else x ∷ rest

  unfoldable pub is_valid : ℕ → ℕ → CoinCacheItem I → Bool
  is_valid now ttl item = ltb now (item.created_at + ttl)

  unfoldable pub retain : ℕ → ℕ → List (CoinCacheItem I) → List (CoinCacheItem I)
  unfolding is_valid
  retain now ttl [] = []
  retain now ttl (x ∷ set) =
      let rest = retain now ttl set in if is_valid now ttl x then x ∷ rest else rest

  -- The set of a key, empty if the key is missing: `get(key).cloned().unwrap_or_default()`.
  unfoldable pub get_or_default : List (K × List (CoinCacheItem I)) → K → List (CoinCacheItem I)
  get_or_default [] k = []
  get_or_default ((k', set) ∷ rest) k =
      let others = get_or_default rest k in if keys.eq k' k then set else others

  -- An entry is changed by `entry(key).or_default()`, and by `get_mut(key)` if it is there.
  unfoldable pub entry_or_default :
      K
      → (List (CoinCacheItem I) → List (CoinCacheItem I))
      → List (K × List (CoinCacheItem I))
      → List (K × List (CoinCacheItem I))
  entry_or_default k f [] = (k, f []) ∷ []
  entry_or_default k f ((k', set) ∷ rest) =
      let others = entry_or_default k f rest in
      if keys.eq k' k then (k', f set) ∷ rest else (k', set) ∷ others

  unfoldable pub get_mut :
      K
      → (List (CoinCacheItem I) → List (CoinCacheItem I))
      → List (K × List (CoinCacheItem I))
      → List (K × List (CoinCacheItem I))
  get_mut k f [] = []
  get_mut k f ((k', set) ∷ rest) =
      let others = get_mut k f rest in
      if keys.eq k' k then (k', f set) ∷ rest else (k', set) ∷ others

  -- The new items of each key come with the times at which they are made.
  unfoldable pub insert_multiple :
      List (K × List (CoinCacheItem I)) → CoinsCache K I → CoinsCache K I
  unfolding extend entry_or_default
  insert_multiple [] cache = cache
  insert_multiple ((k, new_items) ∷ rest) cache =
      insert_multiple rest
        (record cache { items = entry_or_default k (λ set. extend set new_items) cache.items })

  unfoldable pub remove : K → I → CoinsCache K I → CoinsCache K I
  unfolding set_remove get_mut
  remove k i cache = record cache { items = get_mut k (set_remove i) cache.items }

  unfoldable pub remove_all : K → List I → CoinsCache K I → CoinsCache K I
  unfolding remove
  remove_all k [] cache = cache
  remove_all k (i ∷ rest) cache = remove_all k rest (remove k i cache)

  unfoldable pub remove_items : List (K × List I) → CoinsCache K I → CoinsCache K I
  unfolding remove_all
  remove_items [] cache = cache
  remove_items ((k, coins) ∷ rest) cache = remove_items rest (remove_all k coins cache)

  unfoldable pub remove_expired_entries : K → ℕ → CoinsCache K I → CoinsCache K I
  unfolding retain get_mut
  remove_expired_entries k now cache = record cache {
    items = get_mut k (retain now cache.ttl) cache.items;
  }

  unfoldable pub get_active : K → ℕ → CoinsCache K I → List I × CoinsCache K I
  unfolding remove_expired_entries get_or_default
  get_active k now cache =
      let swept = remove_expired_entries k now cache in
      (map (λ (item : CoinCacheItem I). item.id) (get_or_default swept.items k), swept)
