-- ===== src/Accounts/CoinsCache/Tests.antt =====
-- The cache on concrete coins, with numbers for keys and coin ids.
use fuels_rs.Prelude.{ℕ, ◌+◌, ◌<◌, ◌≡◌, refl, if◌then◌else◌, ◌&&◌, ◌==◌, ==_iff, none, [], ◌∷◌}
use fuels_rs.Accounts.CoinsCache.{
  Equality, CoinCacheItem, CoinsCache, insert_multiple, remove, get_active, get_or_default, get_mut,
  retain, is_valid,
}
use fuels_rs.Accounts.CoinsCache.View.{created, find, created-remove}
use fuels_rs.Accounts.CoinsCache.Insert.{
  or_else, offered, created-insert_multiple, get_active-valid,
}

abbrev numbers : Equality ℕ
numbers = record { eq = ◌==◌; eq-refl = λ a. (==_iff a a).1 refl; eq-path = λ a b. (==_iff a b).0 }

abbrev item : ℕ → ℕ → CoinCacheItem ℕ
item i t = record { created_at = t; id = i }

abbrev cache : CoinsCache ℕ ℕ
cache = record { ttl = 30; items = (1, item 7 100 ∷ item 8 120 ∷ []) ∷ [] }

created-remove_example :
    created numbers numbers (remove numbers numbers 1 7 cache) 1 8
    ≡ (if 1 == 1 && 7 == 8 then none else created numbers numbers cache 1 8)
created-remove_example = created-remove numbers numbers cache 1 1 7 8

created-insert_multiple_example :
    created numbers numbers
      (insert_multiple numbers numbers ((1, item 7 125 ∷ item 9 126 ∷ []) ∷ []) cache)
      1
      7
    ≡ or_else
        (created numbers numbers cache 1 7)
        (offered numbers numbers ((1, item 7 125 ∷ item 9 126 ∷ []) ∷ []) 1 7)
created-insert_multiple_example =
    created-insert_multiple numbers numbers ((1, item 7 125 ∷ item 9 126 ∷ []) ∷ []) cache 1 7

-- The coin 7, from 100, has expired at 130; the coin 8, from 120, has not.
swept : (get_active numbers numbers 1 130 cache).0 ≡ 8 ∷ []
unfolding get_active get_or_default get_mut retain is_valid
swept = refl

get_active-valid_example : 130 < 120 + 30
unfolding created find get_active get_or_default get_mut retain is_valid
get_active-valid_example = get_active-valid numbers numbers cache 1 130 8 120 refl
