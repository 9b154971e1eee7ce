-- ===== src/Programs/CallAssets/Required.antt =====
-- fuels-programs/src/call_utils.rs: the required amount of each asset is the total over all calls.
use fuels_rs.Prelude.{
  ℕ, ◌+◌, ◌%◌, ◌^◌, ◌≤◌, ◌<◌, ◌==◌, ==_iff, leb, ◌≡◌, refl, ap, ◌∙◌, arith, true, false, Bool-cases,
  inl, inr, if◌then◌else◌, List, [], ◌∷◌, ◌++◌,
}
use fuels_rs.UnresolvedBytes.{add_u64}
use fuels_rs.Programs.ContractCall.{ContractCall}
use fuels_rs.Programs.CallAssets.{
  Amounts, join_group, sum_groups, insert_sorted, sort_by_asset, sum_up_amounts_for_each_asset_id,
  call_param_assets, all_custom_assets, without_addresses, calculate_required_asset_amounts,
  amount_of,
}

-- The amount of an entry, if it is of the asset, and the total of all entries.
abbrev counted : ℕ → ℕ → ℕ → ℕ
counted asset_id a amount = if a == asset_id then amount else 0

unfoldable pub total : ℕ → Amounts → ℕ
total asset_id [] = 0
total asset_id ((a, amount) ∷ rest) = counted asset_id a amount + total asset_id rest

-- Every asset comes before the next one, and every amount is a u64.
data Ordered : ℕ → Amounts → Type 0 where
  nil : (low : ℕ) → Ordered low []
  cons :
      {low a amount : ℕ} {rest : Amounts}
      → low ≤ a
      → amount < 2 ^ 64
      → Ordered (a + 1) rest
      → Ordered low ((a, amount) ∷ rest)

data Sorted : ℕ → Amounts → Type 0 where
  nil : (low : ℕ) → Sorted low []
  cons :
      {low a amount : ℕ} {rest : Amounts}
      → low ≤ a
      → Sorted a rest
      → Sorted low ((a, amount) ∷ rest)

total-append :
    (asset_id : ℕ) (xs ys : Amounts)
    → total asset_id (xs ++ ys) ≡ total asset_id xs + total asset_id ys
unfolding total
total-append asset_id [] ys = omega arith
total-append asset_id ((a, n) ∷ xs) ys = omega (arith, total-append asset_id xs ys)

total-insert :
    (asset_id a n : ℕ) (xs : Amounts)
    → total asset_id (insert_sorted (a, n) xs) ≡ counted asset_id a n + total asset_id xs
unfolding total insert_sorted
total-insert asset_id a n [] = refl
total-insert asset_id a n ((b, m) ∷ xs) = elim (Bool-cases (leb a b)) [
  | inl y ↦ rw (insert_sorted, y) refl
  | inr k ↦ rw (insert_sorted, k) (omega (arith, total-insert asset_id a n xs))
]

total-sort : (asset_id : ℕ) (xs : Amounts) → total asset_id (sort_by_asset xs) ≡ total asset_id xs
unfolding total sort_by_asset
total-sort asset_id [] = refl
total-sort asset_id ((a, n) ∷ xs) =
    total-insert asset_id a n (sort_by_asset xs)
    ∙ ap (λ t. counted asset_id a n + t) (total-sort asset_id xs)

counted-add :
    (asset_id a n m : ℕ)
    → counted asset_id a (add_u64 n m) % 2 ^ 64
      ≡ (counted asset_id a n + counted asset_id a m) % 2 ^ 64
counted-add asset_id a n m = elim (Bool-cases (a == asset_id)) [
  | inl y ↦ rw y (omega arith)
  | inr k ↦ rw k refl
]

counted_zero : (asset_id a : ℕ) → counted asset_id a 0 ≡ 0
counted_zero asset_id a = elim (Bool-cases (a == asset_id)) [
  | inl y ↦ rw y refl
  | inr k ↦ rw k refl
]

total-join :
    (asset_id a n : ℕ) (xs : Amounts)
    → total asset_id (join_group a n xs) % 2 ^ 64
      ≡ (counted asset_id a n + total asset_id xs) % 2 ^ 64
unfolding total join_group
total-join asset_id a n [] = omega (arith, counted-add asset_id a n 0, counted_zero asset_id a)
total-join asset_id a n ((b, m) ∷ xs) = elim (Bool-cases (a == b)) [
  | inl y ↦
      let same : counted asset_id a n ≡ counted asset_id b n =
        ap (λ c. counted asset_id c n) ((==_iff a b).0 y) in
      rw (join_group, y) (omega (arith, counted-add asset_id b n m, same))
  | inr k ↦ rw (join_group, k) (omega (arith, counted-add asset_id a n 0, counted_zero asset_id a))
]

total-groups :
    (asset_id : ℕ) (xs : Amounts)
    → total asset_id (sum_groups xs) % 2 ^ 64 ≡ total asset_id xs % 2 ^ 64
unfolding total sum_groups
total-groups asset_id [] = refl
total-groups asset_id ((a, n) ∷ xs) =
    omega (arith, total-join asset_id a n (sum_groups xs), total-groups asset_id xs)

leb→le : (a b : ℕ) → leb a b ≡ true → a ≤ b
leb→le a b h = ground arith

leb→ge : (a b : ℕ) → leb a b ≡ false → b ≤ a
leb→ge a b h = ground arith

lt_of_ne : (a b : ℕ) → a ≤ b → (a == b) ≡ false → a + 1 ≤ b
lt_of_ne a b le h = ground arith

ne_of_lt : (a b : ℕ) → a < b → (b == a) ≡ false
ne_of_lt a b lt = ground arith

-- The sort orders, and the groups of ordered entries are strictly ordered.
Sorted-weaken : (low low' : ℕ) (xs : Amounts) → low' ≤ low → Sorted low xs → Sorted low' xs
Sorted-weaken low low' xs le (nil l) = nil low'
Sorted-weaken low low' xs le (cons h s) = cons (omega arith) s

insert-Sorted :
    (low a n : ℕ) (xs : Amounts) → low ≤ a → Sorted low xs → Sorted low (insert_sorted (a, n) xs)
unfolding insert_sorted
insert-Sorted low a n [] le s = cons le (nil a)
insert-Sorted low a n ((b, m) ∷ xs) le (cons h s) = elim (Bool-cases (leb a b)) [
  | inl y ↦ rw (insert_sorted, y) (cons le (cons (leb→le a b y) s))
  | inr k ↦ rw (insert_sorted, k) (cons h (insert-Sorted b a n xs (leb→ge a b k) s))
]

sort-Sorted : (xs : Amounts) → Sorted 0 (sort_by_asset xs)
unfolding sort_by_asset
sort-Sorted [] = nil 0
sort-Sorted ((a, n) ∷ xs) = insert-Sorted 0 a n (sort_by_asset xs) (omega arith) (sort-Sorted xs)

Ordered-weaken : (low low' : ℕ) (xs : Amounts) → low' ≤ low → Ordered low xs → Ordered low' xs
Ordered-weaken low low' xs le (nil l) = nil low'
Ordered-weaken low low' xs le (cons h b s) = cons (omega arith) b s

join-Ordered :
    (low a n : ℕ) (xs : Amounts) → low ≤ a → Ordered a xs → Ordered low (join_group a n xs)
unfolding join_group
join-Ordered low a n [] le o = cons le (omega arith) (nil (a + 1))
join-Ordered low a n ((b, m) ∷ xs) le (cons h bound o) = elim (Bool-cases (a == b)) [
  | inl y ↦ rw (join_group, y) (cons (omega arith) (omega arith) o)
  | inr k ↦ rw (join_group, k) (cons le (omega arith) (cons (lt_of_ne a b h k) bound o))
]

groups-Ordered : (low : ℕ) (xs : Amounts) → Sorted low xs → Ordered low (sum_groups xs)
unfolding sum_groups
groups-Ordered low [] (nil l) = nil low
groups-Ordered low ((a, n) ∷ xs) (cons h s) =
    join-Ordered low a n (sum_groups xs) h (groups-Ordered a xs s)

-- No entry of an asset stands behind a greater one.
total-above :
    (asset_id low : ℕ) (xs : Amounts) → asset_id < low → Ordered low xs → total asset_id xs ≡ 0
unfolding total
total-above asset_id low [] lt o = refl
total-above asset_id low ((a, n) ∷ xs) lt (cons h b o) =
    rw (ne_of_lt asset_id a (omega arith))
      (omega (arith, total-above asset_id (a + 1) xs (omega arith) o))

amount_of-Ordered :
    (asset_id low : ℕ) (xs : Amounts)
    → Ordered low xs
    → (amount_of asset_id xs ≡ total asset_id xs) × (total asset_id xs < 2 ^ 64)
unfolding amount_of total
amount_of-Ordered asset_id low [] o = (refl, omega arith)
amount_of-Ordered asset_id low ((a, n) ∷ xs) (cons h b o) = elim (Bool-cases (a == asset_id)) [
  | inl y ↦
      let none = total-above asset_id (a + 1) xs (omega (arith, (==_iff a asset_id).0 y)) o in
      rw (amount_of, y) (omega (arith, none), omega (arith, none))
  | inr k ↦
      let (e, bound) = amount_of-Ordered asset_id (a + 1) xs o in
      rw (amount_of, k) (omega (arith, e), omega (arith, bound))
]

-- What all calls require of an asset: the amounts that they forward and their custom assets.
unfoldable pub required : ℕ → List ContractCall → ℕ
required asset_id calls =
    total asset_id (call_param_assets calls)
    + total asset_id (without_addresses (all_custom_assets calls))

-- For every asset, the amount in `calculate_required_asset_amounts` is what all calls forward of it
-- and their custom assets of it together, as a u64.
pub calculate_required_asset_amounts-total :
    (asset_id : ℕ) (calls : List ContractCall)
    → amount_of asset_id (calculate_required_asset_amounts calls) ≡ required asset_id calls % 2 ^ 64
unfolding calculate_required_asset_amounts sum_up_amounts_for_each_asset_id required
calculate_required_asset_amounts-total asset_id calls =
    let forwarded = call_param_assets calls in
    let custom = without_addresses (all_custom_assets calls) in
    let merged = forwarded ++ sum_groups custom in
    omega (
      arith,
      amount_of-Ordered asset_id 0 (sum_groups (sort_by_asset merged))
          (groups-Ordered 0 (sort_by_asset merged) (sort-Sorted merged)),
      total-groups asset_id (sort_by_asset merged),
      total-sort asset_id merged,
      total-append asset_id forwarded (sum_groups custom),
      total-groups asset_id custom,
    )
