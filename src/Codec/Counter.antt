-- ===== src/Codec/Counter.antt =====
-- fuels-core/src/codec/utils.rs, and the trackers that the encoder and the decoder carry.
use fuels_rs.Prelude.{ℕ, ◌+◌, ◌-◌, ◌≤◌, ◌<◌, ◌≡◌, ltb, if◌then◌else◌, arith, ap, le→ltb}
use native.Mathlib.Nat.{add_assoc, add-zero}
use fuels_rs.Errors.{
  Result, ok, err, panic, codec, limit_reached, Counted, depth, token, CodecDirection,
}
use fuels_rs.Errors

pub record CounterWithLimit : Type 0 where
  pub count : ℕ
  pub max_count : ℕ
  pub name : Counted
  pub direction : CodecDirection

unfoldable pub new_counter : ℕ → Counted → CodecDirection → CounterWithLimit
new_counter max_count name direction = record {
  count = 0;
  max_count = max_count;
  name = name;
  direction = direction;
}

-- The count stays far below the width of usize: it never passes the limit by more than one.
unfoldable pub increase : CounterWithLimit → Result CounterWithLimit
increase c =
    if ltb c.max_count (c.count + 1)
    then err (codec (limit_reached c.name c.max_count c.direction))
    else ok (record c { count = c.count + 1 })

unfoldable pub decrease : CounterWithLimit → CounterWithLimit
decrease c = if ltb 0 c.count then record c { count = c.count - 1 } else c

pub record Trackers : Type 0 where
  pub depth_tracker : CounterWithLimit
  pub token_tracker : CounterWithLimit

unfoldable pub new_trackers : ℕ → ℕ → CodecDirection → Trackers
unfolding new_counter
new_trackers max_depth max_tokens direction = record {
  depth_tracker = new_counter max_depth depth direction;
  token_tracker = new_counter max_tokens token direction;
}

-- A method on `&mut self` that may fail. An encoder or a decoder serves one call and is dropped
-- after an error, so no state comes with one.
abbrev pub M {ℓ} : Type ℓ → Type ℓ
M A = Trackers → Result (A × Trackers)

abbrev pub pure {ℓ} : {A : Type ℓ} → A → M A
pure a s = ok (a, s)

abbrev pub lift {ℓ} : {A : Type ℓ} → Result A → M A
lift r s = Errors.◌>>=◌ r (λ a. ok (a, s))

infixl 5 ◌>>=◌ ◌>>◌
abbrev pub ◌>>=◌ {ℓ κ} : {A : Type ℓ} {B : Type κ} → M A → (A → M B) → M B
◌>>=◌ m f s = Errors.◌>>=◌ (m s) (λ (a, s'). f a s')

abbrev pub ◌>>◌ {ℓ} : {A : Type ℓ} → M (Unit {0}) → M A → M A
m >> k = m >>= λ _. k

unfoldable pub increase_token : M (Unit {0})
unfolding increase
increase_token s =
    Errors.◌>>=◌ (increase s.token_tracker) (λ c. ok (tt, record s { token_tracker = c }))

unfoldable pub increase_depth : M (Unit {0})
unfolding increase
increase_depth s =
    Errors.◌>>=◌ (increase s.depth_tracker) (λ c. ok (tt, record s { depth_tracker = c }))

unfoldable pub decrease_depth : M (Unit {0})
unfolding decrease
decrease_depth s = ok (tt, record s { depth_tracker = decrease s.depth_tracker })

unfoldable pub run_w_depth_tracking {ℓ} : {A : Type ℓ} → M A → M A
unfolding increase_depth decrease_depth
run_w_depth_tracking action = do increase_depth; res ← action; decrease_depth; pure res

-- The state one level down, and after `n` more tokens.
abbrev pub deeper : Trackers → Trackers
deeper s = record s {
  depth_tracker = record (s.depth_tracker) { count = s.depth_tracker.count + 1 };
}

abbrev pub spend : ℕ → Trackers → Trackers
spend n s = record s {
  token_tracker = record (s.token_tracker) { count = s.token_tracker.count + n };
}

-- `CounterWithLimit::increase` on both sides of the limit.
pub increase-eq :
    (c : CounterWithLimit)
    → (c.count < c.max_count → increase c ≡ ok (record c { count = c.count + 1 }))
      × (c.max_count ≤ c.count
          → increase c ≡ err (codec (limit_reached c.name c.max_count c.direction)))
unfolding increase
increase-eq c = (λ h. ground arith, λ h. ground arith)

-- There is room for `d` more levels and `n` more tokens.
abbrev pub HasRoom : Trackers → ℕ → ℕ → Type 0
HasRoom s d n =
    (s.depth_tracker.count + d ≤ s.depth_tracker.max_count)
    × (s.token_tracker.count + n ≤ s.token_tracker.max_count)

pub increase_token-HasRoom :
    (s : Trackers) (d n : ℕ) → HasRoom s d (n + 1) → increase_token s ≡ ok (tt, spend 1 s)
unfolding increase_token
increase_token-HasRoom s d n h =
    rw (le→ltb s.token_tracker.max_count (s.token_tracker.count + 1) (omega arith), if◌then◌else◌)

decrease-increase : (c : CounterWithLimit) → decrease (record c { count = c.count + 1 }) ≡ c
unfolding decrease
decrease-increase c = ground arith

-- An action that spends tokens one level down spends them with tracking, and the depth is restored.
pub run_w_depth_tracking-eq {ℓ} :
    {A : Type ℓ} (m : M A) (s : Trackers) (d k n : ℕ) (a : A)
    → HasRoom s (d + 1) k
    → m (deeper s) ≡ ok (a, spend n (deeper s))
    → run_w_depth_tracking m s ≡ ok (a, spend n s)
unfolding run_w_depth_tracking
run_w_depth_tracking-eq m s d k n a h e =
    rw (le→ltb s.depth_tracker.max_count (s.depth_tracker.count + 1) (omega arith), if◌then◌else◌)
      (rw e (
        ap (λ t. ok (a, record { depth_tracker = t; token_tracker = (spend n s).token_tracker }))
          (decrease-increase s.depth_tracker)))

-- Spending is additive.
pub spend-spend : (m n : ℕ) (s : Trackers) → spend n (spend m s) ≡ spend (m + n) s
spend-spend m n s =
    ap (λ c. record s { token_tracker = record (s.token_tracker) { count = c } })
      (add_assoc s.token_tracker.count m n)

pub spend-zero : (s : Trackers) → spend 0 s ≡ s
spend-zero s =
    ap (λ c. record s { token_tracker = record (s.token_tracker) { count = c } })
      (add-zero s.token_tracker.count)

-- A successful step is followed by the rest, and a successful run can be cut.
pub bind-ok {ℓ κ} :
    {A : Type ℓ} {B : Type κ} (m : M A) (f : A → M B) (s s' : Trackers) (a : A)
    → m s ≡ ok (a, s')
    → (m >>= f) s ≡ f a s'
bind-ok m f s s' a e = rw e
