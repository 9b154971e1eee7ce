-- ===== src/Codec/Decoder/Safety.antt =====
-- Results that are no panics: of reading bytes, of checked arithmetic and of tracked actions.
use fuels_rs.Prelude.{
  ℕ, ◌+◌, ◌-◌, ◌≤◌, ◌<◌, ◌≡◌, refl, ap, ◌∙◌, sym, arith, ltb, le→ltb, ltb→le, lt→ltb, ==_iff,
  length, take, drop, length-take, length-drop, Bool, true, false, Bool-cases, inl, inr,
  if◌then◌else◌, List,
}
use fuels_rs.Errors
use fuels_rs.Errors.{Result, ok, err, panic, Error, map_err, ok_injective, >>=-eq-ok}
use fuels_rs.Utils.{
  usize_limit, sub_usize, add_usize, to_array, checked_add, checked_mul,
  checked_round_up_to_word_alignment,
}
use fuels_rs.ParamTypes.{
  ParamType, ParamTypes, enum_width, compute_encoding_in_bytes, fold_fields, fold_variants,
}
use fuels_rs.Codec.Counter.{M, Trackers, lift, ◌>>=◌, increase_token, run_w_depth_tracking}
use fuels_rs.Codec.Decoder.{Decode, counted, peek, peek_fixed, peek_padded, skip, from_utf8}

-- A result that is not a panic.
pub data Safe {ℓ} {A : Type ℓ} : Result A → Type ℓ where
  returns : (a : A) → Safe (ok a)
  refuses : (e : Error) → Safe (err e)

pub bind-Safe {ℓ} :
    {A : Type ℓ} {B : Type ℓ} (m : Result A) (f : A → Result B)
    → Safe m
    → ((a : A) → Safe (f a))
    → Safe (Errors.◌>>=◌ m f)
bind-Safe _ f (Safe.returns a) k = k a
bind-Safe _ f (Safe.refuses e) k = Safe.refuses e

pub if-Safe {ℓ} :
    {A : Type ℓ} (b : Bool) (r t : Result A) → Safe r → Safe t → Safe (if b then r else t)
if-Safe true r t h k = h
if-Safe false r t h k = k

-- As `bind-Safe`, where what follows is safe for the value that came before.
pub bind_ok-Safe {ℓ} :
    {A : Type ℓ} {B : Type ℓ} (m : Result A) (f : A → Result B)
    → Safe m
    → ((a : A) → m ≡ ok a → Safe (f a))
    → Safe (Errors.◌>>=◌ m f)
bind_ok-Safe _ f (Safe.returns a) k = k a refl
bind_ok-Safe _ f (Safe.refuses e) k = Safe.refuses e

pub peek-Safe : (bs : List ℕ) (n : ℕ) → Safe (peek bs n)
unfolding peek
peek-Safe bs n = elim (Bool-cases (ltb (length bs) n)) [
  | inl y ↦ rw y (Safe.refuses _)
  | inr k ↦ rw k (Safe.returns _)
]

pub peek-length : (bs : List ℕ) (n : ℕ) (s : List ℕ) → peek bs n ≡ ok s → length s ≡ n
unfolding peek
peek-length bs n s e = elim (Bool-cases (ltb (length bs) n)) [
  | inl y ↦ cc (rw (peek, y) at e)
  | inr k ↦
      let same : take n bs ≡ s = ok_injective (rw (peek, k) at e) in
      ap length (sym same) ∙ length-take n bs (ltb→le (length bs) n k)
]

pub to_array-Safe : (bs : List ℕ) (n : ℕ) → length bs ≡ n → Safe (to_array bs n)
to_array-Safe bs n e = rw ((==_iff (length bs) n).1 e) (Safe.returns _)

pub fixed-Safe : (bs : List ℕ) (n : ℕ) → Safe (peek_fixed bs n)
unfolding peek_fixed
fixed-Safe bs n =
    bind_ok-Safe _ _ (peek-Safe bs n) (λ s e. to_array-Safe s n (peek-length bs n s e))

fixed-length : (bs : List ℕ) (n : ℕ) (s : List ℕ) → peek_fixed bs n ≡ ok s → length s ≡ n
unfolding peek_fixed
fixed-length bs n s e =
    let (t, peeked, e1) = >>=-eq-ok (peek bs n) _ e in
    let len = peek-length bs n t peeked in
    let same : t ≡ s = ok_injective (rw ((==_iff (length t) n).1 len) at e1) in
    ap length (sym same) ∙ len

pub padded-Safe : (bs : List ℕ) (n : ℕ) → n ≤ 8 → Safe (peek_padded bs n)
unfolding peek_padded
padded-Safe bs n le = bind_ok-Safe _ _ (fixed-Safe bs 8) λ s e.
    let len : length s ≡ 8 = fixed-length bs 8 s e in
    rw
      (
        le→ltb (length s) (8 - n) (omega (arith, len)),
        (==_iff (length (drop (8 - n) s)) n).1 (omega (arith, len, length-drop (8 - n) s)),
      )
      (Safe.returns _)

pub sub_usize-Safe : (a b : ℕ) → b ≤ a → Safe (sub_usize a b)
sub_usize-Safe a b le = rw (le→ltb a b le) (Safe.returns _)

pub sub_usize-eq-ok : (a b c : ℕ) → sub_usize a b ≡ ok c → b + c ≡ a
sub_usize-eq-ok a b c e = elim (Bool-cases (ltb a b)) [
  | inl y ↦ cc (rw y at e)
  | inr n ↦ let same : a - b ≡ c = ok_injective (rw n at e) in omega (arith, same, ltb→le a b n)
]

pub add_usize-Safe : (a b : ℕ) → a + b < usize_limit → Safe (add_usize a b)
add_usize-Safe a b lt = rw (lt→ltb (a + b) usize_limit lt) (Safe.returns _)

pub add-Safe : (e : Error) (a b : ℕ) → Safe (checked_add e a b)
unfolding checked_add
add-Safe e a b = if-Safe _ _ _ (Safe.returns _) (Safe.refuses _)

pub round_up-Safe : (n : ℕ) → Safe (checked_round_up_to_word_alignment n)
unfolding checked_round_up_to_word_alignment
round_up-Safe n = bind-Safe _ _ (add-Safe _ n 7) (λ a. Safe.returns _)

pub enum_width-Safe : (vs : ParamTypes) (r : Result ℕ) → Safe r → Safe (enum_width vs r)
unfolding enum_width
enum_width-Safe vs r h =
    if-Safe _ _ _ (Safe.returns _)
      (bind-Safe r _ h (λ w. bind-Safe _ _ (round_up-Safe w) (λ n. add-Safe _ n 8)))

pub skip-Safe : (bs : List ℕ) (n : ℕ) → Safe (skip bs n)
unfolding skip
skip-Safe bs n = elim (Bool-cases (ltb (length bs) n)) [
  | inl y ↦ rw y (Safe.refuses _)
  | inr k ↦ rw k (Safe.returns _)
]

pub from_utf8-Safe : (bs : List ℕ) → Safe (from_utf8 bs)
unfolding from_utf8
from_utf8-Safe bs = if-Safe _ _ _ (Safe.returns _) (Safe.refuses _)

pub mul-Safe : (e : Error) (a b : ℕ) → Safe (checked_mul e a b)
unfolding checked_mul
mul-Safe e a b = if-Safe _ _ _ (Safe.returns _) (Safe.refuses _)

pub map_err-Safe {ℓ} : {A : Type ℓ} (e : Error) (m : Result A) → Safe m → Safe (map_err e m)
map_err-Safe e _ (Safe.returns a) = Safe.returns a
map_err-Safe e _ (Safe.refuses e') = Safe.refuses e

mutual
  unfolding compute_encoding_in_bytes

  pub compute-Safe : (p : ParamType) → Safe (compute_encoding_in_bytes p)
  compute-Safe (ParamType.array p n) = bind-Safe _ _ (compute-Safe p) (λ w. mul-Safe _ w n)
  compute-Safe (ParamType.string_array n) = map_err-Safe _ _ (round_up-Safe n)
  compute-Safe (ParamType.tuple ps) = fields-Safe ps 0
  compute-Safe (ParamType.struct ps gs) = fields-Safe ps 0
  compute-Safe (ParamType.enum vs gs) = map_err-Safe _ _ (enum_width-Safe vs _ (variants-Safe vs 0))
  compute-Safe ParamType.unit = Safe.returns _
  compute-Safe _ = Safe.returns _

  pub fields-Safe : (ps : ParamTypes) (a : ℕ) → Safe (fold_fields ps a)
  fields-Safe ParamTypes.nil a = Safe.returns _
  fields-Safe (ParamTypes.cons p ps) a =
      bind-Safe _ _ (compute-Safe p) (λ w.
        bind-Safe _ _ (round_up-Safe w) (λ n. bind-Safe _ _ (add-Safe _ a n) (fields-Safe ps)))

  pub variants-Safe : (ps : ParamTypes) (a : ℕ) → Safe (fold_variants ps a)
  variants-Safe ParamTypes.nil a = Safe.returns _
  variants-Safe (ParamTypes.cons p ps) a = bind-Safe _ _ (compute-Safe p) (λ w. variants-Safe ps _)

abbrev pub SafeM {ℓ} : {A : Type ℓ} → M A → Type ℓ
SafeM m = (s : Trackers) → Safe (m s)

module _ {A : Type 0} {B : Type 0} where
  pub then-Safe : (m : M A) (f : A → M B) → SafeM m → ((a : A) → SafeM (f a)) → SafeM (m >>= f)
  then-Safe m f h k s = bind-Safe (m s) _ (h s) (λ (a, s'). k a s')

-- What follows a lifted result is safe for the value of that result.
pub lift_ok-Safe :
    {A : Type 0} {B : Type 0} (r : Result A) (f : A → M B)
    → Safe r
    → ((a : A) → r ≡ ok a → SafeM (f a))
    → SafeM (lift r >>= f)
lift_ok-Safe _ f (Safe.returns a) k s = k a refl s
lift_ok-Safe _ f (Safe.refuses e) k s = Safe.refuses e

pub lift-Safe : {A : Type 0} (r : Result A) → Safe r → SafeM (lift r)
lift-Safe r h s = bind-Safe r _ h (λ a. Safe.returns _)

pub tracked-Safe : {A : Type 0} (m : M A) → SafeM m → SafeM (run_w_depth_tracking m)
unfolding run_w_depth_tracking
tracked-Safe m h s =
    bind-Safe _ _
      (bind-Safe _ _ (if-Safe _ _ _ (Safe.refuses _) (Safe.returns _)) (λ c. Safe.returns _))
      (λ (u, s₁). bind-Safe _ _ (h s₁) (λ (a, s₂). Safe.returns _))

pub counted-Safe :
    (d : Decode) → ((bs : List ℕ) → SafeM (d bs)) → (bs : List ℕ) → SafeM (counted d bs)
unfolding increase_token
counted-Safe d h bs s =
    bind-Safe _ _
      (bind-Safe _ _ (if-Safe _ _ _ (Safe.refuses _) (Safe.returns _)) (λ c. Safe.returns _))
      (λ (u, s₁). h bs s₁)
