-- ===== src/ParamTypes/Width.antt =====
-- The width of an encoding in plain arithmetic, and `compute_encoding_in_bytes` against it.
use fuels_rs.Prelude.{
  ap, ◌∙◌, ℕ, ◌+◌, ◌*◌, ◌<◌, max, ◌≡◌, arith, if◌then◌else◌, Bool-cases, inl, inr,
}
use fuels_rs.Errors.{
  Result, ok, err, panic, codec, other, map_err, size_overflow, too_wide, >>=-eq-ok, Error,
}
use fuels_rs.Utils.{
  usize_limit, round_up, checked_round_up_to_word_alignment, checked_add, checked_round_up-eq-ok,
  checked_add-eq-ok, checked_mul-eq-ok,
}
use fuels_rs.ParamTypes.{
  ParamType, ParamTypes, unit, bool, u8, u16, u32, u64, u128, u256, b256, bytes, string, raw_slice,
  string_slice, string_array, tuple, array, vector, struct, enum, nil, cons, only_units_inside,
  enum_width, compute_encoding_in_bytes, fold_fields, fold_variants,
}

-- Fields are aligned to words; an enum is a word and its widest variant, or a word alone.
unfoldable mutual
  pub width : ParamType → ℕ
  width unit = 1
  width bool = 1
  width u8 = 1
  width u16 = 8
  width u32 = 8
  width u64 = 8
  width u128 = 16
  width raw_slice = 16
  width string_slice = 16
  width u256 = 32
  width b256 = 32
  width (vector p) = 24
  width bytes = 24
  width string = 24
  width (array p n) = width p * n
  width (string_array n) = round_up n
  width (tuple ps) = width_fields ps
  width (struct ps gs) = width_fields ps
  width (enum vs gs) = if only_units_inside vs then 8 else round_up (widest vs) + 8

  pub width_fields : ParamTypes → ℕ
  width_fields nil = 0
  width_fields (cons p ps) = round_up (width p) + width_fields ps

  pub widest : ParamTypes → ℕ
  widest nil = 0
  widest (cons p ps) = max (width p) (widest ps)

map_err-eq-ok : (e : Error) (m : Result ℕ) {a : ℕ} → map_err e m ≡ ok a → m ≡ ok a
map_err-eq-ok e (ok a) h = h
map_err-eq-ok e (err x) h = cc
map_err-eq-ok e panic h = cc

-- A width that was computed is that of the widest variant, or of a discriminant alone.
pub enum_width-eq-ok :
    (vs : ParamTypes) (m : Result ℕ) {w : ℕ}
    → enum_width vs m ≡ ok w
    → ((n : ℕ) → m ≡ ok n → n ≡ widest vs)
    → (w ≡ (if only_units_inside vs then 8 else round_up (widest vs) + 8)) × (w < usize_limit)
unfolding enum_width
enum_width-eq-ok vs m h k = elim (Bool-cases (only_units_inside vs)) [
  | inl u ↦ let h' = rw (u, enum_width) at h in rw u (ground arith)
  | inr u ↦
      let (n, em, h₁) = >>=-eq-ok m _ (rw (u, enum_width) at h) in
      let (r, er, h₂) = >>=-eq-ok (checked_round_up_to_word_alignment n) _ h₁ in
      let (lt, e) = checked_add-eq-ok (other too_wide) r 8 h₂ in
      let (lt', e') = checked_round_up-eq-ok n er in rw (u, ← k n em) (omega arith, omega arith)
]

mutual
  unfolding compute_encoding_in_bytes width

  compute-eq-ok :
      (p : ParamType) {w : ℕ}
      → compute_encoding_in_bytes p ≡ ok w
      → (w ≡ width p) × (w < usize_limit)
  compute-eq-ok (array p n) h =
      let (s, e, h₁) = >>=-eq-ok (compute_encoding_in_bytes p) _ h in
      let (es, lt) = compute-eq-ok p e in
      let (lt', e') = checked_mul-eq-ok (codec size_overflow) s n h₁ in
      (e' ∙ ap (λ (x : ℕ). x * n) es, omega arith)
  compute-eq-ok (string_array n) h =
      let (lt, e) = checked_round_up-eq-ok n (map_err-eq-ok (codec size_overflow) _ h) in
      (e, omega arith)
  compute-eq-ok (tuple ps) h =
      let (e, lt) = fold_fields-eq-ok ps 0 (omega arith) h in (omega arith, lt)
  compute-eq-ok (struct ps gs) h =
      let (e, lt) = fold_fields-eq-ok ps 0 (omega arith) h in (omega arith, lt)
  compute-eq-ok (enum vs gs) h =
      enum_width-eq-ok vs (fold_variants vs 0) (map_err-eq-ok (codec size_overflow) _ h)
        (λ n e. omega (arith, fold_variants-eq-ok vs 0 e))
  compute-eq-ok unit h = ground arith
  compute-eq-ok _ h = ground arith

  fold_fields-eq-ok :
      (ps : ParamTypes) (a : ℕ) {w : ℕ}
      → a < usize_limit
      → fold_fields ps a ≡ ok w
      → (w ≡ a + width_fields ps) × (w < usize_limit)
  fold_fields-eq-ok nil a lt h = ground arith
  fold_fields-eq-ok (cons p ps) a lt h =
      let (s, e, h₁) = >>=-eq-ok (compute_encoding_in_bytes p) _ h in
      let (r, er, h₂) = >>=-eq-ok (checked_round_up_to_word_alignment s) _ h₁ in
      let (t, et, h₃) = >>=-eq-ok (checked_add (codec size_overflow) a r) _ h₂ in
      let (es, _) = compute-eq-ok p e in
      let (_, er') = checked_round_up-eq-ok s er in
      let (lt', et') = checked_add-eq-ok (codec size_overflow) a r et in
      let (e', lt'') = fold_fields-eq-ok ps t (omega arith) h₃ in (omega arith, lt'')

  pub fold_variants-eq-ok :
      (ps : ParamTypes) (a : ℕ) {w : ℕ} → fold_variants ps a ≡ ok w → w ≡ max a (widest ps)
  fold_variants-eq-ok nil a h = ground arith
  fold_variants-eq-ok (cons p ps) a h =
      let (s, e, h₁) = >>=-eq-ok (compute_encoding_in_bytes p) _ h in
      omega (arith, compute-eq-ok p e, fold_variants-eq-ok ps (max a s) h₁)

-- A width that `compute_encoding_in_bytes` returns is the arithmetic width, and fits a usize.
pub compute_encoding_in_bytes-width :
    (p : ParamType) (w : ℕ) → compute_encoding_in_bytes p ≡ ok w → (w ≡ width p) × (w < usize_limit)
compute_encoding_in_bytes-width p w h = compute-eq-ok p h
