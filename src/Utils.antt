-- ===== src/Utils.antt =====
-- fuels-core/src/utils.rs and utils/constants.rs: word alignment, checked `usize` arithmetic.
use fuels_rs.Prelude.{
  ℕ, ◌+◌, ◌-◌, ◌*◌, ◌%◌, ◌^◌, ◌≤◌, ◌<◌, ◌≡◌, ltb, if◌then◌else◌, ◌==◌, List, [], ◌∷◌, length, take,
  drop, arith,
}
use fuels_rs.Errors.{Result, ok, err, panic, codec, addition_overflow, ◌>>=◌, Error}

-- `WORD_SIZE`, the size of fuel_tx's `Word`, an alias of u64.
abbrev pub word_size : ℕ
word_size = 8

abbrev pub enum_discriminant_byte_width : ℕ
enum_discriminant_byte_width = 8

-- `WITNESS_STATIC_SIZE`
abbrev pub witness_static_size : ℕ
witness_static_size = 8

-- usize is 64 bits wide.
abbrev pub usize_limit : ℕ
usize_limit = 2 ^ 64

-- `checked_add` and `checked_mul` with the error of their `ok_or_else`.
unfoldable pub checked_add : Error → ℕ → ℕ → Result ℕ
checked_add e a b = if ltb (a + b) usize_limit then ok (a + b) else err e

-- `a - b` and `a + b` of usize, which out of range panic in a build that checks for overflow.
abbrev pub sub_usize : ℕ → ℕ → Result ℕ
sub_usize a b = if ltb a b then panic else ok (a - b)

abbrev pub add_usize : ℕ → ℕ → Result ℕ
add_usize a b = if ltb (a + b) usize_limit then ok (a + b) else panic

-- `&bytes[..len]`, `&bytes[num_bytes..]` and the conversion to an array of `len` bytes, which panic
-- if there are too few bytes, or not just as many.
abbrev pub slice_to : List ℕ → ℕ → Result (List ℕ)
slice_to bytes len = if ltb (length bytes) len then panic else ok (take len bytes)

abbrev pub slice_from : List ℕ → ℕ → Result (List ℕ)
slice_from bytes num_bytes =
    if ltb (length bytes) num_bytes then panic else ok (drop num_bytes bytes)

abbrev pub to_array : List ℕ → ℕ → Result (List ℕ)
to_array bytes len = if length bytes == len then ok bytes else panic

unfoldable pub checked_mul : Error → ℕ → ℕ → Result ℕ
checked_mul e a b = if ltb (a * b) usize_limit then ok (a * b) else err e

-- `checked_rem` by a nonzero constant and `checked_sub` of a remainder never fail.
unfoldable pub checked_round_up_to_word_alignment : ℕ → Result ℕ
unfolding checked_add
checked_round_up_to_word_alignment bytes_len = do
  lhs ← checked_add (codec (addition_overflow bytes_len)) bytes_len (word_size - 1)
  ok (lhs - lhs % word_size)

-- A witness is a sequence of bytes.
unfoldable pub calculate_witnesses_size : List (List ℕ) → ℕ
calculate_witnesses_size [] = 0
calculate_witnesses_size (w ∷ ws) = length w + witness_static_size + calculate_witnesses_size ws

-- The least multiple of the word size that is not below `n`.
abbrev pub round_up : ℕ → ℕ
round_up n = n + 7 - (n + 7) % 8

-- Below the last word of the address space rounding succeeds, and never elsewhere.
pub checked_round_up-eq :
    (n : ℕ) → n + 7 < usize_limit → checked_round_up_to_word_alignment n ≡ ok (round_up n)
unfolding checked_round_up_to_word_alignment
checked_round_up-eq n h = ground arith

pub checked_round_up-eq-ok :
    (n : ℕ) {m : ℕ}
    → checked_round_up_to_word_alignment n ≡ ok m
    → (n + 7 < usize_limit) × (m ≡ round_up n)
unfolding checked_round_up_to_word_alignment
checked_round_up-eq-ok n h = ground arith

pub round_up_bounds : (n : ℕ) → (n ≤ round_up n) × (round_up n < n + 8) × (round_up n % 8 ≡ 0)
round_up_bounds n = omega arith

pub checked_add-eq-ok :
    (e : Error) (a b : ℕ) {c : ℕ} → checked_add e a b ≡ ok c → (a + b < usize_limit) × (c ≡ a + b)
unfolding checked_add
checked_add-eq-ok e a b h = ground arith

pub checked_add-eq : (e : Error) (a b : ℕ) → a + b < usize_limit → checked_add e a b ≡ ok (a + b)
unfolding checked_add
checked_add-eq e a b h = ground arith

pub checked_mul-eq-ok :
    (e : Error) (a b : ℕ) {c : ℕ} → checked_mul e a b ≡ ok c → (a * b < usize_limit) × (c ≡ a * b)
unfolding checked_mul
checked_mul-eq-ok e a b h = ground arith

pub checked_mul-eq : (e : Error) (a b : ℕ) → a * b < usize_limit → checked_mul e a b ≡ ok (a * b)
unfolding checked_mul
checked_mul-eq e a b h = ground arith
