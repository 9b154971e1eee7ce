-- ===== src/AsciiStrings.antt =====
-- fuels-core/src/types/core/sized_ascii_string.rs: strings that contracts take. A string is the list of
-- its UTF-8 bytes, and the const parameter `LEN` is an argument.
mod Tests
use fuels_rs.Prelude.{
  ℕ, ◌+◌, ◌-◌, ◌≤◌, ◌<◌, ◌≡◌, refl, ap, arith, ltb, le→ltb, leb, ◌==◌, ==_iff, if◌then◌else◌, Bool,
  true, false, not, ◌&&◌, List, [], ◌∷◌, ◌++◌, length, replicate, length-append, length-replicate,
  all, zero, suc,
}
use fuels_rs.Prelude.Utf8.{is_ascii}
use fuels_rs.Errors.{Result, ok, err, other, ascii_only, sized_length, sized_too_long}

-- `AsciiString::new`, by its data.
unfoldable pub new_ascii_string : List ℕ → Result (List ℕ)
new_ascii_string bytes = if not (is_ascii bytes) then err (other ascii_only) else ok bytes

-- `SizedAsciiString::<LEN>::new`, by its data.
unfoldable pub new_sized_ascii_string : ℕ → List ℕ → Result (List ℕ)
new_sized_ascii_string len bytes =
    if not (is_ascii bytes)
    then err (other ascii_only)
    else if not (length bytes == len)
    then err (other (sized_length len))
    else ok bytes

-- The number of `char`s: bytes from 0x80 to 0xbf continue one.
unfoldable pub chars : List ℕ → ℕ
chars [] = 0
chars (b ∷ bytes) = (if leb 0x80 b && ltb b 0xc0 then 0 else 1) + chars bytes

-- `format!("{:LEN$}")` pads to a number of `char`s.
unfoldable pub new_with_right_whitespace_padding : ℕ → List ℕ → Result (List ℕ)
unfolding chars
new_with_right_whitespace_padding len bytes =
    if ltb len (length bytes)
    then err (other (sized_too_long len (length bytes)))
    else ok (bytes ++ replicate (len - chars bytes) 32)

chars-IsAscii : (bytes : List ℕ) → is_ascii bytes ≡ true → chars bytes ≡ length bytes
unfolding chars is_ascii
chars-IsAscii [] h = refl
chars-IsAscii (b ∷ bytes) h = ground (arith, chars-IsAscii bytes)

is_ascii-pad :
    (bytes : List ℕ) (n : ℕ) → is_ascii bytes ≡ true → is_ascii (bytes ++ replicate n 32) ≡ true
unfolding is_ascii
is_ascii-pad [] zero h = refl
is_ascii-pad [] (suc n) h = is_ascii-pad [] n h
is_ascii-pad (b ∷ bytes) n h = ground (arith, is_ascii-pad bytes n)

-- An ASCII string that is no longer than `LEN` is padded to a string that `SizedAsciiString::new`
-- accepts, by spaces behind it.
pub new_with_right_whitespace_padding-new :
    (len : ℕ) (bytes : List ℕ)
    → is_ascii bytes ≡ true
    → length bytes ≤ len
    → (padded : List ℕ) × (new_with_right_whitespace_padding len bytes ≡ ok padded)
      × (new_sized_ascii_string len padded ≡ ok padded)
      × (padded ≡ bytes ++ replicate (len - length bytes) 32)
unfolding new_with_right_whitespace_padding new_sized_ascii_string
new_with_right_whitespace_padding-new len bytes a le =
    let n = len - chars bytes in
    let padded = bytes ++ replicate n 32 in
    let size : length padded ≡ len = omega (
      arith,
      length-append bytes (replicate n 32),
      length-replicate {A = ℕ} n 32,
      chars-IsAscii bytes a,
    ) in
    (
      padded,
      rw (le→ltb len (length bytes) le) refl,
      rw (is_ascii-pad bytes n a, (==_iff (length padded) len).1 size) refl,
      ap (λ k. bytes ++ replicate (len - k) 32) (chars-IsAscii bytes a),
    )

-- A string no longer than `LEN` in which some `char` takes more than one byte is accepted by
-- `new_with_right_whitespace_padding`, and the result is longer than `LEN`.
pub new_with_right_whitespace_padding-longer :
    (len : ℕ) (bytes : List ℕ)
    → length bytes ≤ len
    → chars bytes < length bytes
    → (padded : List ℕ) × (new_with_right_whitespace_padding len bytes ≡ ok padded)
      × (len < length padded)
unfolding new_with_right_whitespace_padding
new_with_right_whitespace_padding-longer len bytes le lt =
    let n = len - chars bytes in
    (
      bytes ++ replicate n 32,
      rw (le→ltb len (length bytes) le) refl,
      omega (arith, length-append bytes (replicate n 32), length-replicate {A = ℕ} n 32),
    )
