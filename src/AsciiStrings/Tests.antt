-- ===== src/AsciiStrings/Tests.antt =====
-- Padding of concrete strings.
use fuels_rs.Prelude.{ℕ, ◌-◌, ◌<◌, ◌≡◌, refl, arith, List, [], ◌∷◌, ◌++◌, length, replicate}
use fuels_rs.Prelude.Utf8.{is_ascii}
use fuels_rs.Errors.{ok, err, other, ascii_only}
use fuels_rs.AsciiStrings.{
  chars, new_ascii_string, new_sized_ascii_string, new_with_right_whitespace_padding,
  new_with_right_whitespace_padding-new, new_with_right_whitespace_padding-longer,
}

refused : new_ascii_string (0xc3 ∷ 0xa9 ∷ []) ≡ err (other ascii_only)
unfolding new_ascii_string is_ascii
refused = refl

new_with_right_whitespace_padding-new_example :
    (padded : List ℕ) × (new_with_right_whitespace_padding 4 (104 ∷ 105 ∷ []) ≡ ok padded)
    × (new_sized_ascii_string 4 padded ≡ ok padded)
    × (padded ≡ (104 ∷ 105 ∷ []) ++ replicate (4 - 2) 32)
unfolding is_ascii
new_with_right_whitespace_padding-new_example =
    new_with_right_whitespace_padding-new 4 (104 ∷ 105 ∷ []) refl (omega arith)

-- An e with an acute accent takes two bytes.
new_with_right_whitespace_padding-longer_example :
    (padded : List ℕ) × (new_with_right_whitespace_padding 3 (0xc3 ∷ 0xa9 ∷ []) ≡ ok padded)
    × (3 < length padded)
unfolding chars
new_with_right_whitespace_padding-longer_example =
    new_with_right_whitespace_padding-longer 3 (0xc3 ∷ 0xa9 ∷ []) (omega arith) (omega arith)
