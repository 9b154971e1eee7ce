-- ===== src/Prelude/Utf8.antt =====
-- `str::from_utf8`: which byte sequences are UTF-8, and that ASCII is.
use Prim.Native.Nat.{ℕ}
use mathlib.Core.Path.{◌≡◌, refl}
use mathlib.Core.Bool.{Bool, true, false, ◌&&◌}
use mathlib.Core.List.{List, [], ◌∷◌}
use mathlib.Core.Option.{Option, none, some}
use native.Mathlib.Omega.{arith}
use fuels_rs.Prelude.Tests.{ltb, leb, ◌==◌, if◌then◌else◌}
use fuels_rs.Prelude.Lists.{all}

-- The ranges in which the bytes that follow a first byte must lie; `none` for no first byte.
utf8_tail : ℕ → Option (List (ℕ × ℕ))
utf8_tail b =
    if ltb b 0x80
    then some []
    else if ltb b 0xc2
    then none
    else if ltb b 0xe0
    then some ((0x80, 0xbf) ∷ [])
    else if b == 0xe0
    then some ((0xa0, 0xbf) ∷ (0x80, 0xbf) ∷ [])
    else if b == 0xed
    then some ((0x80, 0x9f) ∷ (0x80, 0xbf) ∷ [])
    else if ltb b 0xf0
    then some ((0x80, 0xbf) ∷ (0x80, 0xbf) ∷ [])
    else if b == 0xf0
    then some ((0x90, 0xbf) ∷ (0x80, 0xbf) ∷ (0x80, 0xbf) ∷ [])
    else if ltb b 0xf4
    then some ((0x80, 0xbf) ∷ (0x80, 0xbf) ∷ (0x80, 0xbf) ∷ [])
    else if b == 0xf4
    then some ((0x80, 0x8f) ∷ (0x80, 0xbf) ∷ (0x80, 0xbf) ∷ [])
    else none

-- The first argument holds the ranges that are still due.
utf8_from : List (ℕ × ℕ) → List ℕ → Bool
utf8_from [] [] = true
utf8_from (r ∷ rs) [] = false
utf8_from [] (b ∷ bs) = elim (utf8_tail b) [ none ↦ false | some due ↦ utf8_from due bs ]
utf8_from ((lo, hi) ∷ rs) (b ∷ bs) = leb lo b && leb b hi && utf8_from rs bs

unfoldable pub is_utf8 : List ℕ → Bool
unfolding utf8_from utf8_tail
is_utf8 bs = utf8_from [] bs

unfoldable pub is_ascii : List ℕ → Bool
is_ascii bs = all (λ b. ltb b 0x80) bs

ascii_utf8 : (bs : List ℕ) → is_ascii bs ≡ true → utf8_from [] bs ≡ true
unfolding is_ascii utf8_from utf8_tail
ascii_utf8 [] h = refl
ascii_utf8 (b ∷ bs) h = ground (arith, ascii_utf8 bs)

pub is_utf8-is_ascii : (bs : List ℕ) → is_ascii bs ≡ true → is_utf8 bs ≡ true
unfolding is_utf8
is_utf8-is_ascii bs h = ascii_utf8 bs h
