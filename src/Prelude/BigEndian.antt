-- ===== src/Prelude/BigEndian.antt =====
-- Big-endian numbers: `to_be_bytes` and `from_be_bytes` of Rust's unsigned integers, at any width.
use Prim.Native.Nat.{ℕ, zero, suc, ◌+◌, ◌*◌, ◌/◌, ◌%◌, ◌^◌, ◌<◌}
use mathlib.Core.Path.{◌≡◌, refl}
use mathlib.Core.List.{List, [], ◌∷◌, ◌++◌}
use native.Mathlib.Omega.{arith}
use native.Mathlib.Nat.{pow-suc}
use fuels_rs.Prelude.Lists.{length, length-append}

-- The last byte is the least significant one.
unfoldable pub to_be_bytes : ℕ → ℕ → List ℕ
to_be_bytes zero n = []
to_be_bytes (suc k) n = to_be_bytes k (n / 256) ++ (n % 256 ∷ [])

unfoldable pub be_fold : ℕ → List ℕ → ℕ
be_fold acc [] = acc
be_fold acc (b ∷ bs) = be_fold (acc * 256 + b) bs

unfoldable pub from_be_bytes : List ℕ → ℕ
unfolding be_fold
from_be_bytes bs = be_fold 0 bs

be_fold-append : (acc : ℕ) (xs ys : List ℕ) → be_fold acc (xs ++ ys) ≡ be_fold (be_fold acc xs) ys
unfolding be_fold
be_fold-append acc [] ys = refl
be_fold-append acc (x ∷ xs) ys = be_fold-append (acc * 256 + x) xs ys

pub length-to_be_bytes : (k n : ℕ) → length (to_be_bytes k n) ≡ k
unfolding to_be_bytes
length-to_be_bytes zero n = refl
length-to_be_bytes (suc k) n =
    omega (
      arith,
      length-append (to_be_bytes k (n / 256)) (n % 256 ∷ []),
      length-to_be_bytes k (n / 256),
    )

be_fold-to_be_bytes : (k n : ℕ) → n < 256 ^ k → be_fold 0 (to_be_bytes k n) ≡ n
unfolding be_fold to_be_bytes
be_fold-to_be_bytes zero n h = omega arith
be_fold-to_be_bytes (suc k) n h =
    let small : n / 256 < 256 ^ k = omega (arith, pow-suc 256 k) in
    rw (be_fold-append 0 (to_be_bytes k (n / 256)) (n % 256 ∷ []))
      (omega (arith, be_fold-to_be_bytes k (n / 256) small))

-- A number that fits its width is read back.
pub from_be_bytes-to_be_bytes : (k n : ℕ) → n < 256 ^ k → from_be_bytes (to_be_bytes k n) ≡ n
unfolding from_be_bytes
from_be_bytes-to_be_bytes k n h = be_fold-to_be_bytes k n h

-- Leading zeros do not count.
pub from_be_bytes-zero : (bs : List ℕ) → from_be_bytes (0 ∷ bs) ≡ from_be_bytes bs
unfolding from_be_bytes
from_be_bytes-zero bs = refl

pub from_be_bytes_one : (n : ℕ) → from_be_bytes (n ∷ []) ≡ n
unfolding from_be_bytes
from_be_bytes_one n = omega arith
