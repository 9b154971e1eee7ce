-- ===== src/Codec/Decoder/Peek.antt =====
-- Reading from the front of some bytes, and from a position within them.
use fuels_rs.Prelude.{
  ==_iff, ℕ, ◌+◌, ◌-◌, ◌≤◌, ◌<◌, ◌^◌, ◌≡◌, sym, ap, ◌∙◌, arith, le→ltb, List, ◌++◌, length, drop,
  length-append, length-drop, length-replicate, take-append_eq, drop-append_eq, drop-drop,
}
use fuels_rs.Prelude.BigEndian.{to_be_bytes, from_be_bytes-to_be_bytes, length-to_be_bytes}
use fuels_rs.Errors.{ok}
use fuels_rs.Codec.Decoder.{peek, peek_fixed, skip, peek_number, peek_padded}
use fuels_rs.Codec.Format.{zeros}

pub peek-append : (xs rest : List ℕ) (n : ℕ) → length xs ≡ n → peek (xs ++ rest) n ≡ ok xs
unfolding peek
peek-append xs rest n e = rw (
  le→ltb (length (xs ++ rest)) n (omega (arith, length-append xs rest)),
  take-append_eq n xs rest e,
)

pub skip-append : (xs rest : List ℕ) (n : ℕ) → length xs ≡ n → skip (xs ++ rest) n ≡ ok rest
unfolding skip
skip-append xs rest n e = rw (
  le→ltb (length (xs ++ rest)) n (omega (arith, length-append xs rest)),
  drop-append_eq n xs rest e,
)

pub peek_fixed-append :
    (xs rest : List ℕ) (n : ℕ) → length xs ≡ n → peek_fixed (xs ++ rest) n ≡ ok xs
unfolding peek_fixed
peek_fixed-append xs rest n e = rw (peek-append xs rest n e, (==_iff (length xs) n).1 e)

pub peek_number-append :
    (k n : ℕ) (rest : List ℕ) → n < 256 ^ k → peek_number (to_be_bytes k n ++ rest) k ≡ ok n
unfolding peek_number
peek_number-append k n rest h = rw (
  peek_fixed-append (to_be_bytes k n) rest k (length-to_be_bytes k n),
  from_be_bytes-to_be_bytes k n h,
)

pub peek_padded-append :
    (k n : ℕ) (rest : List ℕ)
    → k ≤ 8
    → n < 256 ^ k
    → peek_padded ((zeros (8 - k) ++ to_be_bytes k n) ++ rest) k ≡ ok n
unfolding peek_padded
peek_padded-append k n rest le h =
    let word = zeros (8 - k) ++ to_be_bytes k n in
    let word_length : length word ≡ 8 = omega (
      arith,
      length-append (zeros (8 - k)) (to_be_bytes k n),
      length-replicate {A = ℕ} (8 - k) 0,
      length-to_be_bytes k n,
    ) in
    rw (
      peek_fixed-append word rest 8 word_length,
      le→ltb (length word) (8 - k) (omega (arith, word_length)),
      drop-append_eq (8 - k) (zeros (8 - k)) (to_be_bytes k n) (length-replicate {A = ℕ} (8 - k) 0),
      (==_iff (length (to_be_bytes k n)) k).1 (length-to_be_bytes k n),
      from_be_bytes-to_be_bytes k n h,
    )

-- `rest` is what stands from position `k` on.
abbrev pub At : List ℕ → ℕ → List ℕ → Type 0
At bytes k rest = (k ≤ length bytes) × (drop k bytes ≡ rest)

pub skip-At : (bytes : List ℕ) (k : ℕ) (rest : List ℕ) → At bytes k rest → skip bytes k ≡ ok rest
unfolding skip
skip-At bytes k rest (le, e) = rw (le→ltb (length bytes) k le, e)

pub At-advance :
    (bytes : List ℕ) (k n : ℕ) (xs rest : List ℕ)
    → At bytes k (xs ++ rest)
    → length xs ≡ n
    → At bytes (k + n) rest
At-advance bytes k n xs rest (le, e) len = (
  omega (arith, length-drop k bytes, ap length e, length-append xs rest),
  sym (drop-drop k n bytes) ∙ ap (drop n) e ∙ drop-append_eq n xs rest len,
)
