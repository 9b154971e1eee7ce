-- ===== src/UnresolvedBytes/Tests.antt =====
-- `resolve` on concrete chunks: pointers, nested dynamic data, and its theorems at these values.
use fuels_rs.Prelude.{ℕ, ◌+◌, ◌≡◌, refl, arith, List, [], ◌∷◌, ◌++◌, drop, length}
use fuels_rs.Prelude.BigEndian.{to_be_bytes}
use fuels_rs.UnresolvedBytes.{
  Chunks, inline, dynamic, nil, cons, append, amount_of_inline_bytes, resolve, resolve_data,
  resolve_loop, size_in_bytes,
}
use fuels_rs.UnresolvedBytes.Resolve.{heap_size, length-resolve, resolve-pointer}

-- Two bytes and data that itself holds a pointer.
abbrev nested : Chunks
nested = cons (inline (1 ∷ 2 ∷ [])) (cons (dynamic (cons (inline (9 ∷ [])) nil)) nil)

abbrev whole : Chunks
whole = append (cons (inline (7 ∷ [])) nil) (cons (dynamic nested) nil)

resolves :
    resolve whole 100
    ≡ 7 ∷ 0 ∷ 0 ∷ 0 ∷ 0 ∷ 0 ∷ 0 ∷ 0 ∷ 109 ∷ 1 ∷ 2 ∷ 0 ∷ 0 ∷ 0 ∷ 0 ∷ 0 ∷ 0 ∷ 0 ∷ 119 ∷ 9 ∷ []
unfolding resolve resolve_data resolve_loop append amount_of_inline_bytes size_in_bytes to_be_bytes
resolves = refl

length-resolve_example : length (resolve whole 100) ≡ amount_of_inline_bytes whole + heap_size whole
length-resolve_example = length-resolve whole 100

resolve-pointer_example :
    (after beyond : List ℕ) × (drop 1 (resolve whole 100) ≡ to_be_bytes 8 109 ++ after)
    × (drop 9 (resolve whole 100) ≡ resolve nested 109 ++ beyond)
unfolding append amount_of_inline_bytes heap_size
resolve-pointer_example = resolve-pointer (cons (inline (7 ∷ [])) nil) nested nil 100 (omega arith)
