-- ===== src/UnresolvedBytes.antt =====
-- fuels-core/src/types/unresolved_bytes.rs: encoded data with places for pointers, and the bytes
-- that it becomes once the address is known at which they are loaded.
pub mod Resolve
mod Tests
use fuels_rs.Prelude.{ℕ, ◌+◌, ◌%◌, ◌^◌, List, [], ◌∷◌, ◌++◌, length}
use fuels_rs.Prelude.BigEndian.{to_be_bytes}
use fuels_rs.Utils.{word_size}

-- `Chunks` is `Vec<Data>`, and also `UnresolvedBytes`, which has one field of that type.
mutual
  pub data Data : Type 0 where
    inline : List ℕ → Data
    dynamic : Chunks → Data

  pub data Chunks : Type 0 where
    nil : Chunks
    cons : Data → Chunks → Chunks

unfoldable pub append : Chunks → Chunks → Chunks
append nil ds = ds
append (cons c cs) ds = cons c (append cs ds)

unfoldable pub size_in_bytes : Data → ℕ
size_in_bytes (inline bytes) = length bytes
size_in_bytes (dynamic cs) = 8

-- Only the pointer of a dynamic chunk is encoded inline.
unfoldable pub amount_of_inline_bytes : Chunks → ℕ
unfolding size_in_bytes
amount_of_inline_bytes nil = 0
amount_of_inline_bytes (cons c cs) = size_in_bytes c + amount_of_inline_bytes cs

-- u64 addition.
abbrev pub add_u64 : ℕ → ℕ → ℕ
add_u64 a b = (a + b) % 2 ^ 64

abbrev join : List ℕ × List ℕ → List ℕ
join (inline_data, dynamic_data) = inline_data ++ dynamic_data

-- The loop of `resolve_data`; a dynamic chunk is resolved at the next free location.
unfoldable pub resolve_loop : Chunks → ℕ → List ℕ → List ℕ → List ℕ × List ℕ
unfolding amount_of_inline_bytes
resolve_loop nil start inline_data dynamic_data = (inline_data, dynamic_data)
resolve_loop (cons (inline bytes) cs) start inline_data dynamic_data =
    resolve_loop cs start (inline_data ++ bytes) dynamic_data
resolve_loop (cons (dynamic c) cs) start inline_data dynamic_data =
    let ptr = add_u64 start (length dynamic_data) in
    let resolved = join (resolve_loop c (add_u64 ptr (amount_of_inline_bytes c)) [] []) in
    resolve_loop cs start (inline_data ++ to_be_bytes 8 ptr) (dynamic_data ++ resolved)

unfoldable pub resolve_data : Chunks → ℕ → List ℕ
unfolding resolve_loop
resolve_data cs start_addr =
    join (resolve_loop cs (add_u64 start_addr (amount_of_inline_bytes cs)) [] [])

unfoldable pub resolve : Chunks → ℕ → List ℕ
unfolding resolve_data
resolve cs start_addr = resolve_data cs start_addr
