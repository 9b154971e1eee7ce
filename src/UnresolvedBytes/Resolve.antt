-- ===== src/UnresolvedBytes/Resolve.antt =====
-- fuels-core/src/types/unresolved_bytes.rs: what `resolve` writes, and that its pointers point there.
use fuels_rs.Prelude.{
  ℕ, ◌+◌, ◌<◌, ◌^◌, ◌≡◌, refl, sym, ap, ◌∙◌, arith, List, [], ◌++◌, length, drop, length-append,
  drop-append_eq, append_assoc, append-nil,
}
use fuels_rs.Prelude.BigEndian.{to_be_bytes, length-to_be_bytes}
use fuels_rs.UnresolvedBytes.{
  Chunks, inline, dynamic, nil, cons, append, amount_of_inline_bytes, add_u64, join, resolve_loop,
  resolve,
}

-- The bytes behind the inline ones.
unfoldable pub heap_size : Chunks → ℕ
heap_size nil = 0
heap_size (cons (inline bs) cs) = heap_size cs
heap_size (cons (dynamic c) cs) = amount_of_inline_bytes c + heap_size c + heap_size cs

length-loop :
    (cs : Chunks) (start : ℕ) (i d : List ℕ)
    → (length (resolve_loop cs start i d).0 ≡ length i + amount_of_inline_bytes cs)
      × (length (resolve_loop cs start i d).1 ≡ length d + heap_size cs)
unfolding resolve_loop amount_of_inline_bytes heap_size
length-loop nil start i d = omega arith
length-loop (cons (inline bs) cs) start i d =
    omega (arith, length-loop cs start (i ++ bs) d, length-append i bs)
length-loop (cons (dynamic c) cs) start i d =
    let ptr = add_u64 start (length d) in
    let (ci, cd) = resolve_loop c (add_u64 ptr (amount_of_inline_bytes c)) [] [] in
    omega (
      arith,
      length-loop c (add_u64 ptr (amount_of_inline_bytes c)) [] [],
      length-append ci cd,
      length-loop cs start (i ++ to_be_bytes 8 ptr) (d ++ (ci ++ cd)),
      length-append i (to_be_bytes 8 ptr),
      length-to_be_bytes 8 ptr,
      length-append d (ci ++ cd),
    )

-- Resolved data is as long as the inline bytes and the data behind them, wherever it is loaded.
pub length-resolve :
    (cs : Chunks) (addr : ℕ) → length (resolve cs addr) ≡ amount_of_inline_bytes cs + heap_size cs
unfolding resolve
length-resolve cs addr =
    let (i, d) = resolve_loop cs (add_u64 addr (amount_of_inline_bytes cs)) [] [] in
    omega
      (arith, length-append i d, length-loop cs (add_u64 addr (amount_of_inline_bytes cs)) [] [])

both : {a a' b b' : List ℕ} → a ≡ a' → b ≡ b' → ◌≡◌ {A = List ℕ × List ℕ} (a, b) (a', b')
both p q = λ k. (p k, q k)

-- The loop only adds behind what it has.
loop-prefix :
    (cs : Chunks) (start : ℕ) (i d : List ℕ)
    → (a b : List ℕ) × (resolve_loop cs start i d ≡ (i ++ a, d ++ b))
unfolding resolve_loop
loop-prefix nil start i d = ([], [], both (sym (append-nil i)) (sym (append-nil d)))
loop-prefix (cons (inline bs) cs) start i d =
    let (a, b, e) = loop-prefix cs start (i ++ bs) d in
    (bs ++ a, b, e ∙ ap (λ r. (r, d ++ b)) (append_assoc i bs a))
loop-prefix (cons (dynamic c) cs) start i d =
    let ptr = add_u64 start (length d) in
    let resolved = join (resolve_loop c (add_u64 ptr (amount_of_inline_bytes c)) [] []) in
    let (a, b, e) = loop-prefix cs start (i ++ to_be_bytes 8 ptr) (d ++ resolved) in
    (
      to_be_bytes 8 ptr ++ a,
      resolved ++ b,
      e ∙ both (append_assoc i (to_be_bytes 8 ptr) a) (append_assoc d resolved b),
    )

loop-append :
    (cs ds : Chunks) (start : ℕ) (i d : List ℕ)
    → resolve_loop (append cs ds) start i d
      ≡ resolve_loop ds start (resolve_loop cs start i d).0 (resolve_loop cs start i d).1
unfolding resolve_loop append
loop-append nil ds start i d = refl
loop-append (cons (inline bs) cs) ds start i d = loop-append cs ds start (i ++ bs) d
loop-append (cons (dynamic c) cs) ds start i d =
    let ptr = add_u64 start (length d) in
    let resolved = join (resolve_loop c (add_u64 ptr (amount_of_inline_bytes c)) [] []) in
    loop-append cs ds start (i ++ to_be_bytes 8 ptr) (d ++ resolved)

amount-append_dynamic :
    (pre post : Chunks) (c : Chunks)
    → amount_of_inline_bytes (append pre (cons (dynamic c) post))
      ≡ amount_of_inline_bytes pre + 8 + amount_of_inline_bytes post
unfolding append amount_of_inline_bytes
amount-append_dynamic nil post c = omega arith
amount-append_dynamic (cons x pre) post c = omega (arith, amount-append_dynamic pre post c)

-- Where a dynamic chunk between others goes, if the data fits the address space.
module _ (pre : Chunks) (c : Chunks) (post : Chunks) (addr : ℕ) where
  abbrev all : Chunks
  all = append pre (cons (dynamic c) post)

  -- The offset of the chunk's own data: behind all inline bytes and the data of earlier chunks.
  abbrev pub offset_of : ℕ
  offset_of = amount_of_inline_bytes all + heap_size pre

  resolve-dynamic :
      addr + offset_of < 2 ^ 64
      → (front a b d : List ℕ) × (length front ≡ amount_of_inline_bytes pre)
        × (length d ≡ heap_size pre)
        × (length (front ++ (to_be_bytes 8 (addr + offset_of) ++ a)) ≡ amount_of_inline_bytes all)
        × (resolve all addr
            ≡ (front ++ (to_be_bytes 8 (addr + offset_of) ++ a))
              ++ (d ++ (resolve c (addr + offset_of) ++ b)))
  unfolding resolve
  resolve-dynamic fits =
      let start = add_u64 addr (amount_of_inline_bytes all) in
      let before = resolve_loop pre start [] [] in
      let front : List ℕ = before.0 in
      let d : List ℕ = before.1 in
      let ptr = add_u64 start (length d) in
      let (lf, ld) = length-loop pre start [] [] in
      let at : ptr ≡ addr + offset_of = omega (arith, ld) in
      let (a, b, e) = loop-prefix post start (front ++ to_be_bytes 8 ptr) (d ++ resolve c ptr) in
      let (la, _) = length-loop post start (front ++ to_be_bytes 8 ptr) (d ++ resolve c ptr) in
      let inline_part = front ++ (to_be_bytes 8 (addr + offset_of) ++ a) in
      (
        front,
        a,
        b,
        d,
        omega (arith, lf),
        omega (arith, ld),
        omega (
          arith,
          la,
          ap (λ (r : List ℕ × List ℕ). length r.0) e,
          length-append (front ++ to_be_bytes 8 ptr) a,
          length-append front (to_be_bytes 8 ptr),
          length-to_be_bytes 8 ptr,
          length-append front (to_be_bytes 8 (addr + offset_of) ++ a),
          length-append (to_be_bytes 8 (addr + offset_of)) a,
          length-to_be_bytes 8 (addr + offset_of),
          amount-append_dynamic pre post c,
          lf,
        ),
        ap join (loop-append pre (cons (dynamic c) post) start [] [] ∙ e)
            ∙ ap join
                (both (append_assoc front (to_be_bytes 8 ptr) a) (append_assoc d (resolve c ptr) b))
            ∙ ap (λ q. (front ++ (to_be_bytes 8 q ++ a)) ++ (d ++ (resolve c q ++ b))) at,
      )

  -- If the data of a dynamic chunk starts within the address space, `resolve` leaves in the place
  -- of the chunk the address of that data, and at that address stands what the chunk resolves to
  -- when it is loaded there.
  pub resolve-pointer :
      addr + offset_of < 2 ^ 64
      → (after beyond : List ℕ) × (drop (amount_of_inline_bytes pre) (resolve all addr)
          ≡ to_be_bytes 8 (addr + offset_of) ++ after)
        × (drop offset_of (resolve all addr) ≡ resolve c (addr + offset_of) ++ beyond)
  resolve-pointer fits =
      let (front, a, b, d, lf, ld, lall, e) = resolve-dynamic fits in
      let ptr_bytes = to_be_bytes 8 (addr + offset_of) in
      let content = resolve c (addr + offset_of) in
      let inline_part = front ++ (ptr_bytes ++ a) in
      let grouped = append_assoc inline_part d (content ++ b) in
      (
        a ++ (d ++ (content ++ b)),
        b,
        ap (drop (amount_of_inline_bytes pre))
              (e ∙ append_assoc front (ptr_bytes ++ a) (d ++ (content ++ b)))
            ∙ drop-append_eq _ front _ lf
            ∙ append_assoc ptr_bytes a (d ++ (content ++ b)),
        ap (drop offset_of) (e ∙ sym grouped)
            ∙ drop-append_eq _ (inline_part ++ d) (content ++ b)
                (omega (arith, length-append inline_part d, lall, ld)),
      )
