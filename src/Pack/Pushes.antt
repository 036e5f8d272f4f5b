-- ===== src/Pack/Pushes.antt =====
-- pack_oppush and unpack_oppush of utils/ut_pack.c.
use viabtc_exchange_server.Base.{
  ℕ, suc, ◌+◌, ◌-◌, ◌%◌, ◌^◌, ◌≤◌, ◌<◌, ◌≡◌, inl, inr, refl, ap, ◌∙◌, true, false, some, List, [],
  ◌∷◌, ◌++◌, arith, ltb, leb, Bool-cases, if◌then◌else◌, length, length-append, append_assoc,
  take-append, drop-append,
}
use viabtc_exchange_server.Base.Int.{ℤ, pos}
use viabtc_exchange_server.Pack.{
  Writer, as_int, fail, emit, put, le_bytes, pack_uint16_le, pack_uint32_le, unpack_uint16_le,
  unpack_uint32_le,
}
use viabtc_exchange_server.Pack.Bytes.{of_le-le_bytes, get-append, Packs}
use viabtc_exchange_server.Pack.Script.{
  pack_buf, pack_char, unpack_char, push_buf, pull_buf, op_length, pack_oppush, unpack_oppush,
}

-- The opcode with the length.
abbrev pub op_bytes : ℕ → List ℕ
op_bytes len =
    if leb len 75
    then len ∷ []
    else if leb len 255
    then 76 ∷ len ∷ []
    else if leb len 65535
    then 77 ∷ le_bytes 2 len
    else 78 ∷ le_bytes 4 len

emit-emit : (a b : List ℕ) (w : Writer) → emit b (emit a w) ≡ emit (a ++ b) w
emit-emit a b w =
    let l = length-append a b in
    let e : w.left - length a - length b ≡ w.left - length (a ++ b) = omega arith in
    rw (append_assoc w.out a b, e) refl

put-emit :
    (need : ℕ) (bytes : List ℕ) (w : Writer) → need ≤ w.left → (put need bytes w).1 ≡ emit bytes w
put-emit need bytes w le = let room : ltb w.left need ≡ false = ground arith in rw room refl

char-emit : (c : ℕ) (w : Writer) → c < 256 → 1 ≤ w.left → (pack_char c w).1 ≡ emit (c ∷ []) w
unfolding pack_char
char-emit c w h le = put-emit 1 (c % 256 ∷ []) w le ∙ ap (λ n. emit (n ∷ []) w) (omega arith)

push_buf-emit :
    (head bytes : List ℕ) (w : Writer)
    → length head + length bytes ≤ w.left
    → push_buf w.left bytes (emit head w)
      ≡ (as_int (length head + length bytes), emit (head ++ bytes) w)
unfolding push_buf pack_buf
push_buf-emit head bytes w le =
    let l = length-append head bytes in
    let e : w.left - (w.left - length (head ++ bytes)) ≡ length head + length bytes = omega arith in
    let q = put-emit (length bytes) bytes (emit head w) (omega arith) ∙ emit-emit head bytes w in
    ap (λ w'. (as_int (w.left - w'.left), w')) q ∙ ap (λ n. (as_int n, emit (head ++ bytes) w)) e

-- The four sizes of data.
data Size (len : ℕ) : Type 0 where
  small : leb len 75 ≡ true → Size len
  one_byte : leb len 75 ≡ false → leb len 255 ≡ true → Size len
  two : leb len 75 ≡ false → leb len 255 ≡ false → leb len 65535 ≡ true → Size len
  four : leb len 75 ≡ false → leb len 255 ≡ false → leb len 65535 ≡ false → Size len

size : (len : ℕ) → Size len
size len = elim (Bool-cases (leb len 75)) [
  | inl y ↦ small y
  | inr n ↦ elim (Bool-cases (leb len 255)) [
    | inl y ↦ one_byte n y
    | inr n2 ↦ elim (Bool-cases (leb len 65535)) [ inl y ↦ two n n2 y | inr n3 ↦ four n n2 n3 ]
  ]
]

module _ (bytes : List ℕ) (w : Writer) (fits : length bytes < 2 ^ 32) where
  abbrev len : ℕ
  len = length bytes

  -- The space that data of this length needs with its opcode.
  abbrev pub oppush_space : ℕ
  oppush_space = length (op_bytes (length bytes)) + length bytes

  pub pushed :
      oppush_space ≤ w.left
      → pack_oppush bytes w ≡ (as_int oppush_space, emit (op_bytes len ++ bytes) w)
  unfolding pack_oppush pack_uint16_le pack_uint32_le
  pushed = elim (size len) [
    | small y ↦ rw y (λ le.
        let room : ltb w.left (1 + len) ≡ false = ground arith in
        rw room (
          ap (push_buf w.left bytes) (char-emit len w (ground arith) (omega arith))
          ∙ push_buf-emit (len ∷ []) bytes w le))
    | one_byte n y ↦
        rw (n, y)
          (λ le.
            let room : ltb w.left (2 + len) ≡ false = ground arith in
            let q =
              ap (λ v. (pack_char len v).1) (char-emit 76 w (omega arith) (omega arith))
              ∙ char-emit len (emit (76 ∷ []) w) (ground arith) (omega arith)
              ∙ emit-emit (76 ∷ []) (len ∷ []) w in
            rw room (ap (push_buf w.left bytes) q ∙ push_buf-emit (76 ∷ len ∷ []) bytes w le))
    | two n n2 y ↦
        rw (n, n2, y)
          (λ le.
            let room : ltb w.left (3 + len) ≡ false = ground arith in
            let q =
              ap (λ v. (put 4 (le_bytes 2 len) v).1) (char-emit 77 w (omega arith) (omega arith))
              ∙ put-emit 4 (le_bytes 2 len) (emit (77 ∷ []) w) (ground arith)
              ∙ emit-emit (77 ∷ []) (le_bytes 2 len) w in
            rw room (ap (push_buf w.left bytes) q ∙ push_buf-emit (77 ∷ le_bytes 2 len) bytes w le))
    | four n n2 n3 ↦
        let small_enough : leb len 4294967295 ≡ true = ground arith in
        rw (n, n2, n3, small_enough)
          (λ le.
            let room : ltb w.left (5 + len) ≡ false = ground arith in
            let q =
              ap (λ v. (put 4 (le_bytes 4 len) v).1) (char-emit 78 w (omega arith) (omega arith))
              ∙ put-emit 4 (le_bytes 4 len) (emit (78 ∷ []) w) (ground arith)
              ∙ emit-emit (78 ∷ []) (le_bytes 4 len) w in
            rw room (ap (push_buf w.left bytes) q ∙ push_buf-emit (78 ∷ le_bytes 4 len) bytes w le))
  ]

  pub no_space : w.left < oppush_space → pack_oppush bytes w ≡ (fail, w)
  unfolding pack_oppush
  no_space = elim (size len) [
    | small y ↦ rw y (λ lt. let full : ltb w.left (1 + len) ≡ true = ground arith in rw full refl)
    | one_byte n y ↦
        rw (n, y) (λ lt. let full : ltb w.left (2 + len) ≡ true = ground arith in rw full refl)
    | two n n2 y ↦
        rw (n, n2, y) (λ lt. let full : ltb w.left (3 + len) ≡ true = ground arith in rw full refl)
    | four n n2 n3 ↦
        let small_enough : leb len 4294967295 ≡ true = ground arith in
        rw (n, n2, n3, small_enough)
          (λ lt. let full : ltb w.left (5 + len) ≡ true = ground arith in rw full refl)
  ]

  -- The end of unpack_oppush finds the data.
  pulled :
      (start capacity n : ℕ) (ret : ℤ) (rest : List ℕ)
      → length bytes ≤ capacity
      → start ≡ n + length rest
      → pull_buf start capacity (ret, some (length bytes), bytes ++ rest)
        ≡ (as_int n, some bytes, rest)
  pulled start capacity n ret rest le e =
      let l = length-append bytes rest in
      let enough : ltb (length (bytes ++ rest)) (length bytes) ≡ false = ground arith in
      let room : ltb capacity (length bytes) ≡ false = ground arith in
      let count : start - length rest ≡ n = omega arith in
      rw (enough, room)
        (rw (drop-append bytes rest, take-append bytes rest)
          (ap (λ v. (as_int v, some bytes, rest)) count))

  pub read_back :
      (capacity : ℕ) (rest : List ℕ)
      → length bytes ≤ capacity
      → unpack_oppush capacity (op_bytes len ++ (bytes ++ rest))
        ≡ (as_int oppush_space, some bytes, rest)
  unfolding unpack_oppush op_length unpack_char unpack_uint16_le unpack_uint32_le
  read_back capacity rest le =
      let l = length-append bytes rest in
      elim (size len) [
        | small y ↦ rw y (
            rw y (
              pulled (1 + length (bytes ++ rest)) capacity (1 + len) (pos 1) rest le (omega arith)))
        | one_byte n y ↦
            rw (n, y)
              (pulled (1 + suc (length (bytes ++ rest))) capacity (2 + len) (pos 1) rest le
                (omega arith))
        | two n n2 y ↦
            rw (n, n2, y)
              (ap (pull_buf (1 + suc (suc (length (bytes ++ rest)))) capacity) (
                  get-append 2 (le_bytes 2 len) (bytes ++ rest) refl 4 (ground arith)
                  ∙ ap (λ v. (pos 2, some v, bytes ++ rest)) (of_le-le_bytes 2 len (ground arith)))
                ∙ pulled (1 + suc (suc (length (bytes ++ rest)))) capacity (3 + len) (pos 2) rest le
                    (omega arith))
        | four n n2 n3 ↦
            rw (n, n2, n3)
              (ap (pull_buf (1 + suc (suc (suc (suc (length (bytes ++ rest)))))) capacity) (
                  get-append 4 (le_bytes 4 len) (bytes ++ rest) refl 4 (omega arith)
                  ∙ ap (λ v. (pos 4, some v, bytes ++ rest)) (of_le-le_bytes 4 len (omega arith)))
                ∙ pulled (1 + suc (suc (suc (suc (length (bytes ++ rest)))))) capacity (5 + len)
                    (pos 4) rest le (omega arith))
      ]

  -- Data shorter than 2^32 is written behind its opcode and length, where there is space for all,
  -- and is read back into a destination that holds it; without the space the call fails and
  -- changes nothing.
  pub pack_oppush-Packs :
      (capacity : ℕ)
      → length bytes ≤ capacity
      → Packs oppush_space (unpack_oppush capacity) bytes w (pack_oppush bytes w)
  pack_oppush-Packs capacity le = elim (Bool-cases (ltb w.left oppush_space)) [
    | inl y ↦ let lt : w.left < oppush_space = ground arith in inl (lt, no_space lt)
    | inr n ↦
        let room : oppush_space ≤ w.left = ground arith in
        let l = length-append (op_bytes len) bytes in
        inr (
          room,
          (rw (pushed room) (record {
            bytes = op_bytes len ++ bytes;
            wrote = refl;
            space = omega arith;
            reads =
                λ rest. rw (append_assoc (op_bytes len) bytes rest) (read_back capacity rest le);
          })),
        )
  ]
