-- ===== src/Pack/Strings.antt =====
-- pack_varstr and unpack_varstr of utils/ut_pack.c.
use viabtc_exchange_server.Base.{
  ℕ, ◌+◌, ◌^◌, ◌≤◌, ◌<◌, ◌≡◌, ◌⊎◌, inl, inr, refl, ap, ◌∙◌, true, false, some, List, ◌++◌, arith,
  ltb, Bool-cases, length, length-append, append_assoc, take-append, drop-append,
}
use viabtc_exchange_server.Base.Int.{ℤ, pos}
use viabtc_exchange_server.Pack.{
  Writer, as_int, fail, emit, put_string, get_string, pack_varint_le, pack_varstr, unpack_varstr,
}
use viabtc_exchange_server.Pack.Bytes.{Unpacks}
use viabtc_exchange_server.Pack.Varint.{
  varint_bytes, varint_space, length-varint_bytes, as_int_space, pack_varint_le_lem,
  unpack_varint_bytes,
}

module _ (str : List ℕ) (w : Writer) where
  abbrev space : ℕ
  space = varint_space (length str)

  -- The space that the string needs with its length.
  abbrev pub varstr_space : ℕ
  varstr_space = space + length str

  abbrev after_length : Writer
  after_length = emit (varint_bytes (length str)) w

  wrote_length : space ≤ w.left → pack_varint_le (length str) w ≡ (pos space, after_length)
  wrote_length le =
      let room : ltb w.left space ≡ false = ground arith in
      pack_varint_le_lem (length str) w
      ∙ rw room (
          ap (λ v. (v, after_length))
            (ap as_int (length-varint_bytes (length str)) ∙ as_int_space (length str)))

  no_length : w.left < space → pack_varint_le (length str) w ≡ (fail, w)
  no_length lt =
      let full : ltb w.left space ≡ true = ground arith in
      pack_varint_le_lem (length str) w ∙ rw full refl

  wrote_string :
      varstr_space ≤ w.left → pack_varstr str w ≡ (as_int varstr_space, emit str after_length)
  unfolding pack_varstr
  wrote_string le =
      let e = length-varint_bytes (length str) in
      let room : ltb after_length.left (length str) ≡ false = ground arith in
      ap (put_string str) (wrote_length (omega arith)) ∙ rw room refl

  read_string :
      (rest : List ℕ)
      → length str < 2 ^ 64
      → unpack_varstr ((varint_bytes (length str) ++ str) ++ rest)
        ≡ (as_int varstr_space, some str, rest)
  unfolding unpack_varstr
  read_string rest h =
      let l = length-append str rest in
      let enough : ltb (length (str ++ rest)) (length str) ≡ false = ground arith in
      rw (append_assoc (varint_bytes (length str)) str rest) (
        ap get_string (unpack_varint_bytes (length str) (str ++ rest) h)
        ∙ rw (enough, take-append str rest, drop-append str rest) refl)

  -- The string was written and is read back, or it did not fit and the int is -1.
  abbrev pub Stored : ℤ × Writer → Type 0
  Stored r =
      ((w.left < varstr_space) × (r.0 ≡ fail))
      ⊎ ((varstr_space ≤ w.left) × Unpacks unpack_varstr str w r)

  -- A string shorter than 2^64 is written behind its length, where there is space for both, and is
  -- read back from what was written; otherwise the call returns -1.
  pub pack_varstr-Stored : length str < 2 ^ 64 → Stored (pack_varstr str w)
  unfolding pack_varstr
  pack_varstr-Stored h = elim (Bool-cases (ltb w.left varstr_space)) [
    | inl y ↦ inl (
      ground arith,
      (elim (Bool-cases (ltb w.left space)) [
        | inl short ↦ ap (λ r. (put_string str r).0) (no_length (ground arith))
        | inr enough ↦
            let e = length-varint_bytes (length str) in
            let full : ltb after_length.left (length str) ≡ true = ground arith in
            ap (λ r. (put_string str r).0) (wrote_length (ground arith)) ∙ rw full refl
      ]),
    )
    | inr n ↦
        let le : varstr_space ≤ w.left = ground arith in
        inr (
          le,
          (rw (wrote_string le) (record {
            bytes = varint_bytes (length str) ++ str;
            wrote = append_assoc w.out (varint_bytes (length str)) str;
            space =
                let e = length-varint_bytes (length str) in
                let l = length-append (varint_bytes (length str)) str in omega arith;
            reads = λ rest. read_string rest h;
          })),
        )
  ]
