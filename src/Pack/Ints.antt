-- ===== src/Pack/Ints.antt =====
-- pack_oppushint_le and unpack_oppushint_le of utils/ut_pack.c.
use viabtc_exchange_server.Base.{
  ℕ, ◌+◌, ◌%◌, ◌^◌, ◌≤◌, ◌<◌, ◌≡◌, ◌⊎◌, inl, inr, refl, ap, subst, sym, ◌∙◌, true, false, some,
  List, [], ◌∷◌, ◌++◌, arith, ltb, leb, ◌==◌, ◌&&◌, Bool-cases, if◌then◌else◌, length,
  length-append, append_assoc,
}
use viabtc_exchange_server.Base.Int.{
  ℤ, pos, negsuc, pos_part, neg_part, ◌-ℤ◌, eqb_ℤ, ltb_ℤ, ltb_ℤ→lt, ltb_ℤ→le, eqb_ℤ→eq, int_laws,
}
use viabtc_exchange_server.Pack.{Writer, as_int, of_le}
use viabtc_exchange_server.Pack.Bytes.{Packs, put-Packs}
use viabtc_exchange_server.Pack.Script.{
  pack_char, pack_oppush, unpack_oppush, digits, sign_bytes, is_negative, magnitude, signed,
  pack_oppushint_le, unpack_oppushint_le,
}
use viabtc_exchange_server.Pack.Pushes.{op_bytes, pushed, no_space, read_back}
use viabtc_exchange_server.Pack.Signs.{
  digits_nonempty, is_negative-sign_bytes, length-digits, length-sign_bytes, magnitude-sign_bytes,
  of_le-digits, sign_nonempty,
}

-- An opcode of 1 to 8 is the length of the bytes of an integer.
opened :
    (bs rest : List ℕ)
    → 0 < length bs
    → length bs ≤ 8
    → unpack_oppushint_le (op_bytes (length bs) ++ (bs ++ rest))
      ≡ signed (unpack_oppush 8 (op_bytes (length bs) ++ (bs ++ rest)))
unfolding unpack_oppushint_le
opened bs rest lo hi =
    let small : leb (length bs) 75 ≡ true = ground arith in
    let zero_not : (length bs == 0) ≡ false = ground arith in
    let minus_not : (length bs == 79) ≡ false = ground arith in
    let num_not : (ltb 80 (length bs) && leb (length bs) 96) ≡ false = ground arith in
    let long_not : ltb 8 (length bs) ≡ false = ground arith in
    rw small (rw (zero_not, minus_not, num_not, long_not) refl)

-- The bytes that pack_oppushint_le pushes.
abbrev pub int_bytes : ℤ → List ℕ
int_bytes num = sign_bytes (ltb_ℤ num (pos 0)) (digits 8 (pos_part num + neg_part num))

abbrev signed_value : List ℕ → ℤ
signed_value bs = if is_negative bs then pos 0 -ℤ pos (magnitude bs) else pos (magnitude bs)

value_of_sign :
    (num : ℤ)
    → (if ltb_ℤ num (pos 0)
        then pos 0 -ℤ pos (pos_part num + neg_part num)
        else pos (pos_part num + neg_part num))
      ≡ num
value_of_sign num = elim (Bool-cases (ltb_ℤ num (pos 0))) [
  | inl y ↦ let lt = ltb_ℤ→lt num (pos 0) y in rw y (omega int_laws)
  | inr n ↦ let le = ltb_ℤ→le num (pos 0) n in rw n (omega int_laws)
]

module _ (num : ℤ) (nonzero : 0 < pos_part num + neg_part num)
    (fits : pos_part num + neg_part num < 2 ^ 63) where
  abbrev absvalue : ℕ
  absvalue = pos_part num + neg_part num

  some_digits : 0 < length (digits 8 absvalue)
  some_digits = digits_nonempty 7 absvalue nonzero

  digits_value : of_le (digits 8 absvalue) ≡ absvalue
  digits_value = of_le-digits 8 absvalue (omega arith)

  int_bytes_lo : 0 < length (int_bytes num)
  int_bytes_lo = sign_nonempty (ltb_ℤ num (pos 0)) (digits 8 absvalue) some_digits

  int_bytes_hi : length (int_bytes num) ≤ 8
  int_bytes_hi =
      length-sign_bytes (ltb_ℤ num (pos 0)) 7 (digits 8 absvalue) (length-digits 8 absvalue)
        (let e = digits_value in omega arith)

  value_lem : signed_value (int_bytes num) ≡ num
  value_lem =
      let n = is_negative-sign_bytes (ltb_ℤ num (pos 0)) (digits 8 absvalue) some_digits in
      let m =
        magnitude-sign_bytes (ltb_ℤ num (pos 0)) (digits 8 absvalue) some_digits ∙ digits_value in
      rw (n, m) (value_of_sign num)

  read_int :
      (rest : List ℕ)
      → unpack_oppushint_le (op_bytes (length (int_bytes num)) ++ (int_bytes num ++ rest)) ≡ (
        as_int (length (op_bytes (length (int_bytes num))) + length (int_bytes num)),
        some num,
        rest,
      )
  unfolding signed
  read_int rest =
      let bs = int_bytes num in
      opened bs rest int_bytes_lo int_bytes_hi
      ∙ ap signed (
          read_back bs (record { out = []; left = 0 }) (let h = int_bytes_hi in omega arith) 8 rest
            int_bytes_hi)
      ∙ ap (λ v. (as_int (length (op_bytes (length bs)) + length bs), some v, rest)) value_lem

-- The bytes that an integer needs.
abbrev pub int_space : ℤ → ℕ
int_space num =
    if ltb_ℤ (negsuc 1) num && ltb_ℤ num (pos 17)
    then 1
    else length (op_bytes (length (int_bytes num))) + length (int_bytes num)

char_Packs :
    (c : ℕ) (v : ℤ) (w : Writer)
    → c < 256
    → ((rest : List ℕ) → unpack_oppushint_le (c ∷ rest) ≡ (pos 1, some v, rest))
    → Packs 1 unpack_oppushint_le v w (pack_char c w)
unfolding pack_char
char_Packs c v w h reads =
    let e : c % 256 ≡ c = omega arith in
    rw e (put-Packs 1 (c ∷ []) unpack_oppushint_le v w refl reads)

read_small :
    (n : ℕ) (rest : List ℕ)
    → 0 < n
    → n < 17
    → unpack_oppushint_le ((80 + n) ∷ rest) ≡ (pos 1, some (pos n), rest)
unfolding unpack_oppushint_le
read_small n rest lo hi = ground arith

wide_Packs :
    (num : ℤ) (w : Writer)
    → 0 < pos_part num + neg_part num
    → pos_part num + neg_part num < 2 ^ 63
    → Packs
        (length (op_bytes (length (int_bytes num))) + length (int_bytes num))
        unpack_oppushint_le
        num
        w
        (pack_oppush (int_bytes num) w)
wide_Packs num w nz fits =
    let bs = int_bytes num in
    let hi = int_bytes_hi num nz fits in
    let short : length bs < 2 ^ 32 = omega arith in
    let space = length (op_bytes (length bs)) + length bs in
    elim (Bool-cases (ltb w.left space)) [
      | inl y ↦ let lt : w.left < space = ground arith in inl (lt, no_space bs w short lt)
      | inr n ↦
          let room : space ≤ w.left = ground arith in
          let l = length-append (op_bytes (length bs)) bs in
          inr (
            room,
            (rw (pushed bs w short room) (record {
              bytes = op_bytes (length bs) ++ bs;
              wrote = refl;
              space = omega arith;
              reads = λ rest.
                  rw (append_assoc (op_bytes (length bs)) bs rest) (read_int num nz fits rest);
            })),
          )
    ]

minus_one_Packs :
    (w : Writer) → Packs 1 unpack_oppushint_le (negsuc 0) w (pack_oppushint_le (negsuc 0) w)
unfolding pack_oppushint_le unpack_oppushint_le ◌-ℤ◌
minus_one_Packs w = char_Packs 79 (negsuc 0) w (omega arith) (λ rest. refl)

zero_Packs : (w : Writer) → Packs 1 unpack_oppushint_le (pos 0) w (pack_oppushint_le (pos 0) w)
unfolding pack_oppushint_le unpack_oppushint_le ◌-ℤ◌
zero_Packs w = char_Packs 0 (pos 0) w (omega arith) (λ rest. refl)

-- An integer above -2^63 is written, in one byte from -1 to 16 and else as its bytes behind their
-- length, where there is space for it, and is read back from what was written whatever follows it;
-- without the space the call fails and changes nothing.
pub pack_oppushint_le-Packs :
    (num : ℤ) (w : Writer)
    → pos_part num + neg_part num < 2 ^ 63
    → Packs (int_space num) unpack_oppushint_le num w (pack_oppushint_le num w)
unfolding pack_oppushint_le
pack_oppushint_le-Packs num w fits =
    let min : eqb_ℤ num (pos 0 -ℤ pos (2 ^ 63)) ≡ false =
      not_min (Bool-cases (eqb_ℤ num (pos 0 -ℤ pos (2 ^ 63)))) in
    elim (Bool-cases (eqb_ℤ num (negsuc 0))) [
      | inl y ↦
          let e = eqb_ℤ→eq num (negsuc 0) y in
          subst (λ v. Packs (int_space v) unpack_oppushint_le v w (pack_oppushint_le v w)) (sym e)
            (minus_one_Packs w)
      | inr n1 ↦ elim (Bool-cases (eqb_ℤ num (pos 0))) [
        | inl y ↦
            let e = eqb_ℤ→eq num (pos 0) y in
            subst (λ v. Packs (int_space v) unpack_oppushint_le v w (pack_oppushint_le v w)) (sym e)
              (zero_Packs w)
        | inr n2 ↦ elim (Bool-cases (ltb_ℤ (pos 0) num && ltb_ℤ num (pos 17))) [
          | inl y ↦
              let small : (ltb_ℤ (negsuc 1) num && ltb_ℤ num (pos 17)) ≡ true = ground arith in
              let e : num ≡ pos (pos_part num) = ground arith in
              rw (min, n1, n2, y, small)
                (char_Packs (80 + pos_part num) num w (ground arith) (λ rest.
                  read_small (pos_part num) rest (ground arith) (ground arith)
                  ∙ ap (λ v. (pos 1, some v, rest)) (sym e)))
          | inr n3 ↦
              let wide : (ltb_ℤ (negsuc 1) num && ltb_ℤ num (pos 17)) ≡ false = ground arith in
              let nz : 0 < pos_part num + neg_part num = ground arith in
              rw (min, n1, n2, n3, wide) (wide_Packs num w nz fits)
        ]
      ]
    ]
  where
    not_min :
        (eqb_ℤ num (pos 0 -ℤ pos (2 ^ 63)) ≡ true) ⊎ (eqb_ℤ num (pos 0 -ℤ pos (2 ^ 63)) ≡ false)
        → eqb_ℤ num (pos 0 -ℤ pos (2 ^ 63)) ≡ false
    not_min (inr n) = n
    not_min (inl y) =
        let e = eqb_ℤ→eq num (pos 0 -ℤ pos (2 ^ 63)) y in
        absurd (omega (int_laws, ap pos_part e, ap neg_part e))
