-- ===== src/Pack/Varint.antt =====
-- The integers of variable length, and the strings behind their length, of utils/ut_pack.c.
use viabtc_exchange_server.Base.{
  ℕ, ◌^◌, ◌<◌, ◌≡◌, inl, inr, refl, ap, sym, ◌∙◌, true, false, some, List, [], ◌∷◌, ◌++◌, arith,
  ltb, Bool-cases, if◌then◌else◌, length, ltb→lt,
}
use viabtc_exchange_server.Base.Int.{pos}
use viabtc_exchange_server.Pack.{Writer, as_int, le_bytes, put, pack_varint_le, unpack_varint_le}
use viabtc_exchange_server.Pack.Bytes.{of_le-le_bytes, Packs, put-Packs, behind_mark-append}

-- The bytes of a number, and how many they are.
abbrev pub varint_bytes : ℕ → List ℕ
varint_bytes num =
    if ltb num 253
    then num ∷ []
    else if ltb num 65535
    then 253 ∷ le_bytes 2 num
    else if ltb num 4294967295
    then 254 ∷ le_bytes 4 num
    else 255 ∷ le_bytes 8 num

abbrev pub varint_space : ℕ → ℕ
varint_space num =
    if ltb num 253 then 1 else if ltb num 65535 then 3 else if ltb num 4294967295 then 5 else 9

data Size (num : ℕ) : Type 0 where
  one_byte : ltb num 253 ≡ true → Size num
  three : ltb num 253 ≡ false → ltb num 65535 ≡ true → Size num
  five : ltb num 253 ≡ false → ltb num 65535 ≡ false → ltb num 4294967295 ≡ true → Size num
  nine : ltb num 253 ≡ false → ltb num 65535 ≡ false → ltb num 4294967295 ≡ false → Size num

size : (num : ℕ) → Size num
size num = elim (Bool-cases (ltb num 253)) [
  | inl y ↦ one_byte y
  | inr n ↦ elim (Bool-cases (ltb num 65535)) [
    | inl y ↦ three n y
    | inr n2 ↦ elim (Bool-cases (ltb num 4294967295)) [
      | inl y ↦ five n n2 y
      | inr n3 ↦ nine n n2 n3
    ]
  ]
]

pub length-varint_bytes : (num : ℕ) → length (varint_bytes num) ≡ varint_space num
length-varint_bytes num = elim (size num) [
  | one_byte y ↦ rw y refl
  | three n y ↦ rw (n, y) refl
  | five n n2 y ↦ rw (n, n2, y) refl
  | nine n n2 n3 ↦ rw (n, n2, n3) refl
]

pub as_int_space : (num : ℕ) → as_int (varint_space num) ≡ pos (varint_space num)
as_int_space num = elim (size num) [
  | one_byte y ↦ rw y refl
  | three n y ↦ rw (n, y) refl
  | five n n2 y ↦ rw (n, n2, y) refl
  | nine n n2 n3 ↦ rw (n, n2, n3) refl
]

pub pack_varint_le_lem :
    (num : ℕ) (w : Writer) → pack_varint_le num w ≡ put (varint_space num) (varint_bytes num) w
unfolding pack_varint_le
pack_varint_le_lem num w = elim (size num) [
  | one_byte y ↦ rw y refl
  | three n y ↦ rw (n, y) refl
  | five n n2 y ↦ rw (n, n2, y) refl
  | nine n n2 n3 ↦ rw (n, n2, n3) refl
]

pub unpack_varint_bytes :
    (num : ℕ) (rest : List ℕ)
    → num < 2 ^ 64
    → unpack_varint_le (varint_bytes num ++ rest) ≡ (pos (varint_space num), some num, rest)
unfolding unpack_varint_le
unpack_varint_bytes num rest h = elim (size num) [
  | one_byte y ↦ rw y (rw y refl)
  | three n y ↦
      rw (n, y)
        (behind_mark-append 2 (le_bytes 2 num) rest refl 253
          ∙ ap (λ v. (pos 3, some v, rest))
              (of_le-le_bytes 2 num (let lt = ltb→lt num 65535 y in omega arith)))
  | five n n2 y ↦
      rw (n, n2, y)
        (behind_mark-append 4 (le_bytes 4 num) rest refl 254
          ∙ ap (λ v. (pos 5, some v, rest))
              (of_le-le_bytes 4 num (let lt = ltb→lt num 4294967295 y in omega arith)))
  | nine n n2 n3 ↦
      rw (n, n2, n3)
        (behind_mark-append 8 (le_bytes 8 num) rest refl 255
          ∙ ap (λ v. (pos 9, some v, rest)) (of_le-le_bytes 8 num (omega arith)))
]

-- A 64-bit number is written in 1, 3, 5 or 9 bytes, if they are left, and is read back from them;
-- otherwise the call fails and changes nothing.
pub pack_varint_le-Packs :
    (num : ℕ) (w : Writer)
    → num < 2 ^ 64
    → Packs (varint_space num) unpack_varint_le num w (pack_varint_le num w)
pack_varint_le-Packs num w h = rw (pack_varint_le_lem num w) (
    put-Packs (varint_space num) (varint_bytes num) unpack_varint_le num w (length-varint_bytes num)
      (λ rest.
        unpack_varint_bytes num rest h
        ∙ ap (λ v. (v, some num, rest))
            (sym (ap as_int (length-varint_bytes num) ∙ as_int_space num))))
