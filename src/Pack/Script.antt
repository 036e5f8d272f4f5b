-- ===== src/Pack/Script.antt =====
-- Raw bytes, and the script pushes of utils/ut_pack.c: data behind an opcode that gives its length, and
-- signed integers.
use viabtc_exchange_server.Base.{
  ℕ, zero, suc, ◌+◌, ◌-◌, ◌*◌, ◌/◌, ◌%◌, ◌^◌, Bool, false, none, some, List, [], ◌∷◌, ◌==◌, ltb,
  leb, ◌&&◌, ◌||◌, if◌then◌else◌, length, take, drop,
}
use viabtc_exchange_server.Base.Int.{ℤ, pos, negsuc, pos_part, neg_part, ◌-ℤ◌, eqb_ℤ, ltb_ℤ}
use viabtc_exchange_server.Pack.{
  Writer, Read, as_int, fail, put, unpack_uint16_le, unpack_uint32_le, pack_uint16_le,
  pack_uint32_le,
}

unfoldable pub pack_buf : List ℕ → Writer → ℤ × Writer
pack_buf bytes = put (length bytes) bytes

unfoldable pub unpack_buf : ℕ → List ℕ → Read (List ℕ)
unpack_buf len src =
    if ltb (length src) len
    then (fail, none, src)
    else (as_int len, some (take len src), drop len src)

unfoldable pub pack_char : ℕ → Writer → ℤ × Writer
pack_char c = put 1 (c % 256 ∷ [])

unfoldable pub unpack_char : List ℕ → Read ℕ
unpack_char [] = (fail, none, [])
unpack_char (c ∷ src) = (pos 1, some c, src)

-- The end of pack_oppush: the bytes behind their length; `start` is the space that was left at first.
unfoldable pub push_buf : ℕ → List ℕ → Writer → ℤ × Writer
unfolding pack_buf
push_buf start bytes w = let w' = (pack_buf bytes w).1 in (as_int (start - w'.left), w')

-- The ints of the parts are not looked at, since the space has been checked.
unfoldable pub pack_oppush : List ℕ → Writer → ℤ × Writer
unfolding push_buf pack_char pack_uint16_le pack_uint32_le
pack_oppush bytes w =
    let len = length bytes in
    if leb len 75
    then (if ltb w.left (1 + len) then (fail, w) else push_buf w.left bytes (pack_char len w).1)
    else if leb len 255
    then (if ltb w.left (2 + len)
        then (fail, w)
        else push_buf w.left bytes (pack_char len (pack_char 76 w).1).1)
    else if leb len 65535
    then (if ltb w.left (3 + len)
        then (fail, w)
        else push_buf w.left bytes (pack_uint16_le len (pack_char 77 w).1).1)
    else if leb len 4294967295
    then (if ltb w.left (5 + len)
        then (fail, w)
        else push_buf w.left bytes (pack_uint32_le len (pack_char 78 w).1).1)
    else (fail, w)

-- The end of unpack_oppush, for a length that was read: `start` is the length of the reader at first.
abbrev pub pull_buf : ℕ → ℕ → Read ℕ → Read (List ℕ)
pull_buf start size (ret, none, src) = (fail, none, src)
pull_buf start size (ret, some len, src) =
    if ltb (length src) len || ltb size len
    then (fail, none, src)
    else (as_int (start - length (drop len src)), some (take len src), drop len src)

-- The length by the opcode, which has been read.
unfoldable pub op_length : ℕ → List ℕ → Read ℕ
unfolding unpack_char unpack_uint16_le unpack_uint32_le
op_length op src =
    if leb op 75
    then (pos 1, some op, src)
    else if op == 76
    then unpack_char src
    else if op == 77
    then unpack_uint16_le src
    else if op == 78
    then unpack_uint32_le src
    else (fail, none, src)

-- `size` is the space of the destination. The value is what is written there, so `*size` is its length.
unfoldable pub unpack_oppush : ℕ → List ℕ → Read (List ℕ)
unfolding op_length
unpack_oppush size [] = (fail, none, [])
unpack_oppush size (op ∷ src) = pull_buf (1 + length src) size (op_length op src)

-- `while (absvalue)`, with fuel for 8 bytes.
unfoldable pub digits : ℕ → ℕ → List ℕ
digits zero n = []
digits (suc fuel) n = let rest = digits fuel (n / 256) in if n == 0 then [] else n % 256 ∷ rest

-- The sign goes into the top bit of the last byte, or into a new byte if that bit is taken.
unfoldable pub sign_bytes : Bool → List ℕ → List ℕ
sign_bytes neg [] = []
sign_bytes neg (b ∷ []) =
    if leb 128 b then b ∷ (if neg then 128 else 0) ∷ [] else (if neg then b + 128 else b) ∷ []
sign_bytes neg (b ∷ c ∷ bs) = b ∷ sign_bytes neg (c ∷ bs)

-- `num` is an int64_t.
unfoldable pub pack_oppushint_le : ℤ → Writer → ℤ × Writer
unfolding pack_char pack_oppush digits sign_bytes
pack_oppushint_le num w =
    if eqb_ℤ num (pos 0 -ℤ pos (2 ^ 63))
    then (fail, w)
    else if eqb_ℤ num (negsuc 0)
    then pack_char 79 w
    else if eqb_ℤ num (pos 0)
    then pack_char 0 w
    else if ltb_ℤ (pos 0) num && ltb_ℤ num (pos 17)
    then pack_char (80 + pos_part num) w
    else pack_oppush (sign_bytes (ltb_ℤ num (pos 0)) (digits 8 (pos_part num + neg_part num))) w

-- The top bit of the last byte, and the bytes without it.
unfoldable pub is_negative : List ℕ → Bool
is_negative [] = false
is_negative (b ∷ []) = leb 128 b
is_negative (b ∷ c ∷ bs) = is_negative (c ∷ bs)

unfoldable pub magnitude : List ℕ → ℕ
magnitude [] = 0
magnitude (b ∷ []) = b % 128
magnitude (b ∷ c ∷ bs) = b + 256 * magnitude (c ∷ bs)

unfoldable pub signed : Read (List ℕ) → Read ℤ
unfolding is_negative magnitude
signed (ret, none, src) = (ret, none, src)
signed (ret, some bytes, src) = (
  ret,
  some (if is_negative bytes then pos 0 -ℤ pos (magnitude bytes) else pos (magnitude bytes)),
  src,
)

unfoldable pub unpack_oppushint_le : List ℕ → Read ℤ
unfolding unpack_oppush signed
unpack_oppushint_le [] = (fail, none, [])
unpack_oppushint_le (op ∷ src) =
    if op == 0
    then (pos 1, some (pos 0), src)
    else if op == 79
    then (pos 1, some (negsuc 0), src)
    else if ltb 80 op && leb op 96
    then (pos 1, some (pos (op - 80)), src)
    else if ltb 8 op
    then (fail, none, op ∷ src)
    else signed (unpack_oppush 8 (op ∷ src))
