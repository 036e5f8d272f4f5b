-- ===== src/Pack.antt =====
-- utils/ut_pack.c: integers and strings in a byte buffer, little endian. A byte is a number below 256; a
-- writer is what has been written with the space that is left, a reader the bytes that are left. Every
-- function returns the C code's `int`.
use viabtc_exchange_server.Base.{
  ℕ, zero, suc, ◌+◌, ◌-◌, ◌*◌, ◌/◌, ◌%◌, ◌^◌, Bool, true, false, Option, none, some, List, [], ◌∷◌,
  ◌++◌, ◌==◌, ltb, leb, ◌&&◌, if◌then◌else◌, length, take, drop,
}
use viabtc_exchange_server.Base.Int.{ℤ, pos, negsuc, pos_part, ◌-ℤ◌}
pub mod Bytes
pub mod Numbers
pub mod Varint
pub mod Strings
pub mod Script
pub mod Pushes
pub mod Signs
pub mod Ints
mod Tests

pub record Writer : Type 0 where
  pub out : List ℕ
  pub left : ℕ

-- A size_t that is returned as an int.
abbrev pub as_int : ℕ → ℤ
as_int n = if ltb (n % 2 ^ 32) (2 ^ 31) then pos (n % 2 ^ 32) else pos (n % 2 ^ 32) -ℤ pos (2 ^ 32)

abbrev pub fail : ℤ
fail = negsuc 0

-- What a reading function returns: its int, the value if one is written, and the reader.
abbrev pub Read : Type 0 → Type 0
Read A = ℤ × Option A × List ℕ

-- htole and letoh of `w` bytes
abbrev pub le_bytes : ℕ → ℕ → List ℕ
le_bytes zero n = []
le_bytes (suc w) n = n % 256 ∷ le_bytes w (n / 256)

abbrev pub of_le : List ℕ → ℕ
of_le [] = 0
of_le (b ∷ bs) = b + 256 * of_le bs

abbrev pub emit : List ℕ → Writer → Writer
emit bytes w = record { out = w.out ++ bytes; left = w.left - length bytes }

-- The bytes are written if `need` are left.
abbrev pub put : ℕ → List ℕ → Writer → ℤ × Writer
put need bytes w = if ltb w.left need then (fail, w) else (as_int (length bytes), emit bytes w)

unfoldable pub pack_varint_le : ℕ → Writer → ℤ × Writer
pack_varint_le num w =
    if ltb num 253
    then put 1 (num ∷ []) w
    else if ltb num 65535
    then put 3 (253 ∷ le_bytes 2 num) w
    else if ltb num 4294967295
    then put 5 (254 ∷ le_bytes 4 num) w
    else put 9 (255 ∷ le_bytes 8 num) w

-- A number of `k` bytes behind a mark, if the reader has them.
abbrev pub behind_mark : ℕ → ℕ → List ℕ → Read ℕ
behind_mark k mark src =
    if ltb (1 + length src) (1 + k)
    then (fail, none, mark ∷ src)
    else (pos (1 + k), some (of_le (take k src)), drop k src)

unfoldable pub unpack_varint_le : List ℕ → Read ℕ
unpack_varint_le [] = (fail, none, [])
unpack_varint_le (mark ∷ src) =
    if ltb mark 253
    then (pos 1, some mark, src)
    else if mark == 253
    then behind_mark 2 mark src
    else if mark == 254
    then behind_mark 4 mark src
    else behind_mark 8 mark src

-- A number of `k` bytes, if `need` are left.
abbrev pub get : ℕ → ℕ → List ℕ → Read ℕ
get need k src =
    if ltb (length src) need
    then (fail, none, src)
    else (pos k, some (of_le (take k src)), drop k src)

-- The two functions of 16 bits want 4 bytes left.
unfoldable pub pack_uint16_le : ℕ → Writer → ℤ × Writer
pack_uint16_le num = put 4 (le_bytes 2 num)

unfoldable pub unpack_uint16_le : List ℕ → Read ℕ
unpack_uint16_le = get 4 2

unfoldable pub pack_uint32_le : ℕ → Writer → ℤ × Writer
pack_uint32_le num = put 4 (le_bytes 4 num)

unfoldable pub unpack_uint32_le : List ℕ → Read ℕ
unpack_uint32_le = get 4 4

unfoldable pub pack_uint64_le : ℕ → Writer → ℤ × Writer
pack_uint64_le num = put 8 (le_bytes 8 num)

unfoldable pub unpack_uint64_le : List ℕ → Read ℕ
unpack_uint64_le = get 8 8

-- Behind the length of a string: the integer stays written where the string does not fit.
abbrev pub put_string : List ℕ → ℤ × Writer → ℤ × Writer
put_string str (negsuc _, w) = (fail, w)
put_string str (pos ret, w) =
    if ltb w.left (length str) then (fail, w) else (as_int (ret + length str), emit str w)

unfoldable pub pack_varstr : List ℕ → Writer → ℤ × Writer
unfolding pack_varint_le
pack_varstr str w = put_string str (pack_varint_le (length str) w)

abbrev pub get_string : Read ℕ → Read (List ℕ)
get_string (ret, none, src) = (fail, none, src)
get_string (ret, some len, src) =
    if ltb (length src) len
    then (fail, none, src)
    else (as_int (pos_part ret + len), some (take len src), drop len src)

unfoldable pub unpack_varstr : List ℕ → Read (List ℕ)
unfolding unpack_varint_le
unpack_varstr src = get_string (unpack_varint_le src)
