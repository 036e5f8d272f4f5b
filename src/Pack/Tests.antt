-- ===== src/Pack/Tests.antt =====
-- Runs of ut_pack.c on small buffers.
use viabtc_exchange_server.Base.{ℕ, ◌≡◌, refl, none, some, List, [], ◌∷◌, arith}
use viabtc_exchange_server.Base.Int.{pos, negsuc, ◌-ℤ◌}
use viabtc_exchange_server.Pack.{
  Writer, fail, pack_varint_le, unpack_varint_le, unpack_uint16_le, pack_varstr,
}
use viabtc_exchange_server.Pack.Bytes.{Packs}
use viabtc_exchange_server.Pack.Varint.{varint_space, pack_varint_le-Packs}
use viabtc_exchange_server.Pack.Strings.{Stored, pack_varstr-Stored}
use viabtc_exchange_server.Pack.Script.{
  pack_oppush, unpack_oppush, pack_oppushint_le, unpack_oppushint_le,
}
use viabtc_exchange_server.Pack.Pushes.{oppush_space, pack_oppush-Packs}
use viabtc_exchange_server.Pack.Ints.{int_space, pack_oppushint_le-Packs}

abbrev empty : Writer
empty = record { out = []; left = 20 }

abbrev text : List ℕ
text = 104 ∷ 105 ∷ []

-- -300 is 0x012c with the sign in the top bit; the last two bytes of a buffer hold no 16-bit number.
runs :
    ((pack_oppushint_le (negsuc 299) empty).1.out ≡ 2 ∷ 44 ∷ 129 ∷ [])
    × (unpack_oppushint_le (2 ∷ 44 ∷ 129 ∷ []) ≡ (pos 3, some (negsuc 299), []))
    × (unpack_uint16_le (1 ∷ 2 ∷ []) ≡ (fail, none, 1 ∷ 2 ∷ []))
    × ((pack_varint_le 65535 empty).1.out ≡ 254 ∷ 255 ∷ 255 ∷ 0 ∷ 0 ∷ [])
unfolding pack_oppushint_le unpack_oppushint_le unpack_uint16_le pack_varint_le ◌-ℤ◌
runs = (refl, refl, refl, refl)

pack_varint_le-Packs_example :
    Packs (varint_space 65535) unpack_varint_le 65535 empty (pack_varint_le 65535 empty)
pack_varint_le-Packs_example = pack_varint_le-Packs 65535 empty (omega arith)

pack_varstr-Stored_example : Stored text empty (pack_varstr text empty)
pack_varstr-Stored_example = pack_varstr-Stored text empty (omega arith)

pack_oppush-Packs_example :
    Packs
      (oppush_space text empty (omega arith))
      (unpack_oppush 16)
      text
      empty
      (pack_oppush text empty)
pack_oppush-Packs_example = pack_oppush-Packs text empty (omega arith) 16 (omega arith)

pack_oppushint_le-Packs_example :
    Packs
      (int_space (negsuc 299))
      unpack_oppushint_le
      (negsuc 299)
      empty
      (pack_oppushint_le (negsuc 299) empty)
pack_oppushint_le-Packs_example = pack_oppushint_le-Packs (negsuc 299) empty (omega arith)
