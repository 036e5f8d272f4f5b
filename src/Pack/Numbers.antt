-- ===== src/Pack/Numbers.antt =====
-- The integers of utils/ut_pack.c are read back as they were written.
use viabtc_exchange_server.Base.{
  ℕ, ◌^◌, ◌≤◌, ◌<◌, ◌≡◌, refl, ap, ◌∙◌, false, some, List, ◌++◌, arith, ltb, length,
}
use viabtc_exchange_server.Base.Int.{pos}
use viabtc_exchange_server.Pack.{
  Writer, le_bytes, get, pack_uint16_le, unpack_uint16_le, pack_uint32_le, unpack_uint32_le,
  pack_uint64_le, unpack_uint64_le,
}
use viabtc_exchange_server.Pack.Bytes.{of_le-le_bytes, Packs, put-Packs, get-append}

-- A 32-bit number is written and read back, where 4 bytes are left; otherwise the call fails and
-- changes nothing.
pub pack_uint32_le-Packs :
    (num : ℕ) (w : Writer) → num < 2 ^ 32 → Packs 4 unpack_uint32_le num w (pack_uint32_le num w)
unfolding pack_uint32_le unpack_uint32_le
pack_uint32_le-Packs num w h = put-Packs 4 (le_bytes 4 num) (get 4 4) num w refl (λ rest.
    get-append 4 (le_bytes 4 num) rest refl 4 (omega arith)
    ∙ ap (λ n. (pos 4, some n, rest)) (of_le-le_bytes 4 num (omega arith)))

-- A 64-bit number is written and read back, where 8 bytes are left; otherwise the call fails and
-- changes nothing.
pub pack_uint64_le-Packs :
    (num : ℕ) (w : Writer) → num < 2 ^ 64 → Packs 8 unpack_uint64_le num w (pack_uint64_le num w)
unfolding pack_uint64_le unpack_uint64_le
pack_uint64_le-Packs num w h = put-Packs 8 (le_bytes 8 num) (get 8 8) num w refl (λ rest.
    get-append 8 (le_bytes 8 num) rest refl 8 (omega arith)
    ∙ ap (λ n. (pos 8, some n, rest)) (of_le-le_bytes 8 num (omega arith)))

-- A 16-bit number is written where 4 bytes are left, with the int 2, and read back where at least
-- two more bytes follow it.
pub unpack_uint16_le-pack_uint16_le :
    (num : ℕ) (w : Writer) (rest : List ℕ)
    → num < 2 ^ 16
    → 4 ≤ w.left
    → 2 ≤ length rest
    → ((pack_uint16_le num w).1.out ≡ w.out ++ le_bytes 2 num)
      × (unpack_uint16_le (le_bytes 2 num ++ rest) ≡ ((pack_uint16_le num w).0, some num, rest))
unfolding pack_uint16_le unpack_uint16_le
unpack_uint16_le-pack_uint16_le num w rest h left more =
    let room : ltb w.left 4 ≡ false = ground arith in
    rw room (
      refl,
      get-append 2 (le_bytes 2 num) rest refl 4 (omega arith)
          ∙ ap (λ n. (pos 2, some n, rest)) (of_le-le_bytes 2 num (omega arith)),
    )
