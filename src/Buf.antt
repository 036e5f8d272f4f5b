-- ===== src/Buf.antt =====
-- The buffers of network/nw_buf.c. The bytes of a buffer up to `wpos` are a list, so that `wpos` is its
-- length; what stands behind them is not read. A list of buffers is a list, its last one the tail.
pub mod Contents
mod Slices
mod Tests
use viabtc_exchange_server.Base.{
  ℕ, zero, suc, ◌+◌, ◌-◌, ◌*◌, ◌%◌, ◌^◌, Bool, true, false, not, ◌&&◌, Option, none, some, List, [],
  ◌∷◌, ◌++◌, ltb, leb, ◌==◌, if◌then◌else◌, length, take, drop,
}

-- nw_buf
pub record Buf : Type 0 where
  pub size : ℕ
  pub rpos : ℕ
  pub written : List ℕ

-- nw_buf_pool; of the free buffers only their number matters.
pub record Pool : Type 0 where
  pub size : ℕ
  pub free : ℕ
  pub free_total : ℕ

-- nw_buf_list with its pool
pub record BufList : Type 0 where
  pub pool : Pool
  pub count : ℕ
  pub limit : ℕ
  pub bufs : List Buf

abbrev pub nw_buf_size : Buf → ℕ
nw_buf_size b = length b.written - b.rpos

abbrev pub nw_buf_avail : Buf → ℕ
nw_buf_avail b = b.size - length b.written

-- The number of bytes that were written, and the buffer.
unfoldable pub nw_buf_write : Buf → List ℕ → ℕ × Buf
nw_buf_write b bytes =
    let len = length bytes in
    let available = b.size - length b.written in
    let wlen = if ltb available len then available else len in
    (wlen, record b { written = b.written ++ take wlen bytes })

unfoldable pub nw_buf_shift : Buf → Buf
nw_buf_shift b =
    if b.rpos == length b.written
    then record b { rpos = 0; written = [] }
    else if b.rpos == 0
    then b
    else record b { rpos = 0; written = drop b.rpos b.written }

abbrev pub nw_buf_pool_create : ℕ → Pool
nw_buf_pool_create size = record { size = size; free = 0; free_total = 64 }

-- A free buffer or a new one.
unfoldable pub nw_buf_alloc : Pool → Buf × Pool
nw_buf_alloc p = (
  record { size = p.size; rpos = 0; written = [] },
  if ltb 0 p.free then record p { free = p.free - 1 } else p,
)

unfoldable pub nw_buf_free : Pool → Pool
nw_buf_free p =
    if ltb p.free p.free_total
    then record p { free = p.free + 1 }
    else if ltb p.free_total 65535
    then record p { free = p.free + 1; free_total = (p.free_total * 2) % 2 ^ 32 }
    else p

abbrev pub nw_buf_list_create : Pool → ℕ → BufList
nw_buf_list_create p limit = record { pool = p; count = 0; limit = limit; bufs = [] }

-- The write to the tail where there is room in it.
unfoldable pub write_tail : List Buf → List ℕ → ℕ × List Buf
write_tail [] bytes = (0, [])
write_tail (b ∷ []) bytes =
    let r = nw_buf_write b bytes in if ltb 0 (nw_buf_avail b) then (r.0, r.1 ∷ []) else (0, b ∷ [])
write_tail (b ∷ c ∷ bs) bytes = let r = write_tail (c ∷ bs) bytes in (r.0, b ∷ r.1)

abbrev pub at_limit : BufList → Bool
at_limit l = not (l.limit == 0) && leb l.limit l.count

-- A buffer behind the tail.
abbrev pub link_buf : BufList → Pool → Buf → BufList
link_buf l p b = record l { pool = p; count = (l.count + 1) % 2 ^ 32; bufs = l.bufs ++ b ∷ [] }

-- The `while` over the bytes that are left, `done` of which are written. `none` if the fuel runs out.
unfoldable pub write_loop : ℕ → BufList → List ℕ → ℕ → Option (ℕ × BufList)
write_loop zero l bytes done = none
write_loop (suc fuel) l [] done = some (done, l)
write_loop (suc fuel) l (x ∷ xs) done =
    let fresh = nw_buf_alloc l.pool in
    let r = nw_buf_write fresh.0 (x ∷ xs) in
    let rest = write_loop fuel (link_buf l fresh.1 r.1) (drop r.0 (x ∷ xs)) (done + r.0) in
    if at_limit l then some (done, l) else rest

-- Fuel for one round per byte, and for the test at the end.
unfoldable pub nw_buf_list_write : BufList → List ℕ → Option (ℕ × BufList)
nw_buf_list_write l bytes =
    let r = write_tail l.bufs bytes in
    write_loop (suc (length bytes)) (record l { bufs = r.1 }) (drop r.0 bytes) r.0

unfoldable pub nw_buf_list_append : BufList → List ℕ → ℕ × BufList
nw_buf_list_append l bytes =
    let fresh = nw_buf_alloc l.pool in
    if at_limit l
    then (0, l)
    else if ltb fresh.0.size (length bytes)
    then (0, record l { pool = nw_buf_free fresh.1 })
    else (length bytes, link_buf l fresh.1 (nw_buf_write fresh.0 bytes).1)

unfoldable pub nw_buf_list_shift : BufList → BufList
nw_buf_list_shift l = shift_head l.bufs
  where
    shift_head : List Buf → BufList
    shift_head [] = l
    shift_head (b ∷ bs) = record l { pool = nw_buf_free l.pool; count = l.count - 1; bufs = bs }
