-- ===== src/Buf/Tests.antt =====
-- Buffers of network/nw_buf.c of four bytes, and the theorems on them.
use viabtc_exchange_server.Base.{◌≡◌, [], ◌∷◌, arith}
use viabtc_exchange_server.Buf.{Buf, BufList, nw_buf_pool_create, nw_buf_shift}
use viabtc_exchange_server.Buf.Contents.{IsBuf, unread, unread-nw_buf_shift}

abbrev half_read : Buf
half_read = record { size = 4; rpos = 2; written = 1 ∷ 2 ∷ 3 ∷ [] }

-- One buffer of at most two.
abbrev list : BufList
list = record { pool = nw_buf_pool_create 4; count = 1; limit = 2; bufs = half_read ∷ [] }

unread-nw_buf_shift_example :
    (unread (nw_buf_shift half_read) ≡ unread half_read)
    × (((nw_buf_shift half_read).rpos ≡ 0) × IsBuf (nw_buf_shift half_read))
unread-nw_buf_shift_example = unread-nw_buf_shift half_read (omega arith, omega arith)
