-- ===== src/Buf/Contents.antt =====
-- What stands in the buffers of network/nw_buf.c behind a write.
use viabtc_exchange_server.Base.{
  ℕ, ◌+◌, ◌≤◌, ◌≡◌, ◌⊎◌, inl, inr, refl, sym, true, Option, some, List, [], ◌∷◌, ◌++◌, arith, ◌==◌,
  Bool-cases, length, take, drop, length-append,
}
use viabtc_exchange_server.Buf.Slices.{length-take, length-drop, drop_all, drop-left}
use viabtc_exchange_server.Buf.{Buf, BufList, nw_buf_write, at_limit, nw_buf_shift}

-- The bytes between rpos and wpos.
abbrev pub unread : Buf → List ℕ
unread b = drop b.rpos b.written

abbrev pub contents : List Buf → List ℕ
contents [] = []
contents (b ∷ bs) = unread b ++ contents bs

-- The read position is behind the write position, which is inside the buffer.
abbrev pub IsBuf : Buf → Type 0
IsBuf b = (b.rpos ≤ length b.written) × (length b.written ≤ b.size)

abbrev pub AreBufs : List Buf → Type 0
AreBufs [] = Unit
AreBufs (b ∷ bs) = IsBuf b × AreBufs bs

-- A write takes as many bytes as fit.
pub nw_buf_write-takes :
    (b : Buf) (bytes : List ℕ)
    → IsBuf b
    → ((nw_buf_write b bytes).0 ≤ length bytes)
      × ((nw_buf_write b bytes).0 + length b.written ≤ b.size)
unfolding nw_buf_write
nw_buf_write-takes b bytes h = ground (arith, h.1)

pub nw_buf_write-IsBuf : (b : Buf) (bytes : List ℕ) → IsBuf b → IsBuf (nw_buf_write b bytes).1
unfolding nw_buf_write
nw_buf_write-IsBuf b bytes h =
    let w : ℕ = (nw_buf_write b bytes).0 in
    let fits : (w ≤ length bytes) × (w + length b.written ≤ b.size) =
      nw_buf_write-takes b bytes h in
    let size : length (b.written ++ take w bytes) ≡ length b.written + length (take w bytes) =
      length-append b.written (take w bytes) in
    let more : length (take w bytes) ≡ w = length-take w bytes fits.0 in
    (omega (arith, h.0, size), omega (arith, size, more, fits.1))

pub unread-nw_buf_write :
    (b : Buf) (bytes : List ℕ)
    → IsBuf b
    → unread (nw_buf_write b bytes).1 ≡ unread b ++ take (nw_buf_write b bytes).0 bytes
unfolding nw_buf_write
unread-nw_buf_write b bytes h = drop-left b.rpos b.written (take (nw_buf_write b bytes).0 bytes) h.0

-- What a write of `bytes` gives, `done` bytes of which were written before.
pub record Wrote (l : BufList) (bytes : List ℕ) (done : ℕ) (r : Option (ℕ × BufList)) : Type 0 where
  pub taken : ℕ
  pub list : BufList
  pub returns : r ≡ some (done + taken, list)
  pub within : taken ≤ length bytes
  pub holds : contents list.bufs ≡ contents l.bufs ++ take taken bytes
  pub bufs : AreBufs list.bufs
  pub stops : (taken ≡ length bytes) ⊎ (at_limit list ≡ true)

-- The write to the tail.
record TailWrote (bs : List Buf) (bytes : List ℕ) (r : ℕ × List Buf) : Type 0 where
  pub within : r.0 ≤ length bytes
  pub holds : contents r.1 ≡ contents bs ++ take r.0 bytes
  pub bufs : AreBufs r.1

-- Shifting a well-formed buffer keeps its unread bytes, puts them at its start and leaves it well
-- formed.
pub unread-nw_buf_shift :
    (b : Buf)
    → IsBuf b
    → (unread (nw_buf_shift b) ≡ unread b) × (((nw_buf_shift b).rpos ≡ 0) × IsBuf (nw_buf_shift b))
unfolding nw_buf_shift
unread-nw_buf_shift b h = elim (Bool-cases (b.rpos == length b.written)) [
  | inl y ↦
      rw y (sym (drop_all b.rpos b.written (ground (arith, y))), (refl, (omega arith, omega arith)))
  | inr n ↦ elim (Bool-cases (b.rpos == 0)) [
    | inl z ↦ rw (n, z) (refl, (ground (arith, z), h))
    | inr m ↦
        rw (n, m)
          (refl, (refl, (omega arith, omega (arith, h.1, length-drop b.rpos b.written h.0))))
  ]
]
