-- ===== src/Pack/Bytes.antt =====
-- Little-endian bytes of utils/ut_pack.c: what a reading function finds of what was written.
use viabtc_exchange_server.Base.{
  ℕ, zero, suc, ◌+◌, ◌*◌, ◌/◌, ◌≤◌, ◌<◌, ◌≡◌, ◌⊎◌, inl, inr, refl, ap, subst, false, some, List,
  ◌++◌, arith, ltb, Bool-cases, length, take, drop, length-append, take-append, drop-append,
}
use viabtc_exchange_server.Base.Int.{ℤ, pos}
use viabtc_exchange_server.Pack.{Writer, Read, as_int, fail, le_bytes, of_le, put, get, behind_mark}

-- The numbers of `w` bytes are those below this.
abbrev pub bound : ℕ → ℕ
bound zero = 1
bound (suc w) = 256 * bound w

pub of_le-le_bytes : (w n : ℕ) → n < bound w → of_le (le_bytes w n) ≡ n
of_le-le_bytes zero n h = omega arith
of_le-le_bytes (suc w) n h =
    let ih : of_le (le_bytes w (n / 256)) ≡ n / 256 = of_le-le_bytes w (n / 256) (omega arith) in
    omega arith

pub length-le_bytes : (w n : ℕ) → length (le_bytes w n) ≡ w
length-le_bytes zero n = refl
length-le_bytes (suc w) n = ap suc (length-le_bytes w (n / 256))

-- The call succeeded: it wrote bytes into the space that was left, from which `unpack` reads the value
-- back, whatever follows them, with the same int.
pub record Unpacks {A : Type 0} (unpack : List ℕ → Read A) (v : A) (w : Writer) (r : ℤ × Writer)
    : Type 0 where
  pub bytes : List ℕ
  pub wrote : r.1.out ≡ w.out ++ bytes
  pub space : length bytes + r.1.left ≡ w.left
  pub reads : (rest : List ℕ) → unpack (bytes ++ rest) ≡ (r.0, some v, rest)

-- The call writes the value, or fails for want of `need` bytes and changes nothing.
abbrev pub Packs : {A : Type 0} → ℕ → (List ℕ → Read A) → A → Writer → ℤ × Writer → Type 0
Packs need unpack v w r =
    ((w.left < need) × (r ≡ (fail, w))) ⊎ ((need ≤ w.left) × Unpacks unpack v w r)

pub put-Packs :
    {A : Type 0} (need : ℕ) (bytes : List ℕ) (unpack : List ℕ → Read A) (v : A) (w : Writer)
    → length bytes ≡ need
    → ((rest : List ℕ) → unpack (bytes ++ rest) ≡ (as_int (length bytes), some v, rest))
    → Packs need unpack v w (put need bytes w)
put-Packs need bytes unpack v w e reads = elim (Bool-cases (ltb w.left need)) [
  | inl y ↦ rw y (inl (ground arith, refl))
  | inr n ↦ rw n (
      inr
        (ground arith, record { bytes = bytes; wrote = refl; space = ground arith; reads = reads }))
]

module _ (k : ℕ) (bytes rest : List ℕ) (e : length bytes ≡ k) where
  taken : of_le (take k (bytes ++ rest)) ≡ of_le bytes
  taken =
      subst (λ i. of_le (take i (bytes ++ rest)) ≡ of_le bytes) e
        (ap of_le (take-append bytes rest))

  dropped : drop k (bytes ++ rest) ≡ rest
  dropped = subst (λ i. drop i (bytes ++ rest) ≡ rest) e (drop-append bytes rest)

  pub get-append :
      (need : ℕ)
      → need ≤ k + length rest
      → get need k (bytes ++ rest) ≡ (pos k, some (of_le bytes), rest)
  get-append need le =
      let m = length-append bytes rest in
      let enough : ltb (length (bytes ++ rest)) need ≡ false = ground arith in
      rw (enough, taken, dropped) refl

  pub behind_mark-append :
      (mark : ℕ) → behind_mark k mark (bytes ++ rest) ≡ (pos (1 + k), some (of_le bytes), rest)
  behind_mark-append mark =
      let m = length-append bytes rest in
      let enough : ltb (1 + length (bytes ++ rest)) (1 + k) ≡ false = ground arith in
      rw (enough, taken, dropped) refl
