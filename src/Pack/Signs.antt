-- ===== src/Pack/Signs.antt =====
-- The bytes of a signed integer in utils/ut_pack.c.
use viabtc_exchange_server.Base.{
  ℕ, zero, suc, ◌+◌, ◌*◌, ◌/◌, ◌≤◌, ◌<◌, ◌≡◌, inl, inr, refl, ap, ◌∙◌, Bool, false, List, [], ◌∷◌,
  arith, ◌==◌, Bool-cases, length,
}
use viabtc_exchange_server.Pack.{of_le}
use viabtc_exchange_server.Pack.Bytes.{bound}
use viabtc_exchange_server.Pack.Script.{digits, sign_bytes, is_negative, magnitude}

-- The loop of pack_oppushint_le ends within its fuel with the bytes of the number.
pub of_le-digits : (fuel n : ℕ) → n < bound fuel → of_le (digits fuel n) ≡ n
unfolding digits
of_le-digits zero n h = omega arith
of_le-digits (suc fuel) n h = elim (Bool-cases (n == 0)) [
  | inl y ↦ rw y (ground arith)
  | inr m ↦ let ih = of_le-digits fuel (n / 256) (omega arith) in rw m (omega arith)
]

pub length-digits : (fuel n : ℕ) → length (digits fuel n) ≤ fuel
unfolding digits
length-digits zero n = omega arith
length-digits (suc fuel) n = elim (Bool-cases (n == 0)) [
  | inl y ↦ rw y (omega arith)
  | inr m ↦ let ih = length-digits fuel (n / 256) in rw m (omega arith)
]

pub digits_nonempty : (fuel n : ℕ) → 0 < n → 0 < length (digits (suc fuel) n)
unfolding digits
digits_nonempty fuel n h = let m : (n == 0) ≡ false = ground arith in rw m (omega arith)

pub sign_nonempty : (neg : Bool) (bs : List ℕ) → 0 < length bs → 0 < length (sign_bytes neg bs)
unfolding sign_bytes
sign_nonempty neg [] h = h
sign_nonempty neg (b ∷ []) h = ground arith
sign_nonempty neg (b ∷ c ∷ bs) h = omega arith

pub is_negative-cons : (b : ℕ) (xs : List ℕ) → 0 < length xs → is_negative (b ∷ xs) ≡ is_negative xs
unfolding is_negative
is_negative-cons b [] h = absurd (omega arith)
is_negative-cons b (x ∷ xs) h = refl

pub magnitude-cons :
    (b : ℕ) (xs : List ℕ) → 0 < length xs → magnitude (b ∷ xs) ≡ b + 256 * magnitude xs
unfolding magnitude
magnitude-cons b [] h = absurd (omega arith)
magnitude-cons b (x ∷ xs) h = refl

pub is_negative-sign_bytes :
    (neg : Bool) (bs : List ℕ) → 0 < length bs → is_negative (sign_bytes neg bs) ≡ neg
unfolding is_negative sign_bytes
is_negative-sign_bytes neg [] h = absurd (omega arith)
is_negative-sign_bytes neg (b ∷ []) h = ground arith
is_negative-sign_bytes neg (b ∷ c ∷ bs) h =
    is_negative-cons b (sign_bytes neg (c ∷ bs)) (sign_nonempty neg (c ∷ bs) (omega arith))
    ∙ is_negative-sign_bytes neg (c ∷ bs) (omega arith)

pub magnitude-sign_bytes :
    (neg : Bool) (bs : List ℕ) → 0 < length bs → magnitude (sign_bytes neg bs) ≡ of_le bs
unfolding magnitude sign_bytes
magnitude-sign_bytes neg [] h = absurd (omega arith)
magnitude-sign_bytes neg (b ∷ []) h = ground arith
magnitude-sign_bytes neg (b ∷ c ∷ bs) h =
    magnitude-cons b (sign_bytes neg (c ∷ bs)) (sign_nonempty neg (c ∷ bs) (omega arith))
    ∙ ap (λ m. b + 256 * m) (magnitude-sign_bytes neg (c ∷ bs) (omega arith))

-- The sign fits into the bytes of a number that leaves their top bit free.
pub length-sign_bytes :
    (neg : Bool) (k : ℕ) (bs : List ℕ)
    → length bs ≤ suc k
    → of_le bs < 128 * bound k
    → length (sign_bytes neg bs) ≤ suc k
unfolding sign_bytes
length-sign_bytes neg k [] h l = omega arith
length-sign_bytes neg zero (b ∷ []) h l = ground arith
length-sign_bytes neg (suc k) (b ∷ []) h l = ground arith
length-sign_bytes neg zero (b ∷ c ∷ bs) h l = absurd (omega arith)
length-sign_bytes neg (suc k) (b ∷ c ∷ bs) h l =
    let ih = length-sign_bytes neg k (c ∷ bs) (omega arith) (omega arith) in omega arith
