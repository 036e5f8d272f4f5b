-- ===== src/Hash/Grow.antt =====
-- The sizes that dict_next_power of utils/ut_dict.c gives, and the calls that it does not return from.
use viabtc_exchange_server.Base.{
  ℕ, zero, suc, ◌+◌, ◌-◌, ◌*◌, ◌^◌, ◌≤◌, ◌<◌, ◌≡◌, ◌⊎◌, inl, inr, refl, ap, false, none, some,
  arith, leb, Bool-cases, ◌==◌, ==_iff,
}
use viabtc_exchange_server.Hash.{u32, next_power_loop, dict_next_power}

-- The least power of two that is not below `size`, from 4 on.
pub record IsNextPower (size n : ℕ) : Type 0 where
  pub power : (m : ℕ) × (n ≡ 2 ^ m)
  pub large : size ≤ n
  pub least : (n ≡ 4) ⊎ (n < 2 * size)
  pub four : 4 ≤ n
  pub bounded : n ≤ 2 ^ 31

pow_le : (k m n : ℕ) → m + k ≡ n → 2 ^ m ≤ 2 ^ n
pow_le zero m n h = let same : m ≡ n = omega (arith, h) in omega (arith, ap (λ i. 2 ^ i) same)
pow_le (suc k) m n h = ground (arith, pow_le k (suc m) n (omega (arith, h)))

next_power_loop-IsNextPower :
    (fuel m size : ℕ)
    → fuel + m ≡ 32
    → 4 ≤ 2 ^ m
    → m ≤ 31
    → (2 ^ m ≡ 4) ⊎ (2 ^ m < 2 * size)
    → size ≤ 2 ^ 31
    → (n : ℕ) × ((next_power_loop fuel (2 ^ m) size ≡ some n) × IsNextPower size n)
unfolding next_power_loop
next_power_loop-IsNextPower zero m size h four b l s = ground (arith, h, b)
next_power_loop-IsNextPower (suc fuel) m size h four b l s =
    let top : 2 ^ m ≤ 2 ^ 31 = pow_le (31 - m) m 31 (omega (arith, b)) in
    elim (Bool-cases (leb size (2 ^ m))) [
      | inl y ↦ rw y (
        2 ^ m,
        (
          refl,
          record { power = (m, refl); large = ground arith; least = l; four = four; bounded = top },
        ),
      )
      | inr n ↦
          let below : 2 ^ m < size = ground arith in
          let next : u32 (2 ^ m * 2) ≡ 2 ^ suc m = ground (arith, below, s) in
          rw (n, next)
            (next_power_loop-IsNextPower fuel (suc m) size (omega (arith, h)) (ground (arith, four))
              (short b below s) (inr (ground (arith, below))) s)
    ]
  where
    short : m ≤ 31 → 2 ^ m < size → size ≤ 2 ^ 31 → suc m ≤ 31
    short b below s = elim (Bool-cases (m == 31)) [
      | inl y ↦
          let full : 2 ^ m ≡ 2 ^ 31 = ap (λ i. 2 ^ i) ((==_iff m 31).0 y) in
          ground (arith, full, below, s)
      | inr n ↦ ground (arith, n, b)
    ]

-- For sizes up to 2^31 the loop of dict_next_power ends, with the least power of two from 4 on
-- that is not below the size.
pub dict_next_power-IsNextPower :
    (size : ℕ) → size ≤ 2 ^ 31 → (n : ℕ) × ((dict_next_power size ≡ some n) × IsNextPower size n)
dict_next_power-IsNextPower size h =
    next_power_loop-IsNextPower 30 2 size refl (omega arith) (omega arith) (inl refl) h

stuck : (fuel size : ℕ) → 0 < size → next_power_loop fuel 0 size ≡ none
unfolding next_power_loop
stuck zero size h = refl
stuck (suc fuel) size h =
    let low : leb size 0 ≡ false = ground (arith, h) in rw low (stuck fuel size h)

overshoot :
    (fuel k m size : ℕ) → k + m ≡ 31 → 2 ^ 31 < size → next_power_loop fuel (2 ^ m) size ≡ none
unfolding next_power_loop
overshoot zero k m size h s = refl
overshoot (suc fuel) k m size h s =
    let top : 2 ^ m ≤ 2 ^ 31 = pow_le k m 31 (omega (arith, h)) in
    let low : leb size (2 ^ m) ≡ false = ground (arith, top, s) in
    rw low (next (λ k h. overshoot fuel k (suc m) size h s) k h)
  where
    next :
        ((k : ℕ) → k + suc m ≡ 31 → next_power_loop fuel (2 ^ suc m) size ≡ none)
        → (k : ℕ) → k + m ≡ 31
        → next_power_loop fuel (u32 (2 ^ m * 2)) size ≡ none
    next again zero h =
        let last : m ≡ 31 = omega (arith, h) in
        let full : 2 ^ m ≡ 2 ^ 31 = ap (λ i. 2 ^ i) last in
        let gone : u32 (2 ^ m * 2) ≡ 0 = omega (arith, full) in
        rw gone (stuck fuel size (omega (arith, s)))
    next again (suc k) h =
        let up : 2 ^ suc m ≤ 2 ^ 31 = pow_le k (suc m) 31 (omega (arith, h)) in
        let kept : u32 (2 ^ m * 2) ≡ 2 ^ suc m = ground (arith, up) in
        rw kept (again k (omega (arith, h)))

-- For sizes above 2^31 the loop of dict_next_power does not end, however many rounds it is given:
-- its 32-bit number wraps to 0 and stays there.
pub next_power_loop-endless : (fuel size : ℕ) → 2 ^ 31 < size → next_power_loop fuel 4 size ≡ none
next_power_loop-endless fuel size h = overshoot fuel 29 2 size refl h
