-- ===== src/Decimal.antt =====
-- libmpdec, which the sources call and do not contain (utils/ut_decimal.c sets its context to 34
-- digits, rounding toward zero). A value `mpd_t` stands for the number that it denotes, counted in
-- units of 10^-S for one S that no precision of the configuration exceeds: `mpd_copy`, `mpd_cmp`,
-- `mpd_abs` and the sign are exact on numbers. What may round is a parameter.
pub mod Sample
use viabtc_exchange_server.Base.{ℕ, ◌<◌, ◌≡◌}
use viabtc_exchange_server.Base.Int.{ℤ, pos, pos_part, neg_part, ◌+ℤ◌, ◌-ℤ◌, ◌*ℤ◌, ◌≤ℤ◌, ◌<ℤ◌}

pub record Decimal : Type 0 where
  -- mpd_add, mpd_sub, mpd_mul, mpd_div
  pub add : ℤ → ℤ → ℤ
  pub sub : ℤ → ℤ → ℤ
  pub mul : ℤ → ℤ → ℤ
  pub div : ℤ → ℤ → ℤ
  -- mpd_rescale to the exponent -p
  pub rescale : ℤ → ℕ → ℤ
  -- mpd_pow (10, -p)
  pub tenth : ℕ → ℤ
  -- The units of the number 1, and the bound below which a number has at most 34 digits.
  pub one : ℕ
  pub limit : ℕ

abbrev pub Fits : Decimal → ℤ → Type 0
Fits d v = (pos_part v < d.limit) × (neg_part v < d.limit)

-- The value has at most `p` decimals.
abbrev pub OnGrid : Decimal → ℕ → ℤ → Type 0
OnGrid d p v = d.rescale v p ≡ v

-- What the library documents: sums, differences and products that fit are exact, and rounding
-- toward zero neither grows a value nor changes its sign.
pub record IsDecimal (d : Decimal) : Type 0 where
  pub add_exact : (a b : ℤ) → Fits d (a +ℤ b) → d.add a b ≡ a +ℤ b
  pub sub_exact : (a b : ℤ) → Fits d (a -ℤ b) → d.sub a b ≡ a -ℤ b
  pub mul_exact : (a b c : ℤ) → a *ℤ b ≡ c *ℤ pos d.one → Fits d c → d.mul a b ≡ c
  pub add_nonneg : (a b : ℤ) → pos 0 ≤ℤ a → pos 0 ≤ℤ b → pos 0 ≤ℤ d.add a b
  pub sub_nonneg : (a b : ℤ) → b ≤ℤ a → pos 0 ≤ℤ d.sub a b
  pub mul_nonneg : (a b : ℤ) → pos 0 ≤ℤ a → pos 0 ≤ℤ b → pos 0 ≤ℤ d.mul a b
  pub rescale_nonneg : (a : ℤ) (p : ℕ) → Fits d a → pos 0 ≤ℤ a → pos 0 ≤ℤ d.rescale a p
  pub rescale_le : (a : ℤ) (p : ℕ) → Fits d a → pos 0 ≤ℤ a → d.rescale a p ≤ℤ a
  pub rescale_OnGrid : (a : ℤ) (p : ℕ) → Fits d a → OnGrid d p (d.rescale a p)
  pub add_OnGrid :
      (a b : ℤ) (p : ℕ) → OnGrid d p a → OnGrid d p b → Fits d (a +ℤ b) → OnGrid d p (a +ℤ b)
  pub sub_OnGrid :
      (a b : ℤ) (p : ℕ) → OnGrid d p a → OnGrid d p b → Fits d (a -ℤ b) → OnGrid d p (a -ℤ b)

-- Rounding toward zero: what is at most the quotient costs at most the dividend, a number that fits and
-- costs at most the dividend is at most the quotient, and no number of `p` decimals lies between a value
-- and its rescaled one.
pub record IsDivision (d : Decimal) : Type 0 where
  pub div_nonneg : (a b : ℤ) → pos 0 ≤ℤ a → pos 0 <ℤ b → pos 0 ≤ℤ d.div a b
  pub mul-div_le :
      (a b c : ℤ) → pos 0 ≤ℤ a → pos 0 <ℤ b → pos 0 ≤ℤ c → c ≤ℤ d.div a b → d.mul c b ≤ℤ a
  pub div_greatest :
      (a b c : ℤ)
      → pos 0 ≤ℤ a
      → pos 0 <ℤ b
      → pos 0 ≤ℤ c
      → Fits d c
      → c *ℤ b ≤ℤ a *ℤ pos d.one
      → c ≤ℤ d.div a b
  pub rescale_greatest :
      (a v : ℤ) (p : ℕ) → pos 0 ≤ℤ v → Fits d a → OnGrid d p v → v ≤ℤ a → v ≤ℤ d.rescale a p
