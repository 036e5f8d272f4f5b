-- ===== src/Decimal/Sample.antt =====
-- A decimal arithmetic in units of 10^-2 that meets every law of `IsDecimal`: the tests run on it.
use viabtc_exchange_server.Base.{ℕ, zero, suc, ◌*◌, ◌/◌, ◌^◌, ◌≡◌, ap, ◌≤◌, ◌<◌, refl, ◌∙◌, arith}
use viabtc_exchange_server.Base.Int.{
  ℤ, pos, negsuc, pos_part, neg_part, sub_ℕ, ◌+ℤ◌, ◌-ℤ◌, ◌*ℤ◌, ◌≤ℤ◌, ◌<ℤ◌, int_laws,
}
use native.Mathlib.Nat.{le-div_iff_mul-le, zero-div, mod-add-div, mul-le-mul_right, mul_comm}
use viabtc_exchange_server.Decimal.{Decimal, IsDivision, IsDecimal, OnGrid}

-- The units of a value's last decimal at precision `p`.
abbrev pub step : ℕ → ℕ
step zero = 100
step (suc zero) = 10
step (suc (suc p)) = 1

abbrev pub cut : ℕ → ℕ → ℕ
cut n q = n / q * q

abbrev pub scaled : ℤ → ℕ → ℤ
scaled a q = sub_ℕ (pos_part a / q) (neg_part a / q)

abbrev pub cents : Decimal
cents = record {
  add = ◌+ℤ◌;
  sub = ◌-ℤ◌;
  mul = λ a b. scaled (a *ℤ b) 100;
  div = λ a b. scaled (a *ℤ pos 100) (pos_part b);
  rescale = λ a p. sub_ℕ (cut (pos_part a) (step p)) (cut (neg_part a) (step p));
  tenth = λ p. pos (step p);
  one = 100;
  limit = 10 ^ 34;
}

rescale_nonneg : (a : ℤ) (p : ℕ) → pos 0 ≤ℤ a → pos 0 ≤ℤ cents.rescale a p
rescale_nonneg (pos n) zero h = ground arith
rescale_nonneg (pos n) (suc zero) h = ground arith
rescale_nonneg (pos n) (suc (suc p)) h = ground arith
rescale_nonneg (negsuc n) p h = absurd (omega arith)

rescale_le : (a : ℤ) (p : ℕ) → pos 0 ≤ℤ a → cents.rescale a p ≤ℤ a
rescale_le (pos n) zero h = ground arith
rescale_le (pos n) (suc zero) h = ground arith
rescale_le (pos n) (suc (suc p)) h = ground arith
rescale_le (negsuc n) p h = absurd (omega arith)

rescale_OnGrid : (a : ℤ) (p : ℕ) → OnGrid cents p (cents.rescale a p)
rescale_OnGrid (pos n) zero = ground arith
rescale_OnGrid (pos n) (suc zero) = ground arith
rescale_OnGrid (pos n) (suc (suc p)) = ground arith
rescale_OnGrid (negsuc n) zero = ground arith
rescale_OnGrid (negsuc n) (suc zero) = ground arith
rescale_OnGrid (negsuc n) (suc (suc p)) = ground arith

hundred : (c : ℤ) → scaled (c *ℤ pos 100) 100 ≡ c
unfolding ◌*ℤ◌
hundred (pos n) = ground arith
hundred (negsuc n) = ground arith

mul_exact : (a b c : ℤ) → a *ℤ b ≡ c *ℤ pos 100 → cents.mul a b ≡ c
mul_exact a b c e = rw e (hundred c)

mul_nonneg : (a b : ℤ) → pos 0 ≤ℤ a → pos 0 ≤ℤ b → pos 0 ≤ℤ cents.mul a b
unfolding ◌*ℤ◌
mul_nonneg (pos n) (pos k) h g = ground arith
mul_nonneg (pos n) (negsuc k) h g = absurd (omega arith)
mul_nonneg (negsuc n) b h g = absurd (omega arith)

-- Both parts are multiples of the step.
abbrev Multiple : ℤ → ℕ → Type 0
Multiple a q = (cut (pos_part a) q ≡ pos_part a) × (cut (neg_part a) q ≡ neg_part a)

Multiple-of_OnGrid : (a : ℤ) (p : ℕ) → OnGrid cents p a → Multiple a (step p)
Multiple-of_OnGrid (pos n) zero h = ground arith
Multiple-of_OnGrid (pos n) (suc zero) h = ground arith
Multiple-of_OnGrid (pos n) (suc (suc p)) h = ground arith
Multiple-of_OnGrid (negsuc n) zero h = ground arith
Multiple-of_OnGrid (negsuc n) (suc zero) h = ground arith
Multiple-of_OnGrid (negsuc n) (suc (suc p)) h = ground arith

OnGrid-of_Multiple : (a : ℤ) (p : ℕ) → Multiple a (step p) → OnGrid cents p a
OnGrid-of_Multiple (pos n) p h = rw (h.0, h.1) (ground arith)
OnGrid-of_Multiple (negsuc n) p h = rw (h.0, h.1) (ground arith)

Multiple-add :
    (a b : ℤ) (p : ℕ) → Multiple a (step p) → Multiple b (step p) → Multiple (a +ℤ b) (step p)
Multiple-add a b zero h g = omega int_laws
Multiple-add a b (suc zero) h g = omega int_laws
Multiple-add a b (suc (suc p)) h g = omega int_laws

Multiple-sub :
    (a b : ℤ) (p : ℕ) → Multiple a (step p) → Multiple b (step p) → Multiple (a -ℤ b) (step p)
Multiple-sub a b zero h g = omega int_laws
Multiple-sub a b (suc zero) h g = omega int_laws
Multiple-sub a b (suc (suc p)) h g = omega int_laws

pub cents-IsDecimal : IsDecimal cents
cents-IsDecimal = record {
  add_exact = λ a b f. refl;
  sub_exact = λ a b f. refl;
  mul_exact = λ a b c e f. mul_exact a b c e;
  add_nonneg = λ a b h g. omega int_laws;
  sub_nonneg = λ a b h. omega int_laws;
  mul_nonneg = mul_nonneg;
  rescale_nonneg = λ a p f. rescale_nonneg a p;
  rescale_le = λ a p f. rescale_le a p;
  rescale_OnGrid = λ a p f. rescale_OnGrid a p;
  add_OnGrid = λ a b p h g f.
      OnGrid-of_Multiple (a +ℤ b) p
        (Multiple-add a b p (Multiple-of_OnGrid a p h) (Multiple-of_OnGrid b p g));
  sub_OnGrid = λ a b p h g f.
      OnGrid-of_Multiple (a -ℤ b) p
        (Multiple-sub a b p (Multiple-of_OnGrid a p h) (Multiple-of_OnGrid b p g));
}

quotient_cost : (n y i : ℕ) → i ≤ n * 100 / y → i * y / 100 ≤ n
quotient_cost n y i h =
    let whole = mod-add-div (n * 100) y in
    let cost : i * y ≤ n * 100 / y * y = mul-le-mul_right y h in
    let same : n * 100 / y * y ≡ y * (n * 100 / y) = mul_comm (n * 100 / y) y in omega arith

mul_pos : (n k : ℕ) → pos n *ℤ pos k ≡ pos (n * k)
unfolding ◌*ℤ◌
mul_pos n k = ground arith

scaled_pos : (n q : ℕ) → scaled (pos n) q ≡ pos (n / q)
scaled_pos n q = let z = zero-div q in ground (arith, z)

quotient_greatest : (n y i : ℕ) → 0 < y → i * y ≤ n * 100 → i ≤ n * 100 / y
quotient_greatest n y i above h = (le-div_iff_mul-le above).1 h

cost_le :
    (a b c : ℤ) → pos 0 ≤ℤ a → pos 0 <ℤ b → pos 0 ≤ℤ c → c ≤ℤ cents.div a b → cents.mul c b ≤ℤ a
cost_le (pos n) (pos y) (pos i) ha hb hc h =
    let e : cents.div (pos n) (pos y) ≡ pos (n * 100 / y) =
      ap (λ v. scaled v y) (mul_pos n 100) ∙ scaled_pos (n * 100) y in
    let f : cents.mul (pos i) (pos y) ≡ pos (i * y / 100) =
      ap (λ v. scaled v 100) (mul_pos i y) ∙ scaled_pos (i * y) 100 in
    let g : pos i ≤ℤ pos (n * 100 / y) = rw e at h in
    let le = quotient_cost n y i (omega arith) in rw f (omega arith)
cost_le (negsuc n) b c ha hb hc h = absurd (omega arith)
cost_le (pos n) (negsuc y) c ha hb hc h = absurd (omega arith)
cost_le (pos n) (pos y) (negsuc i) ha hb hc h = absurd (omega arith)

quotient_nonneg : (a b : ℤ) → pos 0 ≤ℤ a → pos 0 <ℤ b → pos 0 ≤ℤ cents.div a b
quotient_nonneg (pos n) b ha hb =
    let e : cents.div (pos n) b ≡ pos (n * 100 / pos_part b) =
      ap (λ v. scaled v (pos_part b)) (mul_pos n 100) ∙ scaled_pos (n * 100) (pos_part b) in
    rw e (omega arith)
quotient_nonneg (negsuc n) b ha hb = absurd (omega arith)

div_greatest :
    (a b c : ℤ) → pos 0 ≤ℤ a → pos 0 <ℤ b → pos 0 ≤ℤ c → c *ℤ b ≤ℤ a *ℤ pos 100 → c ≤ℤ cents.div a b
div_greatest (pos n) (pos (suc y)) (pos i) ha hb hc h =
    let e : cents.div (pos n) (pos (suc y)) ≡ pos (n * 100 / suc y) =
      ap (λ v. scaled v (suc y)) (mul_pos n 100) ∙ scaled_pos (n * 100) (suc y) in
    let p = mul_pos i (suc y) in
    let q = mul_pos n 100 in
    let g : pos (i * suc y) ≤ℤ pos (n * 100) = rw (p, q) at h in
    let le = quotient_greatest n (suc y) i (omega arith) (omega arith) in rw e (omega arith)
div_greatest (pos n) (pos zero) c ha hb hc h = absurd (omega arith)
div_greatest (negsuc n) b c ha hb hc h = absurd (omega arith)
div_greatest (pos n) (negsuc y) c ha hb hc h = absurd (omega arith)
div_greatest (pos n) (pos (suc y)) (negsuc i) ha hb hc h = absurd (omega arith)

rescale_greatest :
    (a v : ℤ) (p : ℕ) → pos 0 ≤ℤ v → OnGrid cents p v → v ≤ℤ a → v ≤ℤ cents.rescale a p
rescale_greatest (pos n) (pos k) zero h g le = ground arith
rescale_greatest (pos n) (pos k) (suc zero) h g le = ground arith
rescale_greatest (pos n) (pos k) (suc (suc p)) h g le = ground arith
rescale_greatest a (negsuc k) p h g le = absurd (omega arith)
rescale_greatest (negsuc n) (pos k) p h g le = absurd (omega arith)

pub cents-IsDivision : IsDivision cents
cents-IsDivision = record {
  div_nonneg = quotient_nonneg;
  mul-div_le = cost_le;
  div_greatest = λ a b c h g i f. div_greatest a b c h g i;
  rescale_greatest = λ a v p h f. rescale_greatest a v p h;
}
