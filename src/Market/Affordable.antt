-- ===== src/Market/Affordable.antt =====
-- The inner loop of execute_market_bid_order (matchengine/me_market.c), which lowers the amount of a deal
-- until the taker can pay for it.
use viabtc_exchange_server.Base.{ℕ, zero, suc, ◌≡◌, refl, ◌⊎◌, inl, inr, false, arith, Bool-cases}
use viabtc_exchange_server.Base.Int.{ℤ, pos, ◌≤ℤ◌, ◌<ℤ◌, ◌*ℤ◌, ltb_ℤ, ltb_ℤ→lt, ltb_ℤ→le}
use viabtc_exchange_server.Decimal.{Decimal, IsDecimal, IsDivision, Fits, OnGrid}
use viabtc_exchange_server.Order.{Order, Market}
use viabtc_exchange_server.Market.Execute.{affordable, market_bid_amount}

-- What the taker takes of the maker: all that it can pay for, or all that the maker has.
pub record IsAffordable (d : Decimal) (m : Market) (t k : Order) (a : ℤ) : Type 0 where
  pub nonneg : pos 0 ≤ℤ a
  pub le_maker : a ≤ℤ k.left
  pub paid : d.mul a k.price ≤ℤ t.left
  pub one : (a ≡ d.rescale (d.div t.left k.price) m.stock_prec) ⊎ (a ≡ k.left)

module _ (d : Decimal) (law : IsDecimal d) (division : IsDivision d) (m : Market) (t k : Order)
    (left_nonneg : pos 0 ≤ℤ t.left) (priced : pos 0 <ℤ k.price) (maker_nonneg : pos 0 ≤ℤ k.left)
    (fits : Fits d (d.div t.left k.price)) where
  abbrev quotient : ℤ
  quotient = d.div t.left k.price

  abbrev first : ℤ
  first = d.rescale quotient m.stock_prec

  first_nonneg : pos 0 ≤ℤ first
  first_nonneg =
      law.rescale_nonneg quotient m.stock_prec fits
        (division.div_nonneg t.left k.price left_nonneg priced)

  first_le : first ≤ℤ quotient
  first_le =
      law.rescale_le quotient m.stock_prec fits
        (division.div_nonneg t.left k.price left_nonneg priced)

  first_most :
      (v : ℤ)
      → pos 0 ≤ℤ v
      → Fits d v
      → OnGrid d m.stock_prec v
      → v *ℤ k.price ≤ℤ t.left *ℤ pos d.one
      → v ≤ℤ first
  first_most v n f g p =
      division.rescale_greatest quotient v m.stock_prec n fits g
        (division.div_greatest t.left k.price v left_nonneg priced n f p)

  paid_below : (a : ℤ) → pos 0 ≤ℤ a → a ≤ℤ first → d.mul a k.price ≤ℤ t.left
  paid_below a n le =
      let q = first_le in division.mul-div_le t.left k.price a left_nonneg priced n (omega arith)

  -- The loop ends at once, whatever its fuel.
  affordable_lem : (fuel : ℕ) → affordable d fuel m k.price t.left first ≡ first
  unfolding affordable
  affordable_lem zero = refl
  affordable_lem (suc fuel) =
      let le = paid_below first first_nonneg (omega arith) in
      let stop : ltb_ℤ t.left (d.mul first k.price) ≡ false = ground arith in
      rw (stop, affordable) refl

  -- The amount of a deal of a market order that bids does not depend on the fuel, since the inner
  -- loop ends at once; the amount is not negative, at most what the maker has left, costs at most
  -- what the taker has left, and is not below any amount of at most 34 digits at the precision of
  -- the stock that the maker has and whose exact cost the taker has left; it is the rescaled
  -- quotient of the taker's money by the price, or all that the maker has. Nothing left is
  -- negative, the price is positive, and the quotient of the taker's money by the price fits.
  pub market_bid_amount-IsAffordable :
      (fuel more : ℕ) (v : ℤ)
      → pos 0 ≤ℤ v
      → Fits d v
      → OnGrid d m.stock_prec v
      → v ≤ℤ k.left
      → v *ℤ k.price ≤ℤ t.left *ℤ pos d.one
      → (market_bid_amount d fuel m t k ≡ market_bid_amount d more m t k)
        × (IsAffordable d m t k (market_bid_amount d fuel m t k)
            × (v ≤ℤ market_bid_amount d fuel m t k))
  unfolding market_bid_amount
  market_bid_amount-IsAffordable fuel more v vn vf vg vk vp =
      let n = first_nonneg in
      let best = first_most v vn vf vg vp in
      rw (affordable_lem fuel, affordable_lem more)
        (
          refl,
          elim (Bool-cases (ltb_ℤ k.left first)) [
            | inl y ↦
                let lt = ltb_ℤ→lt k.left first y in
                rw y (
                  record {
                    nonneg = maker_nonneg;
                    le_maker = omega arith;
                    paid = paid_below k.left maker_nonneg (omega arith);
                    one = inr refl;
                  },
                  vk,
                )
            | inr more_left ↦
                let le = ltb_ℤ→le k.left first more_left in
                rw more_left (
                  record {
                    nonneg = n;
                    le_maker = le;
                    paid = paid_below first n (omega arith);
                    one = inl refl;
                  },
                  best,
                )
          ],
        )
