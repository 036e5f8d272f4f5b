-- ===== src/Market/Limit/Call.antt =====
-- market_put_limit_order (matchengine/me_market.c) as a whole keeps the books of its market.
use viabtc_exchange_server.Base.{ℕ, ◌≡◌, ◌<◌, ◌+◌, ◌^◌, refl, inl, inr, Bool, arith, Bool-cases}
use viabtc_exchange_server.Base.Int.{pos, ◌≤ℤ◌, ltb_ℤ}
use viabtc_exchange_server.Decimal.{Decimal, IsDecimal, Fits}
use viabtc_exchange_server.Order.{Order, State, Side, ask, bid, limit, Market, next_id}
use viabtc_exchange_server.Market.Execute.{execute_limit_ask_order, execute_limit_bid_order}
use viabtc_exchange_server.Market.Put.{
  Request, new_order, admit, limit_short, execute_limit, settle_limit, market_put_limit_order,
}
use viabtc_exchange_server.Market.Matching.Limits.{
  execute_limit_ask_order-Matched, execute_limit_bid_order-Matched,
}
use viabtc_exchange_server.Market.Invariant.{IsMarket}
use viabtc_exchange_server.Market.Limit.{next_id_lem, new_order-IsFilled}
use viabtc_exchange_server.Market.Limit.Ask.{settle_limit_ask-IsMarket}
use viabtc_exchange_server.Market.Limit.Bid.{settle_limit_bid-IsMarket}

module _ (d : Decimal) (law : IsDecimal d) (clock : ℕ → ℕ) (real : Bool) (m : Market) where
  module _ (q : Request) (s : State) (inv : IsMarket d s) (room : s.order_id_start + 1 < 2 ^ 64)
      (nonneg : pos 0 ≤ℤ q.amount) (fits : Fits d q.amount) where
    abbrev entering : Order
    unfolding new_order
    entering = new_order limit m q (next_id s.order_id_start) (clock s.ticks)

    newer : s.order_id_start < next_id s.order_id_start
    newer = rw (next_id_lem s.order_id_start room) (omega arith)

    executed :
        (side : Side)
        → q.side ≡ side
        → IsMarket d
            (settle_limit d clock real m
              (execute_limit d clock side real m entering (admit s)).0
              (execute_limit d clock side real m entering (admit s)).1).state
    unfolding execute_limit new_order
    executed ask e =
        let r = execute_limit_ask_order d clock real m entering s.bids (admit s) in
        settle_limit_ask-IsMarket d law clock real m entering s (admit s) r.1 r.0 inv newer refl
          refl refl refl e
          (execute_limit_ask_order-Matched d law clock real m entering (admit s)
            (new_order-IsFilled d m q (next_id s.order_id_start) (clock s.ticks) nonneg fits)
            inv.bids_sound.makers inv.bids_sound.in_order)
    executed bid e =
        let r = execute_limit_bid_order d clock real m entering s.asks (admit s) in
        settle_limit_bid-IsMarket d law clock real m entering s (admit s) r.1 r.0 inv newer refl
          refl refl refl e
          (execute_limit_bid_order-Matched d law clock real m entering (admit s)
            (new_order-IsFilled d m q (next_id s.order_id_start) (clock s.ticks) nonneg fits)
            inv.asks_sound.makers inv.asks_sound.in_order)

    -- Putting a limit order, whether it is refused, runs against the other book, rests or does
    -- both, leaves a market with sound books: each holds limit orders of its side with nothing
    -- negative left or dealt and with what is left and dealt adding up to the amount, in the order
    -- of order_match_compare, with distinct ids that were given out, and no bid reaches an ask. It
    -- holds where the market was so before, the order counter has room, and the amount is not
    -- negative and fits.
    pub market_put_limit_order-IsMarket :
        IsMarket d (market_put_limit_order d clock real m q s).state
    unfolding market_put_limit_order
    market_put_limit_order-IsMarket = elim (Bool-cases (limit_short d clock m q q.side s.ledger)) [
      | inl y ↦ rw y inv
      | inr n ↦ elim (Bool-cases (ltb_ℤ q.amount m.min_amount)) [
        | inl y ↦ rw (n, y) inv
        | inr n' ↦ rw (n, n') (executed q.side refl)
      ]
    ]
