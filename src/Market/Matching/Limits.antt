-- ===== src/Market/Matching/Limits.antt =====
-- execute_limit_ask_order, execute_limit_bid_order and execute_market_ask_order
-- (matchengine/me_market.c) on a whole book.
use viabtc_exchange_server.Base.{ℕ, refl, Bool, false, All}
use viabtc_exchange_server.Decimal.{Decimal, IsDecimal}
use viabtc_exchange_server.Order.{Order, State, ask, bid, Market}
use viabtc_exchange_server.Market.Execute.{
  ask_stops, bid_stops, limit_ask_round, limit_bid_round, market_ask_round, execute_limit_ask_order,
  execute_limit_bid_order, execute_market_ask_order,
}
use viabtc_exchange_server.Market.Matching.Front.{InOrder, Matched, match_loop-Matched}
use viabtc_exchange_server.Market.Matching.Fills.{IsFilled, IsMaker}
use viabtc_exchange_server.Market.Matching.Rounds.{
  book_of, other_of, limit_ask_Rounded, limit_bid_Rounded, market_ask_Rounded,
}

module _ (d : Decimal) (law : IsDecimal d) (clock : ℕ → ℕ) (real : Bool) (m : Market) where
  pub execute_limit_ask_order-Matched :
      (t : Order) (s : State)
      → IsFilled d t
      → All (IsMaker d bid) s.bids
      → InOrder s.bids
      → Matched
          (book_of bid)
          (other_of bid)
          (IsFilled d)
          (IsMaker d bid)
          (ask_stops d clock)
          t
          s
          s.bids
          (execute_limit_ask_order d clock real m t s.bids s)
  unfolding execute_limit_ask_order
  execute_limit_ask_order-Matched t s ft mk io =
      match_loop-Matched (book_of bid) (other_of bid) (IsFilled d) (IsMaker d bid)
        (ask_stops d clock) (limit_ask_round d clock real m)
        (λ t k rest s ft mk e h _. limit_ask_Rounded d law clock real m t k rest s ft mk e h) t
        s.bids s ft mk io refl

  pub execute_limit_bid_order-Matched :
      (t : Order) (s : State)
      → IsFilled d t
      → All (IsMaker d ask) s.asks
      → InOrder s.asks
      → Matched
          (book_of ask)
          (other_of ask)
          (IsFilled d)
          (IsMaker d ask)
          (bid_stops d clock)
          t
          s
          s.asks
          (execute_limit_bid_order d clock real m t s.asks s)
  unfolding execute_limit_bid_order
  execute_limit_bid_order-Matched t s ft mk io =
      match_loop-Matched (book_of ask) (other_of ask) (IsFilled d) (IsMaker d ask)
        (bid_stops d clock) (limit_bid_round d clock real m)
        (λ t k rest s ft mk e h _. limit_bid_Rounded d law clock real m t k rest s ft mk e h) t
        s.asks s ft mk io refl

  -- A market order that asks, run against sound bids in order, takes the best bids first, at any
  -- price: the bids left are the old ones without some at the front, the first of them perhaps
  -- partly filled; what is left of the order falls by exactly as much as what is left of all bids
  -- together, so that only filled bids are gone; the order keeps its identity and its amounts add
  -- up; and the run ended because the order is filled or no bid is left. The asks and the order
  -- counter do not change.
  pub execute_market_ask_order-Matched :
      (t : Order) (s : State)
      → IsFilled d t
      → All (IsMaker d bid) s.bids
      → InOrder s.bids
      → Matched
          (book_of bid)
          (other_of bid)
          (IsFilled d)
          (IsMaker d bid)
          (λ t k. false)
          t
          s
          s.bids
          (execute_market_ask_order d clock real m t s.bids s)
  unfolding execute_market_ask_order
  execute_market_ask_order-Matched t s ft mk io =
      match_loop-Matched (book_of bid) (other_of bid) (IsFilled d) (IsMaker d bid) (λ t k. false)
        (market_ask_round d clock real m)
        (λ t k rest s ft mk e h _. market_ask_Rounded d law clock real m t k rest s ft mk e h) t
        s.bids s ft mk io refl
