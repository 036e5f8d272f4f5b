-- ===== src/Market/Execute.antt =====
-- The four matching loops of matchengine/me_market.c. A loop recurs on the nodes that its iterator
-- has still to give: skiplist_next fetches the node behind the one that the body may delete.
use viabtc_exchange_server.Base.{
  ℕ, zero, suc, Bool, true, false, List, [], ◌∷◌, ◌==◌, if◌then◌else◌,
}
use viabtc_exchange_server.Base.Int.{ℤ, pos, ltb_ℤ, eqb_ℤ}
use viabtc_exchange_server.Decimal.{Decimal}
use viabtc_exchange_server.Order.{
  Order, Side, ask, bid, Market, State, Deal, update, finish, order_message,
}
use viabtc_exchange_server.Market.Book.{log_if, order_finish}
use viabtc_exchange_server.Market.Settle.{trade_ask, trade_bid}

-- The maker in its book, changed in place.
unfoldable pub write_order : Order → List Order → List Order
write_order o [] = []
write_order o (x ∷ xs) = if o.id == x.id then o ∷ xs else x ∷ write_order o xs

unfoldable pub write_side : State → Order → Side → State
unfolding write_order
write_side s o ask = record s { asks = write_order o s.asks }
write_side s o bid = record s { bids = write_order o s.bids }

abbrev pub min_left : Order → Order → ℤ
min_left t k = if ltb_ℤ t.left k.left then t.left else k.left

-- `while ((node = skiplist_next(iter)) != NULL)`: the taker is filled, the maker stops the loop, or a
-- round is run.
unfoldable pub match_loop :
    (Order → Order → Bool)
    → (Order → Order → State → Order × State)
    → Order
    → List Order
    → State
    → Order × State
match_loop stops round t [] s = (t, s)
match_loop stops round t (k ∷ rest) s =
    let r = round t k s in
    let next = match_loop stops round r.0 rest r.1 in
    if eqb_ℤ t.left (pos 0) then (t, s) else if stops t k then (t, s) else next

module _ (d : Decimal) where
  open d use {add, sub, mul, div, rescale, tenth}

  -- The bid order's fee is a share of the money in the loops of limit orders.
  unfoldable pub limit_ask_deal : Order → Order → Deal
  limit_ask_deal t k =
      let a = min_left t k in
      let money = mul k.price a in
      record {
        price = k.price;
        amount = a;
        deal = money;
        ask_fee = mul money t.taker_fee;
        bid_fee = mul money k.maker_fee;
      }

  unfoldable pub limit_bid_deal : Order → Order → Deal
  limit_bid_deal t k =
      let a = min_left t k in
      let money = mul k.price a in
      record {
        price = k.price;
        amount = a;
        deal = money;
        ask_fee = mul money k.maker_fee;
        bid_fee = mul money t.taker_fee;
      }

  -- It is a share of the stock in those of market orders.
  unfoldable pub market_ask_deal : Order → Order → Deal
  market_ask_deal t k =
      let a = min_left t k in
      let money = mul k.price a in
      record {
        price = k.price;
        amount = a;
        deal = money;
        ask_fee = mul money t.taker_fee;
        bid_fee = mul a k.maker_fee;
      }

  -- The inner loop of execute_market_bid_order: while the cost is above `left`, one unit of the stock
  -- is taken off.
  unfoldable pub affordable : ℕ → Market → ℤ → ℤ → ℤ → ℤ
  affordable zero m price left a = a
  affordable (suc fuel) m price left a = elim (ltb_ℤ left (mul a price)) [
    | true ↦ affordable fuel m price left (sub a (tenth m.stock_prec))
    | false ↦ a
  ]

  unfoldable pub market_bid_amount : ℕ → Market → Order → Order → ℤ
  unfolding affordable
  market_bid_amount fuel m t k =
      let a = affordable fuel m k.price t.left (rescale (div t.left k.price) m.stock_prec) in
      if ltb_ℤ k.left a then k.left else a

  unfoldable pub market_bid_deal : ℤ → Order → Order → Deal
  market_bid_deal a t k =
      let money = mul k.price a in
      record {
        price = k.price;
        amount = a;
        deal = money;
        ask_fee = mul money k.maker_fee;
        bid_fee = mul a t.taker_fee;
      }

module _ (d : Decimal) (clock : ℕ → ℕ) where
  -- The end of a round: a maker that is filled leaves the market.
  unfoldable pub finish_round : Bool → Market → Order → Side → State → State
  unfolding log_if order_finish write_side
  finish_round real m k side s =
      if eqb_ℤ k.left (pos 0)
      then (order_finish d real m (log_if real (order_message finish k) (write_side s k side)) k).1
      else log_if real (order_message update k) (write_side s k side)

  -- One round of each loop: the taker after the deal and the state.
  unfoldable pub limit_ask_round : Bool → Market → Order → Order → State → Order × State
  unfolding limit_ask_deal trade_ask finish_round
  limit_ask_round real m t k s =
      let (t', k', s') = trade_ask d clock real m m.money (limit_ask_deal d t k) t k s in
      (t', finish_round real m k' bid s')

  unfoldable pub limit_bid_round : Bool → Market → Order → Order → State → Order × State
  unfolding limit_bid_deal trade_bid finish_round
  limit_bid_round real m t k s =
      let deal = limit_bid_deal d t k in
      let (t', k', s') = trade_bid d clock real m m.money deal deal.amount t k s in
      (t', finish_round real m k' ask s')

  unfoldable pub market_ask_round : Bool → Market → Order → Order → State → Order × State
  unfolding market_ask_deal trade_ask finish_round
  market_ask_round real m t k s =
      let (t', k', s') = trade_ask d clock real m m.stock (market_ask_deal d t k) t k s in
      (t', finish_round real m k' bid s')

  unfoldable pub market_bid_round : ℤ → Bool → Market → Order → Order → State → Order × State
  unfolding market_bid_deal trade_bid finish_round
  market_bid_round a real m t k s =
      let deal = market_bid_deal d a t k in
      let (t', k', s') = trade_bid d clock real m m.stock deal deal.deal t k s in
      (t', finish_round real m k' ask s')

  -- `break` at a maker that does not meet the taker's limit.
  abbrev pub ask_stops : Order → Order → Bool
  ask_stops t k = ltb_ℤ k.price t.price

  abbrev pub bid_stops : Order → Order → Bool
  bid_stops t k = ltb_ℤ t.price k.price

  unfoldable pub execute_limit_ask_order :
      Bool → Market → Order → List Order → State → Order × State
  unfolding match_loop limit_ask_round
  execute_limit_ask_order real m = match_loop ask_stops (limit_ask_round real m)

  unfoldable pub execute_limit_bid_order :
      Bool → Market → Order → List Order → State → Order × State
  unfolding match_loop limit_bid_round
  execute_limit_bid_order real m = match_loop bid_stops (limit_bid_round real m)

  unfoldable pub execute_market_ask_order :
      Bool → Market → Order → List Order → State → Order × State
  unfolding match_loop market_ask_round
  execute_market_ask_order real m = match_loop (λ t k. false) (market_ask_round real m)

  -- `break` also where the taker's money buys nothing of the maker.
  unfoldable pub execute_market_bid_order :
      ℕ → Bool → Market → Order → List Order → State → Order × State
  unfolding match_loop market_bid_round
  execute_market_bid_order fuel real m =
      match_loop (λ t k. eqb_ℤ (market_bid_amount d fuel m t k) (pos 0))
        (λ t k. market_bid_round (market_bid_amount d fuel m t k) real m t k)
