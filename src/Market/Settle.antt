-- ===== src/Market/Settle.antt =====
-- One deal between a taker and a maker: the part of the loops of execute_limit_ask_order,
-- execute_limit_bid_order, execute_market_ask_order and execute_market_bid_order
-- (matchengine/me_market.c) from the reading of the clock to the last fee. The four differ in the
-- deal and in the asset in which the bid order's fee is taken, which are arguments here.
use viabtc_exchange_server.Base.{ℕ, ◌+◌, Bool, if◌then◌else◌}
use viabtc_exchange_server.Base.Int.{ℤ, pos, ◌-ℤ◌, ltb_ℤ}
use viabtc_exchange_server.Decimal.{Decimal}
use viabtc_exchange_server.Balance.{balance_add, balance_sub, BalanceType, available, freeze}
use viabtc_exchange_server.Order.{
  Order, ask, bid, Market, State, Deal, taker, maker, Event, order_deal, deal_message,
  trade_history, fee_history, next_id,
}
use viabtc_exchange_server.Market.Book.{log_if}

module _ (d : Decimal) (clock : ℕ → ℕ) where
  open d use {add, sub}

  -- balance_sub and append_balance_trade_sub: the result of the first is not looked at.
  unfoldable pub pay : Bool → State → Order → BalanceType → ℕ → ℤ → Deal → State
  unfolding log_if
  pay real s o t a change deal =
      log_if real (trade_history o.update_time o.user_id a (pos 0 -ℤ change) o.id deal)
        (record s { ledger = (balance_sub d s.ledger o.user_id t a change).1 })

  -- balance_add and append_balance_trade_add.
  unfoldable pub gain : Bool → State → Order → ℕ → ℤ → Deal → State
  unfolding log_if
  gain real s o a change deal =
      log_if real (trade_history o.update_time o.user_id a change o.id deal)
        (record s { ledger = (balance_add d s.ledger o.user_id available a change).1 })

  -- A fee above zero is taken off the available balance: balance_sub and append_balance_trade_fee.
  unfoldable pub pay_fee : Bool → State → Order → ℕ → ℤ → Deal → ℤ → State
  unfolding log_if
  pay_fee real s o a fee deal rate =
      if ltb_ℤ (pos 0) fee
      then log_if real (fee_history o.update_time o.user_id a (pos 0 -ℤ fee) o.id deal rate)
          (record s { ledger = (balance_sub d s.ledger o.user_id available a fee).1 })
      else s

  -- mpd_sub and mpd_add on the taker, whose `left` falls by `used` and who pays `fee`.
  unfoldable pub fill_taker : Order → ℤ → Deal → ℤ → Order
  fill_taker o used deal fee = record o {
    left = sub o.left used;
    deal_stock = add o.deal_stock deal.amount;
    deal_money = add o.deal_money deal.deal;
    deal_fee = add o.deal_fee fee;
  }

  -- The same on the maker, of whose frozen funds `used` is spent.
  unfoldable pub fill_maker : Order → ℤ → Deal → ℤ → Order
  fill_maker o used deal fee = record o {
    left = sub o.left deal.amount;
    freeze = sub o.freeze used;
    deal_stock = add o.deal_stock deal.amount;
    deal_money = add o.deal_money deal.deal;
    deal_fee = add o.deal_fee fee;
  }

  abbrev pub stamp : ℕ → Order → Order
  stamp now o = record o { update_time = now }

  -- The clock is read, the deal gets its id, and both are published.
  unfoldable pub open_deal : Bool → State → (ℕ → ℕ → Event × Event) → State
  unfolding log_if
  open_deal real s publish =
      let now = clock s.ticks in
      let deal_id = next_id s.deals_id_start in
      let events = publish now deal_id in
      log_if real events.1
        (log_if real events.0 (record s { ticks = s.ticks + 1; deals_id_start = deal_id }))

  -- The taker asks: stock goes from the taker to the maker, money from the maker's frozen funds to the
  -- taker. The orders are stamped already.
  unfoldable pub settle_ask : Bool → Market → ℕ → Deal → Order → Order → State → State
  unfolding pay gain pay_fee
  settle_ask real m bid_fee_asset deal t k s =
      let s1 = pay real s t available m.stock deal.amount deal in
      let s2 = gain real s1 t m.money deal.deal deal in
      let s3 = pay_fee real s2 t m.money deal.ask_fee deal t.taker_fee in
      let s4 = pay real s3 k freeze m.money deal.deal deal in
      let s5 = gain real s4 k m.stock deal.amount deal in
      pay_fee real s5 k bid_fee_asset deal.bid_fee deal k.maker_fee

  -- The taker bids: money goes from the taker to the maker, stock from the maker's frozen funds to the
  -- taker.
  unfoldable pub settle_bid : Bool → Market → ℕ → Deal → Order → Order → State → State
  unfolding pay gain pay_fee
  settle_bid real m bid_fee_asset deal t k s =
      let s1 = pay real s t available m.money deal.deal deal in
      let s2 = gain real s1 t m.stock deal.amount deal in
      let s3 = pay_fee real s2 t bid_fee_asset deal.bid_fee deal t.taker_fee in
      let s4 = pay real s3 k freeze m.stock deal.amount deal in
      let s5 = gain real s4 k m.money deal.deal deal in
      pay_fee real s5 k m.money deal.ask_fee deal k.maker_fee

  -- What a taker that asks meets: the two orders after the deal and the state.
  unfoldable pub trade_ask :
      Bool → Market → ℕ → Deal → Order → Order → State → Order × Order × State
  unfolding open_deal settle_ask fill_taker fill_maker
  trade_ask real m bid_fee_asset deal t k s =
      let now = clock s.ticks in
      let t1 = stamp now t in
      let k1 = stamp now k in
      let s1 = open_deal real s (λ time deal_id. (
        order_deal time deal_id t1 taker k1 maker deal,
        deal_message time deal_id t1 k1 ask deal,
      )) in
      (
        fill_taker t1 deal.amount deal deal.ask_fee,
        fill_maker k1 deal.deal deal deal.bid_fee,
        settle_ask real m bid_fee_asset deal t1 k1 s1,
      )

  -- `used` is what the deal takes off the taker's `left`: stock for a limit order, money for a market
  -- order.
  unfoldable pub trade_bid :
      Bool → Market → ℕ → Deal → ℤ → Order → Order → State → Order × Order × State
  unfolding open_deal settle_bid fill_taker fill_maker
  trade_bid real m bid_fee_asset deal used t k s =
      let now = clock s.ticks in
      let t1 = stamp now t in
      let k1 = stamp now k in
      let s1 = open_deal real s (λ time deal_id. (
        order_deal time deal_id k1 maker t1 taker deal,
        deal_message time deal_id k1 t1 bid deal,
      )) in
      (
        fill_taker t1 used deal deal.bid_fee,
        fill_maker k1 deal.amount deal deal.ask_fee,
        settle_bid real m bid_fee_asset deal t1 k1 s1,
      )
