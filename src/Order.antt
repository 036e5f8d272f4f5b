-- ===== src/Order.antt =====
-- The order_t and market_t of viabtc_exchange_server/matchengine/me_market.h, the state of the
-- match engine, and the two orders in which the skip lists of a market hold its orders
-- (matchengine/me_market.c). Times are numbers of the clock; market and source names are numbers.
use Prim.Native.Nat.{Ordering, compare}
use viabtc_exchange_server.Base.{
  ℕ, ◌+◌, ◌%◌, ◌^◌, Bool, true, false, List, ◌==◌, ltb, if◌then◌else◌,
}
use viabtc_exchange_server.Base.Int.{ℤ, pos_part, neg_part}
use viabtc_exchange_server.Dict.{Dict}
use viabtc_exchange_server.Balance.{Ledger}

-- MARKET_ORDER_TYPE_LIMIT, MARKET_ORDER_TYPE_MARKET
pub data OrderType : Type 0 where
  limit market : OrderType

-- MARKET_ORDER_SIDE_ASK, MARKET_ORDER_SIDE_BID
pub data Side : Type 0 where
  ask bid : Side

abbrev pub same_type : OrderType → OrderType → Bool
same_type limit limit = true
same_type limit market = false
same_type market limit = false
same_type market market = true

-- order_t
pub record Order : Type 0 where
  pub id : ℕ
  pub type : OrderType
  pub side : Side
  pub create_time : ℕ
  pub update_time : ℕ
  pub user_id : ℕ
  pub market_name : ℕ
  pub source : ℕ
  pub price : ℤ
  pub amount : ℤ
  pub taker_fee : ℤ
  pub maker_fee : ℤ
  pub left : ℤ
  pub freeze : ℤ
  pub deal_stock : ℤ
  pub deal_money : ℤ
  pub deal_fee : ℤ

-- mpd_cmp
abbrev pub cmp : ℤ → ℤ → Ordering
cmp a b = compare (pos_part a + neg_part b) (pos_part b + neg_part a)

-- The end of order_match_compare: equal prices go by the id.
unfoldable pub by_id : ℕ → ℕ → Ordering
by_id i j = if ltb j i then Ordering.gt else Ordering.lt

unfoldable pub price_cmp : Order → Order → Side → Ordering
price_cmp a b ask = cmp a.price b.price
price_cmp a b bid = cmp b.price a.price

unfoldable pub order_match_compare : Order → Order → Ordering
unfolding by_id price_cmp
order_match_compare a b =
    if a.id == b.id
    then Ordering.eq
    else if same_type a.type b.type
    then elim (price_cmp a b a.side) [
      | Ordering.eq ↦ by_id a.id b.id
      | Ordering.lt ↦ Ordering.lt
      | Ordering.gt ↦ Ordering.gt
    ]
    else Ordering.gt

-- The lists of a user's orders hold ids, the newest first.
unfoldable pub order_id_compare : ℕ → ℕ → Ordering
order_id_compare i j = if i == j then Ordering.eq else if ltb j i then Ordering.lt else Ordering.gt

-- The part of market_t that does not change.
pub record Market : Type 0 where
  pub name : ℕ
  pub stock : ℕ
  pub money : ℕ
  pub stock_prec : ℕ
  pub money_prec : ℕ
  pub fee_prec : ℕ
  pub min_amount : ℤ

pub data Role : Type 0 where
  maker taker : Role

-- ORDER_EVENT_PUT, ORDER_EVENT_UPDATE, ORDER_EVENT_FINISH
pub data OrderEvent : Type 0 where
  put update finish : OrderEvent

-- What a deal fixes: its price, the stock and the money that change hands, and the two fees.
pub record Deal : Type 0 where
  pub price : ℤ
  pub amount : ℤ
  pub deal : ℤ
  pub ask_fee : ℤ
  pub bid_fee : ℤ

-- What the engine writes to the history database and to the message queue.
pub data Event : Type 0 where
  -- append_order_deal_history and push_deal_message: the time, the deal's id, the ask order with its
  -- role, the bid order with its role, and the deal.
  order_deal : ℕ → ℕ → Order → Role → Order → Role → Deal → Event
  deal_message : ℕ → ℕ → Order → Order → Side → Deal → Event
  -- append_user_balance_history for "trade": the time, user, asset, change and the deal's order.
  trade_history : ℕ → ℕ → ℕ → ℤ → ℕ → Deal → Event
  -- The same for a fee, with the rate behind the deal.
  fee_history : ℕ → ℕ → ℕ → ℤ → ℕ → Deal → ℤ → Event
  -- append_user_balance_history and push_balance_message of a balance update by a business.
  balance_history : ℕ → ℕ → ℕ → ℕ → ℤ → ℕ → Event
  balance_message : ℕ → ℕ → ℕ → ℕ → ℤ → Event
  -- push_order_message, append_order_history
  order_message : OrderEvent → Order → Event
  order_history : Order → Event

-- The globals of the engine with one market's books. A pointer to an order in `orders` and in the list
-- of its user is the order's id; the order itself stands in the book of its side, or among the
-- `detached` ones, which `orders` holds and no book does.
pub record State : Type 0 where
  pub ledger : Ledger
  pub order_id_start : ℕ
  pub deals_id_start : ℕ
  -- The readings of the clock so far.
  pub ticks : ℕ
  -- Newest first.
  pub log : List Event
  pub orders : List ℕ
  pub users : Dict ℕ (List ℕ)
  pub asks : List Order
  pub bids : List Order
  pub detached : List Order

-- `++id` on a uint64_t.
abbrev pub next_id : ℕ → ℕ
next_id n = (n + 1) % 2 ^ 64
