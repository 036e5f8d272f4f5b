-- ===== src/Market/Put.antt =====
-- market_put_limit_order, market_put_market_order, market_cancel_order, market_get_status and
-- market_create of matchengine/me_market.c.
use viabtc_exchange_server.Base.{
  ℕ, ◌+◌, Bool, true, false, Option, none, some, List, [], ◌∷◌, not, ◌||◌, if◌then◌else◌, length,
}
use viabtc_exchange_server.Base.Int.{ℤ, pos, ltb_ℤ, eqb_ℤ}
use viabtc_exchange_server.Decimal.{Decimal}
use viabtc_exchange_server.Balance.{Ledger, balance_get, available, asset_exist, asset_prec}
use viabtc_exchange_server.Order.{
  Order, OrderType, limit, market, Side, ask, bid, Market, State, put, finish, order_message,
  order_history, next_id,
}
use viabtc_exchange_server.Market.Book.{log_if, order_put, order_finish}
use viabtc_exchange_server.Market.Execute.{
  execute_limit_ask_order, execute_limit_bid_order, execute_market_ask_order,
  execute_market_bid_order,
}

-- The return values 0, -1, -2 and -3.
pub data Code : Type 0 where
  done no_balance small_amount no_counterpart : Code

-- What a call returns: its code, the order's information for the caller, and the state.
pub record Reply : Type 0 where
  pub code : Code
  pub result : Option Order
  pub state : State

abbrev pub refuse : Code → State → Reply
refuse c s = record { code = c; result = none; state = s }

-- `!balance || mpd_cmp(balance, need) < 0`
unfoldable pub short_of : Ledger → ℕ → ℕ → ℤ → Bool
short_of l u a need = elim (balance_get l u available a) [
  | none ↦ true
  | some balance ↦ ltb_ℤ balance need
]

-- The arguments of the two calls; a market order has no price and no maker fee.
pub record Request : Type 0 where
  pub user_id : ℕ
  pub side : Side
  pub amount : ℤ
  pub price : ℤ
  pub taker_fee : ℤ
  pub maker_fee : ℤ
  pub source : ℕ

unfoldable pub new_order : OrderType → Market → Request → ℕ → ℕ → Order
new_order type m q i now = record {
  id = i;
  type = type;
  side = q.side;
  create_time = now;
  update_time = now;
  user_id = q.user_id;
  market_name = m.name;
  source = q.source;
  price = q.price;
  amount = q.amount;
  taker_fee = q.taker_fee;
  maker_fee = q.maker_fee;
  left = q.amount;
  freeze = pos 0;
  deal_stock = pos 0;
  deal_money = pos 0;
  deal_fee = pos 0;
}

-- `++order_id_start` and the clock's reading for a new order.
abbrev pub admit : State → State
admit s = record s { order_id_start = next_id s.order_id_start; ticks = s.ticks + 1 }

abbrev pub info_if : Bool → Order → Option Order
info_if true o = some o
info_if false o = none

module _ (d : Decimal) (clock : ℕ → ℕ) where
  open d use {mul, add}

  -- The asset and the funds that the order needs.
  unfoldable pub limit_short : Market → Request → Side → Ledger → Bool
  unfolding short_of
  limit_short m q ask l = short_of l q.user_id m.stock q.amount
  limit_short m q bid l = short_of l q.user_id m.money (mul q.amount q.price)

  unfoldable pub execute_limit : Side → Bool → Market → Order → State → Order × State
  execute_limit ask real m o s = execute_limit_ask_order d clock real m o s.bids s
  execute_limit bid real m o s = execute_limit_bid_order d clock real m o s.asks s

  -- Behind the loop: a filled order is finished, any other rests in its book. A failure of order_put is
  -- only logged.
  unfoldable pub settle_limit : Bool → Market → Order → State → Reply
  unfolding log_if
  settle_limit real m o s =
      if eqb_ℤ o.left (pos 0)
      then (record {
        code = done;
        result = info_if real o;
        state = log_if real (order_message finish o) (log_if real (order_history o) s);
      })
      else (record {
        code = done;
        result = info_if real o;
        state = (order_put d m (log_if real (order_message put o) s) o).1;
      })

  unfoldable pub market_put_limit_order : Bool → Market → Request → State → Reply
  unfolding limit_short execute_limit settle_limit new_order
  market_put_limit_order real m q s =
      if limit_short m q q.side s.ledger
      then refuse no_balance s
      else if ltb_ℤ q.amount m.min_amount
      then refuse small_amount s
      else let o = new_order limit m q (next_id s.order_id_start) (clock s.ticks) in
        let r = execute_limit q.side real m o (admit s) in settle_limit real m r.0 r.1

  -- The checks of market_put_market_order.
  unfoldable pub market_check : Market → Request → Side → State → Code
  unfolding short_of
  market_check m q ask s =
      if short_of s.ledger q.user_id m.stock q.amount then no_balance else elim s.bids [
        | [] ↦ no_counterpart
        | best ∷ _ ↦ if ltb_ℤ q.amount m.min_amount then small_amount else done
      ]
  market_check m q bid s =
      if short_of s.ledger q.user_id m.money q.amount then no_balance else elim s.asks [
        | [] ↦ no_counterpart
        | best ∷ _ ↦ if ltb_ℤ q.amount (mul best.price m.min_amount) then small_amount else done
      ]

  unfoldable pub execute_market : ℕ → Side → Bool → Market → Order → State → Order × State
  execute_market fuel ask real m o s = execute_market_ask_order d clock real m o s.bids s
  execute_market fuel bid real m o s = execute_market_bid_order d clock fuel real m o s.asks s

  unfoldable pub settle_market : Bool → Order → State → Reply
  unfolding log_if
  settle_market real o s = record {
    code = done;
    result = info_if real o;
    state = log_if real (order_message finish o) (log_if real (order_history o) s);
  }

  unfoldable pub market_put_market_order : ℕ → Bool → Market → Request → State → Reply
  unfolding market_check execute_market settle_market new_order
  market_put_market_order fuel real m q s = elim (market_check m q q.side s) [
    | done ↦
        let priceless = record q { price = pos 0; maker_fee = pos 0 } in
        let o = new_order market m priceless (next_id s.order_id_start) (clock s.ticks) in
        let r = execute_market fuel q.side real m o (admit s) in settle_market real r.0 r.1
    | no_balance ↦ refuse no_balance s
    | small_amount ↦ refuse small_amount s
    | no_counterpart ↦ refuse no_counterpart s
  ]

  unfoldable pub market_cancel_order : Bool → Market → Order → State → Reply
  unfolding log_if
  market_cancel_order real m o s = record {
    code = done;
    result = info_if real o;
    state = (order_finish d real m (log_if real (order_message finish o) s) o).1;
  }

  -- The out parameters of market_get_status.
  unfoldable pub sum_left : ℤ → List Order → ℤ
  sum_left acc [] = acc
  sum_left acc (o ∷ os) = sum_left (add acc o.left) os

  unfoldable pub market_get_status : State → ℕ × ℤ × ℕ × ℤ
  unfolding sum_left
  market_get_status s =
      (length s.asks, sum_left (pos 0) s.asks, length s.bids, sum_left (pos 0) s.bids)

-- The checks of market_create; what follows them only allocates.
unfoldable pub market_create : Ledger → Market → Option Market
market_create l conf =
    if not (asset_exist l conf.stock) || not (asset_exist l conf.money)
    then none
    else if ltb_ℤ (asset_prec l conf.money) (pos (conf.stock_prec + conf.money_prec))
    then none
    else if ltb_ℤ (asset_prec l conf.stock) (pos (conf.stock_prec + conf.fee_prec))
    then none
    else if ltb_ℤ (asset_prec l conf.money) (pos (conf.money_prec + conf.fee_prec))
    then none
    else some conf
