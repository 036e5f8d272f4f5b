-- ===== src/Request/Tests.antt =====
-- A request for a limit order that is logged and run again.
use viabtc_exchange_server.Base.{
  ℕ, ◌+◌, ◌≡◌, refl, true, false, Option, none, some, List, [], ◌∷◌, nat_eq, length,
}
use viabtc_exchange_server.Base.Int.{ℤ, pos}
use viabtc_exchange_server.Decimal.Sample.{cents}
use viabtc_exchange_server.Balance.{AssetType, key, available, balance_get}
use viabtc_exchange_server.Dict.{find}
use viabtc_exchange_server.Market.Execute.{execute_limit_ask_order}
use viabtc_exchange_server.Order.{Order, Market, State, limit, bid}
use viabtc_exchange_server.Market.Put.{
  market_put_market_order, market_cancel_order, done, Request, market_put_limit_order,
}
use viabtc_exchange_server.Request.{
  Json, integer, text, limit_args, integer_at, text_at, positive_at, decimal, fee_at, limit_reply,
  on_cmd_order_put_limit, load_limit_order,
}
use viabtc_exchange_server.Request.MarketOrder.{
  on_cmd_order_put_market, load_market_order, market_args, market_reply, load_market_order-on_cmd,
}
use viabtc_exchange_server.Market.Book.{market_get_order, find_order}
use viabtc_exchange_server.Request.Cancel.{
  on_cmd_order_cancel, load_cancel_order, cancel_args, load_cancel_order-on_cmd,
}
use viabtc_exchange_server.Request.Replay.{load_limit_order-on_cmd, on_cmd_order_put_limit-refuses}

abbrev asset : AssetType
asset = record { prec_save = 2; prec_show = 2 }

abbrev shares : Market
shares = record {
  name = 1;
  stock = 1;
  money = 2;
  stock_prec = 1;
  money_prec = 1;
  fee_prec = 1;
  min_amount = pos 10;
}

abbrev clock : ℕ → ℕ
clock n = n + 1000

-- A name's number is its length, and a number is its first byte.
abbrev intern : List ℕ → ℕ
intern bytes = length bytes

abbrev parse : List ℕ → Option ℤ
parse [] = none
parse (x ∷ xs) = some (pos x)

-- User 7 has 5.00 of the stock; the books are empty.
abbrev start : State
start = record {
  ledger = record {
    dict_asset = (1, asset) ∷ (2, asset) ∷ [];
    dict_balance = (key 7 available 1, pos 500) ∷ [];
  };
  order_id_start = 0;
  deals_id_start = 0;
  ticks = 0;
  log = [];
  detached = [];
  orders = [];
  users = [];
  asks = [];
  bids = [];
}

-- An order that asks for 2.00 at 1.00, without fees.
abbrev params : List Json
params =
    integer (pos 7)
    ∷ text (65 ∷ [])
    ∷ integer (pos 1)
    ∷ text (200 ∷ [])
    ∷ text (100 ∷ [])
    ∷ text (0 ∷ [])
    ∷ text (0 ∷ [])
    ∷ text (87 ∷ [])
    ∷ []

logged : (on_cmd_order_put_limit cents intern parse shares clock params start).2 ≡ true
unfolding on_cmd_order_put_limit limit_args integer_at text_at positive_at decimal fee_at
    limit_reply market_put_limit_order balance_get find execute_limit_ask_order
logged = refl

load_limit_order-on_cmd_example :
    (a : Market × Request) × (((market_put_limit_order cents clock true a.0 a.1 start).code ≡ done)
      × (((on_cmd_order_put_limit cents intern parse shares clock params start).1
            ≡ (market_put_limit_order cents clock true a.0 a.1 start).state)
          × (load_limit_order cents intern parse shares clock params start
              ≡ some (
                (market_put_limit_order cents clock false a.0 a.1 start).code,
                (market_put_limit_order cents clock false a.0 a.1 start).state,
              ))))
load_limit_order-on_cmd_example =
    load_limit_order-on_cmd cents intern parse shares clock params start start logged

-- A request without arguments.
not_logged : (on_cmd_order_put_limit cents intern parse shares clock [] start).2 ≡ false
unfolding on_cmd_order_put_limit limit_args
not_logged = refl

on_cmd_order_put_limit-refuses_example :
    (on_cmd_order_put_limit cents intern parse shares clock [] start).1 ≡ start
on_cmd_order_put_limit-refuses_example =
    on_cmd_order_put_limit-refuses cents intern parse shares clock [] start not_logged

-- A market order that asks for 2.00 meets one bid.
abbrev market_params : List Json
market_params =
    integer (pos 7)
    ∷ text (65 ∷ [])
    ∷ integer (pos 1)
    ∷ text (200 ∷ [])
    ∷ text (0 ∷ [])
    ∷ text (87 ∷ [])
    ∷ []

abbrev with_bid : State
with_bid = record start {
  bids =
      record {
        id = 1;
        type = limit;
        side = bid;
        create_time = 0;
        update_time = 0;
        user_id = 5;
        market_name = 1;
        source = 1;
        price = pos 100;
        amount = pos 100;
        taker_fee = pos 0;
        maker_fee = pos 0;
        left = pos 100;
        freeze = pos 100;
        deal_stock = pos 0;
        deal_money = pos 0;
        deal_fee = pos 0;
      }
      ∷ [];
}

market_logged :
    (on_cmd_order_put_market cents intern parse shares clock 5 market_params with_bid).2 ≡ true
unfolding on_cmd_order_put_market market_args integer_at text_at positive_at decimal fee_at
    market_reply market_put_market_order balance_get find
market_logged = refl

load_market_order-on_cmd_example :
    (a : Market × Request) × (((market_put_market_order cents clock 5 true a.0 a.1 with_bid).code
        ≡ done)
      × (((on_cmd_order_put_market cents intern parse shares clock 5 market_params with_bid).1
            ≡ (market_put_market_order cents clock 5 true a.0 a.1 with_bid).state)
          × (load_market_order cents intern parse shares clock 5 market_params start
              ≡ some (
                (market_put_market_order cents clock 5 false a.0 a.1 start).code,
                (market_put_market_order cents clock 5 false a.0 a.1 start).state,
              ))))
load_market_order-on_cmd_example =
    load_market_order-on_cmd cents intern parse shares clock 5 market_params with_bid start
      market_logged

-- User 5 cancels the bid.
abbrev cancel_params : List Json
cancel_params = integer (pos 5) ∷ text (65 ∷ []) ∷ integer (pos 1) ∷ []

abbrev resting : State
resting = record with_bid { orders = 1 ∷ [] }

cancel_logged : (on_cmd_order_cancel cents intern parse shares clock cancel_params resting).2 ≡ true
unfolding on_cmd_order_cancel cancel_args integer_at text_at market_get_order find_order
cancel_logged = refl

load_cancel_order-on_cmd_example :
    (a : ℕ × Market × ℕ) × ((cancel_args cents intern parse shares clock cancel_params ≡ some a)
      × ((o : Order) × ((market_get_order resting a.2 ≡ some o)
            × ((o.user_id ≡ a.0)
                × (((on_cmd_order_cancel cents intern parse shares clock cancel_params resting).1
                      ≡ (market_cancel_order cents clock true a.1 o resting).state)
                    × (load_cancel_order cents intern parse shares clock cancel_params resting
                        ≡ some (market_cancel_order cents clock false a.1 o resting).state))))))
load_cancel_order-on_cmd_example =
    load_cancel_order-on_cmd cents intern parse shares clock cancel_params resting cancel_logged
