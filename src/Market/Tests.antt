-- ===== src/Market/Tests.antt =====
-- Runs of the operations of me_market.c on a small market in cents.
use viabtc_exchange_server.Base.{
  ℕ, ◌≡◌, refl, true, false, none, some, List, [], ◌∷◌, arith, ◌+◌, ◌<◌, ◌^◌, All, nat_eq,
}
use viabtc_exchange_server.Base.Int.{◌≤ℤ◌, ℤ, pos, ◌+ℤ◌, ◌-ℤ◌, ◌*ℤ◌, int_laws}
use viabtc_exchange_server.Decimal.Sample.{cents, cents-IsDecimal, cents-IsDivision}
use viabtc_exchange_server.Balance.{
  AssetType, key, available, freeze, balance_get, balance_add, balance_del, balance_set,
  balance_unfreeze, balance_freeze, balance_sub, add_found, move, take_off, write, get_asset_type,
}
use viabtc_exchange_server.Dict.{find, store, delete}
use viabtc_exchange_server.SkipList
use viabtc_exchange_server.SkipList.{last_le}
use viabtc_exchange_server.Market.Book.{
  order_put, order_finish, leave_book, drop_node, unfreeze_rest, charged, log_if, market_get_order,
  find_order,
}
use viabtc_exchange_server.Order.{
  Order, Side, ask, bid, limit, Market, State, order_match_compare, order_id_compare,
}
use viabtc_exchange_server.Market.Execute.{
  execute_limit_bid_order, execute_market_ask_order, market_bid_amount,
}
use viabtc_exchange_server.Market.Put.{
  Request, market_put_limit_order, market_put_market_order, market_cancel_order,
}
use viabtc_exchange_server.Market.Matching.Front.{Matched, InOrder}
use viabtc_exchange_server.Market.Matching.Fills.{IsFilled, IsMaker}
use viabtc_exchange_server.Market.Matching.Rounds.{book_of, other_of}
use viabtc_exchange_server.Market.Matching.Limits.{execute_market_ask_order-Matched}
use viabtc_exchange_server.Market.Invariant.{IsMarket}
use viabtc_exchange_server.Market.Cancel.Exactly.{Removed, market_cancel_order-Removed}
use viabtc_exchange_server.Market.MarketAsk.{market_put_market_order_ask-IsMarket}
use viabtc_exchange_server.Market.Affordable.{IsAffordable, market_bid_amount-IsAffordable}
use viabtc_exchange_server.Market.Entry.{Entered, order_put-Entered}
use viabtc_exchange_server.Market.Limit.Call.{market_put_limit_order-IsMarket}

abbrev asset : AssetType
asset = record { prec_save = 2; prec_show = 2 }

-- Stock 1 is traded for money 2.
abbrev shares : Market
shares = record {
  name = 1;
  stock = 1;
  money = 2;
  stock_prec = 1;
  money_prec = 1;
  fee_prec = 1;
  min_amount = pos 10;
}

abbrev clock : ℕ → ℕ
clock n = n + 1000

abbrev order : ℕ → Side → ℕ → ℤ → ℤ → ℤ → Order
order i side u price amount frozen = record {
  id = i;
  type = limit;
  side = side;
  create_time = 1;
  update_time = 1;
  user_id = u;
  market_name = 1;
  source = 0;
  price = price;
  amount = amount;
  taker_fee = pos 10;
  maker_fee = pos 10;
  left = amount;
  freeze = frozen;
  deal_stock = pos 0;
  deal_money = pos 0;
  deal_fee = pos 0;
}

-- User 5 asks for 1.00 and 1.20, user 6 bids 0.90; user 7 has both assets.
abbrev start : State
start = record {
  ledger = record {
    dict_asset = (1, asset) ∷ (2, asset) ∷ [];
    dict_balance =
        (key 5 freeze 1, pos 400)
        ∷ (key 6 freeze 2, pos 180)
        ∷ (key 7 available 1, pos 1000)
        ∷ (key 7 available 2, pos 1000)
        ∷ [];
  };
  order_id_start = 3;
  deals_id_start = 0;
  ticks = 0;
  log = [];
  detached = [];
  orders = 3 ∷ 2 ∷ 1 ∷ [];
  users = (5, 2 ∷ 1 ∷ []) ∷ (6, 3 ∷ []) ∷ [];
  asks =
      order 1 ask 5 (pos 100) (pos 200) (pos 200)
      ∷ order 2 ask 5 (pos 120) (pos 200) (pos 200)
      ∷ [];
  bids = order 3 bid 6 (pos 90) (pos 200) (pos 180) ∷ [];
}

order-IsFilled :
    (i : ℕ) (side : Side) (u : ℕ) (price : ℤ) (a : ℕ) (frozen : ℤ)
    → a < 10 ^ 34
    → IsFilled cents (order i side u price (pos a) frozen)
unfolding ◌+ℤ◌
order-IsFilled i side u price a frozen h = record {
  left_nonneg = omega arith;
  dealt_nonneg = omega arith;
  whole = omega int_laws;
  fits = (h, omega arith);
}

order-IsMaker :
    (i : ℕ) (side : Side) (u : ℕ) (price : ℤ) (a : ℕ) (frozen : ℤ)
    → a < 10 ^ 34
    → IsMaker cents side (order i side u price (pos a) frozen)
order-IsMaker i side u price a frozen h = record {
  filled = order-IsFilled i side u price a frozen h;
  on_side = refl;
  resting = refl;
}

asks-are_makers : All (IsMaker cents ask) start.asks
asks-are_makers = (
  order-IsMaker 1 ask 5 (pos 100) 200 (pos 200) (omega arith),
  (order-IsMaker 2 ask 5 (pos 120) 200 (pos 200) (omega arith), tt),
)

bids-are_makers : All (IsMaker cents bid) start.bids
bids-are_makers = (order-IsMaker 3 bid 6 (pos 90) 200 (pos 180) (omega arith), tt)

asks-InOrder : InOrder start.asks
unfolding order_match_compare
asks-InOrder = (refl, (tt, tt))

start-IsMarket : IsMarket cents start
start-IsMarket = record {
  asks_sound = record {
    makers = asks-are_makers;
    in_order = asks-InOrder;
    ids = (omega arith, (omega arith, tt));
    distinct = (((λ e. absurd (omega arith)), tt), (tt, tt));
  };
  bids_sound = record {
    makers = bids-are_makers;
    in_order = (tt, tt);
    ids = (omega arith, tt);
    distinct = (tt, tt);
  };
  uncrossed = ((omega arith, (omega arith, tt)), tt);
}

-- A bid of user 7 for 3.00 at 1.10: it takes the first ask, and 1.00 of it rests.
abbrev bid_request : Request
bid_request = record {
  user_id = 7;
  side = bid;
  amount = pos 300;
  price = pos 110;
  taker_fee = pos 10;
  maker_fee = pos 10;
  source = 0;
}

abbrev lefts : List Order → List (ℕ × ℤ)
lefts [] = []
lefts (o ∷ os) = (o.id, o.left) ∷ lefts os

runs :
    (lefts (market_put_limit_order cents clock true shares bid_request start).state.asks
      ≡ (2, pos 200) ∷ [])
    × (lefts (market_put_limit_order cents clock true shares bid_request start).state.bids
        ≡ (4, pos 100) ∷ (3, pos 200) ∷ [])
unfolding market_put_limit_order order_match_compare balance_get find ◌*ℤ◌ execute_limit_bid_order
    ◌-ℤ◌ order_put SkipList.find last_le SkipList.place balance_add balance_del balance_set
    balance_unfreeze move take_off write store delete get_asset_type ◌+ℤ◌ SkipList.insert
    SkipList.delete balance_sub balance_freeze add_found order_id_compare
runs = (refl, refl)

-- A bid at 1.00 of all the money of its user, which pays for the stock and not for the fee: it rests with
-- 1.00 frozen by its own account, but nothing is frozen in the ledger.
abbrev poor : State
poor = record start {
  ledger = record {
    dict_asset = (1, asset) ∷ (2, asset) ∷ [];
    dict_balance = (key 5 freeze 1, pos 400) ∷ (key 7 available 2, pos 300) ∷ [];
  };
  bids = [];
}

abbrev frozen : List Order → List (ℕ × ℤ)
frozen [] = []
frozen (o ∷ os) = (o.id, o.freeze) ∷ frozen os

runs_poor :
    (frozen
        (market_put_limit_order cents clock true shares
          (record bid_request { price = pos 100 })
          poor).state.bids
      ≡ (4, pos 100) ∷ [])
    × (balance_get
          (market_put_limit_order cents clock true shares
            (record bid_request { price = pos 100 })
            poor).state.ledger
          7
          freeze
          2
        ≡ none)
unfolding market_put_limit_order order_match_compare balance_get find ◌*ℤ◌ execute_limit_bid_order
    ◌-ℤ◌ order_put SkipList.find last_le SkipList.place balance_add balance_del balance_set
    balance_unfreeze move take_off write store delete get_asset_type ◌+ℤ◌ SkipList.insert
    SkipList.delete balance_sub balance_freeze add_found order_id_compare
runs_poor = (refl, refl)

market_put_limit_order-IsMarket_example :
    IsMarket cents (market_put_limit_order cents clock true shares bid_request start).state
market_put_limit_order-IsMarket_example =
    market_put_limit_order-IsMarket cents cents-IsDecimal clock true shares bid_request start
      start-IsMarket (omega arith) (omega arith) (omega arith, omega arith)

execute_market_ask_order-Matched_example :
    Matched
      (book_of bid)
      (other_of bid)
      (IsFilled cents)
      (IsMaker cents bid)
      (λ t k. false)
      (order 4 ask 7 (pos 0) (pos 100) (pos 0))
      start
      start.bids
      (execute_market_ask_order cents clock true shares
        (order 4 ask 7 (pos 0) (pos 100) (pos 0))
        start.bids
        start)
execute_market_ask_order-Matched_example =
    execute_market_ask_order-Matched cents cents-IsDecimal clock true shares
      (order 4 ask 7 (pos 0) (pos 100) (pos 0)) start
      (order-IsFilled 4 ask 7 (pos 0) 100 (pos 0) (omega arith)) bids-are_makers (tt, tt)

-- User 5 cancels the order at 1.20.
market_cancel_order-Removed_example :
    Removed cents
      (order 2 ask 5 (pos 120) (pos 200) (pos 200))
      (order 1 ask 5 (pos 100) (pos 200) (pos 200) ∷ [])
      []
      ask
      start
      (market_cancel_order cents clock true shares
        (order 2 ask 5 (pos 120) (pos 200) (pos 200))
        start).state
market_cancel_order-Removed_example =
    market_cancel_order-Removed cents (order 2 ask 5 (pos 120) (pos 200) (pos 200))
      (order 1 ask 5 (pos 100) (pos 200) (pos 200) ∷ []) [] clock true shares start start-IsMarket
      refl

-- Without the frozen funds, a cancelled order leaves its book and is still found.
abbrev unfunded : State
unfunded = record start {
  ledger = record { dict_asset = (1, asset) ∷ (2, asset) ∷ []; dict_balance = [] };
}

abbrev cancelled_unfunded : State
cancelled_unfunded =
    (market_cancel_order cents clock true shares (order 2 ask 5 (pos 120) (pos 200) (pos 200))
      unfunded).state

unfunded_asks : cancelled_unfunded.asks ≡ order 1 ask 5 (pos 100) (pos 200) (pos 200) ∷ []
unfolding market_cancel_order order_finish leave_book drop_node unfreeze_rest charged log_if
    balance_unfreeze find SkipList.find SkipList.delete SkipList.last_le order_match_compare
    get_asset_type balance_get
unfunded_asks = refl

unfunded_found :
    market_get_order cancelled_unfunded 2 ≡ some (order 2 ask 5 (pos 120) (pos 200) (pos 200))
unfolding market_cancel_order order_finish leave_book drop_node unfreeze_rest charged log_if
    balance_unfreeze find SkipList.find SkipList.delete SkipList.last_le order_match_compare
    get_asset_type balance_get market_get_order find_order
unfunded_found = refl

-- User 7 sells 1.00 of the stock to the best bid.
abbrev ask_request : Request
ask_request = record {
  user_id = 7;
  side = ask;
  amount = pos 100;
  price = pos 0;
  taker_fee = pos 10;
  maker_fee = pos 0;
  source = 0;
}

market_put_market_order_ask-IsMarket_example :
    IsMarket cents (market_put_market_order cents clock 5 true shares ask_request start).state
market_put_market_order_ask-IsMarket_example =
    market_put_market_order_ask-IsMarket cents cents-IsDecimal clock true shares 5 ask_request start
      start-IsMarket (omega arith) (omega arith) (omega arith, omega arith) refl

-- With 2.50 a market order buys 2.50 at 1.00, of which the maker has 2.00.
market_bid_amount-IsAffordable_example :
    (market_bid_amount cents 0 shares
        (order 4 bid 7 (pos 0) (pos 250) (pos 0))
        (order 1 ask 5 (pos 100) (pos 200) (pos 200))
      ≡ market_bid_amount cents 9 shares
          (order 4 bid 7 (pos 0) (pos 250) (pos 0))
          (order 1 ask 5 (pos 100) (pos 200) (pos 200)))
    × (IsAffordable cents shares
          (order 4 bid 7 (pos 0) (pos 250) (pos 0))
          (order 1 ask 5 (pos 100) (pos 200) (pos 200))
          (market_bid_amount cents 0 shares
            (order 4 bid 7 (pos 0) (pos 250) (pos 0))
            (order 1 ask 5 (pos 100) (pos 200) (pos 200)))
        × (pos 200
            ≤ℤ market_bid_amount cents 0 shares
                (order 4 bid 7 (pos 0) (pos 250) (pos 0))
                (order 1 ask 5 (pos 100) (pos 200) (pos 200))))
unfolding ◌*ℤ◌
market_bid_amount-IsAffordable_example =
    market_bid_amount-IsAffordable cents cents-IsDecimal cents-IsDivision shares
      (order 4 bid 7 (pos 0) (pos 250) (pos 0)) (order 1 ask 5 (pos 100) (pos 200) (pos 200))
      (omega arith) (omega arith) (omega arith) (omega arith, omega arith) 0 9 (pos 200)
      (omega arith) (omega arith, omega arith) refl (omega arith) (omega arith)

-- A bid of user 7 for 1.00 at 1.00.
abbrev short_bid : Order
short_bid = order 4 bid 7 (pos 100) (pos 100) (pos 0)

order_put-Entered_example :
    Entered cents shares short_bid bid start (order_put cents shares start short_bid)
unfolding find
order_put-Entered_example = order_put-Entered cents shares short_bid start (record {
  type = refl;
  unknown = refl;
  unlisted = tt;
  outside = ((λ e. absurd (omega arith)), tt);
})
