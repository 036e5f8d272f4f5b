-- ===== src/Market/Book.antt =====
-- order_put, order_finish and the look-ups of matchengine/me_market.c.
use viabtc_exchange_server.Base.{
  ℕ, Bool, true, false, Option, none, some, List, [], ◌∷◌, ◌==◌, ◌&&◌, if◌then◌else◌, nat_eq,
}
use viabtc_exchange_server.Base.Int.{ℤ, pos, ltb_ℤ}
use viabtc_exchange_server.Decimal.{Decimal}
use viabtc_exchange_server.Dict
use viabtc_exchange_server.SkipList
use viabtc_exchange_server.Balance.{Ledger, balance_freeze, balance_unfreeze}
use viabtc_exchange_server.Order.{
  Order, OrderType, Side, ask, bid, limit, market, Market, State, Event, order_history,
  order_match_compare, order_id_compare,
}

abbrev pub contains : ℕ → List ℕ → Bool
contains i [] = false
contains i (j ∷ js) = if i == j then true else contains i js

abbrev pub remove : ℕ → List ℕ → List ℕ
remove i [] = []
remove i (j ∷ js) = if i == j then js else j ∷ remove i js

-- `if (real)` around a write to the history or to the message queue.
unfoldable pub log_if : Bool → Event → State → State
log_if real e s = record s { log = if real then e ∷ s.log else s.log }

-- The list of the order's user gains the order: NULL of skiplist_insert is `none`.
unfoldable pub put_user : ℕ → ℕ → State → Option State
put_user u i s = elim (Dict.find u s.users) [
  | none ↦ some (record s { users = (u, i ∷ []) ∷ s.users })
  | some ids ↦ elim (SkipList.insert order_id_compare i ids) [
    | none ↦ none
    | some ids' ↦ some (record s { users = Dict.store u ids' s.users })
  ]
]

unfoldable pub drop_user : ℕ → ℕ → State → State
drop_user u i s = elim (Dict.find u s.users) [
  | none ↦ s
  | some ids ↦ elim (SkipList.find order_id_compare i ids) [
    | none ↦ s
    | some node ↦ record s {
      users = Dict.store u (SkipList.delete order_id_compare node ids) s.users;
    }
  ]
]

unfoldable pub drop_node : Order → List Order → List Order
drop_node o book = elim (SkipList.find order_match_compare o book) [
  | none ↦ book
  | some node ↦ SkipList.delete order_match_compare node book
]

-- market_get_order: the id is looked up in `orders`, the order stands in a book or is detached.
unfoldable pub find_order : ℕ → List Order → Option Order
find_order i [] = none
find_order i (o ∷ os) = if i == o.id then some o else find_order i os

unfoldable pub market_get_order : State → ℕ → Option Order
unfolding find_order
market_get_order s i =
    if contains i s.orders
    then elim (find_order i s.asks) [
      | some o ↦ some o
      | none ↦ elim (find_order i s.bids) [ some o ↦ some o | none ↦ find_order i s.detached ]
    ]
    else none

unfoldable pub market_get_order_list : State → ℕ → Option (List ℕ)
market_get_order_list s u = Dict.find u s.users

-- An order that `orders` holds and that is in no book.
abbrev pub detach : Order → State → State
detach o s = record s { detached = o ∷ s.detached }

abbrev pub drop_order : ℕ → List Order → List Order
drop_order i [] = []
drop_order i (o ∷ os) = if i == o.id then drop_order i os else o ∷ drop_order i os

-- The end of order_finish: the dictionaries forget the order, and its history is written.
unfoldable pub forget : Bool → State → Order → State
unfolding drop_user log_if
forget real s o = log_if (real && ltb_ℤ (pos 0) o.deal_stock) (order_history o) (
    drop_user o.user_id o.id
      (record s { orders = remove o.id s.orders; detached = drop_order o.id s.detached }))

-- A balance operation's result: NULL is a failure.
unfoldable pub charged : State → Option ℤ × Ledger → Bool × State
charged s (none, l) = (false, record s { ledger = l })
charged s (some _, l) = (true, record s { ledger = l })

-- A function that returns a negative code gives `false`, with the state that it leaves.
module _ (d : Decimal) where
  open d use {mul}

  -- The last part of order_put, after the order is in its book with `freeze` set: the funds are frozen.
  unfoldable pub freeze_funds : State → ℕ → ℕ → ℤ → Bool × State
  unfolding charged
  freeze_funds s u a x = charged s (balance_freeze d s.ledger u a x)

  -- The order enters the book of its side; `freeze` is set behind skiplist_insert and not compared.
  unfoldable pub put_side : Market → State → Order → Side → Bool × State
  unfolding freeze_funds
  put_side m s o ask =
      elim (SkipList.insert order_match_compare (record o { freeze = o.left }) s.asks) [
        | none ↦ (false, detach o s)
        | some asks' ↦ freeze_funds (record s { asks = asks' }) o.user_id m.stock o.left
      ]
  put_side m s o bid =
      elim (SkipList.insert order_match_compare (record o { freeze = mul o.price o.left }) s.bids) [
        | none ↦ (false, detach o s)
        | some bids' ↦
            freeze_funds (record s { bids = bids' }) o.user_id m.money (mul o.price o.left)
      ]

  unfoldable pub put_limit : Market → State → Order → OrderType → Bool × State
  unfolding put_user put_side
  put_limit m s o market = (false, s)
  put_limit m s o limit =
      if contains o.id s.orders
      then (false, s)
      else let s1 = record s { orders = o.id ∷ s.orders } in
        elim (put_user o.user_id o.id s1) [
          | none ↦ (false, detach o s1)
          | some s2 ↦ put_side m s2 o o.side
        ]

  -- order_put, and market_put_order that passes on to it.
  unfoldable pub order_put : Market → State → Order → Bool × State
  unfolding put_limit
  order_put m s o = put_limit m s o o.type

  unfoldable pub unfreeze_rest : State → Order → ℕ → Bool × State
  unfolding charged
  unfreeze_rest s o a =
      if ltb_ℤ (pos 0) o.freeze
      then charged s (balance_unfreeze d s.ledger o.user_id a o.freeze)
      else (true, s)

  unfoldable pub leave_book : Market → State → Order → Side → Bool × State
  unfolding drop_node unfreeze_rest
  leave_book m s o ask = unfreeze_rest (record s { asks = drop_node o s.asks }) o m.stock
  leave_book m s o bid = unfreeze_rest (record s { bids = drop_node o s.bids }) o m.money

  unfoldable pub order_finish : Bool → Market → State → Order → Bool × State
  unfolding leave_book forget
  order_finish real m s o =
      let r = leave_book m s o o.side in
      if r.0 then (true, forget real r.1 o) else (false, detach o r.1)
