-- ===== src/Market/Matching/Frames.antt =====
-- What deals and order_finish (matchengine/me_market.c) do to the books.
use Prim.Native.Nat.{Ordering}
use viabtc_exchange_server.Base.{
  ℕ, ◌≡◌, refl, inl, inr, Bool, List, [], ◌∷◌, arith, Option, none, some, Bool-cases,
}
use viabtc_exchange_server.Base.Int.{ℤ, pos, ltb_ℤ}
use viabtc_exchange_server.Decimal.{Decimal}
use viabtc_exchange_server.SkipList
use viabtc_exchange_server.Balance.{Ledger, balance_unfreeze}
use viabtc_exchange_server.Order.{Order, State, Side, ask, bid, Market, Deal, order_match_compare}
use viabtc_exchange_server.Market.Book.{
  drop_node, order_finish, leave_book, unfreeze_rest, charged, forget,
}
use viabtc_exchange_server.Market.Settle.{pay_fee, settle_ask, settle_bid, trade_ask, trade_bid}
use viabtc_exchange_server.Market.Execute.{write_order}
use viabtc_exchange_server.Market.Matching.Front.{Before}

-- A deal leaves the books and the look-ups alone.
pub record SameBooks (s s' : State) : Type 0 where
  pub asks : s'.asks ≡ s.asks
  pub bids : s'.bids ≡ s.bids
  pub orders : s'.orders ≡ s.orders
  pub users : s'.users ≡ s.users
  pub start : s'.order_id_start ≡ s.order_id_start

module _ (d : Decimal) (clock : ℕ → ℕ) where
  pub pay_fee-SameBooks :
      (real : Bool) (s : State) (o : Order) (a : ℕ) (fee : ℤ) (deal : Deal) (rate : ℤ)
      → SameBooks s (pay_fee d clock real s o a fee deal rate)
  unfolding pay_fee
  pay_fee-SameBooks real s o a fee deal rate = ground arith

  pub settle_ask-SameBooks :
      (real : Bool) (m : Market) (a : ℕ) (deal : Deal) (t k : Order) (s : State)
      → SameBooks s (settle_ask d clock real m a deal t k s)
  unfolding settle_ask
  settle_ask-SameBooks real m a deal t k s = ground arith

  pub settle_bid-SameBooks :
      (real : Bool) (m : Market) (a : ℕ) (deal : Deal) (t k : Order) (s : State)
      → SameBooks s (settle_bid d clock real m a deal t k s)
  unfolding settle_bid
  settle_bid-SameBooks real m a deal t k s = ground arith

  pub trade_ask-SameBooks :
      (real : Bool) (m : Market) (a : ℕ) (deal : Deal) (t k : Order) (s : State)
      → SameBooks s (trade_ask d clock real m a deal t k s).2
  unfolding trade_ask
  trade_ask-SameBooks real m a deal t k s = ground arith

  pub trade_bid-SameBooks :
      (real : Bool) (m : Market) (a : ℕ) (deal : Deal) (used : ℤ) (t k : Order) (s : State)
      → SameBooks s (trade_bid d clock real m a deal used t k s).2
  unfolding trade_bid
  trade_bid-SameBooks real m a deal used t k s = ground arith

pub order_match_compare_self : (k : Order) → order_match_compare k k ≡ Ordering.eq
unfolding order_match_compare
order_match_compare_self k = ground arith

-- skiplist_find and skiplist_delete take the first order off its book.
pub drop_node_first :
    (k : Order) (rest : List Order) → Before k rest → drop_node k (k ∷ rest) ≡ rest
unfolding drop_node SkipList.find SkipList.last_le SkipList.delete
drop_node_first k [] h = ground (arith, order_match_compare_self k)
drop_node_first k (x ∷ rest) h = ground (arith, order_match_compare_self k)

pub write_order_first :
    (k k' : Order) (rest : List Order) → k'.id ≡ k.id → write_order k' (k ∷ rest) ≡ k' ∷ rest
unfolding write_order
write_order_first k k' rest h = ground arith

-- The two books of a state, and the counter of the order ids.
abbrev pub Books : State → List Order → List Order → ℕ → Type 0
Books s asks bids start = (s.asks ≡ asks) × (s.bids ≡ bids) × (s.order_id_start ≡ start)

pub charged-Books :
    (s : State) (r : Option ℤ × Ledger) → Books (charged s r).1 s.asks s.bids s.order_id_start
unfolding charged
charged-Books s (none, l) = (refl, refl, refl)
charged-Books s (some v, l) = (refl, refl, refl)

pub forget-Books :
    (real : Bool) (s : State) (o : Order) → Books (forget real s o) s.asks s.bids s.order_id_start
unfolding forget
forget-Books real s o = ground arith

module _ (d : Decimal) where
  pub unfreeze_rest-Books :
      (s : State) (o : Order) (a : ℕ)
      → Books (unfreeze_rest d s o a).1 s.asks s.bids s.order_id_start
  unfolding unfreeze_rest
  unfreeze_rest-Books s o a = elim (Bool-cases (ltb_ℤ (pos 0) o.freeze)) [
    | inl y ↦ rw y (charged-Books s (balance_unfreeze d s.ledger o.user_id a o.freeze))
    | inr n ↦ rw n (refl, refl, refl)
  ]

  -- The books without the order, by its side.
  abbrev pub asks_without : Order → Side → List Order → List Order
  asks_without o ask xs = drop_node o xs
  asks_without o bid xs = xs

  abbrev pub bids_without : Order → Side → List Order → List Order
  bids_without o ask xs = xs
  bids_without o bid xs = drop_node o xs

  pub leave_book-Books :
      (m : Market) (s : State) (o : Order) (side : Side)
      → Books
          (leave_book d m s o side).1
          (asks_without o side s.asks)
          (bids_without o side s.bids)
          s.order_id_start
  unfolding leave_book
  leave_book-Books m s o ask = unfreeze_rest-Books _ o m.stock
  leave_book-Books m s o bid = unfreeze_rest-Books _ o m.money

  -- Whatever the balance operations return, order_finish takes the order off the book of its side and
  -- leaves the other book alone.
  pub order_finish-Books :
      (real : Bool) (m : Market) (s : State) (o : Order)
      → Books
          (order_finish d real m s o).1
          (asks_without o o.side s.asks)
          (bids_without o o.side s.bids)
          s.order_id_start
  unfolding order_finish
  order_finish-Books real m s o =
      ground
        (arith, leave_book-Books m s o o.side, forget-Books real (leave_book d m s o o.side).1 o)
