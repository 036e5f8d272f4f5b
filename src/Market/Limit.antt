-- ===== src/Market/Limit.antt =====
-- What the calls that put limit orders (matchengine/me_market.c) need of the books.
use viabtc_exchange_server.Base.{
  ℕ, ◌≡◌, ◌≤◌, ◌<◌, ◌+◌, ◌^◌, refl, sym, ◌∙◌, ap, subst, ◌⊎◌, inl, inr, Bool, true, false, List, [],
  ◌∷◌, arith, All, Bool-cases, if◌then◌else◌,
}
use viabtc_exchange_server.Base.Int.{ℤ, pos, ◌≤ℤ◌, ◌<ℤ◌, ltb_ℤ, eqb_ℤ, ltb_ℤ→lt, int_laws, ◌+ℤ◌}
use viabtc_exchange_server.Decimal.{Decimal, IsDecimal, Fits}
use viabtc_exchange_server.Order.{
  Order, State, Side, ask, bid, limit, Market, next_id, order_message, put, order_match_compare,
}
use viabtc_exchange_server.Market.Book.{log_if, order_put}
use viabtc_exchange_server.Market.Execute.{
  execute_limit_ask_order, execute_limit_bid_order, ask_stops, bid_stops,
}
use viabtc_exchange_server.Market.Put.{
  Request, new_order, admit, limit_short, execute_limit, settle_limit, market_put_limit_order,
}
use viabtc_exchange_server.Market.Matching.Front.{
  Matched, SameOrder, Eaten, Eaten-InOrder, Ended, InOrder,
}
use viabtc_exchange_server.Market.Matching.Fills.{IsFilled, IsMaker}
use viabtc_exchange_server.Market.Matching.Rounds.{book_of, other_of}
use viabtc_exchange_server.Market.Matching.Limits.{
  execute_limit_ask_order-Matched, execute_limit_bid_order-Matched,
}
use viabtc_exchange_server.Market.Placing.{
  All-map, Eaten-All, Eaten-Distinct, bids_below, asks_above,
}
use viabtc_exchange_server.Market.Invariant.{
  IsBook, IsMarket, AreBooks, IsMarket-of_books, Uncrossed, Enters, PutSide, resting,
  order_put-PutSide, IsBook-mono, Enters-IsBook, All-Enters,
}
mod Ask
mod Bid
pub mod Call

pub next_id_lem : (n : ℕ) → n + 1 < 2 ^ 64 → next_id n ≡ n + 1
next_id_lem n h = omega arith

pub new_order-IsFilled :
    (d : Decimal) (m : Market) (q : Request) (i now : ℕ)
    → pos 0 ≤ℤ q.amount
    → Fits d q.amount
    → IsFilled d (new_order limit m q i now)
unfolding new_order
new_order-IsFilled d m q i now n f = record {
  left_nonneg = n;
  dealt_nonneg = omega arith;
  whole = omega int_laws;
  fits = f;
}

-- An ask above every bid may enter.
pub ask-Enters :
    (o : Order) (p : ℤ) (bids asks asks' : List Order)
    → o.price ≡ p
    → All (λ b. b.price <ℤ p) bids
    → Uncrossed bids asks
    → Enters o asks asks'
    → Uncrossed bids asks'
ask-Enters o p [] asks asks' e below u en = tt
ask-Enters o p (b ∷ bids) asks asks' e below u en = (
  All-Enters (λ a. b.price <ℤ a.price) o asks asks' (rw e below.0) u.0 en,
  ask-Enters o p bids asks asks' e below.1 u.1 en,
)

-- What a book's orders keep when the front of the book is taken off.
module _ (d : Decimal) (side : Side) where
  pub Eaten-IsBook :
      (n : ℕ) (before after : List Order)
      → IsBook d side n before
      → Eaten before after
      → All (IsMaker d side) after
      → IsBook d side n after
  Eaten-IsBook n before after b e mk = record {
    makers = mk;
    in_order = Eaten-InOrder before after e b.in_order;
    ids = Eaten-All (λ o. o.id ≤ n) (λ k k' same h. rw same.id h) before after e b.ids;
    distinct = Eaten-Distinct before after e b.distinct;
  }

pub bids-Eaten :
    (asks before after : List Order)
    → Eaten before after
    → Uncrossed before asks
    → Uncrossed after asks
bids-Eaten asks before after e u =
    Eaten-All (λ b. All (λ a. b.price <ℤ a.price) asks) (λ k k' same h. rw same.price h) before
      after e u

pub asks-Eaten :
    (bids before after : List Order)
    → Eaten before after
    → Uncrossed bids before
    → Uncrossed bids after
asks-Eaten [] before after e u = tt
asks-Eaten (b ∷ bids) before after e u = (
  Eaten-All (λ a. b.price <ℤ a.price) (λ k k' same h. rw same.price h) before after e u.0,
  asks-Eaten bids before after e u.1,
)

-- A bid below every ask may enter.
pub bid-Enters :
    (o : Order) (p : ℤ) (asks bids bids' : List Order)
    → o.price ≡ p
    → All (λ a. p <ℤ a.price) asks
    → Uncrossed bids asks
    → Enters o bids bids'
    → Uncrossed bids' asks
bid-Enters o p asks bids bids' e above u en =
    All-Enters (λ b. All (λ a. b.price <ℤ a.price) asks) o bids bids' (rw e above) u en
