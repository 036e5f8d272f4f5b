-- ===== src/Market/Limit/Bid.antt =====
-- The end of market_put_limit_order (matchengine/me_market.c) for an order that bids.
use viabtc_exchange_server.Base.{
  ℕ, ◌≡◌, ◌<◌, refl, ◌∙◌, ap, subst, inl, inr, Bool, true, false, List, [], ◌∷◌, arith, All,
  Bool-cases,
}
use viabtc_exchange_server.Base.Int.{pos, ◌<ℤ◌, eqb_ℤ, ltb_ℤ→lt}
use viabtc_exchange_server.Decimal.{Decimal, IsDecimal}
use viabtc_exchange_server.Order.{Order, State, ask, bid, limit, Market, order_message, put}
use viabtc_exchange_server.Market.Book.{log_if, order_put}
use viabtc_exchange_server.Market.Execute.{bid_stops}
use viabtc_exchange_server.Market.Put.{settle_limit}
use viabtc_exchange_server.Market.Matching.Front.{Matched, Ended, InOrder}
use viabtc_exchange_server.Market.Matching.Fills.{IsFilled, IsMaker}
use viabtc_exchange_server.Market.Matching.Rounds.{book_of, other_of}
use viabtc_exchange_server.Market.Placing.{asks_above}
use viabtc_exchange_server.Market.Invariant.{
  IsBook, IsMarket, AreBooks, IsMarket-of_books, PutSide, resting, order_put-PutSide, IsBook-mono,
  Enters-IsBook,
}
use viabtc_exchange_server.Market.Limit.{bid-Enters, Eaten-IsBook, asks-Eaten}

module _ (d : Decimal) (law : IsDecimal d) (clock : ℕ → ℕ) (real : Bool) (m : Market) where
  module _ (o : Order) (s s0 s1 : State) (t : Order) (inv : IsMarket d s)
      (lt : s.order_id_start < o.id) (ty : o.type ≡ limit) (ea : s0.bids ≡ s.bids)
      (eb : s0.asks ≡ s.asks) (es : s0.order_id_start ≡ o.id) where
    -- The end of a limit order that bids, from what its loop has done.
    module _ (sd : o.side ≡ bid)
        (r : Matched
          (book_of ask)
          (other_of ask)
          (IsFilled d)
          (IsMaker d ask)
          (bid_stops d clock)
          o
          s0
          s.asks
          (t, s1)) where
      bids_kept : s1.bids ≡ s.bids
      bids_kept = r.other_book ∙ ea

      start_kept : s1.order_id_start ≡ o.id
      start_kept = r.start ∙ es

      asks_after : IsBook d ask o.id s1.asks
      asks_after =
          Eaten-IsBook d ask o.id s.asks s1.asks
            (IsBook-mono d ask s.order_id_start o.id s.asks (omega arith) inv.asks_sound) r.eaten
            r.makers

      bids_before : AreBooks d o.id s1.asks s.bids
      bids_before = record {
        bids_sound = IsBook-mono d bid s.order_id_start o.id s.bids (omega arith) inv.bids_sound;
        asks_sound = asks_after;
        uncrossed = asks-Eaten s.bids s.asks s1.asks r.eaten inv.uncrossed;
      }

      -- An order that is not filled stopped at an ask above its price.
      stopped_above :
          (asks : List Order)
          → Ended (bid_stops d clock) t asks
          → eqb_ℤ t.left (pos 0) ≡ false
          → InOrder asks
          → All (IsMaker d ask) asks
          → All (λ a. t.price <ℤ a.price) asks
      stopped_above [] e more io mk = tt
      stopped_above (k ∷ asks) (inl z) more io mk =
          let y : eqb_ℤ t.left (pos 0) ≡ true = ap (λ v. eqb_ℤ v (pos 0)) z in cc
      stopped_above (k ∷ asks) (inr st) more io mk =
          asks_above d t.price k asks (ltb_ℤ→lt t.price k.price st) io mk

      bid_rests :
          (s' : State) → PutSide d m t bid s1 s' → eqb_ℤ t.left (pos 0) ≡ false → IsMarket d s'
      bid_rests s' (en, eb', es') more =
          IsMarket-of_books d s' o.id s1.asks s'.bids eb' refl (es' ∙ start_kept) (record {
            bids_sound =
                subst (λ n. IsBook d bid n s'.bids) r.same.id
                  (Enters-IsBook d bid (resting d m t bid) s.order_id_start s.bids s'.bids
                    inv.bids_sound
                    (record {
                      filled = record {
                        left_nonneg = r.taker.left_nonneg;
                        dealt_nonneg = r.taker.dealt_nonneg;
                        whole = r.taker.whole;
                        fits = r.taker.fits;
                      };
                      on_side = r.same.side ∙ sd;
                      resting = r.same.type ∙ ty;
                    })
                    (rw r.same.id lt) (rw (← bids_kept) en));
            asks_sound = asks_after;
            uncrossed =
                bid-Enters (resting d m t bid) t.price s1.asks s.bids s'.bids refl
                  (stopped_above s1.asks r.ended more asks_after.in_order r.makers)
                  bids_before.uncrossed (rw (← bids_kept) en);
          })

      pub settle_limit_bid-IsMarket : IsMarket d (settle_limit d clock real m t s1).state
      unfolding settle_limit log_if
      settle_limit_bid-IsMarket = elim (Bool-cases (eqb_ℤ t.left (pos 0))) [
        | inl z ↦
            rw z (IsMarket-of_books d s1 o.id s1.asks s.bids refl bids_kept start_kept bids_before)
        | inr more ↦ rw more (
            bid_rests (order_put d m (log_if real (order_message put t) s1) t).1
              (order_put-PutSide d m t bid (log_if real (order_message put t) s1)
                (r.same.side ∙ sd))
              more)
      ]
