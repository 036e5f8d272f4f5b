-- ===== src/Market/Cancel/Exactly.antt =====
-- market_cancel_order (matchengine/me_market.c) takes exactly its order out of the book.
use Prim.Native.Nat.{Ordering}
use viabtc_exchange_server.Base.{
  ℕ, ◌≡◌, refl, sym, subst, ◌∙◌, ap, Bool, Option, some, none, List, [], ◌∷◌, ◌++◌, arith, All,
}
use viabtc_exchange_server.Decimal.{Decimal}
use viabtc_exchange_server.SkipList
use viabtc_exchange_server.Order.{
  Order, State, Side, ask, bid, Market, order_match_compare, order_message, finish,
}
use viabtc_exchange_server.Market.Book.{log_if, drop_node, order_finish}
use viabtc_exchange_server.Market.Put.{market_cancel_order}
use viabtc_exchange_server.Market.Matching.Front.{InOrder, Distinct}
use viabtc_exchange_server.Market.Matching.Frames.{
  Books, order_finish-Books, asks_without, bids_without, order_match_compare_self,
}
use viabtc_exchange_server.Market.Invariant.{IsBook, IsMarket}
use viabtc_exchange_server.Market.Cancel.{Alike, All-behind, IsMaker-Alike}

compare_flip :
    (x o : Order)
    → x.side ≡ o.side
    → x.type ≡ o.type
    → order_match_compare o x ≡ Ordering.gt
    → order_match_compare x o ≡ Ordering.lt
unfolding order_match_compare
compare_flip x o p q h = ground arith

All-middle :
    (P : Order → Type 0) (front : List Order) (o : Order) (back : List Order)
    → All P (front ++ o ∷ back)
    → P o
All-middle P [] o back h = h.0
All-middle P (x ∷ front) o back h = All-middle P front o back h.1

module _ (side : Side) (o : Order) (back : List Order) where
  -- The orders in front of an order stand before it.
  All-front :
      (front : List Order)
      → All (Alike side) (front ++ o ∷ back)
      → InOrder (front ++ o ∷ back)
      → Distinct (front ++ o ∷ back)
      → All (λ x. order_match_compare x o ≡ Ordering.lt) front
  All-front [] al io di = tt
  All-front (x ∷ front) al io di =
      let own = All-middle (Alike side) front o back al.1 in
      (
        compare_flip x o (al.0.0 ∙ sym own.0) (al.0.1 ∙ sym own.1) (
            All-middle (λ y. order_match_compare y x ≡ Ordering.gt) front o back
              (All-behind side x (front ++ o ∷ back) al io di)),
        All-front front al.1 io.1 di.1,
      )

  last_le-append :
      (front : List Order) (seen : Option Order)
      → All (λ x. order_match_compare x o ≡ Ordering.lt) front
      → SkipList.last_le order_match_compare o seen (front ++ o ∷ back)
        ≡ SkipList.last_le order_match_compare o (some o) back
  unfolding SkipList.last_le
  last_le-append [] seen h = rw (order_match_compare_self o, SkipList.last_le) refl
  last_le-append (x ∷ front) seen h = rw (h.0, SkipList.last_le) (last_le-append front (some x) h.1)

  delete-append :
      (front : List Order)
      → All (λ x. order_match_compare x o ≡ Ordering.lt) front
      → SkipList.delete order_match_compare o (front ++ o ∷ back) ≡ front ++ back
  unfolding SkipList.delete
  delete-append [] h = rw (order_match_compare_self o, SkipList.delete) refl
  delete-append (x ∷ front) h =
      rw (h.0, SkipList.delete) (ap (λ xs. x ∷ xs) (delete-append front h.1))

  last_le-behind :
      All (λ y. order_match_compare y o ≡ Ordering.gt) back
      → SkipList.last_le order_match_compare o (some o) back ≡ some o
  unfolding SkipList.last_le
  last_le-behind h = first back h
    where
      first :
          (ys : List Order)
          → All (λ y. order_match_compare y o ≡ Ordering.gt) ys
          → SkipList.last_le order_match_compare o (some o) ys ≡ some o
      first [] h = refl
      first (y ∷ ys) h = rw (h.0, SkipList.last_le) refl

  tail_of :
      (Q : List Order → Type 0)
      → ((x : Order) (xs : List Order) → Q (x ∷ xs) → Q xs)
      → (front : List Order) → Q (front ++ o ∷ back)
      → Q (o ∷ back)
  tail_of Q next [] h = h
  tail_of Q next (x ∷ front) h = tail_of Q next front (next x (front ++ o ∷ back) h)

  found_in :
      (front : List Order)
      → All (Alike side) (front ++ o ∷ back)
      → InOrder (front ++ o ∷ back)
      → Distinct (front ++ o ∷ back)
      → SkipList.find order_match_compare o (front ++ o ∷ back) ≡ some o
  unfolding SkipList.find
  found_in front al io di =
      let behind =
        All-behind side o back (tail_of (All (Alike side)) (λ x xs h. h.1) front al)
          (tail_of InOrder (λ x xs h. h.1) front io) (tail_of Distinct (λ x xs h. h.1) front di) in
      rw
        (
          last_le-append front none (All-front front al io di) ∙ last_le-behind behind,
          SkipList.find,
        )
        (rw (order_match_compare_self o) refl)

  -- An order that stands in a sound book is found and taken out, and no other.
  drop_node-append :
      (d : Decimal) (n : ℕ) (front : List Order)
      → IsBook d side n (front ++ o ∷ back)
      → drop_node o (front ++ o ∷ back) ≡ front ++ back
  unfolding drop_node
  drop_node-append d n front b =
      let al = IsMaker-Alike side d (front ++ o ∷ back) b.makers in
      rw (found_in front al b.in_order b.distinct, drop_node)
        (delete-append front (All-front front al b.in_order b.distinct))

-- The order of one side, in the book of that side.
abbrev pub book_at : Side → State → List Order
book_at ask s = s.asks
book_at bid s = s.bids

abbrev pub other_at : Side → State → List Order
other_at ask s = s.bids
other_at bid s = s.asks

module _ (d : Decimal) (o : Order) (front back : List Order) where
  abbrev pub Removed : Side → State → State → Type 0
  Removed side s s' =
      (book_at side s' ≡ front ++ back)
      × (other_at side s' ≡ other_at side s)
      × (s'.order_id_start ≡ s.order_id_start)

  removed :
      (side : Side) (s s' : State)
      → Books s' (asks_without d o side s.asks) (bids_without d o side s.bids) s.order_id_start
      → IsMarket d s
      → book_at side s ≡ front ++ o ∷ back
      → Removed side s s'
  removed ask s s' b inv e = (
    b.0
        ∙ ap (drop_node o) e
        ∙ drop_node-append ask o back d s.order_id_start front
            (subst (IsBook d ask s.order_id_start) e inv.asks_sound),
    b.1,
    b.2,
  )
  removed bid s s' b inv e = (
    b.1
        ∙ ap (drop_node o) e
        ∙ drop_node-append bid o back d s.order_id_start front
            (subst (IsBook d bid s.order_id_start) e inv.bids_sound),
    b.0,
    b.2,
  )

  -- Cancelling an order that rests in the book of its side, in a sound market, takes exactly this
  -- order out of the book: those in front of it and behind it stay as they are, and so do the
  -- other book and the order counter.
  pub market_cancel_order-Removed :
      (clock : ℕ → ℕ) (real : Bool) (m : Market) (s : State)
      → IsMarket d s
      → book_at o.side s ≡ front ++ o ∷ back
      → Removed o.side s (market_cancel_order d clock real m o s).state
  unfolding market_cancel_order log_if
  market_cancel_order-Removed clock real m s inv e =
      let s0 = log_if real (order_message finish o) s in
      removed o.side s (order_finish d real m s0 o).1 (order_finish-Books d real m s0 o) inv e
