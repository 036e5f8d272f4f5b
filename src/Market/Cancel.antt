-- ===== src/Market/Cancel.antt =====
-- Taking an order out of its book, as order_finish and market_cancel_order do (matchengine/me_market.c).
use Prim.Native.Nat.{Ordering}
use viabtc_exchange_server.Base.{
  ℕ, ◌≡◌, ◌≢◌, ◌≤◌, refl, sym, ◌∙◌, ap, subst, ◌⊎◌, inl, inr, Bool, Option, none, some, List, [],
  ◌∷◌, arith, All, Option-cases,
}
use viabtc_exchange_server.Base.Int.{ℤ, ◌<ℤ◌}
use viabtc_exchange_server.Decimal.{Decimal}
use viabtc_exchange_server.SkipList
use viabtc_exchange_server.Order.{
  Order, State, Side, ask, bid, limit, Market, order_match_compare, order_message, finish,
}
use viabtc_exchange_server.Market.Book.{log_if, drop_node, order_finish}
use viabtc_exchange_server.Market.Put.{market_cancel_order}
use viabtc_exchange_server.Market.Matching.Front.{Before, InOrder, Distinct}
use viabtc_exchange_server.Market.Matching.Fills.{IsMaker}
use viabtc_exchange_server.Market.Matching.Frames.{order_finish-Books, asks_without, bids_without}
use viabtc_exchange_server.Market.Placing.{All-map}
use viabtc_exchange_server.Market.Invariant.{
  IsBook, IsMarket, AreBooks, IsMarket-of_books, Uncrossed,
}
pub mod Exactly

module _ (v : Order) where
  -- skiplist_delete goes past the order, or finds it, or stops at it.
  data Step (x : Order) (xs : List Order) (r : List Order) : Type 0 where
    past : r ≡ x ∷ SkipList.delete order_match_compare v xs → Step x xs r
    found : r ≡ xs → Step x xs r
    stop : r ≡ x ∷ xs → Step x xs r

  step : (x : Order) (xs : List Order) → Step x xs (SkipList.delete order_match_compare v (x ∷ xs))
  unfolding SkipList.delete
  step x xs = go (order_match_compare x v)
    where
      go :
          (c : Ordering)
          → Step x xs (elim c [
            | Ordering.lt ↦ x ∷ SkipList.delete order_match_compare v xs
            | Ordering.eq ↦ xs
            | Ordering.gt ↦ x ∷ xs
          ])
      go Ordering.lt = past refl
      go Ordering.eq = found refl
      go Ordering.gt = stop refl

  delete-nil : SkipList.delete order_match_compare v [] ≡ []
  unfolding SkipList.delete
  delete-nil = refl

  -- What holds of all orders holds of those that are left.
  All-delete :
      (P : Order → Type 0) (xs : List Order)
      → All P xs
      → All P (SkipList.delete order_match_compare v xs)
  All-delete P [] h = rw delete-nil tt
  All-delete P (x ∷ xs) h =
      let rest = All-delete P xs h.1 in
      elim (step x xs) [ past e ↦ rw e (h.0, rest) | found e ↦ rw e h.1 | stop e ↦ rw e h ]

  Distinct-delete :
      (xs : List Order) → Distinct xs → Distinct (SkipList.delete order_match_compare v xs)
  Distinct-delete [] h = rw delete-nil tt
  Distinct-delete (x ∷ xs) h =
      let rest = Distinct-delete xs h.1 in
      elim (step x xs) [
        | past e ↦ rw e (All-delete (λ y. y.id ≢ x.id) xs h.0, rest)
        | found e ↦ rw e h.1
        | stop e ↦ rw e h
      ]

-- The order of the book is transitive on orders of one side and type with distinct ids.
order_match_compare_trans :
    (a b c : Order)
    → a.side ≡ b.side
    → c.side ≡ b.side
    → a.type ≡ b.type
    → c.type ≡ b.type
    → c.id ≢ a.id
    → order_match_compare b a ≡ Ordering.gt
    → order_match_compare c b ≡ Ordering.gt
    → order_match_compare c a ≡ Ordering.gt
unfolding order_match_compare
order_match_compare_trans a b c p q r s n h k = ground arith

-- Two orders of one book.
abbrev pub Alike : Side → Order → Type 0
Alike side x = (x.side ≡ side) × (x.type ≡ limit)

module _ (side : Side) where
  -- Every order behind the first one stands behind it in the book's order.
  pub All-behind :
      (x : Order) (xs : List Order)
      → All (Alike side) (x ∷ xs)
      → InOrder (x ∷ xs)
      → Distinct (x ∷ xs)
      → All (λ y. order_match_compare y x ≡ Ordering.gt) xs
  All-behind x [] al io di = tt
  All-behind x (y ∷ ys) al io di =
      let skipped : InOrder (x ∷ ys) = skip ys al.1.1 io.1 di.0.1 in
      (io.0, All-behind x ys (al.0, al.1.1) skipped (di.0.1, di.1.1))
    where
      skip :
          (zs : List Order)
          → All (Alike side) zs
          → InOrder (y ∷ zs)
          → All (λ z. z.id ≢ x.id) zs
          → InOrder (x ∷ zs)
      skip [] a i n = (tt, tt)
      skip (z ∷ zs) a i n = (
        order_match_compare_trans x y z (al.0.0 ∙ sym al.1.0.0) (a.0.0 ∙ sym al.1.0.0)
            (al.0.1 ∙ sym al.1.0.1) (a.0.1 ∙ sym al.1.0.1) n.0 io.0 i.0,
        i.1,
      )

  InOrder-tail :
      (v x : Order) (xs : List Order)
      → All (λ y. order_match_compare y x ≡ Ordering.gt) xs
      → InOrder xs
      → InOrder (x ∷ xs)
  InOrder-tail v x [] h io = (tt, io)
  InOrder-tail v x (y ∷ ys) h io = (h.0, io)

  InOrder-delete :
      (v : Order) (xs : List Order)
      → All (Alike side) xs
      → InOrder xs
      → Distinct xs
      → InOrder (SkipList.delete order_match_compare v xs)
  InOrder-delete v [] al io di = rw (delete-nil v) tt
  InOrder-delete v (x ∷ xs) al io di =
      let rest = InOrder-delete v xs al.1 io.1 di.1 in
      let behind =
        All-delete v (λ y. order_match_compare y x ≡ Ordering.gt) xs (All-behind x xs al io di) in
      elim (step v x xs) [
        | past e ↦ rw e (InOrder-tail v x (SkipList.delete order_match_compare v xs) behind rest)
        | found e ↦ rw e io.1
        | stop e ↦ rw e io
      ]

  pub IsMaker-Alike :
      (d : Decimal) (xs : List Order) → All (IsMaker d side) xs → All (Alike side) xs
  IsMaker-Alike d xs = All-map (IsMaker d side) (Alike side) (λ x m. (m.on_side, m.resting)) xs

  delete-IsBook :
      (d : Decimal) (v : Order) (n : ℕ) (book : List Order)
      → IsBook d side n book
      → IsBook d side n (SkipList.delete order_match_compare v book)
  delete-IsBook d v n book b = record {
    makers = All-delete v (IsMaker d side) book b.makers;
    in_order = InOrder-delete v book (IsMaker-Alike d book b.makers) b.in_order b.distinct;
    ids = All-delete v (λ o. o.id ≤ n) book b.ids;
    distinct = Distinct-delete v book b.distinct;
  }

  pub drop_node-IsBook :
      (d : Decimal) (v : Order) (n : ℕ) (book : List Order)
      → IsBook d side n book
      → IsBook d side n (drop_node v book)
  unfolding drop_node
  drop_node-IsBook d v n book b = elim (Option-cases (SkipList.find order_match_compare v book)) [
    | inl e ↦ rw (e, drop_node) b
    | inr (node, e) ↦ rw (e, drop_node) (delete-IsBook d node n book b)
  ]

pub All-drop_node :
    (P : Order → Type 0) (v : Order) (xs : List Order) → All P xs → All P (drop_node v xs)
unfolding drop_node
All-drop_node P v xs h = elim (Option-cases (SkipList.find order_match_compare v xs)) [
  | inl e ↦ rw (e, drop_node) h
  | inr (node, e) ↦ rw (e, drop_node) (All-delete node P xs h)
]
