-- ===== src/Market/Invariant.antt =====
-- What holds of the two books of a market between the calls of matchengine/me_market.c, and how
-- order_put and order_finish keep it.
use viabtc_exchange_server.Base.{
  ℕ, ◌≡◌, ◌≢◌, ◌≤◌, ◌<◌, refl, sym, ◌∙◌, subst, ◌⊎◌, inl, inr, Bool, false, Option, none, some,
  List, [], ◌∷◌, arith, All, Bool-cases, Option-cases, nat_eq,
}
use viabtc_exchange_server.Base.Int.{◌<ℤ◌}
use viabtc_exchange_server.Decimal.{Decimal}
use viabtc_exchange_server.Dict
use viabtc_exchange_server.SkipList
use viabtc_exchange_server.Balance.{balance_freeze}
use viabtc_exchange_server.Order.{
  Order, OrderType, State, Side, ask, bid, limit, market, Market, order_match_compare,
  order_id_compare,
}
use viabtc_exchange_server.Market.Book.{detach, put_user, put_side, put_limit, order_put, contains}
use viabtc_exchange_server.Market.Matching.Front.{InOrder, Distinct}
use viabtc_exchange_server.Market.Matching.Fills.{IsMaker}
use viabtc_exchange_server.Market.Matching.Frames.{Books, charged-Books}
use viabtc_exchange_server.Market.Placing.{
  All-place, place-InOrder, Distinct-place, All-map, Comparable,
}

pub record IsBook (d : Decimal) (side : Side) (start : ℕ) (book : List Order) : Type 0 where
  pub makers : All (IsMaker d side) book
  pub in_order : InOrder book
  pub ids : All (λ o. o.id ≤ start) book
  pub distinct : Distinct book

-- No bid reaches an ask.
abbrev pub Uncrossed : List Order → List Order → Type 0
Uncrossed bids asks = All (λ b. All (λ a. b.price <ℤ a.price) asks) bids

pub record AreBooks (d : Decimal) (start : ℕ) (asks bids : List Order) : Type 0 where
  pub asks_sound : IsBook d ask start asks
  pub bids_sound : IsBook d bid start bids
  pub uncrossed : Uncrossed bids asks

abbrev pub IsMarket : Decimal → State → Type 0
IsMarket d s = AreBooks d s.order_id_start s.asks s.bids

pub IsMarket-of_books :
    (d : Decimal) (s : State) (start : ℕ) (asks bids : List Order)
    → s.asks ≡ asks
    → s.bids ≡ bids
    → s.order_id_start ≡ start
    → AreBooks d start asks bids
    → IsMarket d s
IsMarket-of_books d s start asks bids ea eb es h = rw (ea, eb, es) h

-- The books after an order may have entered one of them.
abbrev pub Enters : Order → List Order → List Order → Type 0
Enters o book book' = (book' ≡ book) ⊎ (book' ≡ SkipList.place order_match_compare o book)

abbrev PutUser : State → Option State → Type 0
PutUser s none = Unit
PutUser s (some s') = Books s' s.asks s.bids s.order_id_start

put_user-Books : (u i : ℕ) (s : State) → PutUser s (put_user u i s)
unfolding put_user
put_user-Books u i s = elim (Option-cases (Dict.find u s.users)) [
  | inl e ↦ rw (e, put_user) (refl, refl, refl)
  | inr (l, e) ↦ elim (Option-cases (SkipList.insert order_id_compare i l)) [
    | inl q ↦ rw (e, put_user) (rw (q, put_user) tt)
    | inr (l', q) ↦ rw (e, put_user) (rw (q, put_user) (refl, refl, refl))
  ]
]

insert_cases :
    (o : Order) (book : List Order)
    → (SkipList.insert order_match_compare o book ≡ none)
      ⊎ (SkipList.insert order_match_compare o book
          ≡ some (SkipList.place order_match_compare o book))
unfolding SkipList.insert
insert_cases o book = ground arith

module _ (d : Decimal) (m : Market) (o : Order) where
  -- The order as it rests: with the funds that are frozen for it.
  abbrev pub resting : Side → Order
  resting ask = record o { freeze = o.left }
  resting bid = record o { freeze = d.mul o.price o.left }

  abbrev pub PutSide : Side → State → State → Type 0
  PutSide ask s s' =
      Enters (resting ask) s.asks s'.asks
      × (s'.bids ≡ s.bids)
      × (s'.order_id_start ≡ s.order_id_start)
  PutSide bid s s' =
      Enters (resting bid) s.bids s'.bids
      × (s'.asks ≡ s.asks)
      × (s'.order_id_start ≡ s.order_id_start)

  put_side-PutSide : (side : Side) (s : State) → PutSide side s (put_side d m s o side).1
  unfolding put_side
  put_side-PutSide ask s = elim (insert_cases (resting ask) s.asks) [
    | inl e ↦ rw (e, put_side) (inl refl, refl, refl)
    | inr e ↦
        rw (e, put_side)
          (let b =
              charged-Books
                (record s { asks = SkipList.place order_match_compare (resting ask) s.asks })
                (balance_freeze d s.ledger o.user_id m.stock o.left) in
            (inr b.0, b.1, b.2))
  ]
  put_side-PutSide bid s = elim (insert_cases (resting bid) s.bids) [
    | inl e ↦ rw (e, put_side) (inl refl, refl, refl)
    | inr e ↦
        rw (e, put_side)
          (let b =
              charged-Books
                (record s { bids = SkipList.place order_match_compare (resting bid) s.bids })
                (balance_freeze d s.ledger o.user_id m.money (d.mul o.price o.left)) in
            (inr b.1, b.0, b.2))
  ]

  same-PutSide :
      (side : Side) (s s' : State) → Books s' s.asks s.bids s.order_id_start → PutSide side s s'
  same-PutSide ask s s' b = (inl b.0, b.1, b.2)
  same-PutSide bid s s' b = (inl b.1, b.0, b.2)

  then-PutSide :
      (side : Side) (s s1 s' : State)
      → Books s1 s.asks s.bids s.order_id_start
      → PutSide side s1 s'
      → PutSide side s s'
  then-PutSide ask s s1 s' b (e, q, r) = (rw (← b.0) e, q ∙ b.1, r ∙ b.2)
  then-PutSide bid s s1 s' b (e, q, r) = (rw (← b.1) e, q ∙ b.0, r ∙ b.2)

  put_limit-PutSide :
      (side : Side) (type : OrderType) (s : State)
      → o.side ≡ side
      → PutSide side s (put_limit d m s o type).1
  unfolding put_limit
  put_limit-PutSide side market s h = same-PutSide side s s (refl, refl, refl)
  put_limit-PutSide side limit s h = elim (Bool-cases (contains o.id s.orders)) [
    | inl y ↦ rw y (same-PutSide side s s (refl, refl, refl))
    | inr n ↦ rw n (entered (Option-cases (put_user o.user_id o.id s1)))
  ]
    where
      s1 : State
      s1 = record s { orders = o.id ∷ s.orders }

      entered :
          (put_user o.user_id o.id s1 ≡ none)
            ⊎ ((s2 : State) × (put_user o.user_id o.id s1 ≡ some s2))
          → PutSide side s
              (elim (put_user o.user_id o.id s1) as (λ _. Bool × State) [
                | none ↦ (false, detach o s1)
                | some s2 ↦ put_side d m s2 o o.side
              ]).1
      entered (inl e) = rw e (same-PutSide side s (detach o s1) (refl, refl, refl))
      entered (inr (s2, e)) = rw e (
          then-PutSide side s s2 (put_side d m s2 o o.side).1
            (subst (PutUser s1) e (put_user-Books o.user_id o.id s1))
            (subst (λ z. PutSide z s2 (put_side d m s2 o o.side).1) h (put_side-PutSide o.side s2)))

  -- Whether it succeeds or fails, order_put leaves the books as they were, or with the order at its
  -- place in the book of its side.
  pub order_put-PutSide :
      (side : Side) (s : State) → o.side ≡ side → PutSide side s (order_put d m s o).1
  unfolding order_put
  order_put-PutSide side s h = put_limit-PutSide side o.type s h

-- A book stays sound under a higher counter, and when an order enters it.
module _ (d : Decimal) (side : Side) where
  ids_mono :
      (n n' : ℕ) (book : List Order) → n ≤ n' → All (λ o. o.id ≤ n) book → All (λ o. o.id ≤ n') book
  ids_mono n n' book le h =
      All-map (λ (o : Order). o.id ≤ n) (λ o. o.id ≤ n') (λ o p. omega arith) book h

  pub IsBook-mono :
      (n n' : ℕ) (book : List Order) → n ≤ n' → IsBook d side n book → IsBook d side n' book
  IsBook-mono n n' book le b = record {
    makers = b.makers;
    in_order = b.in_order;
    ids = ids_mono n n' book le b.ids;
    distinct = b.distinct;
  }

  comparable :
      (o : Order) (n : ℕ) (book : List Order)
      → IsMaker d side o
      → n < o.id
      → All (IsMaker d side) book
      → All (λ x. x.id ≤ n) book
      → All (Comparable o) book
  comparable o n [] mo lt mk ids = tt
  comparable o n (x ∷ xs) mo lt mk ids = (
    ((λ e. absurd (omega arith)), mk.0.on_side ∙ sym mo.on_side, mk.0.resting ∙ sym mo.resting),
    comparable o n xs mo lt mk.1 ids.1,
  )

  pub Enters-IsBook :
      (o : Order) (n : ℕ) (book book' : List Order)
      → IsBook d side n book
      → IsMaker d side o
      → n < o.id
      → Enters o book book'
      → IsBook d side o.id book'
  Enters-IsBook o n book book' b mo lt (inl e) = rw e (IsBook-mono n o.id book (omega arith) b)
  Enters-IsBook o n book book' b mo lt (inr e) = rw e (record {
    makers = All-place order_match_compare (IsMaker d side) o book mo b.makers;
    in_order = place-InOrder o book (comparable o n book mo lt b.makers b.ids) b.in_order;
    ids =
        All-place order_match_compare (λ x. x.id ≤ o.id) o book (omega arith)
          (ids_mono n o.id book (omega arith) b.ids);
    distinct =
        Distinct-place o book
          (All-map (λ (x : Order). x.id ≤ n) (λ x. x.id ≢ o.id) (λ x le e. absurd (omega arith))
            book b.ids)
          b.distinct;
  })

pub All-Enters :
    (P : Order → Type 0) (o : Order) (book book' : List Order)
    → P o
    → All P book
    → Enters o book book'
    → All P book'
All-Enters P o book book' h hs (inl e) = rw e hs
All-Enters P o book book' h hs (inr e) = rw e (All-place order_match_compare P o book h hs)
