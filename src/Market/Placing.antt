-- ===== src/Market/Placing.antt =====
-- Where order_put sets an order (matchengine/me_market.c): the book stays in order, and the prices of
-- a book are as its order says.
use Prim.Native.Nat.{Ordering, compare}
use viabtc_exchange_server.Base.{
  ◌≡◌, ◌≢◌, refl, sym, subst, ◌⊎◌, inl, inr, List, [], ◌∷◌, arith, All,
}
use viabtc_exchange_server.Base.Int.{ℤ, ◌≤ℤ◌, ◌<ℤ◌}
use viabtc_exchange_server.Decimal.{Decimal}
use viabtc_exchange_server.SkipList
use viabtc_exchange_server.Order.{Order, ask, bid, limit, order_match_compare}
use viabtc_exchange_server.Market.Matching.Front.{Before, InOrder, Distinct, SameOrder, Eaten}
use viabtc_exchange_server.Market.Matching.Fills.{IsMaker}

-- `place` keeps what holds of every order.
pub All-place {ℓ} :
    {A : Type 0} (compare : A → A → Ordering) (P : A → Type ℓ) (v : A) (xs : List A)
    → P v
    → All P xs
    → All P (SkipList.place compare v xs)
unfolding SkipList.place
All-place compare P v [] h hs = (h, tt)
All-place compare P v (x ∷ xs) h hs = step (compare x v) (All-place compare P v xs h hs.1)
  where
    step :
        (c : Ordering)
        → All P (SkipList.place compare v xs)
        → All P (elim c [ Ordering.gt ↦ v ∷ x ∷ xs | _ ↦ x ∷ SkipList.place compare v xs ])
    step Ordering.lt r = (hs.0, r)
    step Ordering.eq r = (hs.0, r)
    step Ordering.gt r = (h, hs)

Ordering-cases : (c : Ordering) → (c ≡ Ordering.gt) ⊎ (c ≡ Ordering.lt) ⊎ (c ≡ Ordering.eq)
Ordering-cases Ordering.lt = inr (inl refl)
Ordering-cases Ordering.eq = inr (inr refl)
Ordering-cases Ordering.gt = inl refl

-- Two orders of one side and type are never equal in the book's order.
abbrev pub Comparable : Order → Order → Type 0
Comparable v x = (x.id ≢ v.id) × (x.side ≡ v.side) × (x.type ≡ v.type)

order_match_compare_antisym :
    (v x : Order)
    → Comparable v x
    → order_match_compare x v ≢ Ordering.gt
    → order_match_compare v x ≡ Ordering.gt
unfolding order_match_compare
order_match_compare_antisym v x c h = ground arith

place_here :
    (v x : Order) (xs : List Order)
    → order_match_compare x v ≡ Ordering.gt
    → SkipList.place order_match_compare v (x ∷ xs) ≡ v ∷ x ∷ xs
unfolding SkipList.place
place_here v x xs e = rw (e, SkipList.place)

place_past :
    (v x : Order) (xs : List Order)
    → order_match_compare x v ≢ Ordering.gt
    → SkipList.place order_match_compare v (x ∷ xs) ≡ x ∷ SkipList.place order_match_compare v xs
unfolding SkipList.place
place_past v x xs n = elim (Ordering-cases (order_match_compare x v)) [
  | inl e ↦ absurd (n e)
  | inr (inl e) ↦ rw (e, SkipList.place)
  | inr (inr e) ↦ rw (e, SkipList.place)
]

-- The walk of skiplist_insert goes past an order or stops at it.
placed :
    (v x : Order)
    → (order_match_compare x v ≡ Ordering.gt) ⊎ (order_match_compare x v ≢ Ordering.gt)
placed v x = elim (Ordering-cases (order_match_compare x v)) [
  | inl e ↦ inl e
  | inr (inl e) ↦ inr (λ q. ground (arith, e, q))
  | inr (inr e) ↦ inr (λ q. ground (arith, e, q))
]

Before-place :
    (x v : Order) (xs : List Order)
    → Before x xs
    → order_match_compare v x ≡ Ordering.gt
    → Before x (SkipList.place order_match_compare v xs)
unfolding SkipList.place
Before-place x v [] h g = g
Before-place x v (y ∷ ys) h g = elim (placed v y) [
  | inl e ↦ subst (Before x) (sym (place_here v y ys e)) g
  | inr n ↦ subst (Before x) (sym (place_past v y ys n)) h
]

-- The book stays in order when an order with a new id enters it.
pub place-InOrder :
    (v : Order) (xs : List Order)
    → All (Comparable v) xs
    → InOrder xs
    → InOrder (SkipList.place order_match_compare v xs)
unfolding SkipList.place
place-InOrder v [] c io = (tt, tt)
place-InOrder v (x ∷ xs) c io = go (placed v x) (place-InOrder v xs c.1 io.1)
  where
    go :
        (order_match_compare x v ≡ Ordering.gt) ⊎ (order_match_compare x v ≢ Ordering.gt)
        → InOrder (SkipList.place order_match_compare v xs)
        → InOrder (SkipList.place order_match_compare v (x ∷ xs))
    go (inl e) r = subst InOrder (sym (place_here v x xs e)) (e, io)
    go (inr n) r =
        subst InOrder (sym (place_past v x xs n))
          (Before-place x v xs io.0 (order_match_compare_antisym v x c.0 n), r)

-- An order with a new id keeps the ids distinct.
pub Distinct-place :
    (v : Order) (xs : List Order)
    → All (λ x. x.id ≢ v.id) xs
    → Distinct xs
    → Distinct (SkipList.place order_match_compare v xs)
unfolding SkipList.place
Distinct-place v [] new h = (tt, tt)
Distinct-place v (x ∷ xs) new h = go (placed v x) (Distinct-place v xs new.1 h.1)
  where
    go :
        (order_match_compare x v ≡ Ordering.gt) ⊎ (order_match_compare x v ≢ Ordering.gt)
        → Distinct (SkipList.place order_match_compare v xs)
        → Distinct (SkipList.place order_match_compare v (x ∷ xs))
    go (inl e) r = subst Distinct (sym (place_here v x xs e)) (new, h)
    go (inr n) r =
        subst Distinct (sym (place_past v x xs n))
          (All-place order_match_compare (λ y. y.id ≢ x.id) v xs (λ e. new.0 (sym e)) h.0, r)

-- Orders that were taken off or changed by deals keep the ids distinct.
pub Eaten-Distinct :
    (before after : List Order) → Eaten before after → Distinct before → Distinct after
Eaten-Distinct [] after e h = rw e tt
Eaten-Distinct (k ∷ rest) after (inl (k', same, less, e)) h = rw e (rw same.id h.0, h.1)
Eaten-Distinct (k ∷ rest) after (inr e) h = Eaten-Distinct rest after e h.1

-- What a deal does not change holds of the orders that are left in the book.
pub Eaten-All :
    (P : Order → Type 0)
    → ((k k' : Order) → SameOrder k k' → P k → P k')
    → (before after : List Order) → Eaten before after
    → All P before
    → All P after
Eaten-All P keep [] after e h = rw e tt
Eaten-All P keep (k ∷ rest) after (inl (k', same, less, e)) h = rw e (keep k k' same h.0, h.1)
Eaten-All P keep (k ∷ rest) after (inr e) h = Eaten-All P keep rest after e h.1

pub All-map {ℓ κ} :
    {A : Type 0} (P : A → Type ℓ) (Q : A → Type κ)
    → ((x : A) → P x → Q x)
    → (xs : List A) → All P xs
    → All Q xs
All-map P Q f [] h = tt
All-map P Q f (x ∷ xs) h = (f x h.0, All-map P Q f xs h.1)

-- The prices of a book of bids do not rise along it, and those of asks do not fall.
bid_prices_step :
    (k x : Order)
    → k.side ≡ bid
    → x.side ≡ bid
    → order_match_compare x k ≡ Ordering.gt
    → x.type ≡ limit
    → k.type ≡ limit
    → x.price ≤ℤ k.price
unfolding order_match_compare
bid_prices_step k x hk hx g tx tk = ground arith

ask_prices_step :
    (k x : Order)
    → k.side ≡ ask
    → x.side ≡ ask
    → order_match_compare x k ≡ Ordering.gt
    → x.type ≡ limit
    → k.type ≡ limit
    → k.price ≤ℤ x.price
unfolding order_match_compare
ask_prices_step k x hk hx g tx tk = ground arith

module _ (d : Decimal) where
  pub bids_below :
      (p : ℤ) (k : Order) (rest : List Order)
      → k.price <ℤ p
      → InOrder (k ∷ rest)
      → All (IsMaker d bid) (k ∷ rest)
      → All (λ b. b.price <ℤ p) (k ∷ rest)
  bids_below p k [] h io mk = (h, tt)
  bids_below p k (x ∷ rest) h io mk =
      let le = bid_prices_step k x mk.0.on_side mk.1.0.on_side io.0 mk.1.0.resting mk.0.resting in
      (h, bids_below p x rest (omega arith) io.1 mk.1)

  pub asks_above :
      (p : ℤ) (k : Order) (rest : List Order)
      → p <ℤ k.price
      → InOrder (k ∷ rest)
      → All (IsMaker d ask) (k ∷ rest)
      → All (λ a. p <ℤ a.price) (k ∷ rest)
  asks_above p k [] h io mk = (h, tt)
  asks_above p k (x ∷ rest) h io mk =
      let le = ask_prices_step k x mk.0.on_side mk.1.0.on_side io.0 mk.1.0.resting mk.0.resting in
      (h, asks_above p x rest (omega arith) io.1 mk.1)
