-- ===== src/Market/Matching/Front.antt =====
-- The loops of matchengine/me_market.c take makers from the front of the book. The argument is one for
-- the loops of limit orders and for that of a market order that asks.
use Prim.Native.Nat.{Ordering}
use viabtc_exchange_server.Base.{
  ◌≡◌, ◌≢◌, refl, ◌∙◌, ap, sym, ◌⊎◌, inl, inr, Bool, true, false, List, [], ◌∷◌, arith, All,
  Bool-cases,
}
use viabtc_exchange_server.Base.Int.{
  ℤ, pos, pos_part, neg_part, ◌+ℤ◌, ◌≤ℤ◌, eqb_ℤ, eqb_ℤ→eq, int_laws,
}
use viabtc_exchange_server.Order.{Order, State, order_match_compare}
use viabtc_exchange_server.Market.Execute.{match_loop}

-- `k` stands before all of the book: skiplist_find passes it and stops behind it.
abbrev pub Before : Order → List Order → Type 0
Before k [] = Unit
Before k (x ∷ xs) = order_match_compare x k ≡ Ordering.gt

-- The book is in the order of order_match_compare.
abbrev pub InOrder : List Order → Type 0
InOrder [] = Unit
InOrder (k ∷ rest) = Before k rest × InOrder rest

-- No two orders have one id.
abbrev pub Distinct : List Order → Type 0
Distinct [] = Unit
Distinct (o ∷ os) = All (λ x. x.id ≢ o.id) os × Distinct os

-- The fields of an order that a deal does not change, and by which orders are compared.
pub record SameOrder (k k' : Order) : Type 0 where
  pub id : k'.id ≡ k.id
  pub type : k'.type ≡ k.type
  pub side : k'.side ≡ k.side
  pub user_id : k'.user_id ≡ k.user_id
  pub price : k'.price ≡ k.price
  pub amount : k'.amount ≡ k.amount

pub SameOrder-refl : (k : Order) → SameOrder k k
SameOrder-refl k = ground arith

pub SameOrder-trans : {a b c : Order} → SameOrder a b → SameOrder b c → SameOrder a c
SameOrder-trans p q = ground arith

-- `after` is `before` without some orders at its front, where the first that is left may be partly
-- filled.
abbrev pub Eaten : List Order → List Order → Type 0
Eaten [] after = after ≡ []
Eaten (k ∷ rest) after =
    ((k' : Order) × SameOrder k k' × (k'.left ≤ℤ k.left) × (after ≡ k' ∷ rest)) ⊎ Eaten rest after

pub Eaten-refl : (book : List Order) → Eaten book book
Eaten-refl [] = refl
Eaten-refl (k ∷ rest) = inl (k, SameOrder-refl k, omega arith, refl)

order_match_compare-SameOrder :
    (x k k' : Order) → SameOrder k k' → order_match_compare x k' ≡ order_match_compare x k
unfolding order_match_compare
order_match_compare-SameOrder x k k' same = ground arith

pub Before-SameOrder :
    (k k' : Order) (rest : List Order) → SameOrder k k' → Before k rest → Before k' rest
Before-SameOrder k k' [] same h = tt
Before-SameOrder k k' (x ∷ xs) same h = order_match_compare-SameOrder x k k' same ∙ h

-- Such a book is in order if the old one was.
pub Eaten-InOrder :
    (before after : List Order) → Eaten before after → InOrder before → InOrder after
Eaten-InOrder [] after e h = rw e tt
Eaten-InOrder (k ∷ rest) after (inl (k', same, less, e)) h =
    rw e (Before-SameOrder k k' rest same h.0, h.1)
Eaten-InOrder (k ∷ rest) after (inr e) h = Eaten-InOrder rest after e h.1

-- What is left of all the orders of a book.
abbrev pub total_left : List Order → ℤ
total_left [] = pos 0
total_left (k ∷ rest) = k.left +ℤ total_left rest

-- Why the loop ended, seen from its result.
abbrev pub Ended : (Order → Order → Bool) → Order → List Order → Type 0
Ended stops t [] = Unit
Ended stops t (k ∷ rest) = (t.left ≡ pos 0) ⊎ (stops t k ≡ true)

-- Two steps of what is left of the taker and of the makers, in a row.
through :
    (t t1 k t2 rest after : ℤ)
    → t +ℤ rest ≡ t1 +ℤ (k +ℤ rest)
    → t1 +ℤ after ≡ t2 +ℤ rest
    → t +ℤ after ≡ t2 +ℤ (k +ℤ rest)
through t t1 k t2 rest after p q =
    omega (int_laws, ap pos_part p, ap neg_part p, ap pos_part q, ap neg_part q)

module _ (book other : State → List Order) (Taker Maker : Order → Type 0) where
  -- The result of a loop over the book `before`.
  pub record Matched (stops : Order → Order → Bool) (t : Order) (s : State) (before : List Order)
      (r : Order × State) : Type 0 where
    pub taker : Taker r.0
    pub makers : All Maker (book r.1)
    pub same : SameOrder t r.0
    pub eaten : Eaten before (book r.1)
    pub conserved : t.left +ℤ total_left (book r.1) ≡ r.0.left +ℤ total_left before
    pub ended : Ended stops r.0 (book r.1)
    pub other_book : other r.1 ≡ other s
    pub start : r.1.order_id_start ≡ s.order_id_start

  -- The result of a round with the maker `k`, behind which `rest` stands: the maker is gone, or it is
  -- left at the front and the taker is filled.
  abbrev pub Rounded : Order → Order → List Order → State → Order × State → Type 0
  Rounded t k rest s r =
      Taker r.0
      × SameOrder t r.0
      × (other r.1 ≡ other s)
      × (r.1.order_id_start ≡ s.order_id_start)
      × (t.left +ℤ total_left (book r.1) ≡ r.0.left +ℤ (k.left +ℤ total_left rest))
      × ((book r.1 ≡ rest)
          ⊎ ((k' : Order) × SameOrder k k'
              × (k'.left ≤ℤ k.left)
              × Maker k'
              × (book r.1 ≡ k' ∷ rest)
              × (r.0.left ≡ pos 0)))

  module _ (stops : Order → Order → Bool) (round : Order → Order → State → Order × State)
      (step : (t k : Order) (rest : List Order) (s : State)
        → Taker t
        → Maker k
        → book s ≡ k ∷ rest
        → Before k rest
        → stops t k ≡ false
        → Rounded t k rest s (round t k s)) where
    stopped :
        (t : Order) (before : List Order) (s : State)
        → Taker t
        → All Maker before
        → book s ≡ before
        → Ended stops t before
        → Matched stops t s before (t, s)
    stopped t before s ht hb e h = record {
      taker = ht;
      makers = rw e hb;
      same = SameOrder-refl t;
      eaten = rw e (Eaten-refl before);
      conserved = rw e refl;
      ended = rw e h;
      other_book = refl;
      start = refl;
    }

    filled_stop :
        (t : Order) (rest : List Order) (s : State)
        → t.left ≡ pos 0
        → match_loop stops round t rest s ≡ (t, s)
    unfolding match_loop
    filled_stop t [] s z = refl
    filled_stop t (k ∷ rest) s z =
        let e : eqb_ℤ t.left (pos 0) ≡ true = ap (λ v. eqb_ℤ v (pos 0)) z in rw e

    -- The loop behind a round.
    continued :
        (t k : Order) (rest : List Order) (s : State) (r : Order × State)
        → Rounded t k rest s r
        → All Maker rest
        → ((e : book r.1 ≡ rest)
            → Taker r.0
            → Matched stops r.0 r.1 rest (match_loop stops round r.0 rest r.1))
        → Matched stops t s (k ∷ rest) (match_loop stops round r.0 rest r.1)
    continued t k rest s r (ht, same, ot, st, cv, inl e) hb loop = record {
      taker = m.taker;
      makers = m.makers;
      same = SameOrder-trans same m.same;
      eaten = inr m.eaten;
      conserved =
          through t.left r.0.left k.left (match_loop stops round r.0 rest r.1).0.left
            (total_left rest) (total_left (book (match_loop stops round r.0 rest r.1).1))
            (ap (λ b. t.left +ℤ total_left b) (sym e) ∙ cv) m.conserved;
      ended = m.ended;
      other_book = m.other_book ∙ ot;
      start = m.start ∙ st;
    }
      where
        m : Matched stops r.0 r.1 rest (match_loop stops round r.0 rest r.1)
        m = loop e ht
    continued t k rest s r (ht, same, ot, st, cv, inr (k', sk, less, mk, e, z)) hb loop =
        rw (filled_stop r.0 rest r.1 z) (record {
          taker = ht;
          makers = rw e (mk, hb);
          same = same;
          eaten = inl (k', sk, less, e);
          conserved = cv;
          ended = rw e (inl z);
          other_book = ot;
          start = st;
        })

    pub match_loop-Matched :
        (t : Order) (before : List Order) (s : State)
        → Taker t
        → All Maker before
        → InOrder before
        → book s ≡ before
        → Matched stops t s before (match_loop stops round t before s)
    unfolding match_loop
    match_loop-Matched t [] s ht hb io e = stopped t [] s ht hb e tt
    match_loop-Matched t (k ∷ rest) s ht hb io e = elim (Bool-cases (eqb_ℤ t.left (pos 0))) [
      | inl zero ↦ rw zero (stopped t (k ∷ rest) s ht hb e (inl (eqb_ℤ→eq t.left (pos 0) zero)))
      | inr more ↦ elim (Bool-cases (stops t k)) [
        | inl stop ↦ rw (more, stop) (stopped t (k ∷ rest) s ht hb e (inr stop))
        | inr go ↦
            rw (more, go)
              (continued t k rest s (round t k s) (step t k rest s ht hb.0 e io.0 go) hb.1
                (λ e' ht'.
                  match_loop-Matched (round t k s).0 rest (round t k s).1 ht' hb.1 io.1 e'))
      ]
    ]
