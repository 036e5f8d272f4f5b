-- ===== src/Market/Matching/Fills.antt =====
-- The amounts of an order: what is left and what has been dealt are its amount, in every round.
use viabtc_exchange_server.Base.{◌≡◌, refl, ◌∙◌, ap, ◌⊎◌, inl, inr, arith, Bool-cases}
use viabtc_exchange_server.Base.Int.{
  ℤ, pos, pos_part, neg_part, ◌+ℤ◌, ◌-ℤ◌, ◌≤ℤ◌, ltb_ℤ, ltb_ℤ→lt, ltb_ℤ→le, int_laws,
}
use viabtc_exchange_server.Decimal.{Decimal, IsDecimal, Fits}
use viabtc_exchange_server.Order.{Order, Side, limit}
use viabtc_exchange_server.Market.Execute.{min_left}

-- Nothing of the order's amount is lost.
pub record IsFilled (d : Decimal) (o : Order) : Type 0 where
  pub left_nonneg : pos 0 ≤ℤ o.left
  pub dealt_nonneg : pos 0 ≤ℤ o.deal_stock
  pub whole : o.left +ℤ o.deal_stock ≡ o.amount
  pub fits : Fits d o.amount

pub record IsMaker (d : Decimal) (side : Side) (o : Order) : Type 0 where
  pub filled : IsFilled d o
  pub on_side : o.side ≡ side
  pub resting : o.type ≡ limit

-- The smaller of what is left of the two orders.
pub record IsMin (a : ℤ) (t k : Order) : Type 0 where
  pub nonneg : pos 0 ≤ℤ a
  pub le_taker : a ≤ℤ t.left
  pub le_maker : a ≤ℤ k.left
  pub one : (a ≡ t.left) ⊎ (a ≡ k.left)

pub min_left-IsMin :
    (d : Decimal) (t k : Order) → IsFilled d t → IsFilled d k → IsMin (min_left t k) t k
min_left-IsMin d t k ft fk = elim (Bool-cases (ltb_ℤ t.left k.left)) [
  | inl y ↦
      let le = ltb_ℤ→lt t.left k.left y in
      rw y (record {
        nonneg = ft.left_nonneg;
        le_taker = omega arith;
        le_maker = omega arith;
        one = inl refl;
      })
  | inr n ↦
      let le = ltb_ℤ→le t.left k.left n in
      rw n (record {
        nonneg = fk.left_nonneg;
        le_taker = omega arith;
        le_maker = omega arith;
        one = inr refl;
      })
]

module _ (d : Decimal) (law : IsDecimal d) (o : Order) (f : IsFilled d o) (a : ℤ) (n : pos 0 ≤ℤ a)
    (le : a ≤ℤ o.left) where
  pub left_exact : d.sub o.left a ≡ o.left -ℤ a
  left_exact = law.sub_exact o.left a (
      omega
        (int_laws, f.left_nonneg, f.dealt_nonneg, f.fits, ap pos_part f.whole, ap neg_part f.whole))

  dealt_exact : d.add o.deal_stock a ≡ o.deal_stock +ℤ a
  dealt_exact = law.add_exact o.deal_stock a (
      omega
        (int_laws, f.left_nonneg, f.dealt_nonneg, f.fits, ap pos_part f.whole, ap neg_part f.whole))

  pub fill-IsFilled :
      (o' : Order)
      → o'.left ≡ d.sub o.left a
      → o'.deal_stock ≡ d.add o.deal_stock a
      → o'.amount ≡ o.amount
      → IsFilled d o'
  fill-IsFilled o' el es ea =
      let l : o'.left ≡ o.left -ℤ a = el ∙ left_exact in
      let s : o'.deal_stock ≡ o.deal_stock +ℤ a = es ∙ dealt_exact in
      record {
        left_nonneg = rw l (omega (int_laws, n, le));
        dealt_nonneg = rw s (omega (int_laws, n, f.dealt_nonneg));
        whole = rw (l, s, ea) (omega (int_laws, ap pos_part f.whole, ap neg_part f.whole));
        fits = rw ea f.fits;
      }

  -- What uses up all that is left leaves nothing.
  pub all_used : (v : ℤ) → v ≡ d.sub o.left a → a ≡ o.left → v ≡ pos 0
  all_used v e h = e ∙ left_exact ∙ omega (int_laws, ap pos_part h, ap neg_part h)
