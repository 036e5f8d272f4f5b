-- ===== src/Balance/Freeze.antt =====
-- balance_freeze and balance_unfreeze, and the errors of all operations.
use viabtc_exchange_server.Base.{
  ℕ, ◌≡◌, ◌≢◌, ◌⊎◌, ◌↔◌, refl, sym, ◌∙◌, ap, subst, Bool, true, false, Option, none, some, arith,
  if◌then◌else◌, Bool-cases, inl, inr,
}
use viabtc_exchange_server.Base.Int.{ℤ, pos, pos_part, neg_part, ◌+ℤ◌, ◌-ℤ◌, ◌≤ℤ◌, ◌<ℤ◌, int_laws}
use viabtc_exchange_server.Decimal.{Decimal, IsDecimal, Fits, OnGrid}
use viabtc_exchange_server.Dict.{find, sum_where, weigh}
use viabtc_exchange_server.Balance.{
  BalanceKey, BalanceType, AssetType, Ledger, key, key_eq, key_compare, key_compare_iff,
  get_asset_type, balance_get, balance_add, balance_sub, take_off, move, available, freeze,
  balance_freeze, balance_unfreeze, type_eq,
}
use viabtc_exchange_server.Balance.Invariant.{IsSound, StoredOption, or_zero}
use viabtc_exchange_server.Balance.Effects.{
  balance_of, Becomes, Stored-at, balance_add-Becomes, take_off-Becomes,
}

-- `x` went from one balance of the user to the other, and no other balance changed.
pub record Moves (d : Decimal) (l : Ledger) (from to : BalanceKey) (x : ℤ) (r : Option ℤ × Ledger)
    : Type 0 where
  pub returns : r.0 ≡ some (balance_of l from -ℤ x)
  pub sound : IsSound d r.1
  pub assets : r.1.dict_asset ≡ l.dict_asset
  pub balances :
      (j : BalanceKey)
      → balance_of r.1 j ≡ (
          if key_compare j from
          then balance_of l from -ℤ x
          else if key_compare j to
          then balance_of l to +ℤ x
          else balance_of l j)
  -- Both keys together: whatever the two count for alike keeps its sum.
  pub sums :
      (p : BalanceKey → Bool)
      → sum_where p r.1.dict_balance +ℤ weigh (p from) x
        ≡ sum_where p l.dict_balance +ℤ weigh (p to) x

move_covered :
    (d : Decimal) (l : Ledger) (u : ℕ) (from to : BalanceType) (a : ℕ) (at : AssetType) (x r v : ℤ)
    (l' : Ledger)
    → get_asset_type l a ≡ some at
    → pos 0 ≤ℤ x
    → find (key u from a) l.dict_balance ≡ some r
    → x ≤ℤ r
    → balance_add d l u to a x ≡ (some v, l')
    → move d l u from to a x ≡ take_off d l' u from a at.prec_save r x
unfolding move balance_get
move_covered d l u from to a at x r v l' known n e le added = ground arith

sums_move :
    (pf pt : Bool) (s0 s1 s2 r v x : ℤ)
    → s1 +ℤ weigh pt v ≡ s0 +ℤ weigh pt (v +ℤ x)
    → s2 +ℤ weigh pf r ≡ s1 +ℤ weigh pf (r -ℤ x)
    → s2 +ℤ weigh pf x ≡ s0 +ℤ weigh pt x
sums_move true true s0 s1 s2 r v x h k =
    omega (int_laws, ap pos_part h, ap neg_part h, ap pos_part k, ap neg_part k)
sums_move true false s0 s1 s2 r v x h k =
    omega (int_laws, ap pos_part h, ap neg_part h, ap pos_part k, ap neg_part k)
sums_move false true s0 s1 s2 r v x h k =
    omega (int_laws, ap pos_part h, ap neg_part h, ap pos_part k, ap neg_part k)
sums_move false false s0 s1 s2 r v x h k =
    omega (int_laws, ap pos_part h, ap neg_part h, ap pos_part k, ap neg_part k)

module _ (d : Decimal) (law : IsDecimal d) (l : Ledger) (s : IsSound d l) (u : ℕ)
    (from to : BalanceType) (differ : type_eq from to ≡ false) (a : ℕ) (at : AssetType)
    (known : get_asset_type l a ≡ some at) (x : ℤ) (gx : OnGrid d at.prec_save x) (nx : pos 0 ≤ℤ x)
    (r : ℤ) (e : balance_get l u from a ≡ some r) (le : x ≤ℤ r)
    (f : Fits d (balance_of l (key u to a) +ℤ x)) where
  abbrev added : Option ℤ × Ledger
  added = balance_add d l u to a x

  gained : Becomes d l (key u to a) (balance_of l (key u to a) +ℤ x) added
  gained = balance_add-Becomes d law l s u to a at known x gx nx f

  keys_differ : key_compare (key u from a) (key u to a) ≡ false
  keys_differ = ground arith

  from_before : find (key u from a) l.dict_balance ≡ some r
  unfolding balance_get
  from_before = e

  from_between : find (key u from a) added.1.dict_balance ≡ some r
  from_between =
      gained.entries (key u from a)
      ∙ ap
          (λ b.
            if b
            then find (key u to a) added.1.dict_balance
            else find (key u from a) l.dict_balance)
          keys_differ
      ∙ from_before

  lost : Becomes d added.1 (key u from a) (r -ℤ x) (take_off d added.1 u from a at.prec_save r x)
  unfolding get_asset_type
  lost =
      take_off-Becomes d law added.1 gained.sound u from a at (rw gained.assets known) x gx nx r
        from_between le

  move-eq : move d l u from to a x ≡ take_off d added.1 u from a at.prec_save r x
  move-eq =
      move_covered d l u from to a at x r (balance_of l (key u to a) +ℤ x) added.1 known nx
        from_before le (λ i. (gained.returns i, added.1))

  pub move-Moves : Moves d l (key u from a) (key u to a) x (move d l u from to a x)
  move-Moves = rw move-eq (record {
    returns = lost.returns ∙ ap (λ o. some (or_zero o -ℤ x)) (sym from_before);
    sound = lost.sound;
    assets = lost.assets ∙ gained.assets;
    balances = λ j. rw from_before (
        lost.balances j
        ∙ ap (λ v. if key_compare j (key u from a) then r -ℤ x else v) (gained.balances j));
    sums = λ p.
        sums_move (p (key u from a)) (p (key u to a)) _ _ _ r (balance_of l (key u to a)) x
          (gained.sums p)
          (subst
            (λ o.
              sum_where p (take_off d added.1 u from a at.prec_save r x).1.dict_balance
                +ℤ weigh (p (key u from a)) (or_zero o)
              ≡ sum_where p added.1.dict_balance +ℤ weigh (p (key u from a)) (r -ℤ x))
            from_between (lost.sums p));
  })

-- Freezing a non-negative amount of the asset's precision that the available balance covers, where
-- the frozen balance stays within 34 digits, moves exactly that amount from the available to the
-- frozen balance of the user: the ledger stays sound, no other balance changes, and every sum of
-- balances changes by what it takes in of the two.
pub balance_freeze-Moves :
    (d : Decimal) (law : IsDecimal d) (l : Ledger) (s : IsSound d l) (u a : ℕ) (at : AssetType)
    → get_asset_type l a ≡ some at
    → (x : ℤ) → OnGrid d at.prec_save x
    → pos 0 ≤ℤ x
    → (r : ℤ) → balance_get l u available a ≡ some r
    → x ≤ℤ r
    → Fits d (balance_of l (key u freeze a) +ℤ x)
    → Moves d l (key u available a) (key u freeze a) x (balance_freeze d l u a x)
unfolding balance_freeze
balance_freeze-Moves d law l s u a at known x gx nx r e le f =
    move-Moves d law l s u available freeze refl a at known x gx nx r e le f

-- Unfreezing a non-negative amount of the asset's precision that the frozen balance covers, where
-- the available balance stays within 34 digits, moves exactly that amount from the frozen to the
-- available balance of the user: the ledger stays sound, no other balance changes, and every sum
-- of balances changes by what it takes in of the two.
pub balance_unfreeze-Moves :
    (d : Decimal) (law : IsDecimal d) (l : Ledger) (s : IsSound d l) (u a : ℕ) (at : AssetType)
    → get_asset_type l a ≡ some at
    → (x : ℤ) → OnGrid d at.prec_save x
    → pos 0 ≤ℤ x
    → (r : ℤ) → balance_get l u freeze a ≡ some r
    → x ≤ℤ r
    → Fits d (balance_of l (key u available a) +ℤ x)
    → Moves d l (key u freeze a) (key u available a) x (balance_unfreeze d l u a x)
unfolding balance_unfreeze
balance_unfreeze-Moves d law l s u a at known x gx nx r e le f =
    move-Moves d law l s u freeze available refl a at known x gx nx r e le f

-- Why an operation that takes `x` off a balance refuses.
abbrev pub Refused : Ledger → ℕ → BalanceType → ℕ → ℤ → Type 0
Refused l u t a x =
    (get_asset_type l a ≡ none)
    ⊎ (x <ℤ pos 0)
    ⊎ (balance_get l u t a ≡ none)
    ⊎ (or_zero (balance_get l u t a) <ℤ x)

abbrev pub FailsAs : Type 0 → Ledger → Option ℤ × Ledger → Type 0
FailsAs P l r = ((r.0 ≡ none) ↔ P) × ((r.1 ≡ l) ⊎ (r.0 ≢ none))

-- balance_sub returns NULL exactly when the asset is unknown, the amount is negative or the
-- balance does not cover it, and then it changes nothing.
pub balance_sub-FailsAs :
    (d : Decimal) (l : Ledger) (u : ℕ) (t : BalanceType) (a : ℕ) (x : ℤ)
    → FailsAs (Refused l u t a x) l (balance_sub d l u t a x)
unfolding balance_sub
balance_sub-FailsAs d l u t a x = ground arith

-- balance_add returns NULL exactly when the asset is unknown or the amount is negative, and then
-- it changes nothing.
pub balance_add-FailsAs :
    (d : Decimal) (l : Ledger) (u : ℕ) (t : BalanceType) (a : ℕ) (x : ℤ)
    → FailsAs ((get_asset_type l a ≡ none) ⊎ (x <ℤ pos 0)) l (balance_add d l u t a x)
unfolding balance_add
balance_add-FailsAs d l u t a x = ground arith

move-FailsAs :
    (d : Decimal) (l : Ledger) (u : ℕ) (from to : BalanceType) (a : ℕ) (x : ℤ)
    → FailsAs (Refused l u from a x) l (move d l u from to a x)
unfolding move
move-FailsAs d l u from to a x = ground arith

-- balance_freeze returns NULL exactly when the asset is unknown, the amount is negative or the
-- available balance does not cover it, and then it changes nothing.
pub balance_freeze-FailsAs :
    (d : Decimal) (l : Ledger) (u a : ℕ) (x : ℤ)
    → FailsAs (Refused l u available a x) l (balance_freeze d l u a x)
unfolding balance_freeze
balance_freeze-FailsAs d l u a x = move-FailsAs d l u available freeze a x

pub found_of_pos : (o : Option ℤ) (v : ℤ) → or_zero o ≡ v → pos 0 <ℤ v → o ≡ some v
found_of_pos none v e h = ground arith
found_of_pos (some w) v e h = ap some e

balance_nonneg :
    (d : Decimal) (l : Ledger) (s : IsSound d l) (u : ℕ) (t : BalanceType) (a : ℕ) (at : AssetType)
    → get_asset_type l a ≡ some at
    → pos 0 ≤ℤ balance_of l (key u t a)
balance_nonneg d l s u t a at known =
    at_option (find (key u t a) l.dict_balance)
      (subst (λ o. StoredOption d o (find (key u t a) l.dict_balance)) known (s.stored (key u t a)))
  where
    at_option : (o : Option ℤ) → StoredOption d (some at) o → pos 0 ≤ℤ or_zero o
    at_option none st = omega arith
    at_option (some v) st = st.1

module _ (d : Decimal) (law : IsDecimal d) (l : Ledger) (s : IsSound d l) (u a : ℕ) (at : AssetType)
    (known : get_asset_type l a ≡ some at) (x : ℤ) (gx : OnGrid d at.prec_save x) (nx : pos 0 <ℤ x)
    (r : ℤ) (e : balance_get l u available a ≡ some r) (le : x ≤ℤ r)
    (f : Fits d (balance_of l (key u freeze a) +ℤ x)) where
  abbrev frozen : Ledger
  frozen = (balance_freeze d l u a x).1

  abbrev ka : BalanceKey
  ka = key u available a

  abbrev kf : BalanceKey
  kf = key u freeze a

  m1 : Moves d l ka kf x (balance_freeze d l u a x)
  m1 = balance_freeze-Moves d law l s u a at known x gx (omega arith) r e le f

  of_r : balance_of l ka ≡ r
  unfolding balance_get
  of_r = ap or_zero e

  frozen_balance : balance_of frozen kf ≡ balance_of l kf +ℤ x
  frozen_balance = m1.balances kf ∙ ground (arith, key_compare_iff kf kf)

  left_balance : balance_of frozen ka ≡ r -ℤ x
  left_balance = m1.balances ka ∙ ground (arith, of_r, key_compare_iff ka ka)

  old_frozen : pos 0 ≤ℤ balance_of l kf
  old_frozen = balance_nonneg d l s u freeze a at known

  r_Fits : Fits d r
  unfolding balance_get
  r_Fits = (Stored-at d law l s u available a at known x gx (omega arith) r e).2

  m2 : Moves d frozen kf ka x (balance_unfreeze d frozen u a x)
  unfolding get_asset_type balance_get
  m2 =
      balance_unfreeze-Moves d law frozen m1.sound u a at (rw m1.assets known) x gx (omega arith)
        (balance_of l kf +ℤ x)
        (found_of_pos (find kf frozen.dict_balance) (balance_of l kf +ℤ x) frozen_balance
          (omega (int_laws, old_frozen)))
        (omega (int_laws, old_frozen)) (rw left_balance (omega (int_laws, r_Fits, le)))

  restored :
      (j : BalanceKey)
      → (key_compare j kf ≡ true) ⊎ (key_compare j kf ≡ false)
      → (key_compare j ka ≡ true) ⊎ (key_compare j ka ≡ false)
      → balance_of (balance_unfreeze d frozen u a x).1 j ≡ balance_of l j
  restored j (inl y) other =
      let p : j ≡ kf = (key_compare_iff j kf).0 y in
      m2.balances j ∙ rw (y, frozen_balance) (omega int_laws ∙ ap (balance_of l) (sym p))
  restored j (inr n) (inl y) =
      let p : j ≡ ka = (key_compare_iff j ka).0 y in
      m2.balances j
      ∙ rw (n, y, left_balance) (omega int_laws ∙ sym of_r ∙ ap (balance_of l) (sym p))
  restored j (inr n) (inr m) = m2.balances j ∙ rw (n, m) (m1.balances j ∙ rw (m, n))

  -- Unfreezing a positive amount of the asset's precision that was just frozen gives every balance
  -- back, both of the user's and all others; the available balance covers the amount, and the sums
  -- fit.
  pub unfreeze-freeze :
      (j : BalanceKey) → balance_of (balance_unfreeze d frozen u a x).1 j ≡ balance_of l j
  unfreeze-freeze j = restored j (Bool-cases (key_compare j kf)) (Bool-cases (key_compare j ka))
