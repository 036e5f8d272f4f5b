-- ===== src/Balance/Effects.antt =====
-- What each operation of me_balance.c does to the balances, when it succeeds and when it fails.
use viabtc_exchange_server.Base.{
  ℕ, ◌≡◌, ◌≢◌, ◌⊎◌, refl, sym, ◌∙◌, ap, subst, Bool, true, false, Option, none, some, ◌∷◌, arith,
  if◌then◌else◌, nat_eq, Bool-cases, Option-cases, inl, inr,
}
use viabtc_exchange_server.Base.Int.{ℤ, pos, ◌+ℤ◌, ◌-ℤ◌, ◌≤ℤ◌, ◌<ℤ◌, eqb_ℤ, eqb_ℤ→eq, int_laws}
use viabtc_exchange_server.Decimal.{Decimal, IsDecimal, Fits, OnGrid}
use viabtc_exchange_server.Dict.{find, sum_where, weigh}
use viabtc_exchange_server.Balance.{
  BalanceKey, BalanceType, AssetType, Ledger, key, key_eq, key_compare, key_compare_iff,
  get_asset_type, write, balance_get, balance_del, balance_add, balance_sub, take_off,
}
use viabtc_exchange_server.Balance.Invariant.{
  Stored, IsSound, Changes, StoredOption, Changes-IsSound, write-Changes, insert-Changes,
  delete-Changes, or_zero, rescale-add, rescale-sub,
}

-- What is left under a key: an entry of value zero and no entry are the same balance.
abbrev pub balance_of : Ledger → BalanceKey → ℤ
balance_of l k = or_zero (find k l.dict_balance)

-- The call returned `v`, which is now the balance of `k`, and changed nothing else.
pub record Becomes (d : Decimal) (l : Ledger) (k : BalanceKey) (v : ℤ) (r : Option ℤ × Ledger)
    : Type 0 where
  pub returns : r.0 ≡ some v
  pub sound : IsSound d r.1
  pub assets : r.1.dict_asset ≡ l.dict_asset
  pub balances :
      (j : BalanceKey) → balance_of r.1 j ≡ (if key_compare j k then v else balance_of l j)
  pub entries :
      (j : BalanceKey)
      → find j r.1.dict_balance
        ≡ (if key_compare j k then find k r.1.dict_balance else find j l.dict_balance)
  pub sums :
      (p : BalanceKey → Bool)
      → sum_where p r.1.dict_balance +ℤ weigh (p k) (balance_of l k)
        ≡ sum_where p l.dict_balance +ℤ weigh (p k) v

module _ (d : Decimal) (law : IsDecimal d) (l : Ledger) (s : IsSound d l) where
  Changes-Becomes :
      (k : BalanceKey) (o : Option ℤ) (l' : Ledger)
      → StoredOption d (get_asset_type l k.asset) o
      → Changes l k o l'
      → Becomes d l k (or_zero o) (some (or_zero o), l')
  Changes-Becomes k o l' so c = record {
    returns = refl;
    sound = Changes-IsSound d l k o l' s so c;
    assets = c.0;
    balances = λ j. rw (c.2 j) (split (key_compare j k) (find j l.dict_balance));
    entries = λ j.
        c.2 j
        ∙ ap (λ q. if key_compare j k then q else find j l.dict_balance)
            (sym (
              c.2 k
              ∙ ap (λ b. if b then o else find k l.dict_balance) ((key_compare_iff k k).1 refl)));
    sums = c.3;
  }
    where
      split :
          (b : Bool) (m : Option ℤ)
          → or_zero (if b then o else m) ≡ (if b then or_zero o else or_zero m)
      split true m = refl
      split false m = refl

  module _ (u : ℕ) (t : BalanceType) (a : ℕ) (at : AssetType) (known : get_asset_type l a ≡ some at)
      (x : ℤ) (gx : OnGrid d at.prec_save x) (nx : pos 0 ≤ℤ x) where
    pub Stored-at : (r : ℤ) → find (key u t a) l.dict_balance ≡ some r → Stored d (some at) r
    Stored-at r e =
        subst (λ o. Stored d o r) known
          (subst (λ o. StoredOption d (get_asset_type l a) o) e (s.stored (key u t a)))

    add_found_lem :
        (r : ℤ)
        → find (key u t a) l.dict_balance ≡ some r
        → Fits d (r +ℤ x)
        → balance_add d l u t a x ≡ (some (r +ℤ x), write l (key u t a) (r +ℤ x))
    unfolding balance_add
    add_found_lem r e f = ground (arith, rescale-add d law at.prec_save r x (Stored-at r e).0 gx f)

    add_missing_lem :
        find (key u t a) l.dict_balance ≡ none
        → pos 0 <ℤ x
        → balance_add d l u t a x
          ≡ (some x, record l { dict_balance = (key u t a, x) ∷ l.dict_balance })
    unfolding balance_add
    add_missing_lem e f = ground arith

    add_zero_lem :
        find (key u t a) l.dict_balance ≡ none
        → x ≡ pos 0
        → balance_add d l u t a x ≡ (some (pos 0), balance_del l u t a)
    unfolding balance_add
    add_zero_lem e f = ground arith

    sum_Stored : (r : ℤ) → Stored d (some at) r → Fits d (r +ℤ x) → Stored d (some at) (r +ℤ x)
    sum_Stored r (g, n, _) f = (law.add_OnGrid r x at.prec_save g gx f, omega int_laws, f)

    difference_Fits : (r : ℤ) → Stored d (some at) r → x ≤ℤ r → Fits d (r -ℤ x)
    difference_Fits r (g, n, f) le = omega int_laws

    difference_Stored : (r : ℤ) → Stored d (some at) r → x ≤ℤ r → Stored d (some at) (r -ℤ x)
    difference_Stored r st le = (
      law.sub_OnGrid r x at.prec_save st.0 gx (difference_Fits r st le),
      omega int_laws,
      difference_Fits r st le,
    )

    -- A stored value at `k` makes the change sound.
    settled :
        (v : ℤ) (o : Option ℤ) (r : Option ℤ × Ledger) (l' : Ledger)
        → v ≡ or_zero o
        → r ≡ (some v, l')
        → StoredOption d (some at) o
        → Changes l (key u t a) o l'
        → Becomes d l (key u t a) v r
    settled v o r l' ev er so c =
        rw (er, ev)
          (Changes-Becomes (key u t a) o l' (subst (λ q. StoredOption d q o) (sym known) so) c)

    -- Adding a non-negative amount of the asset's precision to a balance of a sound ledger, old or
    -- new, where the sum fits, gives exactly the sum and changes no other balance.
    pub balance_add-Becomes :
        Fits d (balance_of l (key u t a) +ℤ x)
        → Becomes d l (key u t a) (balance_of l (key u t a) +ℤ x) (balance_add d l u t a x)
    balance_add-Becomes f = elim (Option-cases (find (key u t a) l.dict_balance)) [
      | inr (r, e) ↦
          let f' : Fits d (r +ℤ x) = rw e at f in
          rw e (
            settled (r +ℤ x) (some (r +ℤ x)) _ _ refl (add_found_lem r e f')
              (sum_Stored r (Stored-at r e) f') (write-Changes l (key u t a) _ r s.unique e))
      | inl missing ↦
          let f' : Fits d (pos 0 +ℤ x) = rw missing at f in
          let same : pos 0 +ℤ x ≡ x = omega int_laws in
          rw (missing, same) (new missing (Bool-cases (eqb_ℤ x (pos 0))) (rw same at f'))
    ]
      where
        new :
            find (key u t a) l.dict_balance ≡ none
            → (eqb_ℤ x (pos 0) ≡ true) ⊎ (eqb_ℤ x (pos 0) ≡ false)
            → Fits d x
            → Becomes d l (key u t a) x (balance_add d l u t a x)
        new missing (inl zero) f =
            let e : x ≡ pos 0 = eqb_ℤ→eq x (pos 0) zero in
            settled x none _ _ e
              (add_zero_lem missing e ∙ ap (λ v. (some v, balance_del l u t a)) (sym e)) tt
              (unfold balance_del in delete-Changes l (key u t a) s.unique)
        new missing (inr more) f =
            settled x (some x) _ _ refl (add_missing_lem missing (ground arith)) (gx, nx, f)
              (insert-Changes l (key u t a) x s.unique missing)

    take_off_zero :
        (prec : ℕ) (r : ℤ)
        → d.sub r x ≡ pos 0
        → take_off d l u t a prec r x ≡ (some (pos 0), balance_del l u t a)
    unfolding take_off
    take_off_zero prec r e = ground arith

    take_off_more :
        (prec : ℕ) (r : ℤ)
        → d.sub r x ≢ pos 0
        → take_off d l u t a prec r x
          ≡ (some (d.rescale (d.sub r x) prec), write l (key u t a) (d.rescale (d.sub r x) prec))
    unfolding take_off
    take_off_more prec r e = ground (arith, eqb_ℤ→eq (d.sub r x) (pos 0))

    -- Taking a covered amount off a balance leaves exactly the difference.
    pub take_off-Becomes :
        (r : ℤ)
        → find (key u t a) l.dict_balance ≡ some r
        → x ≤ℤ r
        → Becomes d l (key u t a) (r -ℤ x) (take_off d l u t a at.prec_save r x)
    take_off-Becomes r e le = cases (Bool-cases (eqb_ℤ (d.sub r x) (pos 0)))
      where
        st : Stored d (some at) r
        st = Stored-at r e

        exact : d.sub r x ≡ r -ℤ x
        exact = law.sub_exact r x (difference_Fits r st le)

        cases :
            (eqb_ℤ (d.sub r x) (pos 0) ≡ true) ⊎ (eqb_ℤ (d.sub r x) (pos 0) ≡ false)
            → Becomes d l (key u t a) (r -ℤ x) (take_off d l u t a at.prec_save r x)
        cases (inl zero) =
            let z : d.sub r x ≡ pos 0 = eqb_ℤ→eq _ _ zero in
            let e' : r -ℤ x ≡ pos 0 = sym exact ∙ z in
            settled (r -ℤ x) none _ _ e'
              (take_off_zero at.prec_save r z ∙ ap (λ v. (some v, balance_del l u t a)) (sym e')) tt
              (unfold balance_del in delete-Changes l (key u t a) s.unique)
        cases (inr more) =
            let q = rescale-sub d law at.prec_save r x st.0 gx (difference_Fits r st le) in
            settled (r -ℤ x) (some (r -ℤ x)) _ _ refl
              (take_off_more at.prec_save r (λ z. ground arith)
                ∙ ap (λ v. (some v, write l (key u t a) v)) q)
              (difference_Stored r st le) (write-Changes l (key u t a) _ r s.unique e)

    sub_covered :
        (r : ℤ)
        → find (key u t a) l.dict_balance ≡ some r
        → x ≤ℤ r
        → balance_sub d l u t a x ≡ take_off d l u t a at.prec_save r x
    unfolding balance_sub balance_get
    sub_covered r e le = ground (arith)

    -- Subtracting a non-negative amount, covered by the balance and of the asset's precision,
    -- takes exactly it off in a sound ledger and changes no other balance.
    pub balance_sub-Becomes :
        (r : ℤ)
        → balance_get l u t a ≡ some r
        → x ≤ℤ r
        → Becomes d l (key u t a) (r -ℤ x) (balance_sub d l u t a x)
    unfolding balance_get
    balance_sub-Becomes r e le = rw (sub_covered r e le) (take_off-Becomes r e le)
