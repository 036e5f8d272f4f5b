-- ===== src/Balance/Rounding.antt =====
-- Amounts of any precision: mpd_rescale cuts the new balance, and the balances stay sound.
use viabtc_exchange_server.Base.{
  ℕ, ◌≡◌, ◌⊎◌, refl, sym, ◌∙◌, ap, subst, true, false, Option, none, some, ◌∷◌, arith,
  if◌then◌else◌, nat_eq, Bool-cases, Option-cases, inl, inr,
}
use viabtc_exchange_server.Base.Int.{ℤ, pos, ◌+ℤ◌, ◌-ℤ◌, ◌≤ℤ◌, ltb_ℤ, ltb_ℤ→le, eqb_ℤ, int_laws}
use viabtc_exchange_server.Decimal.{Decimal, IsDecimal, Fits}
use viabtc_exchange_server.Dict.{find}
use viabtc_exchange_server.Balance.{
  BalanceKey, BalanceType, AssetType, Ledger, key, key_eq, key_compare, key_compare_iff,
  get_asset_type, write, balance_get, balance_del, balance_set, balance_add, balance_sub, take_off,
  move, available, freeze, balance_freeze, balance_unfreeze, type_eq,
}
use viabtc_exchange_server.Balance.Invariant.{
  Stored, IsSound, StoredOption, Changes, Changes-IsSound, write-Changes, insert-Changes,
  delete-Changes,
}
use viabtc_exchange_server.Balance.Effects.{balance_of}

-- The balances are sound, and every entry but that of `k` and every asset is as it was.
pub record Touches (d : Decimal) (l : Ledger) (k : BalanceKey) (l' : Ledger) : Type 0 where
  pub sound : IsSound d l'
  pub assets : l'.dict_asset ≡ l.dict_asset
  pub entries :
      (j : BalanceKey)
      → find j l'.dict_balance
        ≡ (if key_compare j k then find k l'.dict_balance else find j l.dict_balance)

module _ (d : Decimal) (law : IsDecimal d) where
  rescaled_Stored :
      (at : AssetType) (v : ℤ)
      → Fits d v
      → pos 0 ≤ℤ v
      → Stored d (some at) (d.rescale v at.prec_save)
  rescaled_Stored at v f n =
      let lo = law.rescale_nonneg v at.prec_save f n in
      let hi = law.rescale_le v at.prec_save f n in
      (law.rescale_OnGrid v at.prec_save f, lo, omega int_laws)

  module _ (l : Ledger) (s : IsSound d l) (u : ℕ) (t : BalanceType) (a : ℕ) where
    changed_Touches :
        (at : AssetType) (o : Option ℤ) (l' : Ledger)
        → get_asset_type l a ≡ some at
        → StoredOption d (some at) o
        → Changes l (key u t a) o l'
        → Touches d l (key u t a) l'
    changed_Touches at o l' known so c = record {
      sound = Changes-IsSound d l k o l' s (subst (λ q. StoredOption d q o) (sym known) so) c;
      assets = c.0;
      entries = λ j.
          c.2 j
          ∙ ap (λ q. if key_compare j k then q else find j l.dict_balance)
              (sym (
                c.2 k
                ∙ ap (λ b. if b then o else find k l.dict_balance) ((key_compare_iff k k).1 refl)));
    }
      where
        k : BalanceKey
        k = key u t a

    same_Touches : Touches d l (key u t a) l
    same_Touches = record {
      sound = s;
      assets = refl;
      entries = λ j. at j (Bool-cases (key_compare j k));
    }
      where
        k : BalanceKey
        k = key u t a

        at :
            (j : BalanceKey)
            → (key_compare j k ≡ true) ⊎ (key_compare j k ≡ false)
            → find j l.dict_balance
              ≡ (if key_compare j k then find k l.dict_balance else find j l.dict_balance)
        at j (inl e) = rw e (ap (λ i. find i l.dict_balance) ((key_compare_iff j k).0 e))
        at j (inr e) = rw e

    Stored-at :
        (w : ℤ) (at : AssetType)
        → get_asset_type l a ≡ some at
        → find (key u t a) l.dict_balance ≡ some w
        → Stored d (some at) w
    Stored-at w at known e =
        subst (λ o. Stored d o w) known
          (subst (λ o. StoredOption d (get_asset_type l a) o) e (s.stored (key u t a)))

    deleted_Touches :
        (at : AssetType)
        → get_asset_type l a ≡ some at
        → Touches d l (key u t a) (balance_del l u t a)
    unfolding balance_del
    deleted_Touches at known =
        changed_Touches at none _ known tt (delete-Changes l (key u t a) s.unique)

    written_Touches :
        (at : AssetType) (v w : ℤ)
        → get_asset_type l a ≡ some at
        → find (key u t a) l.dict_balance ≡ some w
        → Fits d v
        → pos 0 ≤ℤ v
        → Touches d l (key u t a) (write l (key u t a) (d.rescale v at.prec_save))
    written_Touches at v w known e f n =
        changed_Touches at _ _ known (rescaled_Stored at v f n)
          (write-Changes l (key u t a) _ w s.unique e)

    inserted_Touches :
        (at : AssetType) (v : ℤ)
        → get_asset_type l a ≡ some at
        → find (key u t a) l.dict_balance ≡ none
        → Fits d v
        → pos 0 ≤ℤ v
        → Touches d l
            (key u t a)
            (record l { dict_balance = (key u t a, d.rescale v at.prec_save) ∷ l.dict_balance })
    inserted_Touches at v known e f n =
        changed_Touches at _ _ known (rescaled_Stored at v f n)
          (insert-Changes l (key u t a) _ s.unique e)

    -- balance_set keeps the ledger sound and touches no other balance, whatever the sign and
    -- precision of the amount, where it fits.
    pub balance_set-Touches :
        (x : ℤ) → Fits d x → Touches d l (key u t a) (balance_set d l u t a x).1
    unfolding balance_set
    balance_set-Touches x f = elim (Option-cases (get_asset_type l a)) [
      | inl unknown ↦ rw (unknown, balance_set) same_Touches
      | inr (at, known) ↦ elim (Bool-cases (ltb_ℤ x (pos 0))) [
        | inl minus ↦ rw (known, balance_set) (rw minus same_Touches)
        | inr plus ↦ elim (Bool-cases (eqb_ℤ x (pos 0))) [
          | inl zero ↦ rw (known, balance_set) (rw (plus, zero) (deleted_Touches at known))
          | inr more ↦ elim (Option-cases (find (key u t a) l.dict_balance)) [
            | inl missing ↦
                rw (known, balance_set)
                  (rw (plus, more)
                    (rw (missing, balance_set)
                      (inserted_Touches at x known missing f (ltb_ℤ→le x (pos 0) plus))))
            | inr (w, e) ↦
                rw (known, balance_set)
                  (rw (plus, more)
                    (rw (e, balance_set)
                      (written_Touches at x w known e f (ltb_ℤ→le x (pos 0) plus))))
          ]
        ]
      ]
    ]

    -- balance_add keeps the ledger sound and touches no other balance, whatever the sign and
    -- precision of the amount, where the sum fits.
    pub balance_add-Touches :
        (x : ℤ)
        → Fits d (balance_of l (key u t a) +ℤ x)
        → Touches d l (key u t a) (balance_add d l u t a x).1
    unfolding balance_add
    balance_add-Touches x f = elim (Option-cases (get_asset_type l a)) [
      | inl unknown ↦ rw (unknown, balance_add) same_Touches
      | inr (at, known) ↦ elim (Bool-cases (ltb_ℤ x (pos 0))) [
        | inl minus ↦ rw (known, balance_add) (rw minus same_Touches)
        | inr plus ↦ elim (Option-cases (find (key u t a) l.dict_balance)) [
          | inl missing ↦
              let f' : Fits d (pos 0 +ℤ x) = rw missing at f in
              rw (known, balance_add)
                (rw plus (rw (missing, balance_add) (balance_set-Touches x (omega (int_laws, f')))))
          | inr (w, e) ↦
              let f' : Fits d (w +ℤ x) = rw e at f in
              let n : pos 0 ≤ℤ w = (Stored-at w at known e).1 in
              let p : pos 0 ≤ℤ x = ltb_ℤ→le x (pos 0) plus in
              let q : d.add w x ≡ w +ℤ x = law.add_exact w x f' in
              rw (known, balance_add)
                (rw plus (
                  rw (e, balance_add)
                    (written_Touches at (d.add w x) w known e (rw q f')
                      (rw q (omega (int_laws, n, p))))))
        ]
      ]
    ]

    take_off-Touches :
        (at : AssetType) (w x : ℤ)
        → get_asset_type l a ≡ some at
        → find (key u t a) l.dict_balance ≡ some w
        → pos 0 ≤ℤ x
        → x ≤ℤ w
        → Touches d l (key u t a) (take_off d l u t a at.prec_save w x).1
    unfolding take_off
    take_off-Touches at w x known e n le =
        let st : Stored d (some at) w = Stored-at w at known e in
        let f : Fits d (w -ℤ x) = omega (int_laws, st.1, st.2) in
        let q : d.sub w x ≡ w -ℤ x = law.sub_exact w x f in
        elim (Bool-cases (eqb_ℤ (d.sub w x) (pos 0))) [
          | inl zero ↦ rw zero (deleted_Touches at known)
          | inr more ↦
              rw more
                (written_Touches at (d.sub w x) w known e (rw q f) (rw q (omega (int_laws, le))))
        ]

    -- balance_sub keeps the ledger sound and touches no other balance, whatever the amount.
    pub balance_sub-Touches : (x : ℤ) → Touches d l (key u t a) (balance_sub d l u t a x).1
    unfolding balance_sub balance_get
    balance_sub-Touches x = elim (Option-cases (get_asset_type l a)) [
      | inl unknown ↦ rw (unknown, balance_sub) same_Touches
      | inr (at, known) ↦ elim (Bool-cases (ltb_ℤ x (pos 0))) [
        | inl minus ↦ rw (known, balance_sub) (rw minus same_Touches)
        | inr plus ↦ elim (Option-cases (find (key u t a) l.dict_balance)) [
          | inl missing ↦ rw (known, balance_sub) (rw plus (rw (missing, balance_sub) same_Touches))
          | inr (w, e) ↦ elim (Bool-cases (ltb_ℤ w x)) [
            | inl short ↦
                rw (known, balance_sub) (rw plus (rw (e, balance_sub) (rw short same_Touches)))
            | inr covered ↦
                rw (known, balance_sub)
                  (rw plus (
                    rw (e, balance_sub)
                      (rw covered (
                        take_off-Touches at w x known e (ltb_ℤ→le x (pos 0) plus)
                          (ltb_ℤ→le w x covered)))))
          ]
        ]
      ]
    ]

  -- balance_freeze and balance_unfreeze keep the balances sound.
  module _ (l : Ledger) (s : IsSound d l) (u : ℕ) (from to : BalanceType)
      (differ : type_eq from to ≡ false) (a : ℕ) (x : ℤ)
      (f : Fits d (balance_of l (key u to a) +ℤ x)) where
    abbrev added : Option ℤ × Ledger
    added = balance_add d l u to a x

    gained : Touches d l (key u to a) added.1
    gained = balance_add-Touches l s u to a x f

    kept_entry :
        (w : ℤ)
        → find (key u from a) l.dict_balance ≡ some w
        → find (key u from a) added.1.dict_balance ≡ some w
    kept_entry w e = gained.entries (key u from a) ∙ ground (arith, differ)

    both :
        (at : AssetType) (w : ℤ)
        → find a l.dict_asset ≡ some at
        → find (key u from a) l.dict_balance ≡ some w
        → pos 0 ≤ℤ x
        → x ≤ℤ w
        → IsSound d
            (elim added.0 as (λ _. Option ℤ × Ledger) [
              | none ↦ (none, added.1)
              | some _ ↦ take_off d added.1 u from a at.prec_save w x
            ]).1
    unfolding get_asset_type
    both at w known e n le = elim (Option-cases added.0) [
      | inl failed ↦ rw failed gained.sound
      | inr (v, ok) ↦
          rw ok
            (take_off-Touches added.1 gained.sound u from a at w x (rw gained.assets known)
              (kept_entry w e) n le).sound
    ]

    move-IsSound : IsSound d (move d l u from to a x).1
    unfolding move balance_get get_asset_type
    move-IsSound = elim (Option-cases (find a l.dict_asset)) [
      | inl unknown ↦ rw (unknown, move) s
      | inr (at, known) ↦ elim (Bool-cases (ltb_ℤ x (pos 0))) [
        | inl minus ↦ rw (known, move) (rw minus s)
        | inr plus ↦ elim (Option-cases (find (key u from a) l.dict_balance)) [
          | inl missing ↦ rw (known, move) (rw plus (rw (missing, move) s))
          | inr (w, e) ↦ elim (Bool-cases (ltb_ℤ w x)) [
            | inl short ↦ rw (known, move) (rw plus (rw (e, move) (rw short s)))
            | inr covered ↦
                rw (known, move)
                  (rw plus (
                    rw (e, move)
                      (rw covered
                        (both at w known e (ltb_ℤ→le x (pos 0) plus) (ltb_ℤ→le w x covered)))))
          ]
        ]
      ]
    ]

  -- balance_freeze keeps the ledger sound, whatever the amount, where the frozen balance stays
  -- within 34 digits.
  pub balance_freeze-IsSound :
      (l : Ledger)
      → IsSound d l
      → (u a : ℕ) (x : ℤ) → Fits d (balance_of l (key u freeze a) +ℤ x)
      → IsSound d (balance_freeze d l u a x).1
  unfolding balance_freeze
  balance_freeze-IsSound l s u a x f = move-IsSound l s u available freeze refl a x f

  -- balance_unfreeze keeps the ledger sound, whatever the amount, where the available balance
  -- stays within 34 digits.
  pub balance_unfreeze-IsSound :
      (l : Ledger)
      → IsSound d l
      → (u a : ℕ) (x : ℤ) → Fits d (balance_of l (key u available a) +ℤ x)
      → IsSound d (balance_unfreeze d l u a x).1
  unfolding balance_unfreeze
  balance_unfreeze-IsSound l s u a x f = move-IsSound l s u freeze available refl a x f
