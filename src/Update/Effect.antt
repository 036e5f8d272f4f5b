-- ===== src/Update/Effect.antt =====
-- What update_user_balance (matchengine/me_update.c) does to the balances, and when it fails.
use viabtc_exchange_server.Base.{
  ℕ, ◌≡◌, ◌≢◌, ◌↔◌, ◌⊎◌, refl, subst, inl, inr, Bool, none, some, ◌∷◌, arith, Bool-cases,
  if◌then◌else◌,
}
use viabtc_exchange_server.Base.Int.{
  ℤ, pos, ◌+ℤ◌, ◌-ℤ◌, ltb_ℤ, ◌<ℤ◌, ◌≤ℤ◌, ltb_ℤ→lt, ltb_ℤ→le, int_laws,
}
use viabtc_exchange_server.Decimal.{Decimal, IsDecimal, Fits, OnGrid}
use viabtc_exchange_server.Dict.{find}
use viabtc_exchange_server.Balance.{
  Ledger, AssetType, BalanceKey, key, key_eq, key_compare, available, balance_get, balance_sub,
  get_asset_type,
}
use viabtc_exchange_server.Balance.Invariant.{IsSound, or_zero}
use viabtc_exchange_server.Balance.Effects.{
  balance_of, Becomes, balance_add-Becomes, balance_sub-Becomes,
}
use viabtc_exchange_server.Balance.Freeze.{found_of_pos, balance_sub-FailsAs, balance_add-FailsAs}
use viabtc_exchange_server.Market.Book.{log_if}
use viabtc_exchange_server.Update.{
  UpdateKey, Updates, Outcome, applied, repeated, failed, update_key_eq, update_key_compare_iff,
  change_balance, record_update, update_user_balance, mpd_abs,
}

-- Why an update fails.
abbrev pub CannotChange : Ledger → ℕ → ℕ → ℤ → Type 0
CannotChange l u a change =
    (get_asset_type l a ≡ none)
    ⊎ ((change <ℤ pos 0)
        × ((balance_get l u available a ≡ none)
            ⊎ (or_zero (balance_get l u available a) <ℤ mpd_abs change)))

pub record Answers (k : UpdateKey) (change : ℤ) (s : Updates) (r : Outcome × Updates) : Type 0 where
  pub repeats : (r.0 ≡ repeated) ↔ (find k s.dict_update ≢ none)
  pub fails :
      (r.0 ≡ failed)
      ↔ ((find k s.dict_update ≡ none) × CannotChange s.engine.ledger k.user_id k.asset change)
  pub unchanged : (r.1 ≡ s) ⊎ (r.0 ≡ applied)

-- The update went through: the available balance changed by `change`, and no other did.
pub record Applied (d : Decimal) (k : UpdateKey) (change : ℤ) (s : Updates) (r : Outcome × Updates)
    : Type 0 where
  pub outcome : r.0 ≡ applied
  pub sound : IsSound d r.1.engine.ledger
  pub balances :
      (j : BalanceKey)
      → balance_of r.1.engine.ledger j ≡ (
          if key_compare j (key k.user_id available k.asset)
          then balance_of s.engine.ledger (key k.user_id available k.asset) +ℤ change
          else balance_of s.engine.ledger j)
  pub recorded : find k r.1.dict_update ≢ none

module _ (d : Decimal) (clock : ℕ → ℕ) (real : Bool) where
  change_balance-FailsAs :
      (l : Ledger) (u a : ℕ) (change : ℤ)
      → ((change_balance d clock l u a change).0 ≡ none) ↔ CannotChange l u a change
  unfolding change_balance
  change_balance-FailsAs l u a change = elim (Bool-cases (ltb_ℤ change (pos 0))) [
    | inl minus ↦
        let lt = ltb_ℤ→lt change (pos 0) minus in
        let f = (balance_sub-FailsAs d l u available a (pos 0 -ℤ change)).0 in
        let positive : pos 0 ≤ℤ pos 0 -ℤ change = omega int_laws in
        rw minus (
          λ h. elim (f.0 h) [
            | inl unknown ↦ inl unknown
            | inr (inl neg) ↦ absurd (omega arith)
            | inr (inr short) ↦ inr (lt, short)
          ],
          λ h. elim h [ inl unknown ↦ f.1 (inl unknown) | inr short ↦ f.1 (inr (inr short.1)) ],
        )
    | inr plus ↦
        let le = ltb_ℤ→le change (pos 0) plus in
        let f = (balance_add-FailsAs d l u available a change).0 in
        rw plus (
          λ h. elim (f.0 h) [ inl unknown ↦ inl unknown | inr neg ↦ absurd (omega arith) ],
          λ h. elim h [ inl unknown ↦ f.1 (inl unknown) | inr minus ↦ absurd (omega arith) ],
        )
  ]

  change_balance-same :
      (l : Ledger) (u a : ℕ) (change : ℤ)
      → ((change_balance d clock l u a change).1 ≡ l)
        ⊎ ((change_balance d clock l u a change).0 ≢ none)
  unfolding change_balance
  change_balance-same l u a change = elim (Bool-cases (ltb_ℤ change (pos 0))) [
    | inl minus ↦ rw minus (balance_sub-FailsAs d l u available a (pos 0 -ℤ change)).1
    | inr plus ↦ rw plus (balance_add-FailsAs d l u available a change).1
  ]

  -- An update is answered as repeated exactly when its key is known, and fails exactly when it is
  -- not and the asset is unknown or the change takes off more than the available balance; then
  -- nothing changes.
  pub update_user_balance-Answers :
      (k : UpdateKey) (change : ℤ) (s : Updates)
      → Answers k change s (update_user_balance d clock real k change s)
  unfolding update_user_balance
  update_user_balance-Answers k change s =
      let f = change_balance-FailsAs s.engine.ledger k.user_id k.asset change in
      let same = change_balance-same s.engine.ledger k.user_id k.asset change in
      record { repeats = ground (arith); fails = ground (arith); unchanged = ground arith }

module _ (d : Decimal) (law : IsDecimal d) (clock : ℕ → ℕ) (real : Bool) (k : UpdateKey)
    (change : ℤ) (s : Updates) (sound : IsSound d s.engine.ledger) (at : AssetType)
    (known : get_asset_type s.engine.ledger k.asset ≡ some at)
    (grid : OnGrid d at.prec_save (mpd_abs change)) (new : find k s.dict_update ≡ none) where
  abbrev changed : BalanceKey
  changed = key k.user_id available k.asset

  abbrev before : ℤ
  before = balance_of s.engine.ledger changed

  held : pos 0 <ℤ before → balance_get s.engine.ledger k.user_id available k.asset ≡ some before
  unfolding balance_get
  held h = found_of_pos (find changed s.engine.ledger.dict_balance) before refl h

  change_balance-Becomes :
      pos 0 ≤ℤ before +ℤ change
      → Fits d (before +ℤ change)
      → Becomes d s.engine.ledger changed
          (before +ℤ change)
          (change_balance d clock s.engine.ledger k.user_id k.asset change)
  unfolding change_balance
  change_balance-Becomes covered fits = elim (Bool-cases (ltb_ℤ change (pos 0))) [
    | inl minus ↦
        let lt = ltb_ℤ→lt change (pos 0) minus in
        let less : before -ℤ (pos 0 -ℤ change) ≡ before +ℤ change = omega int_laws in
        rw minus (
          subst
            (λ v.
              Becomes d s.engine.ledger changed v
                (balance_sub d s.engine.ledger k.user_id available k.asset (pos 0 -ℤ change)))
            less
            (balance_sub-Becomes d law s.engine.ledger sound k.user_id available k.asset at known
              (pos 0 -ℤ change) (rw minus at grid) (omega int_laws) before (held (omega int_laws))
              (omega int_laws)))
    | inr plus ↦
        let le = ltb_ℤ→le change (pos 0) plus in
        rw plus (
          balance_add-Becomes d law s.engine.ledger sound k.user_id available k.asset at known
            change (rw plus at grid) le fits)
  ]

  first_found : (created : ℕ) → find k ((k, created) ∷ s.dict_update) ≢ none
  unfolding find
  first_found created = ground (arith, update_key_compare_iff k k)

  -- A new update whose change has the asset's precision, does not take off more than the available
  -- balance and leads to a balance that fits is applied: the available balance changes by exactly
  -- the change, whatever its sign, no other balance does, and the update is remembered.
  pub update_user_balance-Applied :
      pos 0 ≤ℤ before +ℤ change
      → Fits d (before +ℤ change)
      → Applied d k change s (update_user_balance d clock real k change s)
  unfolding update_user_balance record_update log_if
  update_user_balance-Applied covered fits =
      let b = change_balance-Becomes covered fits in
      rw (new, update_user_balance)
        (rw b.returns (record {
          outcome = refl;
          sound = b.sound;
          balances = b.balances;
          recorded = first_found (clock s.engine.ticks);
        }))
