-- ===== src/Update/Expiry.antt =====
-- on_timer (matchengine/me_update.c) forgets the updates that are older than a day, and no other.
use viabtc_exchange_server.Base.{
  ℕ, ◌≡◌, ◌≢◌, ◌+◌, ◌≤◌, refl, ◌∙◌, ap, inl, inr, Bool, Option, none, some, [], ◌∷◌, arith,
  Bool-cases, if◌then◌else◌,
}
use viabtc_exchange_server.Base.Int.{ℤ}
use viabtc_exchange_server.Decimal.{Decimal}
use viabtc_exchange_server.Dict.{Dict, Unique, find, delete, find-delete, delete-Unique}
use viabtc_exchange_server.Update.{
  UpdateKey, Updates, update_key_eq, update_key_compare, update_key_compare_iff, expired, sweep,
  on_timer, repeated, update_user_balance,
}
use viabtc_exchange_server.Update.Once.{refused_if_found}

-- What the loop leaves of a key's entry, from the entry that its iterator gives.
abbrev swept : ℕ → Option ℕ → Option ℕ → Option ℕ
swept now none held = held
swept now (some created) held = if expired now created then none else held

swept-none : (now : ℕ) (o : Option ℕ) → swept now o none ≡ none
swept-none now none = refl
swept-none now (some created) = elim (Bool-cases (expired now created)) [
  | inl y ↦ rw y refl
  | inr n ↦ rw n refl
]

sweep-find :
    (now : ℕ) (entries dict : Dict UpdateKey ℕ) (j : UpdateKey)
    → Unique entries
    → Unique dict
    → find j (sweep now entries dict) ≡ swept now (find j entries) (find j dict)
unfolding sweep find
sweep-find now [] dict j ue ud = refl
sweep-find now ((k, created) ∷ entries) dict j ue ud = elim (Bool-cases (expired now created)) [
  | inl old ↦
      let ih = sweep-find now entries (delete k dict) j ue.1 (delete-Unique k dict ud) in
      elim (Bool-cases (update_key_compare j k)) [
        | inl y ↦
            rw (old, y)
              (ih
                ∙ ap (swept now (find j entries)) (find-delete j k dict ud ∙ rw y refl)
                ∙ swept-none now (find j entries)
                ∙ rw old refl)
        | inr n ↦
            rw (old, n) (ih ∙ ap (swept now (find j entries)) (find-delete j k dict ud ∙ rw n refl))
      ]
  | inr new ↦
      let ih = sweep-find now entries dict j ue.1 ud in
      elim (Bool-cases (update_key_compare j k)) [
        | inl y ↦
            let e : j ≡ k = (update_key_compare_iff j k).0 y in
            let none_left : find j entries ≡ none = rw e ue.0 in
            rw (new, y) (ih ∙ ap (λ o. swept now o (find j dict)) none_left ∙ rw new refl)
        | inr n ↦ rw (new, n) ih
      ]
]

sweep-Unique :
    (now : ℕ) (entries dict : Dict UpdateKey ℕ) → Unique dict → Unique (sweep now entries dict)
unfolding sweep
sweep-Unique now [] dict u = u
sweep-Unique now ((k, created) ∷ entries) dict u = elim (Bool-cases (expired now created)) [
  | inl old ↦ rw old (sweep-Unique now entries (delete k dict) (delete-Unique k dict u))
  | inr new ↦ rw new (sweep-Unique now entries dict u)
]

-- What on_timer leaves of an entry at the time `now`.
abbrev pub fresh : ℕ → Option ℕ → Option ℕ
fresh now none = none
fresh now (some created) = if expired now created then none else some created

swept-fresh : (now : ℕ) (o : Option ℕ) → swept now o o ≡ fresh now o
swept-fresh now none = refl
swept-fresh now (some created) = refl

abbrev pub Forgets : ℕ → Updates → Updates → Type 0
Forgets now s s' =
    ((j : UpdateKey) → find j s'.dict_update ≡ fresh now (find j s.dict_update))
    × Unique s'.dict_update
    × (s'.engine ≡ s.engine)

-- The timer forgets exactly the updates that are older than a day, keeps the time of all others
-- and one entry per key, and changes nothing else; before it each key has one entry.
pub on_timer-Forgets :
    (now : ℕ) (s : Updates) → Unique s.dict_update → Forgets now s (on_timer now s)
unfolding on_timer
on_timer-Forgets now s u = (
  (λ j. sweep-find now s.dict_update s.dict_update j u u ∙ swept-fresh now (find j s.dict_update)),
  sweep-Unique now s.dict_update s.dict_update u,
  refl,
)

still_there :
    (now created : ℕ) (o : Option ℕ) → o ≡ some created → now ≤ created + 86400 → fresh now o ≢ none
still_there now created o e le = rw e (λ h. ground arith)

-- An update that was applied at some time is refused, with the same padding bytes in its key, and
-- changes nothing, also behind a run of the timer at most a day later; each key has one entry
-- before it.
pub update_user_balance-on_timer :
    (d : Decimal) (clock : ℕ → ℕ) (real : Bool) (k : UpdateKey) (change : ℤ) (s : Updates)
    (created now : ℕ)
    → Unique s.dict_update
    → find k s.dict_update ≡ some created
    → now ≤ created + 86400
    → update_user_balance d clock real k change (on_timer now s) ≡ (repeated, on_timer now s)
update_user_balance-on_timer d clock real k change s created now u e le =
    refused_if_found d clock real k change (on_timer now s)
      (rw ((on_timer-Forgets now s u).0 k) (still_there now created (find k s.dict_update) e le))
