-- ===== src/Dict.antt =====
-- A dictionary as its users see it (utils/ut_dict.h): entries with distinct keys, newest first. The
-- hash buckets are left out here: `find`, `store` and `delete` are the effect of `dict_find`, of a
-- write through a found entry, and of `dict_delete` on the set of entries.
use viabtc_exchange_server.Base.{
  ◌≡◌, refl, Bool, true, false, Option, none, some, List, [], ◌∷◌, arith, if◌then◌else◌, Eq,
}
use viabtc_exchange_server.Base.Int.{ℤ, pos, ◌+ℤ◌, int_laws}

abbrev pub Dict {ℓ κ} : Type ℓ → Type κ → Type (ℓ ⊔ κ)
Dict K V = List (K × V)

module _ {ℓ κ} {K : Type ℓ} {V : Type κ} ⦃e : Eq K⦄ where
  unfoldable pub find : K → Dict K V → Option V
  find k [] = none
  find k ((j, v) ∷ m) = if e.beq k j then some v else find k m

  -- `entry->val = v` at the entry that `dict_find` returned.
  unfoldable pub store : K → V → Dict K V → Dict K V
  store k v [] = []
  store k v ((j, w) ∷ m) = if e.beq k j then (j, v) ∷ m else (j, w) ∷ store k v m

  unfoldable pub delete : K → Dict K V → Dict K V
  delete k [] = []
  delete k ((j, w) ∷ m) = if e.beq k j then m else (j, w) ∷ delete k m

  -- No key has two entries.
  abbrev pub Unique : Dict K V → Type κ
  Unique [] = Unit
  Unique ((j, w) ∷ m) = (find j m ≡ none) × Unique m

  pub find-store :
      (j k : K) (v w : V) (m : Dict K V)
      → find k m ≡ some w
      → find j (store k v m) ≡ (if e.beq j k then some v else find j m)
  unfolding find store
  find-store j k v w [] h = cc
  find-store j k v w ((i, x) ∷ m) h =
      ground
        (arith, find-store j k v w m, e.beq_iff j k, e.beq_iff k i, e.beq_iff j i, e.beq_iff k k)

  pub find-store-none :
      (j k : K) (v : V) (m : Dict K V) → find j m ≡ none → find j (store k v m) ≡ none
  unfolding find store
  find-store-none j k v [] h = refl
  find-store-none j k v ((i, w) ∷ m) h = ground (arith, find-store-none j k v m)

  pub find-delete-none : (j k : K) (m : Dict K V) → find j m ≡ none → find j (delete k m) ≡ none
  unfolding find delete
  find-delete-none j k [] h = refl
  find-delete-none j k ((i, w) ∷ m) h = ground (arith, find-delete-none j k m)

  pub find-delete :
      (j k : K) (m : Dict K V)
      → Unique m
      → find j (delete k m) ≡ (if e.beq j k then none else find j m)
  unfolding find delete
  find-delete j k [] u = ground arith
  find-delete j k ((i, w) ∷ m) u =
      ground
        (arith, find-delete j k m u.1, e.beq_iff j k, e.beq_iff k i, e.beq_iff j i, e.beq_iff k k)

  pub store-Unique : (k : K) (v : V) (m : Dict K V) → Unique m → Unique (store k v m)
  unfolding store
  store-Unique k v [] u = tt
  store-Unique k v ((i, w) ∷ m) u =
      ground (arith, store-Unique k v m u.1, find-store-none i k v m u.0)

  pub delete-Unique : (k : K) (m : Dict K V) → Unique m → Unique (delete k m)
  unfolding delete
  delete-Unique k [] u = tt
  delete-Unique k ((i, w) ∷ m) u = ground (arith, delete-Unique k m u.1, find-delete-none i k m u.0)

module _ {ℓ κ} {K : Type ℓ} {V : Type κ} ⦃e : Eq K⦄ where
  pub delete_missing : (k : K) (m : Dict K V) → find k m ≡ none → delete k m ≡ m
  unfolding find delete
  delete_missing k [] h = refl
  delete_missing k ((i, w) ∷ m) h = ground (arith, delete_missing k m)

-- A value that counts if its key passes a test.
abbrev pub weigh : Bool → ℤ → ℤ
weigh true v = v
weigh false v = pos 0

-- The sum of the values whose key passes a test.
module _ {ℓ} {K : Type ℓ} where
  abbrev pub sum_where : (K → Bool) → Dict K ℤ → ℤ
  sum_where p [] = pos 0
  sum_where p ((k, v) ∷ m) = weigh (p k) v +ℤ sum_where p m

module _ {ℓ} {K : Type ℓ} ⦃e : Eq K⦄ where
  pub sum_where-store :
      (p : K → Bool) (k : K) (v old : ℤ) (m : Dict K ℤ)
      → find k m ≡ some old
      → sum_where p (store k v m) +ℤ weigh (p k) old ≡ sum_where p m +ℤ weigh (p k) v
  unfolding find store
  sum_where-store p k v old [] h = cc
  sum_where-store p k v old ((i, w) ∷ m) h =
      grind (int_laws, sum_where-store p k v old m, e.beq_iff k i)

  pub sum_where-delete :
      (p : K → Bool) (k : K) (old : ℤ) (m : Dict K ℤ)
      → find k m ≡ some old
      → sum_where p (delete k m) +ℤ weigh (p k) old ≡ sum_where p m
  unfolding find delete
  sum_where-delete p k old [] h = cc
  sum_where-delete p k old ((i, w) ∷ m) h =
      grind (int_laws, sum_where-delete p k old m, e.beq_iff k i)
