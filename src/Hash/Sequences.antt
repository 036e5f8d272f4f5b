-- ===== src/Hash/Sequences.antt =====
-- Sequences of calls of utils/ut_dict.c, on the table and on the association list, and when their answers
-- are alike.
use viabtc_exchange_server.Base.{
  ℕ, ◌≡◌, ◌⊎◌, inl, inr, refl, arith, Bool, true, false, Option, none, some, List, [], ◌∷◌,
  Option-cases, Eq,
}
use viabtc_exchange_server.Dict
use viabtc_exchange_server.Dict.{Dict}
use viabtc_exchange_server.Hash.{
  HashDict, dict_find, dict_add, dict_replace, dict_delete, dict_mark_clear,
}
use viabtc_exchange_server.Hash.Chains.{value}
use viabtc_exchange_server.Hash.Add.{add, replace}

infixl 20 ◌>>=◌
abbrev ◌>>=◌ {ℓ κ} : {A : Type ℓ} {B : Type κ} → Option A → (A → Option B) → Option B
none >>= f = none
some x >>= f = f x

pub data Call {ℓ κ} (K : Type ℓ) (V : Type κ) : Type (ℓ ⊔ κ) where
  get : K → Call K V
  put_new : K → V → Call K V
  put : K → V → Call K V
  remove : K → Call K V
  forget_all : Call K V

pub data Answer {κ} (V : Type κ) : Type κ where
  found : Option V → Answer V
  made : Bool → Answer V
  put_as : ℕ → Answer V
  removed : Bool → Answer V
  done : Answer V

-- Whether a mark was made, behind one more call.
abbrev pub marked_by {ℓ κ} : {K : Type ℓ} {V : Type κ} → Call K V → Bool → Bool
marked_by (get k) marked = marked
marked_by (put_new k v) marked = marked
marked_by (put k v) marked = marked
marked_by (remove k) marked = marked
marked_by forget_all marked = true

abbrev pub removes {ℓ κ} : {K : Type ℓ} {V : Type κ} → Call K V → Bool
removes (get k) = false
removes (put_new k v) = false
removes (put k v) = false
removes (remove k) = true
removes forget_all = false

pub marked_by-false {ℓ κ} :
    {K : Type ℓ} {V : Type κ} (c : Call K V) (marked : Bool)
    → marked_by c marked ≡ false
    → (marked ≡ false) × (marked_by c false ≡ false)
marked_by-false (get k) marked h = (h, refl)
marked_by-false (put_new k v) marked h = (h, refl)
marked_by-false (put k v) marked h = (h, refl)
marked_by-false (remove k) marked h = (h, refl)
marked_by-false forget_all marked h = ground (arith, h)

-- The answers `a` of the table and `b` of the list are one; or, behind a mark, dict_delete says 1 of a key
-- that the list does not hold.
abbrev pub SameAnswer {κ} : {V : Type κ} → Bool → Answer V → Answer V → Type κ
SameAnswer marked a b = (a ≡ b) ⊎ ((marked ≡ true) × ((a ≡ removed true) × (b ≡ removed false)))

pub data SameAnswers {ℓ κ} {K : Type ℓ} {V : Type κ}
    : Bool → List (Call K V) → List (Answer V) → List (Answer V) → Type (ℓ ⊔ κ) where
  no_calls : {marked : Bool} → SameAnswers marked [] [] []
  one_more :
      {marked : Bool} {c : Call K V} {cs : List (Call K V)} {a b : Answer V}
      {xs ys : List (Answer V)}
      → SameAnswer marked a b
      → SameAnswers (marked_by c marked) cs xs ys
      → SameAnswers marked (c ∷ cs) (a ∷ xs) (b ∷ ys)

abbrev pub held {κ} : {V : Type κ} → Option V → Bool
held none = false
held (some v) = true

module _ {ℓ κ} {K : Type ℓ} {V : Type κ} ⦃e : Eq K⦄ where
  -- On the list.
  unfoldable pub listed : Call K V → Dict K V → Answer V × Dict K V
  listed (get k) m = (found (Dict.find k m), m)
  listed (put_new k v) m = (made (add k v m).0, (add k v m).1)
  listed (put k v) m = (put_as (replace k v m).0, (replace k v m).1)
  listed (remove k) m = (removed (held (Dict.find k m)), Dict.delete k m)
  listed forget_all m = (done, [])

  unfoldable pub run_list : List (Call K V) → Dict K V → List (Answer V) × Dict K V
  run_list [] m = ([], m)
  run_list (c ∷ cs) m =
      let first = listed c m in let rest = run_list cs first.1 in (first.0 ∷ rest.0, rest.1)

  -- With an answer in place of a pointer or an int.
  abbrev pub answer {μ} :
      {A : Type μ} → (A → Answer V) → Option (A × HashDict K V) → Option (Answer V × HashDict K V)
  answer f none = none
  answer f (some r) = some (f r.0, r.1)

  module _ (hash : K → ℕ) where
    unfoldable pub called : Call K V → HashDict K V → Option (Answer V × HashDict K V)
    called (get k) d = some (found (value (dict_find hash d k).0), (dict_find hash d k).1)
    called (put_new k v) d = answer made (dict_add hash d k v)
    called (put k v) d = answer put_as (dict_replace hash d k v)
    called (remove k) d = some (removed (dict_delete hash d k).0, (dict_delete hash d k).1)
    called forget_all d = some (done, dict_mark_clear d)

    unfoldable pub run : List (Call K V) → HashDict K V → Option (List (Answer V) × HashDict K V)
    run [] d = some ([], d)
    run (c ∷ cs) d = do r ← called c d; rest ← run cs r.1; some (r.0 ∷ rest.0, rest.1)

  pub listed-Unique : (c : Call K V) (m : Dict K V) → Dict.Unique m → Dict.Unique (listed c m).1
  unfolding listed
  listed-Unique (get k) m u = u
  listed-Unique (put_new k v) m u = elim (Option-cases (Dict.find k m)) [
    | inl q ↦ rw (q, add) (q, u)
    | inr (w, q) ↦ rw (q, add) u
  ]
  listed-Unique (put k v) m u = elim (Option-cases (Dict.find k m)) [
    | inl q ↦ rw (q, replace) (q, u)
    | inr (w, q) ↦ rw (q, replace) (Dict.store-Unique k v m u)
  ]
  listed-Unique (remove k) m u = Dict.delete-Unique k m u
  listed-Unique forget_all m u = tt
