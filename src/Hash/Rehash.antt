-- ===== src/Hash/Rehash.antt =====
-- The move of all entries into a new table, in dict_expand of utils/ut_dict.c.
use Prim.Native.Nat.{bit_and}
use viabtc_exchange_server.Base.{
  ℕ, zero, suc, ◌+◌, ◌≤◌, ◌<◌, ◌≡◌, inl, inr, refl, ap, subst, ◌∙◌, false, Option, none, some, List,
  [], ◌∷◌, arith, Bool-cases, if◌then◌else◌, Eq, length,
}
use viabtc_exchange_server.Hash.{Entry, HashDict, at, find_chain, push, move_chain}
use viabtc_exchange_server.Hash.Chains.{Unique}
use viabtc_exchange_server.Hash.Invariant.{
  IsChain, IsHashDict, slot-IsChain, set_at-IsHashDict, entry, entry-set_at,
}

abbrev pub with_table {ℓ κ} :
    {K : Type ℓ} {V : Type κ} → HashDict K V → List (List (Entry K V)) → ℕ → HashDict K V
with_table d t u = record d { table = t; used = u }

abbrev pub or_else {ℓ} : {A : Type ℓ} → Option A → Option A → Option A
or_else none o = o
or_else (some x) o = some x

beq_swap {ℓ} : {K : Type ℓ} (e : Eq K) (j k : K) → e.beq j k ≡ false → e.beq k j ≡ false
beq_swap e j k h = ground (arith, e.beq_iff j k, e.beq_iff k j)

module _ {ℓ κ} {K : Type ℓ} {V : Type κ} ⦃e : Eq K⦄ (hash : K → ℕ) where
  -- An entry of a new key at the head of its chain.
  pub push-IsHashDict :
      (x : Entry K V) (d : HashDict K V)
      → IsHashDict hash d
      → x.id < d.id_start
      → entry hash d x.key ≡ none
      → IsHashDict hash (with_table d (push hash d.mask x d.table) (suc d.used))
  push-IsHashDict x d g i h =
      let c : IsChain hash d.mask d.id_start (bit_and (hash x.key) d.mask)
          (at (bit_and (hash x.key) d.mask) d.table) =
        slot-IsChain hash x.key d g in
      set_at-IsHashDict hash x.key (x ∷ at (bit_and (hash x.key) d.mask) d.table) (suc d.used) d g
        (((refl, i), c.0), (h, c.1)) (omega arith)

  pub entry-push :
      (j : K) (x : Entry K V) (d : HashDict K V)
      → IsHashDict hash d
      → entry hash (with_table d (push hash d.mask x d.table) (suc d.used)) j
        ≡ (if e.beq j x.key then some x else entry hash d j)
  unfolding find_chain
  entry-push j x d g =
      entry-set_at hash j x.key (x ∷ at (bit_and (hash x.key) d.mask) d.table) (some x) (suc d.used)
        d g refl

  -- Entries of one chain of the old table that can move into the new one.
  abbrev pub CanMove : HashDict K V → List (Entry K V) → Type (ℓ ⊔ κ)
  CanMove d [] = Unit
  CanMove d (x ∷ xs) = ((x.id < d.id_start) × (entry hash d x.key ≡ none)) × CanMove d xs

  push-CanMove :
      (x : Entry K V) (d : HashDict K V) (xs : List (Entry K V))
      → IsHashDict hash d
      → find_chain x.key xs ≡ none
      → CanMove d xs
      → CanMove (with_table d (push hash d.mask x d.table) (suc d.used)) xs
  unfolding find_chain
  push-CanMove x d [] g f m = tt
  push-CanMove x d (y ∷ ys) g f m = elim (Bool-cases (e.beq x.key y.key)) [
    | inl h ↦ ground (arith, f, h)
    | inr h ↦ (
      (m.0.0, entry-push y.key x d g ∙ rw (beq_swap e x.key y.key h) m.0.1),
      push-CanMove x d ys g (ground (arith, f, h)) m.1,
    )
  ]

  or_else-push :
      (j : K) (x : Entry K V) (xs : List (Entry K V)) (o : Option (Entry K V))
      → find_chain x.key xs ≡ none
      → or_else (find_chain j xs) (if e.beq j x.key then some x else o)
        ≡ or_else (find_chain j (x ∷ xs)) o
  unfolding find_chain
  or_else-push j x xs o h = elim (Bool-cases (e.beq j x.key)) [
    | inl y ↦ rw y (rw (ap (λ i. find_chain i xs) ((e.beq_iff j x.key).0 y)) (rw h refl))
    | inr n ↦ rw n refl
  ]

  -- What the move of a chain gives.
  pub record Moved (d : HashDict K V) (xs : List (Entry K V)) (used : ℕ)
      (r : ℕ × List (List (Entry K V))) : Type (ℓ ⊔ κ) where
    pub is_hash_dict : IsHashDict hash (with_table d r.1 (length xs + d.used))
    pub found :
        (j : K)
        → entry hash (with_table d r.1 (length xs + d.used)) j
          ≡ or_else (find_chain j xs) (entry hash d j)
    pub counter : r.0 + length xs ≡ used

  pub move_chain-Moved :
      (xs : List (Entry K V)) (used : ℕ) (d : HashDict K V)
      → IsHashDict hash d
      → Unique xs
      → CanMove d xs
      → length xs ≤ used
      → Moved d xs used (move_chain hash d.mask xs used d.table)
  unfolding move_chain find_chain
  move_chain-Moved [] used d g u m l = record {
    is_hash_dict = subst (λ n. IsHashDict hash (with_table d d.table n)) (omega arith) g;
    found = λ j. refl;
    counter = omega arith;
  }
  move_chain-Moved (x ∷ xs) zero d g u m l = ground (arith, l)
  move_chain-Moved (x ∷ xs) (suc used) d g u m l =
      let d2 : HashDict K V = with_table d (push hash d.mask x d.table) (suc d.used) in
      let rest : Moved d2 xs used (move_chain hash d.mask xs used d2.table) =
        move_chain-Moved xs used d2 (push-IsHashDict x d g m.0.0 m.0.1) u.1
          (push-CanMove x d xs g u.0 m.1) (omega (arith, l)) in
      record {
        is_hash_dict =
            subst
              (λ n. IsHashDict hash (with_table d (move_chain hash d.mask xs used d2.table).1 n))
              (omega arith) rest.is_hash_dict;
        found = λ j.
            rest.found j
            ∙ ap (or_else (find_chain j xs)) (entry-push j x d g)
            ∙ or_else-push j x xs (entry hash d j) u.0;
        counter = omega (arith, rest.counter);
      }
