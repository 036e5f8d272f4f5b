-- ===== src/Hash/Invariant.antt =====
-- What holds of every table of utils/ut_dict.c between two calls.
use Prim.Native.Nat.{bit_and}
use viabtc_exchange_server.Base.{
  ℕ, suc, ◌+◌, ◌≤◌, ◌<◌, ◌≡◌, ap, inl, inr, Bool-cases, ◌∙◌, ==_iff, true, Option, List, [], ◌∷◌,
  arith, ◌==◌, if◌then◌else◌, Eq, length, All,
}
use viabtc_exchange_server.Hash.{Entry, HashDict, at, set_at, find_chain}
use viabtc_exchange_server.Hash.Slots.{
  Rows, Rows-chain, set_at-Rows_0, count, count-set_at, at-set_at, length-set_at, bit_and-le,
}
use viabtc_exchange_server.Hash.Chains.{Unique}

module _ {ℓ κ} {K : Type ℓ} {V : Type κ} ⦃e : Eq K⦄ (hash : K → ℕ) where
  -- The entry stands in its slot, and its id was given out before.
  abbrev pub InSlot : ℕ → ℕ → ℕ → Entry K V → Type 0
  InSlot mask id_start i x = (bit_and (hash x.key) mask ≡ i) × (x.id < id_start)

  abbrev pub IsChain : ℕ → ℕ → ℕ → List (Entry K V) → Type (ℓ ⊔ κ)
  IsChain mask id_start i c = All (InSlot mask id_start i) c × Unique c

  pub record IsHashDict (d : HashDict K V) : Type (ℓ ⊔ κ) where
    pub slots : length d.table ≡ d.size
    pub masked : suc d.mask ≡ d.size
    pub counted : d.used ≡ count d.table
    pub marked : d.id_clear ≤ d.id_start
    pub chains : Rows (IsChain d.mask d.id_start) 0 d.table

  later_chain :
      (mask s n i : ℕ) (c : List (Entry K V))
      → s ≤ n
      → All (InSlot mask s i) c
      → All (InSlot mask n i) c
  later_chain mask s n i [] l a = tt
  later_chain mask s n i (x ∷ xs) l a =
      ((a.0.0, omega (arith, a.0.1, l)), later_chain mask s n i xs l a.1)

  later-Rows :
      (mask s n i : ℕ) (t : List (List (Entry K V)))
      → s ≤ n
      → Rows (IsChain mask s) i t
      → Rows (IsChain mask n) i t
  later-Rows mask s n i [] l r = tt
  later-Rows mask s n i (c ∷ t) l r =
      ((later_chain mask s n i c l r.0.0, r.0.1), later-Rows mask s n (suc i) t l r.1)

  -- Ids that are given out later, and an earlier or later mark.
  pub later-IsHashDict :
      (start clear : ℕ) (d : HashDict K V)
      → IsHashDict d
      → d.id_start ≤ start
      → clear ≤ start
      → IsHashDict (record d { id_start = start; id_clear = clear })
  later-IsHashDict start clear d g l m = record {
    slots = g.slots;
    masked = g.masked;
    counted = g.counted;
    marked = m;
    chains = later-Rows d.mask d.id_start start 0 d.table l g.chains;
  }

  -- A slot is inside the table.
  pub slot-lt : (k : K) (d : HashDict K V) → IsHashDict d → bit_and (hash k) d.mask < length d.table
  slot-lt k d g = omega (arith, bit_and-le (hash k) d.mask, g.slots, g.masked)

  pub slot-IsChain :
      (k : K) (d : HashDict K V)
      → IsHashDict d
      → IsChain d.mask d.id_start (bit_and (hash k) d.mask) (at (bit_and (hash k) d.mask) d.table)
  slot-IsChain k d g =
      Rows-chain (IsChain d.mask d.id_start) (bit_and (hash k) d.mask) d.table (slot-lt k d g)
        g.chains

  -- Where the chain of a key is replaced, with the counter.
  pub set_at-IsHashDict :
      (k : K) (c : List (Entry K V)) (u : ℕ) (d : HashDict K V)
      → IsHashDict d
      → IsChain d.mask d.id_start (bit_and (hash k) d.mask) c
      → u + length (at (bit_and (hash k) d.mask) d.table) ≡ d.used + length c
      → IsHashDict (record d { table = set_at (bit_and (hash k) d.mask) c d.table; used = u })
  set_at-IsHashDict k c u d g h n = record {
    slots = length-set_at (bit_and (hash k) d.mask) c d.table ∙ g.slots;
    masked = g.masked;
    marked = g.marked;
    counted =
        omega
          (arith, n, g.counted, count-set_at (bit_and (hash k) d.mask) c d.table (slot-lt k d g));
    chains =
        set_at-Rows_0 (IsChain d.mask d.id_start) (bit_and (hash k) d.mask) c d.table h g.chains;
  }

  -- A chain is no longer than all of the table.
  pub chain-used :
      (k : K) (d : HashDict K V)
      → IsHashDict d
      → length (at (bit_and (hash k) d.mask) d.table) ≤ d.used
  chain-used k d g =
      omega (arith, g.counted, count-set_at (bit_and (hash k) d.mask) [] d.table (slot-lt k d g))

  -- The entry of a key, in the chain of its slot.
  abbrev pub entry : HashDict K V → K → Option (Entry K V)
  entry d k = find_chain k (at (bit_and (hash k) d.mask) d.table)

  same_slot :
      (j k : K) (i s : ℕ) (c b r : List (Entry K V)) (o : Option (Entry K V))
      → (i ≡ s → r ≡ b)
      → (e.beq j k ≡ true → i ≡ s)
      → find_chain j c ≡ (if e.beq j k then o else find_chain j b)
      → find_chain j (if i == s then c else r) ≡ (if e.beq j k then o else find_chain j r)
  same_slot j k i s c b r o same slot h = elim (Bool-cases (i == s)) [
    | inl y ↦ rw (y, same ((==_iff i s).0 y)) h
    | inr n ↦ rw n (ground (arith, slot))
  ]

  -- What `entry` gives where a chain has been replaced by one that differs for one key at most.
  pub entry-set_at :
      (j k : K) (c : List (Entry K V)) (o : Option (Entry K V)) (u : ℕ) (d : HashDict K V)
      → IsHashDict d
      → find_chain j c
        ≡ (if e.beq j k then o else find_chain j (at (bit_and (hash k) d.mask) d.table))
      → entry (record d { table = set_at (bit_and (hash k) d.mask) c d.table; used = u }) j
        ≡ (if e.beq j k then o else entry d j)
  entry-set_at j k c o u d g h =
      rw (at-set_at (bit_and (hash j) d.mask) (bit_and (hash k) d.mask) c d.table (slot-lt k d g)) (
        same_slot j k (bit_and (hash j) d.mask) (bit_and (hash k) d.mask) c
          (at (bit_and (hash k) d.mask) d.table) (at (bit_and (hash j) d.mask) d.table) o
          (ap (λ i. at i d.table)) (λ y. ap (λ i. bit_and (hash i) d.mask) ((e.beq_iff j k).0 y)) h)
