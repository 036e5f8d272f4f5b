-- ===== src/Hash/Room.antt =====
-- Growth of utils/ut_dict.c: dict_expand and dict_expand_if_needed keep the entries, and the counters
-- of 32 and 64 bits have room for the calls to come.
use Prim.Native.Nat.{bit_and}
use viabtc_exchange_server.Base.{
  ℕ, zero, suc, ◌+◌, ◌*◌, ◌^◌, ◌≤◌, ◌<◌, ◌≡◌, ◌⊎◌, inl, inr, refl, ap, subst, some, arith, leb,
  Bool-cases, Eq,
}
use viabtc_exchange_server.Hash.{
  Entry, HashDict, u32, find_chain, move_table, empty_table, dict_next_power, dict_expand,
  dict_expand_if_needed,
}
use viabtc_exchange_server.Hash.Slots.{at-empty_table}
use viabtc_exchange_server.Hash.Invariant.{IsHashDict, entry}
use viabtc_exchange_server.Hash.Expand.{empty-IsHashDict, MovedAll, move_table-MovedAll}
use viabtc_exchange_server.Hash.Grow.{IsNextPower, dict_next_power-IsNextPower}

-- `n` more calls fit: no counter wraps, and the table can grow.
pub record Room {ℓ κ} {K : Type ℓ} {V : Type κ} (n : ℕ) (d : HashDict K V) : Type 0 where
  pub size : d.size ≤ 2 ^ 29
  pub used : d.used + n ≤ 2 ^ 28
  pub ids : d.id_start + n < 2 ^ 64

module _ {ℓ κ} {K : Type ℓ} {V : Type κ} ⦃e : Eq K⦄ (hash : K → ℕ) where
  -- The same entries in another table.
  pub record Grown (size : ℕ) (d d2 : HashDict K V) : Type (ℓ ⊔ κ) where
    pub is_hash_dict : IsHashDict hash d2
    pub same : (j : K) → entry hash d2 j ≡ entry hash d j
    pub used : d2.used ≡ d.used
    pub id_start : d2.id_start ≡ d.id_start
    pub id_clear : d2.id_clear ≡ d.id_clear
    pub least : (d2.size ≡ 4) ⊎ (d2.size < 2 * size)

  dict_expand-Grown :
      (d : HashDict K V) (size : ℕ)
      → IsHashDict hash d
      → size ≤ 2 ^ 31
      → (d2 : HashDict K V) × ((dict_expand hash d size ≡ some d2) × Grown size d d2)
  unfolding dict_expand find_chain
  dict_expand-Grown d size g h = go (dict_next_power-IsNextPower size h)
    where
      go :
          (n : ℕ) × ((dict_next_power size ≡ some n) × IsNextPower size n)
          → (d2 : HashDict K V) × ((dict_expand hash d size ≡ some d2) × Grown size d d2)
      go (zero, (h, p)) = ground (arith, p.four)
      go (suc n, (h, p)) =
          let d0 : HashDict K V = record d {
            table = empty_table (suc n);
            size = suc n;
            mask = n;
            used = 0;
          } in
          let m : MovedAll hash d.mask 0 d0 d.table (move_table hash n d.table d.used d0.table) =
            move_table-MovedAll hash d.mask 0 d0 d.table d.used
              (empty-IsHashDict hash n d.id_start d.id_clear g.marked) g.chains
              (λ j l. ap (find_chain j) (at-empty_table (Entry K V) (bit_and (hash j) n) (suc n)))
              g.counted in
          (
            record d { table = move_table hash n d.table d.used d0.table; size = suc n; mask = n },
            (
              rw (h, dict_expand) refl,
              record {
                is_hash_dict =
                    subst
                      (λ u.
                        IsHashDict hash (record d0 {
                          table = move_table hash n d.table d.used d0.table;
                          used = u;
                        }))
                      (omega (arith, g.counted)) m.is_hash_dict;
                same = λ j. m.found j (bit_and (hash j) d.mask) (omega arith);
                used = refl;
                id_start = refl;
                id_clear = refl;
                least = p.least;
              },
            ),
          )

  same-Grown :
      (size : ℕ) (d : HashDict K V)
      → IsHashDict hash d
      → (d.size ≡ 4) ⊎ (d.size < 2 * size)
      → Grown size d d
  same-Grown size d g l = record {
    is_hash_dict = g;
    same = λ j. refl;
    used = refl;
    id_start = refl;
    id_clear = refl;
    least = l;
  }

  -- With room for a call it returns, keeps the entries, and the room stays.
  pub dict_expand_if_needed-Grown :
      (d : HashDict K V) (n : ℕ)
      → IsHashDict hash d
      → Room n d
      → (d2 : HashDict K V) × ((dict_expand_if_needed hash d ≡ some d2)
          × (((size : ℕ) × Grown size d d2) × Room n d2))
  unfolding dict_expand_if_needed
  dict_expand_if_needed-Grown d n g r = elim (Bool-cases (leb (u32 (d.size * 4)) d.used)) [
    | inl y ↦ rw y (
        grow (dict_expand-Grown d (u32 (d.size * 4)) g (omega (arith, r.size))) (ground (arith, y)))
    | inr m ↦ rw m (d, (refl, ((d.size + 1, same-Grown (d.size + 1) d g (inr (omega arith))), r)))
  ]
    where
      grow :
          (d2 : HashDict K V) × ((dict_expand hash d (u32 (d.size * 4)) ≡ some d2)
              × Grown (u32 (d.size * 4)) d d2)
          → u32 (d.size * 4) ≤ d.used
          → (d2 : HashDict K V) × ((dict_expand hash d (u32 (d.size * 4)) ≡ some d2)
              × (((size : ℕ) × Grown size d d2) × Room n d2))
      grow (d2, (h, p)) l = (
        d2,
        (
          h,
          (
            (u32 (d.size * 4), p),
            record {
              size = ground (arith, p.least, l, r.used);
              used = omega (arith, p.used, r.used);
              ids = omega (arith, p.id_start, r.ids);
            },
          ),
        ),
      )
