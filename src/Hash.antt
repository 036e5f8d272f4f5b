-- ===== src/Hash.antt =====
-- The hash table of utils/ut_dict.c. A chain is the list of its entries; `&` with the mask is the
-- bitwise and. Copies of keys and values by `key_dup` and `val_dup` are the keys and values themselves.
mod Slots
mod Fnv
mod Tests
pub mod Runs
mod Answers
pub mod Sequences
pub mod Calls
mod Add
pub mod Refines
mod Room
pub mod Grow
mod Expand
mod Rehash
mod Find
mod Invariant
mod Chains
use Prim.Native.Nat.{bit_and, bit_xor}
use viabtc_exchange_server.Base.{
  ℕ, zero, suc, ◌+◌, ◌-◌, ◌*◌, ◌%◌, ◌^◌, Bool, true, false, Option, none, some, List, [], ◌∷◌, ltb,
  leb, ◌==◌, if◌then◌else◌, Eq,
}

-- Unsigned numbers of 32 and 64 bits.
abbrev pub u32 : ℕ → ℕ
u32 n = n % 2 ^ 32

abbrev pub u64 : ℕ → ℕ
u64 n = n % 2 ^ 64

-- `n - 1` and `n--` of 32 bits.
abbrev pub pred_u32 : ℕ → ℕ
pred_u32 zero = 0xffffffff
pred_u32 (suc n) = n

pub record Entry {ℓ κ} (K : Type ℓ) (V : Type κ) : Type (ℓ ⊔ κ) where
  pub key : K
  pub val : V
  pub id : ℕ

pub record HashDict {ℓ κ} (K : Type ℓ) (V : Type κ) : Type (ℓ ⊔ κ) where
  pub table : List (List (Entry K V))
  pub size : ℕ
  pub mask : ℕ
  pub used : ℕ
  pub id_start : ℕ
  pub id_clear : ℕ

-- `table[i]` and `table[i] = c`; outside the table there is nothing to read or write.
unfoldable pub at {ℓ} : {A : Type ℓ} → ℕ → List (List A) → List A
at i [] = []
at zero (c ∷ t) = c
at (suc i) (c ∷ t) = at i t

unfoldable pub set_at {ℓ} : {A : Type ℓ} → ℕ → List A → List (List A) → List (List A)
set_at i c [] = []
set_at zero c (b ∷ t) = c ∷ t
set_at (suc i) c (b ∷ t) = b ∷ set_at i c t

-- calloc
unfoldable pub empty_table {ℓ} : {A : Type ℓ} → ℕ → List (List A)
empty_table zero = []
empty_table (suc n) = [] ∷ empty_table n

unfoldable pub fnv_step : ℕ → ℕ → ℕ
fnv_step h byte =
    let x = bit_xor h byte in
    u32 (
      x
      + u32 (u32 (x * 2) + u32 (x * 2 ^ 4) + u32 (x * 2 ^ 7) + u32 (x * 2 ^ 8) + u32 (x * 2 ^ 24)))

unfoldable pub fnv_loop : ℕ → List ℕ → ℕ
fnv_loop h [] = h
fnv_loop h (byte ∷ bytes) = fnv_loop (fnv_step h byte) bytes

abbrev pub dict_generic_hash_function : List ℕ → ℕ
dict_generic_hash_function = fnv_loop 0x811c9dc5

-- The loop of dict_next_power; `none` if the fuel runs out.
unfoldable pub next_power_loop : ℕ → ℕ → ℕ → Option ℕ
next_power_loop zero realsize size = none
next_power_loop (suc fuel) realsize size =
    let rest = next_power_loop fuel (u32 (realsize * 2)) size in
    if leb size realsize then some realsize else rest

-- 30 rounds are enough for every size up to 2^31, and no number of rounds is for a larger one.
abbrev pub dict_next_power : ℕ → Option ℕ
dict_next_power = next_power_loop 30 4

module _ {ℓ κ} {K : Type ℓ} {V : Type κ} (hash : K → ℕ) where
  -- One entry moves into the table of `dict_expand`.
  abbrev pub push : ℕ → Entry K V → List (List (Entry K V)) → List (List (Entry K V))
  push mask x t = let i = bit_and (hash x.key) mask in set_at i (x ∷ at i t) t

  unfoldable pub move_chain :
      ℕ → List (Entry K V) → ℕ → List (List (Entry K V)) → ℕ × List (List (Entry K V))
  move_chain mask [] used new = (used, new)
  move_chain mask (x ∷ xs) used new = move_chain mask xs (pred_u32 used) (push mask x new)

  unfoldable pub move_table :
      ℕ → List (List (Entry K V)) → ℕ → List (List (Entry K V)) → List (List (Entry K V))
  move_table mask [] used new = new
  move_table mask (c ∷ t) used new =
      let moved = move_chain mask c used new in
      let rest = move_table mask t moved.0 moved.1 in if ltb 0 used then rest else new

  -- `none` is a call that does not return.
  unfoldable pub dict_expand : HashDict K V → ℕ → Option (HashDict K V)
  dict_expand d size = elim (dict_next_power size) [
    | none ↦ none
    | some n ↦ some (record d {
      table = move_table (pred_u32 n) d.table d.used (empty_table n);
      size = n;
      mask = pred_u32 n;
    })
  ]

  unfoldable pub dict_expand_if_needed : HashDict K V → Option (HashDict K V)
  dict_expand_if_needed d =
      if leb (u32 (d.size * 4)) d.used then dict_expand d (u32 (d.size * 4)) else some d

  unfoldable pub dict_create : ℕ → Option (HashDict K V)
  dict_create init_size = elim (dict_next_power init_size) [
    | none ↦ none
    | some n ↦ some (record {
      table = empty_table n;
      size = n;
      mask = pred_u32 n;
      used = 0;
      id_start = 0;
      id_clear = 0;
    })
  ]

-- The chain without the entries from before the last mark, and `used` without their number.
unfoldable pub clear_chain {ℓ κ} :
    {K : Type ℓ} {V : Type κ} → ℕ → List (Entry K V) → ℕ → ℕ × List (Entry K V)
clear_chain id_clear [] used = (used, [])
clear_chain id_clear (x ∷ xs) used =
    if ltb x.id id_clear
    then clear_chain id_clear xs (pred_u32 used)
    else let rest = clear_chain id_clear xs used in (rest.0, x ∷ rest.1)

unfoldable pub check_clear {ℓ κ} : {K : Type ℓ} {V : Type κ} → HashDict K V → ℕ → HashDict K V
check_clear d index =
    let kept = clear_chain d.id_clear (at index d.table) d.used in
    record d { used = kept.0; table = set_at index kept.1 d.table }

unfoldable pub dict_mark_clear {ℓ κ} : {K : Type ℓ} {V : Type κ} → HashDict K V → HashDict K V
dict_mark_clear d = record d { id_clear = d.id_start; id_start = u64 (d.id_start + 1) }

module _ {ℓ κ} {K : Type ℓ} {V : Type κ} ⦃e : Eq K⦄ where
  unfoldable pub find_chain : K → List (Entry K V) → Option (Entry K V)
  find_chain k [] = none
  find_chain k (x ∷ xs) = if e.beq k x.key then some x else find_chain k xs

  -- A write through the entry that was found.
  unfoldable pub write_chain : K → V → List (Entry K V) → List (Entry K V)
  write_chain k v [] = []
  write_chain k v (x ∷ xs) =
      if e.beq k x.key then record x { val = v } ∷ xs else x ∷ write_chain k v xs

  -- Whether the key has an entry, and the chain without the first one.
  unfoldable pub delete_chain : K → List (Entry K V) → Bool × List (Entry K V)
  delete_chain k [] = (false, [])
  delete_chain k (x ∷ xs) =
      let rest = delete_chain k xs in if e.beq x.key k then (true, xs) else (rest.0, x ∷ rest.1)

  module _ (hash : K → ℕ) where
    unfoldable pub dict_find : HashDict K V → K → Option (Entry K V) × HashDict K V
    dict_find d k =
        let i = bit_and (hash k) d.mask in
        let swept = if ltb 0 d.id_clear then check_clear d i else d in
        (find_chain k (at i swept.table), swept)

    -- Behind the growth, with the entry in memory.
    unfoldable pub add_entry : HashDict K V → K → V → HashDict K V
    add_entry d k v =
        let i = bit_and (hash k) d.mask in
        record d {
          table = set_at i (record { key = k; val = v; id = d.id_start } ∷ at i d.table) d.table;
          id_start = u64 (d.id_start + 1);
          used = u32 (d.used + 1);
        }

    -- The int tells whether an entry was made: true for a pointer, false for NULL.
    unfoldable pub dict_add : HashDict K V → K → V → Option (Bool × HashDict K V)
    dict_add d k v =
        let found = dict_find d k in
        elim found.0 [
          | some x ↦ some (false, found.1)
          | none ↦ elim (dict_expand_if_needed hash found.1) [
            | none ↦ none
            | some grown ↦ some (true, add_entry grown k v)
          ]
        ]

    -- 1 for a new entry, 0 for a new value.
    unfoldable pub dict_replace : HashDict K V → K → V → Option (ℕ × HashDict K V)
    dict_replace d k v =
        let found = dict_find d k in
        let i = bit_and (hash k) found.1.mask in
        elim found.0 [
          | none ↦ elim (dict_add found.1 k v) [ none ↦ none | some r ↦ some (1, r.1) ]
          | some x ↦ some (
            0,
            record found.1 {
              table = set_at i (write_chain k v (at i found.1.table)) found.1.table;
            },
          )
        ]

    unfoldable pub dict_delete : HashDict K V → K → Bool × HashDict K V
    dict_delete d k =
        let i = bit_and (hash k) d.mask in
        let rest = delete_chain k (at i d.table) in
        if rest.0
        then (true, record d { table = set_at i rest.1 d.table; used = pred_u32 d.used })
        else (false, d)
