-- ===== src/SkipList/Nodes.antt =====
-- The nodes of utils/ut_skiplist.c and its functions on them. A pointer to a node is its number, with
-- 0 for the header, and `none` is NULL. A node's array `forward` is a function of the level. `dup` and
-- `free` of the element type are left out, since they do not touch the list.
mod Links
pub mod Create
mod Tests
pub mod Deletion
pub mod Delete
mod Between
pub mod Insertion
mod Splice
pub mod Insert
pub mod Find
mod Invariant
mod Removal
mod Writes
mod Search
use Prim.Native.Nat.{Ordering}
use viabtc_exchange_server.Base.{
  ℕ, zero, suc, ◌+◌, ◌-◌, Bool, true, false, Option, none, some, List, [], ◌∷◌, ltb, ◌==◌,
  if◌then◌else◌,
}
use viabtc_exchange_server.SkipList.{is_le, is_lt, is_eq}

abbrev pub max_level : ℕ
max_level = 16

pub record Node {ℓ} (A : Type ℓ) : Type ℓ where
  pub value : Option A
  pub forward : ℕ → Option ℕ

-- `made` nodes have been made; the next one gets that number.
pub record Nodes {ℓ} (A : Type ℓ) : Type ℓ where
  pub node_at : ℕ → Node A
  pub made : ℕ
  pub level : ℕ
  pub len : ℕ

-- A function with another value at one number.
unfoldable pub update_at {ℓ} : {A : Type ℓ} → ℕ → A → (ℕ → A) → ℕ → A
update_at i x f j = if j == i then x else f j

abbrev pub value_passes {ℓ} : {A : Type ℓ} → (A → Bool) → Option A → Bool
value_passes passes none = false
value_passes passes (some x) = passes x

abbrev pub same_node : Option ℕ → ℕ → Bool
same_node none x = false
same_node (some n) x = n == x

-- skiplist_random_level; an element of the list is a draw below the bound.
unfoldable pub level_loop : List Bool → ℕ → ℕ
level_loop (true ∷ rest) level = level_loop rest (level + 1)
level_loop (false ∷ rest) level = if ltb level max_level then level else max_level
level_loop [] level = if ltb level max_level then level else max_level

abbrev pub skiplist_random_level : List Bool → ℕ
skiplist_random_level draws = level_loop draws 1

-- `count` levels from `i` on get the header.
unfoldable pub raise : ℕ → ℕ → (ℕ → ℕ) → ℕ → ℕ
raise zero i update = update
raise (suc count) i update = raise count (suc i) (update_at i 0 update)

module _ {ℓ} {A : Type ℓ} where
  abbrev pub empty_node : Option A → Node A
  empty_node v = record { value = v; forward = λ i. none }

  unfoldable pub skiplist_create : Nodes A
  skiplist_create = record { node_at = λ i. empty_node none; made = 1; level = 1; len = 0 }

  -- The `while` of one level: on as long as the next node's value passes. `none` if the fuel runs out.
  unfoldable pub walk : ℕ → (A → Bool) → (ℕ → Node A) → ℕ → ℕ → Option ℕ
  walk zero passes nodes i node = none
  walk (suc fuel) passes nodes i node = elim ((nodes node).forward i) [
    | none ↦ some node
    | some n ↦
        let rest = walk fuel passes nodes i n in
        if value_passes passes (nodes n).value then rest else some node
  ]

  -- The loop over the levels, from `i - 1` down to 0, with the last node of each in `update`.
  unfoldable pub search : ℕ → (A → Bool) → (ℕ → Node A) → ℕ → ℕ → (ℕ → ℕ) → Option (ℕ × (ℕ → ℕ))
  search fuel passes nodes zero node update = some (node, update)
  search fuel passes nodes (suc i) node update = elim (walk fuel passes nodes i node) [
    | none ↦ none
    | some n ↦ search fuel passes nodes i n (update_at i n update)
  ]

  unfoldable pub set_forward : ℕ → ℕ → Option ℕ → (ℕ → Node A) → ℕ → Node A
  set_forward n i p nodes =
      update_at n (record (nodes n) { forward = update_at i p (nodes n).forward }) nodes

  -- The new node goes between `update[i]` and its successor, on `count` levels from `i` on.
  unfoldable pub link : ℕ → ℕ → (ℕ → ℕ) → ℕ → (ℕ → Node A) → ℕ → Node A
  link zero i update n nodes = nodes
  link (suc count) i update n nodes =
      link count (suc i) update n
        (set_forward (update i) i (some n) (set_forward n i ((nodes (update i)).forward i) nodes))

  unfoldable pub unlink : ℕ → ℕ → (ℕ → ℕ) → ℕ → (ℕ → Node A) → ℕ → Node A
  unlink zero i update x nodes = nodes
  unlink (suc count) i update x nodes = unlink count (suc i) update x (
      if same_node ((nodes (update i)).forward i) x
      then set_forward (update i) i ((nodes x).forward i) nodes
      else nodes)

  -- The last `while` of skiplist_delete.
  unfoldable pub lower : Node A → ℕ → ℕ
  lower header zero = 0
  lower header (suc zero) = 1
  lower header (suc (suc level)) =
      let rest = lower header (suc level) in
      elim (header.forward (suc level)) [ none ↦ rest | some n ↦ suc (suc level) ]

  module _ (compare : A → A → Ordering) where
    abbrev pub equals : Option A → A → Bool
    equals none v = false
    equals (some x) v = is_eq (compare x v)

    -- `none` if the fuel runs out, `some none` for NULL.
    unfoldable pub skiplist_find : Nodes A → A → Option (Option ℕ)
    skiplist_find d v =
        elim (search (suc d.len) (λ x. is_le (compare x v)) d.node_at d.level 0 (λ i. 0)) [
          | none ↦ none
          | some found ↦ some (if equals (d.node_at found.0).value v then some found.0 else none)
        ]

    -- Behind the search, with a node in memory.
    unfoldable pub insert_node : Nodes A → A → ℕ → (ℕ → ℕ) → Nodes A
    insert_node d v level update =
        let up = if ltb d.level level then raise (level - d.level) d.level update else update in
        record {
          node_at = link level 0 up d.made (update_at d.made (empty_node (some v)) d.node_at);
          made = suc d.made;
          level = if ltb d.level level then level else d.level;
          len = d.len + 1;
        }

    unfoldable pub skiplist_insert : Nodes A → A → ℕ → Option (Option (Nodes A))
    skiplist_insert d v random_level =
        elim (search (suc d.len) (λ x. is_le (compare x v)) d.node_at d.level 0 (λ i. 0)) [
          | none ↦ none
          | some found ↦ some (
              if equals (d.node_at found.0).value v
              then none
              else some (insert_node d v random_level found.1))
        ]

    unfoldable pub delete_node : Nodes A → ℕ → (ℕ → ℕ) → Nodes A
    delete_node d x update =
        let nodes = unlink d.level 0 update x d.node_at in
        record d { node_at = nodes; level = lower (nodes 0) d.level; len = d.len - 1 }

    unfoldable pub skiplist_delete : Nodes A → ℕ → Option (Nodes A)
    skiplist_delete d x = elim ((d.node_at x).value) [
      | none ↦ none
      | some v ↦ elim (search (suc d.len) (λ y. is_lt (compare y v)) d.node_at d.level 0 (λ i. 0)) [
        | none ↦ none
        | some found ↦ some (delete_node d x found.1)
      ]
    ]
