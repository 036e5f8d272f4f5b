-- ===== src/SkipList/Nodes/Removal.antt =====
-- The loop of skiplist_delete in utils/ut_skiplist.c that takes a node out of its levels, the loop that
-- lowers the level, and the loop of skiplist_insert that raises it.
use viabtc_exchange_server.Base.{
  ℕ, zero, suc, ◌+◌, ◌≤◌, ◌<◌, ◌≡◌, ◌≢◌, ◌⊎◌, inl, inr, refl, ap, ◌∙◌, true, false, ◌&&◌, Option,
  none, arith, ltb, leb, ◌==◌, ==_iff, Bool-cases, Option-cases, if◌then◌else◌,
}
use viabtc_exchange_server.SkipList.Nodes.{
  Node, set_forward, update_at, raise, unlink, lower, same_node,
}
use viabtc_exchange_server.SkipList.Nodes.Writes.{set_forward-forward, set_forward-value}

pub raise-levels :
    (count i : ℕ) (update : ℕ → ℕ) (j : ℕ)
    → raise count i update j ≡ (if leb i j && ltb j (i + count) then 0 else update j)
unfolding raise update_at
raise-levels zero i update j = ground arith
raise-levels (suc count) i update j =
    ground (arith, raise-levels count (suc i) (update_at i 0 update) j)

module _ {ℓ} {A : Type ℓ} where
  -- The levels that go are those on which the header points nowhere.
  pub lower-IsLower :
      (header : Node A) (level : ℕ)
      → 1 ≤ level
      → (1 ≤ lower header level)
        × ((lower header level ≤ level)
            × ((i : ℕ) → lower header level ≤ i → i < level → header.forward i ≡ none))
  unfolding lower
  lower-IsLower header zero h = ground (arith, h)
  lower-IsLower header (suc zero) h = (omega arith, (omega arith, λ i l u. ground (arith, l, u)))
  lower-IsLower header (suc (suc level)) h =
      let rest : (1 ≤ lower header (suc level))
          × ((lower header (suc level) ≤ suc level)
              × ((i : ℕ)
                  → lower header (suc level) ≤ i
                  → i < suc level
                  → header.forward i ≡ none)) =
        lower-IsLower header (suc level) (omega arith) in
      elim (Option-cases (header.forward (suc level))) [
        | inl q ↦
            rw (lower, q)
              (
                rest.0,
                (
                  omega (arith, rest.1.0),
                  λ i l u. top i l u q rest.1.1 (Bool-cases (i == suc level)),
                ),
              )
        | inr (n, q) ↦ rw (lower, q) (omega arith, (omega arith, λ i l u. ground (arith, l, u)))
      ]
    where
      top :
          (i : ℕ)
          → lower header (suc level) ≤ i
          → i < suc (suc level)
          → header.forward (suc level) ≡ none
          → ((i : ℕ) → lower header (suc level) ≤ i → i < suc level → header.forward i ≡ none)
          → ((i == suc level) ≡ true) ⊎ ((i == suc level) ≡ false)
          → header.forward i ≡ none
      top i l u q rest (inl y) = ap header.forward ((==_iff i (suc level)).0 y) ∙ q
      top i l u q rest (inr f) = rest i l (ground (arith, u, f))

  -- Level `l` of node `m` behind the loop that takes out node `x`.
  abbrev pub unlinked : ℕ → (ℕ → ℕ) → (ℕ → Node A) → ℕ → ℕ → Option ℕ
  unlinked x update nodes m l =
      if (m == update l) && same_node ((nodes m).forward l) x
      then (nodes x).forward l
      else (nodes m).forward l

  abbrev unlink_one : ℕ → ℕ → (ℕ → ℕ) → (ℕ → Node A) → ℕ → Node A
  unlink_one x i update nodes =
      if same_node ((nodes (update i)).forward i) x
      then set_forward (update i) i ((nodes x).forward i) nodes
      else nodes

  one_unlink :
      (x i : ℕ) (update : ℕ → ℕ) (nodes : ℕ → Node A) (m l : ℕ)
      → (unlink_one x i update nodes m).forward l
        ≡ (if l == i then unlinked x update nodes m l else (nodes m).forward l)
  one_unlink x i update nodes m l =
      let same : m ≡ update i → l ≡ i → (nodes m).forward l ≡ (nodes (update i)).forward i =
        λ p q. ap (λ k. (nodes k).forward l) p ∙ ap (nodes (update i)).forward q in
      let last : l ≡ i → update l ≡ update i = ap update in
      let of_x : l ≡ i → (nodes x).forward l ≡ (nodes x).forward i = ap (nodes x).forward in
      elim (Bool-cases (same_node ((nodes (update i)).forward i) x)) [
        | inl y ↦ rw y (
            set_forward-forward (update i) i ((nodes x).forward i) nodes m l
            ∙ ground (arith, y, same, last, of_x, ==_iff l i, ==_iff m (update i)))
        | inr f ↦ rw f (ground (arith, f, same, last, of_x, ==_iff l i, ==_iff m (update i)))
      ]

  pub unlink-forward :
      (count i x : ℕ) (update : ℕ → ℕ) (nodes : ℕ → Node A) (m l : ℕ)
      → ((k : ℕ) → update k ≢ x)
      → (unlink count i update x nodes m).forward l ≡ (
          if leb i l && ltb l (i + count) then unlinked x update nodes m l else (nodes m).forward l)
  unfolding unlink
  unlink-forward zero i x update nodes m l d = ground arith
  unlink-forward (suc count) i x update nodes m l d =
      let nodes2 : ℕ → Node A = unlink_one x i update nodes in
      let here : (nodes2 m).forward l
          ≡ (if l == i then unlinked x update nodes m l else (nodes m).forward l) =
        one_unlink x i update nodes m l in
      let there : (nodes2 x).forward l ≡ (nodes x).forward l =
        one_unlink x i update nodes x l ∙ ground (arith, d l) in
      let rest : (unlink count (suc i) update x nodes2 m).forward l ≡ (
          if leb (suc i) l && ltb l (suc i + count)
          then unlinked x update nodes2 m l
          else (nodes2 m).forward l) =
        unlink-forward count (suc i) x update nodes2 m l d in
      elim (Bool-cases (l == i)) [
        | inl y ↦ ground (arith, rest, here, y)
        | inr f ↦ ground (arith, rest, here, there, f)
      ]

  pub unlink-value :
      (count i x : ℕ) (update : ℕ → ℕ) (nodes : ℕ → Node A) (m : ℕ)
      → (unlink count i update x nodes m).value ≡ (nodes m).value
  unfolding unlink
  unlink-value zero i x update nodes m = refl
  unlink-value (suc count) i x update nodes m =
      unlink-value count (suc i) x update (unlink_one x i update nodes) m
      ∙ elim (Bool-cases (same_node ((nodes (update i)).forward i) x)) [
        | inl y ↦ rw y (set_forward-value (update i) i ((nodes x).forward i) nodes m)
        | inr f ↦ rw f refl
      ]
