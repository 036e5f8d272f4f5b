-- ===== src/SkipList/Nodes/Writes.antt =====
-- The loops of utils/ut_skiplist.c that write forward pointers: what stands in each pointer behind them.
use viabtc_exchange_server.Base.{
  ℕ, zero, suc, ◌+◌, ◌≡◌, ◌≢◌, inl, inr, refl, ap, sym, ◌∙◌, ◌&&◌, Option, some, arith, ltb, leb,
  ◌==◌, ==_iff, Bool-cases, if◌then◌else◌,
}
use viabtc_exchange_server.SkipList.Nodes.{Node, set_forward, update_at, link}

module _ {ℓ} {A : Type ℓ} where
  pub set_forward-forward :
      (n i : ℕ) (p : Option ℕ) (nodes : ℕ → Node A) (m l : ℕ)
      → (set_forward n i p nodes m).forward l
        ≡ (if m == n then (if l == i then p else (nodes m).forward l) else (nodes m).forward l)
  unfolding set_forward update_at
  set_forward-forward n i p nodes m l = elim (Bool-cases (m == n)) [
    | inl y ↦ rw y (ap (λ k. if l == i then p else (nodes k).forward l) (sym ((==_iff m n).0 y)))
    | inr f ↦ rw f refl
  ]

  pub set_forward-value :
      (n i : ℕ) (p : Option ℕ) (nodes : ℕ → Node A) (m : ℕ)
      → (set_forward n i p nodes m).value ≡ (nodes m).value
  unfolding set_forward update_at
  set_forward-value n i p nodes m = elim (Bool-cases (m == n)) [
    | inl y ↦ rw y (ap (λ k. (nodes k).value) (sym ((==_iff m n).0 y)))
    | inr f ↦ rw f refl
  ]

  -- Level `l` of node `m` behind the loop that puts node `n` behind the nodes of `update`.
  abbrev pub linked : ℕ → (ℕ → ℕ) → (ℕ → Node A) → ℕ → ℕ → Option ℕ
  linked n update nodes m l =
      if m == n
      then (nodes (update l)).forward l
      else if m == update l
      then some n
      else (nodes m).forward l

  -- The two writes of one round.
  one_link :
      (n i : ℕ) (update : ℕ → ℕ) (nodes : ℕ → Node A) (m l : ℕ)
      → (set_forward
            (update i)
            i
            (some n)
            (set_forward n i ((nodes (update i)).forward i) nodes)
            m).forward
          l
        ≡ (if l == i
            then (if m == update i
                then some n
                else if m == n
                then (nodes (update i)).forward i
                else (nodes m).forward l)
            else (nodes m).forward l)
  one_link n i update nodes m l =
      set_forward-forward (update i) i (some n)
        (set_forward n i ((nodes (update i)).forward i) nodes) m l
      ∙ rw (set_forward-forward n i ((nodes (update i)).forward i) nodes m l) (ground arith)

  pub link-forward :
      (count i n : ℕ) (update : ℕ → ℕ) (nodes : ℕ → Node A) (m l : ℕ)
      → ((k : ℕ) → update k ≢ n)
      → (link count i update n nodes m).forward l
        ≡ (if leb i l && ltb l (i + count) then linked n update nodes m l else (nodes m).forward l)
  unfolding link
  link-forward zero i n update nodes m l d = ground arith
  link-forward (suc count) i n update nodes m l d =
      let nodes2 : ℕ → Node A =
        set_forward (update i) i (some n) (set_forward n i ((nodes (update i)).forward i) nodes) in
      let here : (nodes2 m).forward l ≡ (
          if l == i
          then (if m == update i
              then some n
              else if m == n
              then (nodes (update i)).forward i
              else (nodes m).forward l)
          else (nodes m).forward l) =
        one_link n i update nodes m l in
      let rest : (link count (suc i) update n nodes2 m).forward l ≡ (
          if leb (suc i) l && ltb l (suc i + count)
          then linked n update nodes2 m l
          else (nodes2 m).forward l) =
        link-forward count (suc i) n update nodes2 m l d in
      elim (Bool-cases (l == i)) [
        | inl y ↦
            let same : l ≡ i = (==_iff l i).0 y in
            let last : update l ≡ update i = ap update same in
            let after : (nodes (update l)).forward l ≡ (nodes (update i)).forward i =
              ap (λ k. (nodes (update k)).forward k) same in
            ground (arith, rest, here, y, same, last, after, d i)
        | inr f ↦
            let there : (nodes2 (update l)).forward l ≡ (nodes (update l)).forward l =
              one_link n i update nodes (update l) l ∙ rw f refl in
            ground (arith, rest, here, there, f)
      ]

  pub link-value :
      (count i n : ℕ) (update : ℕ → ℕ) (nodes : ℕ → Node A) (m : ℕ)
      → (link count i update n nodes m).value ≡ (nodes m).value
  unfolding link
  link-value zero i n update nodes m = refl
  link-value (suc count) i n update nodes m =
      link-value count (suc i) n update
        (set_forward (update i) i (some n) (set_forward n i ((nodes (update i)).forward i) nodes)) m
      ∙ set_forward-value (update i) i (some n)
          (set_forward n i ((nodes (update i)).forward i) nodes) m
      ∙ set_forward-value n i ((nodes (update i)).forward i) nodes m
