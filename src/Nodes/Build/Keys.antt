-- ===== src/Nodes/Build/Keys.antt =====
-- The ids of a page's nodes are distinct.
use geek_crawler_rag.Base.{
  ℕ, suc, ◌≤◌, ◌≡◌, ◌≢◌, ◌∙◌, refl, sym, ap, subst, Bool, false, ◌&&◌, not, List, [], ◌∷◌, ◌++◌,
  Option, inl, inr, get_or, Text, All, All-map, Bool-cases, arith, codes,
}
use geek_crawler_rag.Chunk.Units.{ParentChildUnit}
use geek_crawler_rag.Chunk.Units.Laws.{IsNumbered}
use geek_crawler_rag.Nodes.Stub.{is_stub_text}
use geek_crawler_rag.Nodes.Build.{
  CrawlPage, ChunkRole, PageNode, Tools, point_key, point_id, make_node, is_seen,
  parent_adds_context, add_units,
}
use geek_crawler_rag.Nodes.Build.Laws.{Pairwise, add_units-All}

module _ (tools : Tools) (page : CrawlPage) (run_id : Text) (title : Option Text)
    (is_competitor : Bool) where
  abbrev node_of : ParentChildUnit → ChunkRole → PageNode
  node_of u role = make_node tools page run_id title is_competitor u role

  abbrev nodes_of : List ℕ → List ParentChildUnit → List PageNode × ℕ
  nodes_of seen us = add_units tools page run_id title is_competitor seen us

  abbrev seen_in : ℕ → List ℕ → Bool
  seen_in i seen = is_seen tools page run_id title is_competitor i seen

  abbrev adds : ParentChildUnit → Bool
  adds u = parent_adds_context tools page run_id title is_competitor u

  abbrev is_stub : ParentChildUnit → Bool
  is_stub u = is_stub_text tools.lower u.child_text u.section_title

  abbrev needs_parent : List ℕ → ParentChildUnit → Bool
  needs_parent seen u = not (seen_in u.parent_index seen) && adds u

  -- A child's number is not below `start`, and a parent's is not seen yet.
  abbrev FreshAt : ChunkRole → ℕ → List ℕ → ℕ → Type 0
  FreshAt ChunkRole.parent start seen i = seen_in i seen ≡ false
  FreshAt ChunkRole.child start seen i = start ≤ i

  abbrev IsFresh : ℕ → List ℕ → PageNode → Type 0
  IsFresh start seen n = FreshAt n.chunk_role start seen n.chunk_index

  FreshAt-later :
      (role : ChunkRole) (start : ℕ) (seen : List ℕ) (i : ℕ)
      → FreshAt role (suc start) seen i
      → FreshAt role start seen i
  FreshAt-later ChunkRole.parent start seen i h = h
  FreshAt-later ChunkRole.child start seen i h = omega arith

  FreshAt-unseen :
      (role : ChunkRole) (start : ℕ) (j : ℕ) (seen : List ℕ) (i : ℕ)
      → FreshAt role start (j ∷ seen) i
      → FreshAt role start seen i
  unfolding is_seen
  FreshAt-unseen ChunkRole.parent start j seen i h = ground arith
  FreshAt-unseen ChunkRole.child start j seen i h = h

  add_units-IsFresh :
      (seen : List ℕ) (start : ℕ) (us : List ParentChildUnit)
      → IsNumbered start us
      → All (IsFresh start seen) (nodes_of seen us).0
  unfolding add_units make_node
  add_units-IsFresh seen start [] h = tt
  add_units-IsFresh seen start (u ∷ us) h =
      let here : start ≤ u.child_index = omega (arith, h.0) in
      elim (Bool-cases (is_stub u)) [
        | inl s ↦ rw s (
            All-map (λ n k. FreshAt-later n.chunk_role start seen n.chunk_index k) _
              (add_units-IsFresh seen (suc start) us h.1))
        | inr s ↦ elim (Bool-cases (needs_parent seen u)) [
          | inl y ↦
              let unseen : seen_in u.parent_index seen ≡ false = ground arith in
              rw (s, y)
                (
                  unseen,
                  (
                    here,
                    All-map
                        (λ n k. FreshAt-later n.chunk_role start seen n.chunk_index (
                          FreshAt-unseen n.chunk_role (suc start) u.parent_index seen n.chunk_index
                            k))
                        _ (add_units-IsFresh (u.parent_index ∷ seen) (suc start) us h.1),
                  ),
                )
          | inr n ↦
              rw (s, n)
                (
                  here,
                  All-map (λ n k. FreshAt-later n.chunk_role start seen n.chunk_index k) _
                      (add_units-IsFresh seen (suc start) us h.1),
                )
        ]
      ]

  -- Two nodes have different keys.
  abbrev pub Differ : ChunkRole → ℕ → ChunkRole → ℕ → Type 0
  Differ ChunkRole.parent i ChunkRole.parent j = i ≢ j
  Differ ChunkRole.parent i ChunkRole.child j = Unit
  Differ ChunkRole.child i ChunkRole.parent j = Unit
  Differ ChunkRole.child i ChunkRole.child j = i ≢ j

  abbrev pub HasOtherKey : PageNode → PageNode → Type 0
  HasOtherKey n m = Differ n.chunk_role n.chunk_index m.chunk_role m.chunk_index

  child-Differ :
      (i : ℕ) (seen : List ℕ) (role : ChunkRole) (j : ℕ)
      → FreshAt role (suc i) seen j
      → Differ ChunkRole.child i role j
  child-Differ i seen ChunkRole.parent j h = tt
  child-Differ i seen ChunkRole.child j h = λ e. omega arith

  parent-Differ :
      (i start : ℕ) (seen : List ℕ) (role : ChunkRole) (j : ℕ)
      → FreshAt role start (i ∷ seen) j
      → Differ ChunkRole.parent i role j
  unfolding is_seen
  parent-Differ i start seen ChunkRole.parent j h = λ e. ground (arith, e)
  parent-Differ i start seen ChunkRole.child j h = tt

  pub add_units-HasOtherKey :
      (seen : List ℕ) (start : ℕ) (us : List ParentChildUnit)
      → IsNumbered start us
      → Pairwise HasOtherKey (nodes_of seen us).0
  unfolding add_units make_node
  add_units-HasOtherKey seen start [] h = tt
  add_units-HasOtherKey seen start (u ∷ us) h =
      let after : ℕ = suc u.child_index in
      let numbered : IsNumbered after us = subst (λ n. IsNumbered (suc n) us) (sym h.0) h.1 in
      elim (Bool-cases (is_stub u)) [
        | inl s ↦ rw s (add_units-HasOtherKey seen (suc start) us h.1)
        | inr s ↦ elim (Bool-cases (needs_parent seen u)) [
          | inl y ↦
              let seen' : List ℕ = u.parent_index ∷ seen in
              let fresh = add_units-IsFresh seen' after us numbered in
              rw (s, y)
                (
                  (
                    tt,
                    All-map
                        (λ n k.
                          parent-Differ u.parent_index after seen n.chunk_role n.chunk_index k)
                        _ fresh,
                  ),
                  (
                    All-map (λ n k. child-Differ u.child_index seen' n.chunk_role n.chunk_index k) _
                        fresh,
                    add_units-HasOtherKey seen' (suc start) us h.1,
                  ),
                )
          | inr n ↦
              rw (s, n)
                (
                  All-map (λ m k. child-Differ u.child_index seen m.chunk_role m.chunk_index k) _
                      (add_units-IsFresh seen after us numbered),
                  add_units-HasOtherKey seen (suc start) us h.1,
                )
        ]
      ]

  -- A node's id is that of its key.
  abbrev pub IsKeyed : PageNode → Type 0
  IsKeyed n = n.node_id ≡ point_id tools run_id page.id (point_key tools n.chunk_role n.chunk_index)

  pub add_units-IsKeyed :
      (seen : List ℕ) (us : List ParentChildUnit) → All IsKeyed (nodes_of seen us).0
  unfolding make_node
  add_units-IsKeyed seen us =
      add_units-All tools page run_id title is_competitor IsKeyed seen us (each us)
    where
      each :
          (vs : List ParentChildUnit) → All (λ u. (role : ChunkRole) → IsKeyed (node_of u role)) vs
      each [] = tt
      each (v ∷ vs) = ((λ role. refl), each vs)

  p_not_c : let p : ℕ = 112 in p ≢ 99
  p_not_c e = omega arith

  after_prefix : (p s t : Text) → p ++ s ≡ p ++ t → s ≡ t
  after_prefix [] s t e = e
  after_prefix (c ∷ p) s t e = let rest : p ++ s ≡ p ++ t = cc in after_prefix p s t rest

  module _ (uuid5_inj : (x y : Text) → tools.uuid5 x ≡ tools.uuid5 y → x ≡ y)
      (decimal_inj : (i j : ℕ) → tools.decimal i ≡ tools.decimal j → i ≡ j) where
    same_key :
        (k l : Text) → point_id tools run_id page.id k ≡ point_id tools run_id page.id l → k ≡ l
    unfolding point_id
    same_key k l e =
        let whole = uuid5_inj _ _ e in
        let inner : page.id ++ (58 ∷ k) ≡ page.id ++ (58 ∷ l) =
          cc (after_prefix run_id (58 ∷ page.id ++ (58 ∷ k)) (58 ∷ page.id ++ (58 ∷ l)) whole) in
        cc (after_prefix page.id (58 ∷ k) (58 ∷ l) inner)

    keys_apart :
        (r : ChunkRole) (i : ℕ) (s : ChunkRole) (j : ℕ)
        → Differ r i s j
        → point_key tools r i ≢ point_key tools s j
    keys_apart ChunkRole.parent i ChunkRole.parent j d e =
        d (decimal_inj i j (after_prefix (codes "parent:") _ _ e))
    keys_apart ChunkRole.parent i ChunkRole.child j d e =
        p_not_c (ap (λ (x : Text). get_or x 0 0) e)
    keys_apart ChunkRole.child i ChunkRole.parent j d e =
        p_not_c (sym (ap (λ (x : Text). get_or x 0 0) e))
    keys_apart ChunkRole.child i ChunkRole.child j d e =
        d (decimal_inj i j (after_prefix (codes "child:") _ _ e))

    ids_apart : (n m : PageNode) → IsKeyed n → IsKeyed m → HasOtherKey n m → n.node_id ≢ m.node_id
    ids_apart n m k l d e =
        keys_apart n.chunk_role n.chunk_index m.chunk_role m.chunk_index d
          (same_key _ _ (sym k ∙ (e ∙ l)))

    pub ids-Pairwise :
        (ns : List PageNode)
        → All IsKeyed ns
        → Pairwise HasOtherKey ns
        → Pairwise (λ n m. n.node_id ≢ m.node_id) ns
    ids-Pairwise [] k p = tt
    ids-Pairwise (n ∷ ns) k p = (others ns k.1 p.0, ids-Pairwise ns k.1 p.1)
      where
        others :
            (ms : List PageNode)
            → All IsKeyed ms
            → All (HasOtherKey n) ms
            → All (λ m. n.node_id ≢ m.node_id) ms
        others [] l q = tt
        others (m ∷ ms) l q = (ids_apart n m k.0 l.0 q.0, others ms l.1 q.1)
