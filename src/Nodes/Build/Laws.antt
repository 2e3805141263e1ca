-- ===== src/Nodes/Build/Laws.antt =====
-- What holds of the nodes of a page.
use geek_crawler_rag.Base.{
  ℕ, ◌+◌, ◌≡◌, refl, ap, Bool, false, ◌&&◌, not, List, [], ◌∷◌, Option, inl, inr, length, Text, All,
  MemOf, Bool-cases, arith,
}
use geek_crawler_rag.Chunk.Units.{ParentChildUnit}
use geek_crawler_rag.Nodes.Stub.{is_stub_text}
use geek_crawler_rag.Nodes.Build.{
  CrawlPage, ChunkRole, PageNode, Tools, make_node, is_seen, parent_adds_context, add_units,
}

-- The children among the nodes.
abbrev pub count_role : ChunkRole → ℕ
count_role ChunkRole.parent = 0
count_role ChunkRole.child = 1

abbrev pub count_children : List PageNode → ℕ
count_children [] = 0
count_children (n ∷ ns) = count_role n.chunk_role + count_children ns

-- No two elements are related.
abbrev pub Pairwise : {A : Type 0} → (A → A → Type 0) → List A → Type 0
Pairwise R [] = Unit
Pairwise R (x ∷ xs) = All (R x) xs × Pairwise R xs

module _ (tools : Tools) (page : CrawlPage) (run_id : Text) (title : Option Text)
    (is_competitor : Bool) where
  abbrev node_of : ParentChildUnit → ChunkRole → PageNode
  node_of u role = make_node tools page run_id title is_competitor u role

  abbrev nodes_of : List ℕ → List ParentChildUnit → List PageNode × ℕ
  nodes_of seen us = add_units tools page run_id title is_competitor seen us

  abbrev seen_in : ℕ → List ℕ → Bool
  seen_in i seen = is_seen tools page run_id title is_competitor i seen

  abbrev adds : ParentChildUnit → Bool
  adds u = parent_adds_context tools page run_id title is_competitor u

  abbrev is_stub : ParentChildUnit → Bool
  is_stub u = is_stub_text tools.lower u.child_text u.section_title

  abbrev needs_parent : List ℕ → ParentChildUnit → Bool
  needs_parent seen u = not (seen_in u.parent_index seen) && adds u

  -- What holds of both nodes of every unit holds of all nodes.
  pub add_units-All :
      (P : PageNode → Type 0) (seen : List ℕ) (us : List ParentChildUnit)
      → All (λ u. (role : ChunkRole) → P (node_of u role)) us
      → All P (nodes_of seen us).0
  unfolding add_units
  add_units-All P seen [] h = tt
  add_units-All P seen (u ∷ us) h = elim (Bool-cases (is_stub u)) [
    | inl s ↦ rw s (add_units-All P seen us h.1)
    | inr s ↦ elim (Bool-cases (needs_parent seen u)) [
      | inl y ↦
          rw (s, y)
            (
              h.0 ChunkRole.parent,
              (h.0 ChunkRole.child, add_units-All P (u.parent_index ∷ seen) us h.1),
            )
      | inr n ↦ rw (s, n) (h.0 ChunkRole.child, add_units-All P seen us h.1)
    ]
  ]

  -- Every unit is counted once, as a child or as a stub.
  pub add_units-count :
      (seen : List ℕ) (us : List ParentChildUnit)
      → count_children (nodes_of seen us).0 + (nodes_of seen us).1 ≡ length us
  unfolding add_units make_node
  add_units-count seen [] = refl
  add_units-count seen (u ∷ us) = elim (Bool-cases (is_stub u)) [
    | inl s ↦ rw s (omega (arith, add_units-count seen us))
    | inr s ↦ elim (Bool-cases (needs_parent seen u)) [
      | inl y ↦ rw (s, y) (omega (arith, add_units-count (u.parent_index ∷ seen) us))
      | inr n ↦ rw (s, n) (omega (arith, add_units-count seen us))
    ]
  ]

  pub add_units-child :
      (seen : List ℕ) (us : List ParentChildUnit) (u : ParentChildUnit)
      → MemOf u us
      → is_stub u ≡ false
      → MemOf (node_of u ChunkRole.child) (nodes_of seen us).0
  unfolding add_units
  add_units-child seen [] u m k = absurd m
  add_units-child seen (v ∷ us) u (inl e) k =
      let plain : is_stub v ≡ false = rw e at k in
      elim (Bool-cases (needs_parent seen v)) [
        | inl y ↦ rw (plain, y) (inr (inl (ap (λ x. node_of x ChunkRole.child) e)))
        | inr n ↦ rw (plain, n) (inl (ap (λ x. node_of x ChunkRole.child) e))
      ]
  add_units-child seen (v ∷ us) u (inr m) k = elim (Bool-cases (is_stub v)) [
    | inl s ↦ rw s (add_units-child seen us u m k)
    | inr s ↦ elim (Bool-cases (needs_parent seen v)) [
      | inl y ↦ rw (s, y) (inr (inr (add_units-child (v.parent_index ∷ seen) us u m k)))
      | inr n ↦ rw (s, n) (inr (add_units-child seen us u m k))
    ]
  ]
