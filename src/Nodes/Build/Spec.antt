-- ===== src/Nodes/Build/Spec.antt =====
-- What `page_to_nodes` makes of a page.
use geek_crawler_rag.Base.{
  ℕ, ◌+◌, ◌≡◌, ◌≢◌, refl, subst, Bool, true, false, List, [], ◌∷◌, Option, inl, inr, length, Text,
  All, All-map, MemOf, Infix, Infix-trans, Bool-cases, is_empty,
}
use geek_crawler_rag.Page.Blocks.{derive_plaintext_from_blocks}
use geek_crawler_rag.Chunk.Window.{Result, ok, err}
use geek_crawler_rag.Chunk.Units.{ParentChildUnit, parent_child_units}
use geek_crawler_rag.Chunk.Units.Laws.{IsNumbered, StandsIn, parent_child_units-StandsIn}
use geek_crawler_rag.Nodes.Stub.{is_stub_text}
use geek_crawler_rag.Nodes.Build.{
  CrawlPage, ChunkRole, Skip, PageNode, Tools, page_text_and_title, make_node, add_units, of_units,
  is_competitor_crawl, page_to_nodes,
}
use geek_crawler_rag.Nodes.Build.Laws.{
  Pairwise, count_children, add_units-All, add_units-count, add_units-child,
}
use geek_crawler_rag.Nodes.Build.Keys.{add_units-IsKeyed, add_units-HasOtherKey, ids-Pairwise}

-- The text of a page, and its title.
abbrev pub text_of_page : Tools → CrawlPage → Text
text_of_page tools page = derive_plaintext_from_blocks tools.fold tools.is_word page.blocks

-- The node is the page's own, under the run, and its text stands in the page's.
abbrev pub IsOfPage : Tools → CrawlPage → Text → PageNode → Type 0
IsOfPage tools page run_id n =
    (n.page_id ≡ page.id) × (n.run_id ≡ run_id) × Infix n.text (text_of_page tools page)

-- The child of the unit is among the nodes, with the unit's texts.
abbrev pub HasChild : List PageNode → ParentChildUnit → Type 0
HasChild nodes u =
    (n : PageNode) × MemOf n nodes
    × (n.chunk_role ≡ ChunkRole.child)
    × (n.chunk_index ≡ u.child_index)
    × (n.text ≡ u.child_text)
    × (n.parent_text ≡ u.parent_text)

-- What is said of the nodes of a page's units: they are the page's own, every unit is counted once, as
-- a child or as a stub, and one that is no stub has its child.
abbrev pub IsIndexed : Tools → CrawlPage → Text → List ParentChildUnit → List PageNode → ℕ → Type 0
IsIndexed tools page run_id us nodes stubs =
    All (IsOfPage tools page run_id) nodes
    × (count_children nodes + stubs ≡ length us)
    × All (λ u. is_stub_text tools.lower u.child_text u.section_title ≡ false → HasChild nodes u) us

All-Mem : {A : Type 0} (P : A → Type 0) (xs : List A) → ((x : A) → MemOf x xs → P x) → All P xs
All-Mem P [] h = tt
All-Mem P (x ∷ xs) h = (h x (inl refl), All-Mem P xs (λ y m. h y (inr m)))

module _ (tools : Tools) (page : CrawlPage) (run_id : Text) (title : Option Text)
    (is_competitor : Bool) where
  abbrev node_of : ParentChildUnit → ChunkRole → PageNode
  node_of u role = make_node tools page run_id title is_competitor u role

  abbrev made : List ParentChildUnit → List PageNode × ℕ
  made us = add_units tools page run_id title is_competitor [] us

  unit-IsOfPage :
      (u : ParentChildUnit)
      → StandsIn (text_of_page tools page) u
      → (role : ChunkRole) → IsOfPage tools page run_id (node_of u role)
  unfolding make_node
  unit-IsOfPage u h ChunkRole.parent = (refl, refl, h.1)
  unit-IsOfPage u h ChunkRole.child = (refl, refl, Infix-trans _ _ _ h.0 h.1)

  child-HasChild :
      (nodes : List PageNode) (u : ParentChildUnit)
      → MemOf (node_of u ChunkRole.child) nodes
      → HasChild nodes u
  unfolding make_node
  child-HasChild nodes u m = (node_of u ChunkRole.child, m, refl, refl, refl, refl)

  made-IsIndexed :
      (us : List ParentChildUnit)
      → All (StandsIn (text_of_page tools page)) us
      → IsIndexed tools page run_id us (made us).0 (made us).1
  made-IsIndexed us h = (
    add_units-All tools page run_id title is_competitor (IsOfPage tools page run_id) [] us
        (All-map unit-IsOfPage us h),
    add_units-count tools page run_id title is_competitor [] us,
    All-Mem _ us (λ u m k.
        child-HasChild (made us).0 u
          (add_units-child tools page run_id title is_competitor [] us u m k)),
  )

  of_units-IsIndexed :
      (us : List ParentChildUnit)
      → All (StandsIn (text_of_page tools page)) us
      → (nodes : List PageNode) × (skip : Skip) × (stubs : ℕ) × (of_units tools page run_id title
            is_competitor
            (ok us)
          ≡ ok (nodes, skip, stubs))
        × IsIndexed tools page run_id us nodes stubs
  of_units-IsIndexed [] h = ([], Skip.empty, 0, refl, (tt, refl, tt))
  of_units-IsIndexed (u ∷ us) h =
      ((made (u ∷ us)).0, Skip.none_skipped, (made (u ∷ us)).1, refl, made-IsIndexed (u ∷ us) h)

-- A page in English that has some text, and whose blocks have units, has its nodes: each is the
-- page's own, under the run, with a text that stands in the page's, character for character; every
-- unit is counted once, as a child or as a stub; and each that is no stub has its child among them.
pub page_to_nodes-IsIndexed :
    (tools : Tools) (page : CrawlPage) (run_id crawl_type : Text) (us : List ParentChildUnit)
    → parent_child_units tools.tokenizer tools.sizes tools.fold tools.is_word page.blocks ≡ ok us
    → is_empty (text_of_page tools page) ≡ false
    → tools.is_english (text_of_page tools page) ≡ true
    → (nodes : List PageNode) × (skip : Skip) × (stubs : ℕ) × (page_to_nodes tools page run_id
          crawl_type
        ≡ ok (nodes, skip, stubs))
      × IsIndexed tools page run_id us nodes stubs
unfolding page_to_nodes page_text_and_title
page_to_nodes-IsIndexed tools page run_id crawl_type us e filled english =
    rw (filled, english, e)
      (rw filled (
        of_units-IsIndexed tools page run_id _ (is_competitor_crawl tools crawl_type) us
          (parent_child_units-StandsIn tools.tokenizer tools.sizes tools.fold tools.is_word
            page.blocks us e).0))

-- The ids of the nodes are distinct.
abbrev pub HasDistinctIds : List PageNode → Type 0
HasDistinctIds = Pairwise (λ n m. n.node_id ≢ m.node_id)

abbrev ResultIds : Result (List PageNode × Skip × ℕ) → Type 0
ResultIds (err e) = Unit
ResultIds (ok (nodes, skip, stubs)) = HasDistinctIds nodes

module _ (tools : Tools) (page : CrawlPage) (run_id : Text)
    (uuid5_inj : (x y : Text) → tools.uuid5 x ≡ tools.uuid5 y → x ≡ y)
    (decimal_inj : (i j : ℕ) → tools.decimal i ≡ tools.decimal j → i ≡ j) where
  of_units-ids :
      (title : Option Text) (is_competitor : Bool) (r : Result (List ParentChildUnit))
      → ((us : List ParentChildUnit) → r ≡ ok us → IsNumbered 0 us)
      → ResultIds (of_units tools page run_id title is_competitor r)
  of_units-ids title is_competitor (err e) h = tt
  of_units-ids title is_competitor (ok []) h = tt
  of_units-ids title is_competitor (ok (u ∷ us)) h =
      ids-Pairwise tools page run_id title is_competitor uuid5_inj decimal_inj _
        (add_units-IsKeyed tools page run_id title is_competitor [] (u ∷ us))
        (add_units-HasOtherKey tools page run_id title is_competitor [] 0 (u ∷ us)
          (h (u ∷ us) refl))

  page_ids : (crawl_type : Text) → ResultIds (page_to_nodes tools page run_id crawl_type)
  unfolding page_to_nodes page_text_and_title
  page_ids crawl_type =
      let units =
        of_units-ids (page_text_and_title tools page.blocks page.title).1
          (is_competitor_crawl tools crawl_type) _
          (λ us e.
            (parent_child_units-StandsIn tools.tokenizer tools.sizes tools.fold tools.is_word
              page.blocks us e).1) in
      elim (Bool-cases (is_empty (text_of_page tools page))) [
        | inl y ↦ rw y tt
        | inr n ↦ elim (Bool-cases (tools.is_english (text_of_page tools page))) [
          | inl g ↦ rw (n, g) (rw n (rw n at units))
          | inr g ↦ rw (n, g) (rw n tt)
        ]
      ]

-- Where `uuid5` gives no two names one id, and no two numbers have one decimal, the ids of the nodes
-- of a page are distinct, so none of its points overwrites another.
pub page_to_nodes-HasDistinctIds :
    (tools : Tools) (page : CrawlPage) (run_id crawl_type : Text) (nodes : List PageNode)
    (skip : Skip) (stubs : ℕ)
    → page_to_nodes tools page run_id crawl_type ≡ ok (nodes, skip, stubs)
    → ((x y : Text) → tools.uuid5 x ≡ tools.uuid5 y → x ≡ y)
    → ((i j : ℕ) → tools.decimal i ≡ tools.decimal j → i ≡ j)
    → HasDistinctIds nodes
page_to_nodes-HasDistinctIds tools page run_id crawl_type nodes skip stubs e uuid5_inj decimal_inj =
    subst ResultIds e (page_ids tools page run_id uuid5_inj decimal_inj crawl_type)
