-- ===== src/Nodes/Build.antt =====
-- `page_to_nodes` of src/geek_crawler_rag/llama_nodes.py, and what it reads of a page in extract.py.
-- Facts stands for what every node of the page repeats: the host and what metadata.py infers. The
-- language detector, the digests, `str.lower`, `\w` and the decimal of a number are given.
pub mod Laws
pub mod Keys
pub mod Spec
use geek_crawler_rag.Base.{
  ℕ, suc, Bool, true, false, ◌&&◌, ◌||◌, not, List, [], ◌∷◌, ◌++◌, Option, none, some,
  if◌then◌else◌, ◌==◌, Text, codes, text_eq, is_empty, strip,
}
use geek_crawler_rag.Page.Blocks.{Kind, Anchor, Block, derive_plaintext_from_blocks}
use geek_crawler_rag.Chunk.Window.{ChunkTokenizer, Result, ok, err}
use geek_crawler_rag.Chunk.Units.{ParentChildUnit, Sizes, parent_child_units}
use geek_crawler_rag.Embed.Sanitize.{sanitize_embedding_text}
use geek_crawler_rag.Nodes.Stub.{is_stub_text}

-- What `page_to_nodes` reads of a `CrawlPage`.
pub record CrawlPage : Type 0 where
  pub id : Text
  pub content_html : Option Text
  pub blocks : List Block
  pub title : Option Text

pub data ChunkRole : Type 0 where
  parent child : ChunkRole

pub data Skip : Type 0 where
  none_skipped empty lang : Skip

-- The node's own part of the payload; its text is what is embedded.
pub record PageNode : Type 0 where
  pub node_id : Text
  pub page_id : Text
  pub run_id : Text
  pub text : Text
  pub parent_text : Text
  pub child_text : Text
  pub section_title : Option Text
  pub chunk_index : ℕ
  pub chunk_role : ChunkRole
  pub anchors : List Anchor
  pub title : Option Text
  pub source_digest : Option Text
  pub text_digest : Text
  pub competitor_chunk_kind : Option Text
  pub feature_tag : Option Text

-- The first heading of the page with some text.
unfoldable pub first_heading : List Block → Option Text
first_heading [] = none
first_heading (b ∷ bs) = elim b.kind [
  | Kind.heading ↦ if is_empty (strip b.text) then first_heading bs else some (strip b.text)
  | _ ↦ first_heading bs
]

abbrev pub has_title : Option Text → Bool
has_title none = false
has_title (some t) = not (is_empty t)

abbrev pub or_title : Option Text → Option Text → Option Text
or_title none title = title
or_title (some t) title = some t

-- What the code calls: the model's tokenizer, the language detector, `str.lower`, the SHA-256 digest
-- and `uuid5` in hexadecimal, the decimal of a number; of metadata.py, what it infers of one unit.
pub record Tools : Type 0 where
  pub tokenizer : ChunkTokenizer
  pub sizes : Sizes
  pub fold : ℕ → ℕ
  pub is_word : ℕ → Bool
  pub lower : Text → Text
  pub is_english : Text → Bool
  pub sha256 : Text → Text
  pub uuid5 : Text → Text
  pub decimal : ℕ → Text
  pub infer_competitor_chunk_kind : Option Text → Text → Text
  pub infer_feature_tag : Option Text → Option Text

-- What the two calls of `_node` differ in.
abbrev pub text_of : ChunkRole → ParentChildUnit → Text
text_of ChunkRole.parent u = u.parent_text
text_of ChunkRole.child u = u.child_text

abbrev pub child_text_of : ChunkRole → ParentChildUnit → Text
child_text_of ChunkRole.parent u = []
child_text_of ChunkRole.child u = u.child_text

abbrev pub index_of : ChunkRole → ParentChildUnit → ℕ
index_of ChunkRole.parent u = u.parent_index
index_of ChunkRole.child u = u.child_index

module _ (tools : Tools) where
  -- The text and the title; the text is empty where the page has no blocks.
  unfoldable pub page_text_and_title : List Block → Option Text → Text × Option Text × Bool
  page_text_and_title blocks title =
      let text = derive_plaintext_from_blocks tools.fold tools.is_word blocks in
      if is_empty text
      then ([], title, false)
      else (text, if has_title title then title else or_title (first_heading blocks) title, true)

  abbrev pub hash_html : Option Text → Option Text
  hash_html none = none
  hash_html (some html) = if is_empty html then none else some (tools.sha256 html)

  unfoldable pub page_source_digest : CrawlPage → Option Text
  page_source_digest page = hash_html page.content_html

  unfoldable pub text_digest : Text → Text
  text_digest embed_text = tools.sha256 (sanitize_embedding_text embed_text)

  -- The key of a node in its page, and the node's id.
  abbrev pub point_key : ChunkRole → ℕ → Text
  point_key ChunkRole.parent i = codes "parent:" ++ tools.decimal i
  point_key ChunkRole.child i = codes "child:" ++ tools.decimal i

  unfoldable pub point_id : Text → Text → Text → Text
  point_id run_id page_id key = tools.uuid5 (run_id ++ (58 ∷ page_id ++ (58 ∷ key)))

  module _ (page : CrawlPage) (run_id : Text) (title : Option Text) (is_competitor : Bool) where
    abbrev pub inferred : {A : Type 0} → Option A → Option A
    inferred a = if is_competitor then a else none

    -- The text in which the kind of a unit is looked for.
    abbrev pub kind_text : ParentChildUnit → Text
    kind_text u = if is_empty u.child_text then u.parent_text else u.child_text

    -- `_node`, of the two calls in the loop.
    unfoldable pub make_node : ParentChildUnit → ChunkRole → PageNode
    make_node u role = record {
      node_id = point_id run_id page.id (point_key role (index_of role u));
      page_id = page.id;
      run_id = run_id;
      text = text_of role u;
      parent_text = u.parent_text;
      child_text = child_text_of role u;
      section_title = u.section_title;
      chunk_index = index_of role u;
      chunk_role = role;
      anchors = u.section_anchors;
      title = title;
      source_digest = page_source_digest page;
      text_digest = text_digest (text_of role u);
      competitor_chunk_kind =
          inferred (some (tools.infer_competitor_chunk_kind u.section_title (kind_text u)));
      feature_tag = inferred (tools.infer_feature_tag u.section_title);
    }

    -- The number is in the set.
    unfoldable pub is_seen : ℕ → List ℕ → Bool
    is_seen i [] = false
    is_seen i (j ∷ js) = i == j || is_seen i js

    abbrev pub parent_adds_context : ParentChildUnit → Bool
    parent_adds_context u = not (text_eq (strip u.parent_text) (strip u.child_text))

    -- The nodes of one unit that is no stub.
    abbrev pub unit_nodes : Bool → ParentChildUnit → List PageNode → List PageNode
    unit_nodes with_parent u nodes =
        if with_parent
        then make_node u ChunkRole.parent ∷ make_node u ChunkRole.child ∷ nodes
        else make_node u ChunkRole.child ∷ nodes

    -- The loop over the units, with the parents that have a node: the nodes, and the number of stubs.
    unfoldable pub add_units : List ℕ → List ParentChildUnit → List PageNode × ℕ
    add_units seen_parents [] = ([], 0)
    add_units seen_parents (u ∷ us) =
        let skipped = add_units seen_parents us in
        let noted = add_units (u.parent_index ∷ seen_parents) us in
        let with_parent = not (is_seen u.parent_index seen_parents) && parent_adds_context u in
        if is_stub_text tools.lower u.child_text u.section_title
        then (skipped.0, suc skipped.1)
        else if with_parent
        then (unit_nodes true u noted.0, noted.1)
        else (unit_nodes false u skipped.0, skipped.1)

    abbrev pub of_units : Result (List ParentChildUnit) → Result (List PageNode × Skip × ℕ)
    of_units (err e) = err e
    of_units (ok []) = ok ([], Skip.empty, 0)
    of_units (ok (u ∷ us)) =
        let (nodes, stubs) = add_units [] (u ∷ us) in ok (nodes, Skip.none_skipped, stubs)

  abbrev pub is_competitor_crawl : Text → Bool
  is_competitor_crawl crawl_type =
      let crawl_norm = tools.lower (strip crawl_type) in
      text_eq crawl_norm (codes "competitor") || text_eq crawl_norm (codes "competitors")

  -- The nodes, the reason why there are none, and the number of stubs; `err` is the exception of the
  -- chunker.
  unfoldable pub page_to_nodes : CrawlPage → Text → Text → Result (List PageNode × Skip × ℕ)
  page_to_nodes page run_id crawl_type =
      let (text, title, has_blocks) = page_text_and_title page.blocks page.title in
      if is_empty text
      then ok ([], Skip.empty, 0)
      else if not (tools.is_english text)
      then ok ([], Skip.lang, 0)
      else of_units page run_id title (is_competitor_crawl crawl_type)
          (parent_child_units tools.tokenizer tools.sizes tools.fold tools.is_word page.blocks)
