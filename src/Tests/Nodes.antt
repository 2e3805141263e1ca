-- ===== src/Tests/Nodes.antt =====
-- The nodes of the page of the quotes.
use geek_crawler_rag.Base.{
  ℕ, zero, suc, ◌≡◌, refl, ap, true, false, List, [], ◌∷◌, none, some, Text, codes, strip, text_eq,
  pos, is_empty,
}
use geek_crawler_rag.Page.Prose.{clean_prose_text, has_escape, escape_of}
use geek_crawler_rag.Page.Blocks.{
  Kind, clean_cells, render_block_text, rendered_lines, derive_plaintext_from_blocks,
}
use geek_crawler_rag.Chunk.Window.{chunk_text, chunk_windows, windows, fit_window, pieces, ok}
use geek_crawler_rag.Chunk.Units.{
  ParentChildUnit, parent_child_units, section_units, parent_units, child_units,
}
use geek_crawler_rag.Chunk.Sections.{
  split_blocks_into_sections, project_groups, group_blocks, section_anchors, add_anchors,
}
use geek_crawler_rag.Nodes.Stub.{
  split_words, normalised, count_words, is_breadcrumb_parts, slash_parts, segment_spaced, crumbs,
  is_segment, has_newline, is_stub_text,
}
use geek_crawler_rag.Nodes.Build.{
  CrawlPage, ChunkRole, is_seen, Tools, Skip, PageNode, make_node, page_to_nodes, add_units,
  page_text_and_title, first_heading,
}
use geek_crawler_rag.Nodes.Build.Spec.{
  text_of_page, IsIndexed, HasDistinctIds, page_to_nodes-IsIndexed, page_to_nodes-HasDistinctIds,
}
use geek_crawler_rag.Tests.Quotes.{fold, is_letter, lower, block}
use geek_crawler_rag.Tests.Chunks.{char_tokenizer}

-- A number as that many strokes.
abbrev strokes : ℕ → Text
strokes zero = []
strokes (suc n) = 49 ∷ strokes n

strokes_inj : (i j : ℕ) → strokes i ≡ strokes j → i ≡ j
strokes_inj zero zero e = refl
strokes_inj zero (suc j) e = cc
strokes_inj (suc i) zero e = cc
strokes_inj (suc i) (suc j) e =
    let rest : strokes i ≡ strokes j = cc in ap suc (strokes_inj i j rest)

abbrev tools : Tools
tools = record {
  tokenizer = record char_tokenizer { sequence_limit = 0 };
  sizes = record {
    child_size = pos 17;
    child_overlap = pos 0;
    parent_size = pos 40;
    parent_overlap = pos 5;
  };
  fold = fold;
  is_word = is_letter;
  lower = lower;
  is_english = λ t. true;
  sha256 = λ t. t;
  uuid5 = λ t. t;
  decimal = strokes;
  infer_competitor_chunk_kind = λ title t. codes "feature";
  infer_feature_tag = λ title. none;
}

abbrev page : CrawlPage
page = record {
  id = codes "p1";
  content_html = none;
  blocks = block Kind.other (codes "a b c d e f g h i j k l m n o p q r") [] ∷ [];
  title = none;
}

-- A breadcrumb, and a sentence with a slash in it.
breadcrumb_is_stub :
    is_stub_text lower
      (codes "Home / AP Automation for teams /  Payment Reconciliation of all books")
      none
    ≡ true
unfolding is_stub_text normalised split_words strip is_breadcrumb_parts slash_parts segment_spaced
    crumbs is_segment has_newline count_words
breadcrumb_is_stub = refl

sentence_is_content :
    is_stub_text lower
      (codes "We offer 24/7 support to all of our customers in Europe")
      (some (codes "Support"))
    ≡ false
unfolding is_stub_text normalised split_words strip is_breadcrumb_parts slash_parts segment_spaced
    crumbs is_segment has_newline count_words text_eq
sentence_is_content = refl

abbrev parent_text : Text
parent_text = codes "a b c d e f g h i j k l m n o p q r"

abbrev unit : ℕ → Text → ParentChildUnit
unit i t = record {
  parent_text = parent_text;
  child_text = t;
  section_title = none;
  parent_index = 0;
  child_index = i;
  section_anchors = [];
}

abbrev units : List ParentChildUnit
units =
    unit 0 (codes "a b c d e f g h i") ∷ unit 1 (codes "j k l m n o p q") ∷ unit 2 (codes "r") ∷ []

units_run :
    parent_child_units tools.tokenizer tools.sizes tools.fold tools.is_word page.blocks ≡ ok units
unfolding parent_child_units section_units parent_units child_units split_blocks_into_sections
    project_groups group_blocks section_anchors add_anchors derive_plaintext_from_blocks
    rendered_lines render_block_text clean_cells clean_prose_text has_escape escape_of chunk_text
    chunk_windows windows fit_window pieces strip
units_run = refl

has_text : is_empty (text_of_page tools page) ≡ false
unfolding derive_plaintext_from_blocks rendered_lines render_block_text clean_prose_text has_escape
    escape_of strip
has_text = refl

page_to_nodes-IsIndexed_example :
    (nodes : List PageNode) × (skip : Skip) × (stubs : ℕ) × (page_to_nodes tools page
        (codes "run")
        (codes "partner")
      ≡ ok (nodes, skip, stubs))
    × IsIndexed tools page (codes "run") units nodes stubs
page_to_nodes-IsIndexed_example =
    page_to_nodes-IsIndexed tools page (codes "run") (codes "partner") units units_run has_text refl

abbrev node : ParentChildUnit → ChunkRole → PageNode
node u role = make_node tools page (codes "run") none false u role

-- The parent and two children; the third unit is a stub.
abbrev nodes : List PageNode
nodes =
    node (unit 0 (codes "a b c d e f g h i")) ChunkRole.parent
    ∷ node (unit 0 (codes "a b c d e f g h i")) ChunkRole.child
    ∷ node (unit 1 (codes "j k l m n o p q")) ChunkRole.child
    ∷ []

nodes_run :
    page_to_nodes tools page (codes "run") (codes "partner") ≡ ok (nodes, Skip.none_skipped, 1)
unfolding page_to_nodes page_text_and_title add_units first_heading is_seen is_stub_text normalised
    split_words is_breadcrumb_parts slash_parts segment_spaced crumbs is_segment has_newline
    count_words text_eq parent_child_units section_units parent_units child_units
    split_blocks_into_sections project_groups group_blocks section_anchors add_anchors
    derive_plaintext_from_blocks rendered_lines render_block_text clean_cells clean_prose_text
    has_escape escape_of chunk_text chunk_windows windows fit_window pieces strip
nodes_run = refl

page_to_nodes-HasDistinctIds_example : HasDistinctIds nodes
page_to_nodes-HasDistinctIds_example =
    page_to_nodes-HasDistinctIds tools page (codes "run") (codes "partner") nodes Skip.none_skipped
      1 nodes_run (λ x y e. e) strokes_inj
