-- ===== src/Tests/Quotes.antt =====
-- A page of a heading, a sentence and a row of a table, its units, and quotes from it.
use geek_crawler_rag.Base.{
  ℕ, ◌+◌, ◌<◌, ◌≡◌, refl, ap, ◌⊎◌, inl, pos, Bool, true, false, ◌&&◌, List, [], ◌∷◌, ◌++◌, Option,
  none, some, leb, length, All, MemOf, arith, Text, codes, text_eq, is_empty, strip, is_part,
  is_space, Infix, if◌then◌else◌,
}
use geek_crawler_rag.Page.Prose.{
  collapse, clean_prose_text, has_escape, escape_of, decode, drop_tags, tag_length, to_close,
}
use geek_crawler_rag.Page.Blocks.{
  Kind, Block, clean_cells, render_block_text, rendered_lines, derive_plaintext_from_blocks,
}
use geek_crawler_rag.Page.Citation.{
  normalize_ws, any_alnum, any_cell, any_row, quote_in_text, verify_quote, drop_empty_cells,
  bar_follows,
}
use geek_crawler_rag.Page.Citation.Found.{unit_quote_found, quote_in_text_sound}
use geek_crawler_rag.Chunk.Window.{ChunkTokenizer, ok, chunk_text, chunk_windows, pieces}
use geek_crawler_rag.Chunk.Sections.{
  group_blocks, add_anchors, section_anchors, project_groups, split_blocks_into_sections,
}
use geek_crawler_rag.Chunk.Units.{
  ParentChildUnit, Sizes, child_units, parent_units, section_units, parent_child_units,
}
use geek_crawler_rag.Chunk.Units.Laws.{StandsIn, IsNumbered, parent_child_units-StandsIn}
use geek_crawler_rag.Chunk.Units.Total.{parent_child_units_total}

-- The letters in lower case stand for both.
abbrev pub fold : ℕ → ℕ
fold c = if leb 65 c && leb c 90 then c + 32 else c

abbrev pub is_letter : ℕ → Bool
is_letter c = leb 97 c && leb c 122

abbrev pub lower : Text → Text
lower [] = []
lower (c ∷ t) = fold c ∷ lower t

-- One token for the whole of a text that is not empty.
abbrev one_token : Text → List (ℕ × ℕ)
one_token [] = []
one_token (c ∷ t) = (0, length (c ∷ t)) ∷ []

abbrev pub tokenizer : ChunkTokenizer
tokenizer = record { sequence_limit = 0; special_token_overhead = 2; token_spans = one_token }

abbrev pub sizes : Sizes
sizes = record {
  child_size = pos 2;
  child_overlap = pos 0;
  parent_size = pos 3;
  parent_overlap = pos 1;
}

abbrev pub block : Kind → Text → List (Option Text) → Block
block kind text cells = record {
  kind = kind;
  text = text;
  cells = cells;
  level = none;
  anchors = [];
}

abbrev pub blocks : List Block
blocks =
    block Kind.heading (codes "Plans") []
    ∷ block Kind.other (codes "Pay  by month") []
    ∷ block Kind.row [] (some (codes "Pro") ∷ some [] ∷ some (codes "$150") ∷ [])
    ∷ []

abbrev pub unit : ParentChildUnit
unit = record {
  parent_text =
      codes "Plans"
      ++ (10 ∷ 10 ∷ [])
      ++ codes "Pay  by month"
      ++ (10 ∷ 10 ∷ [])
      ++ codes "Pro |  | $150";
  child_text =
      codes "Plans"
      ++ (10 ∷ 10 ∷ [])
      ++ codes "Pay  by month"
      ++ (10 ∷ 10 ∷ [])
      ++ codes "Pro |  | $150";
  section_title = some (codes "Plans");
  parent_index = 0;
  child_index = 0;
  section_anchors = [];
}

pub units_run : parent_child_units tokenizer sizes fold is_letter blocks ≡ ok (unit ∷ [])
unfolding parent_child_units section_units parent_units child_units split_blocks_into_sections
    project_groups group_blocks section_anchors add_anchors derive_plaintext_from_blocks
    rendered_lines render_block_text clean_cells clean_prose_text has_escape escape_of chunk_text
    chunk_windows pieces strip
units_run = refl

lower-append : (x y : Text) → lower (x ++ y) ≡ lower x ++ lower y
lower-append [] y = refl
lower-append (c ∷ x) y = ap (◌∷◌ (fold c)) (lower-append x y)

parent_child_units-StandsIn_example :
    All (StandsIn (derive_plaintext_from_blocks fold is_letter blocks)) (unit ∷ [])
    × IsNumbered 0 (unit ∷ [])
parent_child_units-StandsIn_example =
    parent_child_units-StandsIn tokenizer sizes fold is_letter blocks (unit ∷ []) units_run

parent_child_units_total_example :
    (us : List ParentChildUnit) × (parent_child_units tokenizer sizes fold is_letter blocks ≡ ok us)
parent_child_units_total_example =
    parent_child_units_total tokenizer 2 0 3 1 fold is_letter blocks (omega arith) (omega arith)
      refl refl

abbrev quote : Text
quote = codes "s" ++ (10 ∷ 10 ∷ []) ++ codes "Pay  by mon"

abbrev page : Text
page = derive_plaintext_from_blocks fold is_letter blocks

unit_quote_found_example : quote_in_text lower is_letter quote page blocks ≡ true
unfolding normalize_ws collapse strip any_alnum
unit_quote_found_example =
    unit_quote_found lower is_letter tokenizer sizes fold is_letter blocks (unit ∷ []) unit quote
      units_run (inl refl)
      (codes "Plan", codes "th" ++ (10 ∷ 10 ∷ []) ++ codes "Pro |  | $150", refl)
      (λ x y i. lower-append x y) refl (omega arith)

price_found : quote_in_text lower is_letter (codes "PRO ") page blocks ≡ true
unfolding quote_in_text normalize_ws collapse strip any_alnum any_row any_cell text_eq
price_found = refl

quote_in_text_sound_example :
    let q = normalize_ws lower is_letter (codes "PRO ") in
    (is_empty q ≡ false)
    × (Infix q (normalize_ws lower is_letter page)
        ⊎ ((length q < 12)
            × ((b : Block) × MemOf b blocks
                × (b.kind ≡ Kind.row)
                × (c : Text) × MemOf (some c) b.cells
                × (normalize_ws lower is_letter c ≡ q))))
quote_in_text_sound_example =
    quote_in_text_sound lower is_letter (codes "PRO ") page blocks price_found

-- The example of `clean_prose_text`.
cleans_markup :
    clean_prose_text fold is_letter
      (codes "Click here u003ca href=u0022#videou0022u003eVideo u003c/au003e")
    ≡ codes "Click here Video"
unfolding clean_prose_text has_escape escape_of decode drop_tags tag_length to_close collapse strip
    is_space
cleans_markup = refl

-- A row with an empty cell, as the page's own text has it, is not verified; as the other projection
-- of the blocks has it, it is.
refuses_row :
    verify_quote lower is_letter fold is_letter (codes "Pro |  | $150") page blocks ≡ false
unfolding verify_quote quote_in_text clean_prose_text has_escape escape_of
    derive_plaintext_from_blocks rendered_lines render_block_text clean_cells normalize_ws collapse
    strip any_alnum drop_empty_cells bar_follows is_part
refuses_row = refl

verifies_row :
    verify_quote lower is_letter fold is_letter (codes "by month Pro | $150") page blocks ≡ true
unfolding verify_quote quote_in_text clean_prose_text has_escape escape_of
    derive_plaintext_from_blocks rendered_lines render_block_text clean_cells normalize_ws collapse
    strip any_alnum drop_empty_cells bar_follows is_part
verifies_row = refl
