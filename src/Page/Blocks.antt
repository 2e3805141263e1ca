-- ===== src/Page/Blocks.antt =====
-- `render_block_text` and `derive_plaintext_from_blocks` of src/geek_crawler_rag/block_text.py: the
-- one projection of a page's blocks to text.
use geek_crawler_rag.Base.{
  ℕ, Bool, List, [], ◌∷◌, Option, none, some, if◌then◌else◌, Text, codes, is_empty, strip, join,
}
use geek_crawler_rag.Page.Prose.{clean_prose_text}

-- The kinds that the program tells apart.
pub data Kind : Type 0 where
  heading row code other : Kind

pub record Anchor : Type 0 where
  pub label : Text
  pub href : Text

-- A typed block; a missing text is empty, and a missing list too. A cell may be null.
pub record Block : Type 0 where
  pub kind : Kind
  pub text : Text
  pub cells : List (Option Text)
  pub level : Option ℕ
  pub anchors : List Anchor

module _ (fold : ℕ → ℕ) (is_word : ℕ → Bool) where
  unfoldable pub clean_cells : List (Option Text) → List Text
  clean_cells [] = []
  clean_cells (none ∷ cells) = clean_cells cells
  clean_cells (some c ∷ cells) = clean_prose_text fold is_word c ∷ clean_cells cells

  unfoldable pub render_block_text : Block → Text
  render_block_text block = elim block.kind [
    | Kind.row ↦ join (codes " | ") (clean_cells block.cells)
    | Kind.code ↦ strip block.text
    | _ ↦ clean_prose_text fold is_word block.text
  ]

  abbrev pub is_blank : Text → Bool
  is_blank t = is_empty (strip t)

  -- The rendered blocks that hold some text.
  unfoldable pub rendered_lines : List Block → List Text
  rendered_lines [] = []
  rendered_lines (b ∷ bs) =
      if is_blank (render_block_text b)
      then rendered_lines bs
      else render_block_text b ∷ rendered_lines bs

  abbrev pub block_separator : Text
  block_separator = 10 ∷ 10 ∷ []

  unfoldable pub derive_plaintext_from_blocks : List Block → Text
  derive_plaintext_from_blocks blocks = join block_separator (rendered_lines blocks)
