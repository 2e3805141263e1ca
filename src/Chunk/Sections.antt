-- ===== src/Chunk/Sections.antt =====
-- `split_blocks_into_sections` of src/geek_crawler_rag/chunk.py.
pub mod Laws
use geek_crawler_rag.Base.{
  ℕ, Bool, true, false, ◌||◌, List, [], ◌∷◌, ◌++◌, Option, none, some, if◌then◌else◌, Text, text_eq,
  is_empty, strip,
}
use geek_crawler_rag.Page.Blocks.{Kind, Anchor, Block, is_blank, derive_plaintext_from_blocks}

-- A heading's blocks, before they are projected to text.
pub record Group : Type 0 where
  pub title : Option Text
  pub level : Option ℕ
  pub blocks : List Block

pub record BlockSection : Type 0 where
  pub title : Option Text
  pub level : Option ℕ
  pub text : Text
  pub anchors : List Anchor

-- `text or None`
abbrev pub or_none : Text → Option Text
or_none [] = none
or_none (c ∷ t) = some (c ∷ t)

-- `if current: groups.append((title, level, current))`
abbrev pub close_group : Option Text → Option ℕ → List Block → List Group
close_group title level [] = []
close_group title level (b ∷ bs) = record { title = title; level = level; blocks = b ∷ bs } ∷ []

abbrev pub is_heading : Kind → Bool
is_heading Kind.heading = true
is_heading Kind.row = false
is_heading Kind.code = false
is_heading Kind.other = false

-- The loop over the blocks, with the heading and the blocks of the group that is open.
unfoldable pub group_blocks : Option Text → Option ℕ → List Block → List Block → List Group
group_blocks title level current [] = close_group title level current
group_blocks title level current (b ∷ bs) =
    let headed =
      close_group title level current
      ++ group_blocks (or_none (strip b.text)) b.level (b ∷ []) bs in
    let extended = group_blocks title level (current ++ b ∷ []) bs in
    if is_heading b.kind then headed else extended

abbrev pub has_href : Text → List Anchor → Bool
has_href href [] = false
has_href href (a ∷ rest) = text_eq a.href href || has_href href rest

-- Whether the address is empty or was seen decides.
abbrev pub add_anchor : Bool → Text → Text → List Anchor → List Anchor
add_anchor true label href found = found
add_anchor false label href found = found ++ record { label = label; href = href } ∷ []

-- The anchors of one block, after those found so far.
unfoldable pub add_anchors : List Anchor → List Anchor → List Anchor
add_anchors found [] = found
add_anchors found (a ∷ rest) =
    add_anchors
      (add_anchor (is_empty (strip a.href) || has_href (strip a.href) found) (strip a.label)
        (strip a.href) found)
      rest

unfoldable pub section_anchors : List Anchor → List Block → List Anchor
section_anchors found [] = found
section_anchors found (b ∷ bs) = section_anchors (add_anchors found b.anchors) bs

module _ (fold : ℕ → ℕ) (is_word : ℕ → Bool) where
  abbrev pub section_of : Group → Text → BlockSection
  section_of g text = record {
    title = g.title;
    level = g.level;
    text = text;
    anchors = section_anchors [] g.blocks;
  }

  unfoldable pub project_groups : List Group → List BlockSection
  project_groups [] = []
  project_groups (g ∷ gs) =
      let text = derive_plaintext_from_blocks fold is_word g.blocks in
      if is_blank fold is_word text
      then project_groups gs
      else section_of g text ∷ project_groups gs

  unfoldable pub split_blocks_into_sections : List Block → List BlockSection
  split_blocks_into_sections blocks = project_groups (group_blocks none none [] blocks)
