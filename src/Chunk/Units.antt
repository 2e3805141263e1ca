-- ===== src/Chunk/Units.antt =====
-- `parent_child_units` of src/geek_crawler_rag/chunk.py.
pub mod Laws
pub mod Total
use geek_crawler_rag.Base.{
  ℕ, suc, ◌+◌, ℤ, pos, negsuc, Bool, true, false, ◌||◌, List, [], ◌∷◌, ◌++◌, Option, if◌then◌else◌,
  length, leb, Text,
}
use geek_crawler_rag.Page.Blocks.{Anchor, Block}
use geek_crawler_rag.Chunk.Window.{
  ChunkTokenizer, ChunkError, Result, ok, err, bad_overlap, to_ℕ, chunk_text,
}
use geek_crawler_rag.Chunk.Sections.{BlockSection, split_blocks_into_sections}

pub record ParentChildUnit : Type 0 where
  pub parent_text : Text
  pub child_text : Text
  pub section_title : Option Text
  pub parent_index : ℕ
  pub child_index : ℕ
  pub section_anchors : List Anchor

-- The sizes and overlaps, in tokens.
pub record Sizes : Type 0 where
  pub child_size : ℤ
  pub child_overlap : ℤ
  pub parent_size : ℤ
  pub parent_overlap : ℤ

-- The units made, and the next parent's and child's numbers.
pub record Numbered : Type 0 where
  pub units : List ParentChildUnit
  pub next_parent : ℕ
  pub next_child : ℕ

-- `if not children: children = [parent_text]`
abbrev pub or_parent : Text → List Text → List Text
or_parent parent [] = parent ∷ []
or_parent parent (c ∷ cs) = c ∷ cs

-- The units of one parent.
unfoldable pub child_units : BlockSection → Text → ℕ → ℕ → List Text → List ParentChildUnit
child_units section parent parent_index child_index [] = []
child_units section parent parent_index child_index (c ∷ cs) =
    record {
      parent_text = parent;
      child_text = c;
      section_title = section.title;
      parent_index = parent_index;
      child_index = child_index;
      section_anchors = section.anchors;
    }
    ∷ child_units section parent parent_index (suc child_index) cs

abbrev pub before_units : List ParentChildUnit → Result Numbered → Result Numbered
before_units us (err e) = err e
before_units us (ok rest) = ok (record rest { units = us ++ rest.units })

abbrev pub not_positive : ℤ → Bool
not_positive (negsuc n) = true
not_positive (pos n) = leb n 0

module _ (tok : ChunkTokenizer) (sizes : Sizes) where
  abbrev pub with_children :
      BlockSection → Text → ℕ → ℕ → Result (List Text) → (ℕ → Result Numbered) → Result Numbered
  with_children section parent parent_index child_index (err e) go_on = err e
  with_children section parent parent_index child_index (ok children) go_on =
      before_units (child_units section parent parent_index child_index (or_parent parent children))
        (go_on (child_index + length (or_parent parent children)))

  -- The loop over the parents of one section.
  unfoldable pub parent_units : BlockSection → List Text → ℕ → ℕ → Result Numbered
  parent_units section [] parent_index child_index =
      ok (record { units = []; next_parent = parent_index; next_child = child_index })
  parent_units section (p ∷ ps) parent_index child_index =
      with_children section p parent_index child_index
        (chunk_text tok p sizes.child_size sizes.child_overlap)
        (λ next. parent_units section ps (suc parent_index) next)

  abbrev pub with_parents : BlockSection → ℕ → ℕ → Result (List Text) → Result Numbered
  with_parents section parent_index child_index (err e) = err e
  with_parents section parent_index child_index (ok parents) =
      parent_units section parents parent_index child_index

  abbrev pub and_then : Result Numbered → (ℕ → ℕ → Result Numbered) → Result Numbered
  and_then (err e) go_on = err e
  and_then (ok n) go_on = before_units n.units (go_on n.next_parent n.next_child)

  -- The loop over the sections.
  unfoldable pub section_units : List BlockSection → ℕ → ℕ → Result Numbered
  section_units [] parent_index child_index =
      ok (record { units = []; next_parent = parent_index; next_child = child_index })
  section_units (s ∷ ss) parent_index child_index =
      and_then
        (with_parents s parent_index child_index
          (chunk_text tok s.text sizes.parent_size sizes.parent_overlap))
        (λ p c. section_units ss p c)

  abbrev pub units_of : Result Numbered → Result (List ParentChildUnit)
  units_of (err e) = err e
  units_of (ok n) = ok n.units

  module _ (fold : ℕ → ℕ) (is_word : ℕ → Bool) where
    unfoldable pub parent_child_units : List Block → Result (List ParentChildUnit)
    parent_child_units blocks =
        if not_positive sizes.child_size || not_positive sizes.parent_size
        then err ChunkError.size_too_small
        else if bad_overlap (to_ℕ sizes.child_size) sizes.child_overlap
        then err ChunkError.overlap_out_of_range
        else if bad_overlap (to_ℕ sizes.parent_size) sizes.parent_overlap
        then err ChunkError.overlap_out_of_range
        else units_of (section_units (split_blocks_into_sections fold is_word blocks) 0 0)
