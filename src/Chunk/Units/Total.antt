-- ===== src/Chunk/Units/Total.antt =====
-- Within the model's budget every page has its units.
use geek_crawler_rag.Base.{
  ℕ, suc, ◌+◌, ◌<◌, ◌≡◌, refl, pos, Bool, false, List, [], ◌∷◌, ◌++◌, length, Text, arith,
}
use geek_crawler_rag.Page.Blocks.{Block}
use geek_crawler_rag.Chunk.Window.{ChunkTokenizer, Result, ok, exceeds_model}
use geek_crawler_rag.Chunk.Coverage.{chunk_text_total}
use geek_crawler_rag.Chunk.Sections.{BlockSection, split_blocks_into_sections}
use geek_crawler_rag.Chunk.Units.{
  ParentChildUnit, Sizes, Numbered, or_parent, child_units, before_units, parent_units,
  section_units, parent_child_units,
}

-- The call returns.
abbrev Returns : {A : Type 0} → Result A → Type 0
Returns {A} r = (a : A) × (r ≡ ok a)

before_units-Returns :
    (us : List ParentChildUnit) (r : Result Numbered) → Returns r → Returns (before_units us r)
before_units-Returns us r (n, e) = (record n { units = us ++ n.units }, rw e refl)

module _ (tok : ChunkTokenizer) (child_size child_overlap parent_size parent_overlap : ℕ) where
  abbrev sizes : Sizes
  sizes = record {
    child_size = pos child_size;
    child_overlap = pos child_overlap;
    parent_size = pos parent_size;
    parent_overlap = pos parent_overlap;
  }

  module _ (c : child_overlap < child_size) (cm : exceeds_model tok child_size ≡ false) where
    parent_units-Returns :
        (section : BlockSection) (ps : List Text) (pi ci : ℕ)
        → Returns (parent_units tok sizes section ps pi ci)
    unfolding parent_units
    parent_units-Returns section [] pi ci = (_, refl)
    parent_units-Returns section (p ∷ ps) pi ci =
        let (cs, e) = chunk_text_total tok p child_size child_overlap c cm in
        let kids = or_parent p cs in
        rw e (
          before_units-Returns (child_units section p pi ci kids)
            (parent_units tok sizes section ps (suc pi) (ci + length kids))
            (parent_units-Returns section ps (suc pi) (ci + length kids)))

    module _ (q : parent_overlap < parent_size) (qm : exceeds_model tok parent_size ≡ false) where
      section_units-Returns :
          (ss : List BlockSection) (pi ci : ℕ) → Returns (section_units tok sizes ss pi ci)
      unfolding section_units
      section_units-Returns [] pi ci = (_, refl)
      section_units-Returns (s ∷ ss) pi ci =
          let (ps, e) = chunk_text_total tok s.text parent_size parent_overlap q qm in
          let (n, d) = parent_units-Returns s ps pi ci in
          rw (e, d)
            (before_units-Returns n.units (section_units tok sizes ss n.next_parent n.next_child)
              (section_units-Returns ss n.next_parent n.next_child))

-- With both overlaps below their sizes, and both sizes within the model's budget, every page has its
-- units.
pub parent_child_units_total :
    (tok : ChunkTokenizer) (child_size child_overlap parent_size parent_overlap : ℕ) (fold : ℕ → ℕ)
    (is_word : ℕ → Bool) (blocks : List Block)
    → child_overlap < child_size
    → parent_overlap < parent_size
    → exceeds_model tok child_size ≡ false
    → exceeds_model tok parent_size ≡ false
    → let sizes : Sizes = record {
      child_size = pos child_size;
      child_overlap = pos child_overlap;
      parent_size = pos parent_size;
      parent_overlap = pos parent_overlap;
    } in
      (us : List ParentChildUnit) × (parent_child_units tok sizes fold is_word blocks ≡ ok us)
unfolding parent_child_units
parent_child_units_total tok cs co ps po fold is_word blocks c q cm qm =
    let (n, e) =
      section_units-Returns tok cs co ps po c cm q qm
        (split_blocks_into_sections fold is_word blocks) 0 0 in
    (n.units, ground (arith, e))
