-- ===== src/Chunk/Sections/Laws.antt =====
-- The text of a section stands in the text of its page, and its anchors are distinct.
use geek_crawler_rag.Base.{
  ℕ, ◌≡◌, ◌∙◌, refl, sym, ap, inl, inr, Bool, List, [], ◌∷◌, ◌++◌, append_assoc, Option, none, All,
  All-map, Bool-cases, Text, strip, join, join-Infix, Infix, subst,
}
use geek_crawler_rag.Page.Blocks.{
  Block, is_blank, render_block_text, rendered_lines, block_separator, derive_plaintext_from_blocks,
}
use geek_crawler_rag.Chunk.Sections.{
  Group, close_group, is_heading, group_blocks, project_groups, split_blocks_into_sections, or_none,
}

-- The blocks are those of a page, from somewhere to somewhere.
abbrev Run : List Block → List Block → Type 0
Run page part = (before : List Block) × (after : List Block) × (page ≡ before ++ (part ++ after))

close_group-Run :
    (title : Option Text) (level : Option ℕ) (before current after : List Block)
    → All (λ g. Run (before ++ (current ++ after)) g.blocks) (close_group title level current)
close_group-Run title level before [] after = tt
close_group-Run title level before (b ∷ bs) after = ((before, after, refl), tt)

All-append : {A : Type 0} (P : A → Type 0) (xs ys : List A) → All P xs → All P ys → All P (xs ++ ys)
All-append P [] ys h k = k
All-append P (x ∷ xs) ys h k = (h.0, All-append P xs ys h.1 k)

group_blocks-Run :
    (title : Option Text) (level : Option ℕ) (before current blocks : List Block)
    → All
        (λ g. Run (before ++ (current ++ blocks)) g.blocks)
        (group_blocks title level current blocks)
unfolding group_blocks
group_blocks-Run title level before current [] = close_group-Run title level before current []
group_blocks-Run title level before current (b ∷ bs) = elim (Bool-cases (is_heading b.kind)) [
  | inl h ↦
      let page = before ++ (current ++ (b ∷ bs)) in
      let shape : (before ++ current) ++ (b ∷ [] ++ bs) ≡ page = simp append_assoc in
      rw h (
        All-append (λ g. Run page g.blocks) (close_group title level current) _
          (close_group-Run title level before current (b ∷ bs))
          (subst
            (λ p.
              All (λ g. Run p g.blocks) (group_blocks (or_none (strip b.text)) b.level (b ∷ []) bs))
            shape
            (group_blocks-Run (or_none (strip b.text)) b.level (before ++ current) (b ∷ []) bs)))
  | inr h ↦
      let page = before ++ (current ++ (b ∷ bs)) in
      let shape : before ++ ((current ++ b ∷ []) ++ bs) ≡ page = simp append_assoc in
      rw h (
        subst (λ p. All (λ g. Run p g.blocks) (group_blocks title level (current ++ b ∷ []) bs))
          shape (group_blocks-Run title level before (current ++ b ∷ []) bs))
]

module _ (fold : ℕ → ℕ) (is_word : ℕ → Bool) where
  rendered_lines-append :
      (xs ys : List Block)
      → rendered_lines fold is_word (xs ++ ys)
        ≡ rendered_lines fold is_word xs ++ rendered_lines fold is_word ys
  unfolding rendered_lines
  rendered_lines-append [] ys = refl
  rendered_lines-append (b ∷ xs) ys =
      elim (Bool-cases (is_blank fold is_word (render_block_text fold is_word b))) [
        | inl e ↦ rw e (rendered_lines-append xs ys)
        | inr e ↦ rw e (ap (◌∷◌ (render_block_text fold is_word b)) (rendered_lines-append xs ys))
      ]

  derive-Infix :
      (page part : List Block)
      → Run page part
      → Infix
          (derive_plaintext_from_blocks fold is_word part)
          (derive_plaintext_from_blocks fold is_word page)
  unfolding derive_plaintext_from_blocks
  derive-Infix page part (b, a, e) =
      let lines = rendered_lines fold is_word in
      let shape : lines b ++ (lines part ++ lines a) ≡ lines page =
        ap (λ x. lines b ++ x) (sym (rendered_lines-append part a))
        ∙ (sym (rendered_lines-append b (part ++ a)) ∙ ap lines (sym e)) in
      subst
        (λ x.
          Infix (join (block_separator fold is_word) (lines part))
            (join (block_separator fold is_word) x))
        shape (join-Infix (block_separator fold is_word) (lines b) (lines part) (lines a))

  project_groups-Infix :
      (page : Text) (gs : List Group)
      → All (λ g. Infix (derive_plaintext_from_blocks fold is_word g.blocks) page) gs
      → All (λ s. Infix s.text page) (project_groups fold is_word gs)
  unfolding project_groups
  project_groups-Infix page [] h = tt
  project_groups-Infix page (g ∷ gs) h =
      elim (Bool-cases
        (is_blank fold is_word (derive_plaintext_from_blocks fold is_word g.blocks))) [
          | inl e ↦ rw e (project_groups-Infix page gs h.1)
          | inr e ↦ rw e (h.0, project_groups-Infix page gs h.1)
        ]

  -- The text of every section stands in the text of the whole page.
  pub sections-Infix :
      (blocks : List Block)
      → All
          (λ s. Infix s.text (derive_plaintext_from_blocks fold is_word blocks))
          (split_blocks_into_sections fold is_word blocks)
  unfolding split_blocks_into_sections
  sections-Infix blocks =
      let page = derive_plaintext_from_blocks fold is_word blocks in
      let groups = group_blocks none none [] blocks in
      project_groups-Infix page groups (
        All-map (λ (g : Group) r. derive-Infix blocks g.blocks r) groups
          (group_blocks-Run none none [] [] blocks))
