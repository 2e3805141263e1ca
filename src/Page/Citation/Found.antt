-- ===== src/Page/Citation/Found.antt =====
-- A quote taken from a retrieved chunk is found in its page, and a quote that is found is there.
use geek_crawler_rag.Base.{
  ℕ, ◌≤◌, ◌<◌, ◌≡◌, ◌∙◌, refl, sym, ap, subst, ◌⊎◌, inl, inr, Bool, true, false, List, [], ◌∷◌,
  ◌++◌, append-nil, Option, none, some, length, leb, Bool-cases, arith, All, MemOf, Text,
  text_eq_iff, is_empty, strip, Infix, Infix-trans, strip-Infix, Infix-is_part, is_part-Infix,
  is_part,
}
use geek_crawler_rag.Page.Prose.{collapse}
use geek_crawler_rag.Page.Blocks.{Kind, Block, derive_plaintext_from_blocks}
use geek_crawler_rag.Page.Citation.{
  normalize_ws, is_quotable, is_cell, any_cell, row_has, any_row, quote_in_text,
}
use geek_crawler_rag.Page.Citation.Laws.{IsSolid, strip-IsSolid, strip-part, collapse-part}
use geek_crawler_rag.Chunk.Window.{ChunkTokenizer, ok}
use geek_crawler_rag.Chunk.Units.{ParentChildUnit, Sizes, parent_child_units}
use geek_crawler_rag.Chunk.Units.Laws.{StandsIn, parent_child_units-StandsIn}

All-MemOf : {A : Type 0} (P : A → Type 0) (xs : List A) (a : A) → All P xs → MemOf a xs → P a
All-MemOf P [] a h m = absurd m
All-MemOf P (x ∷ xs) a h (inl e) = subst P (sym e) h.0
All-MemOf P (x ∷ xs) a h (inr m) = All-MemOf P xs a h.1 m

module _ (lower : Text → Text) (is_alnum : ℕ → Bool) where
  -- Lower-casing goes letter by letter in the parts of the text.
  abbrev pub LowersByLetter : Text → Type 0
  LowersByLetter t = (x y : Text) → Infix (x ++ y) t → lower (x ++ y) ≡ lower x ++ lower y

  lower-part : (s t : Text) → LowersByLetter t → Infix s t → Infix (lower s) (lower t)
  lower-part s t h (b, a, e) = (
    lower b,
    lower a,
    ap lower e
        ∙ (h b (s ++ a) ([], [], e ∙ sym (append-nil (b ++ (s ++ a))))
            ∙ ap (λ x. lower b ++ x)
                (h s a (b, [], e ∙ ap (λ x. b ++ x) (sym (append-nil (s ++ a)))))),
  )

  quotable-filled : (q : Text) → is_quotable lower is_alnum q ≡ true → is_empty q ≡ false
  quotable-filled q h = ground (arith, h)

  -- What stands in a text is part of it when both are normalised.
  normalize_ws-part :
      (quote text : Text)
      → LowersByLetter (collapse false (strip text))
      → (strip quote ≡ []) ⊎ IsSolid (strip quote)
      → Infix quote text
      → is_part (normalize_ws lower is_alnum quote) (normalize_ws lower is_alnum text) ≡ true
  unfolding normalize_ws collapse
  normalize_ws-part quote text h (inl e) i =
      Infix-is_part (normalize_ws lower is_alnum quote) (normalize_ws lower is_alnum text) (
        lower-part (collapse false (strip quote)) (collapse false (strip text)) h (
          subst (λ x. Infix (collapse false x) (collapse false (strip text))) (sym e)
            ([], collapse false (strip text), refl)))
  normalize_ws-part quote text h (inr solid) i =
      let part = Infix-trans (strip quote) quote text (strip-Infix quote) i in
      Infix-is_part (normalize_ws lower is_alnum quote) (normalize_ws lower is_alnum text) (
        lower-part (collapse false (strip quote)) (collapse false (strip text)) h (
          collapse-part (strip quote) (strip text) solid
            (strip-part (strip quote) text solid part)))

  -- A quotable quote of twelve characters at least, once normalised, that stands in a text is found.
  found :
      (quote text : Text) (blocks : List Block)
      → LowersByLetter (collapse false (strip text))
      → Infix quote text
      → is_quotable lower is_alnum (normalize_ws lower is_alnum quote) ≡ true
      → 12 ≤ length (normalize_ws lower is_alnum quote)
      → quote_in_text lower is_alnum quote text blocks ≡ true
  unfolding quote_in_text
  found quote text blocks h i q l =
      ground (arith, normalize_ws-part quote text h (strip-IsSolid quote) i, q, l)

  -- A quote cut from the child text of any unit of a page is found in the page's text, where it is
  -- quotable and has twelve characters at least once normalised, and lower-casing the page's text
  -- goes letter by letter.
  pub unit_quote_found :
      (tok : ChunkTokenizer) (sizes : Sizes) (fold : ℕ → ℕ) (is_word : ℕ → Bool)
      (blocks : List Block) (us : List ParentChildUnit) (u : ParentChildUnit) (quote : Text)
      → parent_child_units tok sizes fold is_word blocks ≡ ok us
      → MemOf u us
      → Infix quote u.child_text
      → LowersByLetter (collapse false (strip (derive_plaintext_from_blocks fold is_word blocks)))
      → is_quotable lower is_alnum (normalize_ws lower is_alnum quote) ≡ true
      → 12 ≤ length (normalize_ws lower is_alnum quote)
      → quote_in_text lower is_alnum quote (derive_plaintext_from_blocks fold is_word blocks) blocks
        ≡ true
  unit_quote_found tok sizes fold is_word blocks us u quote e m i h q l =
      let page = derive_plaintext_from_blocks fold is_word blocks in
      let (child, parent) =
        All-MemOf (StandsIn page) us u
          (parent_child_units-StandsIn tok sizes fold is_word blocks us e).0 m in
      found quote page blocks h
        (Infix-trans quote u.child_text page i
          (Infix-trans u.child_text u.parent_text page child parent))
        q l

  any_cell-MemOf :
      (q : Text) (cells : List (Option Text))
      → any_cell lower is_alnum q cells ≡ true
      → (c : Text) × MemOf (some c) cells × (normalize_ws lower is_alnum c ≡ q)
  unfolding any_cell
  any_cell-MemOf q [] h = cc
  any_cell-MemOf q (c ∷ cs) h = elim (Bool-cases (is_cell lower is_alnum q c)) [
    | inl here ↦ let (t, e, f) = cell c here in (t, inl (sym e), f)
    | inr later ↦ let (t, m, f) = any_cell-MemOf q cs (ground (arith, h, later)) in (t, inr m, f)
  ]
    where
      cell :
          (o : Option Text)
          → is_cell lower is_alnum q o ≡ true
          → (t : Text) × (o ≡ some t) × (normalize_ws lower is_alnum t ≡ q)
      cell none k = cc
      cell (some t) k =
          (t, refl, (text_eq_iff (normalize_ws lower is_alnum t) q).0 (ground (arith, k)))

  any_row-MemOf :
      (q : Text) (blocks : List Block)
      → any_row lower is_alnum q blocks ≡ true
      → (b : Block) × MemOf b blocks
        × (b.kind ≡ Kind.row)
        × (c : Text) × MemOf (some c) b.cells
        × (normalize_ws lower is_alnum c ≡ q)
  unfolding any_row
  any_row-MemOf q [] h = cc
  any_row-MemOf q (b ∷ bs) h = elim (Bool-cases (row_has lower is_alnum q b.kind b.cells)) [
    | inl here ↦
        let (k, a) = row b.kind here in
        let (c, m, f) = any_cell-MemOf q b.cells a in (b, inl refl, k, c, m, f)
    | inr later ↦
        let (d, m, k, c, n, f) = any_row-MemOf q bs (ground (arith, h, later)) in
        (d, inr m, k, c, n, f)
  ]
    where
      row :
          (k : Kind)
          → row_has lower is_alnum q k b.cells ≡ true
          → (k ≡ Kind.row) × (any_cell lower is_alnum q b.cells ≡ true)
      row Kind.row h = (refl, h)
      row Kind.heading h = absurd cc
      row Kind.code h = absurd cc
      row Kind.other h = absurd cc

  -- A quote that is found is there: its normalised text is not empty, and is part of the page's, or
  -- it is short and is the whole of one cell of a row.
  pub quote_in_text_sound :
      (quote text : Text) (blocks : List Block)
      → quote_in_text lower is_alnum quote text blocks ≡ true
      → let q = normalize_ws lower is_alnum quote in
        (is_empty q ≡ false)
        × (Infix q (normalize_ws lower is_alnum text)
            ⊎ ((length q < 12)
                × ((b : Block) × MemOf b blocks
                    × (b.kind ≡ Kind.row)
                    × (c : Text) × MemOf (some c) b.cells
                    × (normalize_ws lower is_alnum c ≡ q))))
  unfolding quote_in_text
  quote_in_text_sound quote text blocks h =
      let q = normalize_ws lower is_alnum quote in
      elim (Bool-cases (is_quotable lower is_alnum q)) [
        | inr n ↦ absurd (ground (arith, h, n))
        | inl k ↦ (
          quotable-filled q k,
          elim (Bool-cases (leb 12 (length q))) [
            | inl long ↦
                inl
                  (is_part-Infix q (normalize_ws lower is_alnum text) (ground (arith, h, k, long)))
            | inr short ↦
                inr (ground (arith, short), any_row-MemOf q blocks (ground (arith, h, k, short)))
          ],
        )
      ]
