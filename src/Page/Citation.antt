-- ===== src/Page/Citation.antt =====
-- `quote_in_text` and `verify_quote` of src/geek_crawler_rag/citation_verify.py.
pub mod Laws
pub mod Found
use geek_crawler_rag.Base.{
  ℕ, suc, zero, Bool, true, false, ◌&&◌, ◌||◌, not, List, [], ◌∷◌, ◌++◌, Option, none, some,
  if◌then◌else◌, length, leb, ◌==◌, Text, text_eq, is_empty, is_space, strip, is_part,
}
use geek_crawler_rag.Page.Prose.{collapse, clean_prose_text}
use geek_crawler_rag.Page.Blocks.{Kind, Block}

-- `lower` is `str.lower`, and `is_alnum` is `str.isalnum` of one character.
module _ (lower : Text → Text) (is_alnum : ℕ → Bool) where
  -- `_normalize_ws`
  unfoldable pub normalize_ws : Text → Text
  normalize_ws text = lower (collapse false (strip text))

  unfoldable pub any_alnum : Text → Bool
  any_alnum [] = false
  any_alnum (c ∷ t) = is_alnum c || any_alnum t

  abbrev pub is_quotable : Text → Bool
  is_quotable q = not (is_empty q) && any_alnum q

  -- A cell that is the whole quote.
  abbrev pub is_cell : Text → Option Text → Bool
  is_cell q none = false
  is_cell q (some c) = not (is_empty c) && text_eq (normalize_ws c) q

  unfoldable pub any_cell : Text → List (Option Text) → Bool
  any_cell q [] = false
  any_cell q (c ∷ cs) = is_cell q c || any_cell q cs

  abbrev pub row_has : Text → Kind → List (Option Text) → Bool
  row_has q Kind.row cells = any_cell q cells
  row_has q Kind.heading cells = false
  row_has q Kind.code cells = false
  row_has q Kind.other cells = false

  unfoldable pub any_row : Text → List Block → Bool
  any_row q [] = false
  any_row q (b ∷ bs) = row_has q b.kind b.cells || any_row q bs

  unfoldable pub quote_in_text : Text → Text → List Block → Bool
  quote_in_text quote plain_text blocks =
      let q = normalize_ws quote in
      if not (is_quotable q)
      then false
      else if leb 12 (length q)
      then is_part q (normalize_ws plain_text)
      else any_row q blocks

-- `|`
abbrev pub bar : ℕ
bar = 124

-- `(?:\s*\|)+` matches here: another bar comes after white space at most.
unfoldable pub bar_follows : Text → Bool
bar_follows [] = false
bar_follows (c ∷ t) = c == bar || (is_space c && bar_follows t)

-- `_EMPTY_CELL_RUN.sub("|", text)`; `skipping` while the bars of a run are passed.
unfoldable pub drop_empty_cells : Bool → Text → Text
drop_empty_cells skipping [] = []
drop_empty_cells skipping (c ∷ t) =
    let kept = drop_empty_cells false t in
    let run = drop_empty_cells true t in
    let rest = if bar_follows t then run else kept in
    if c == bar then (if skipping then rest else bar ∷ rest) else if skipping then run else c ∷ kept

module _ (lower : Text → Text) (is_alnum : ℕ → Bool) (fold : ℕ → ℕ) (is_word : ℕ → Bool) where
  unfoldable pub verify_quote : Text → Text → List Block → Bool
  verify_quote quote plain_text blocks =
      quote_in_text lower is_alnum (clean_prose_text fold is_word quote)
        (drop_empty_cells false plain_text) blocks
