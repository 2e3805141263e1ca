-- ===== src/Page/Prose.antt =====
-- `clean_prose_text` of src/geek_crawler_rag/block_text.py: the escaped markup that a page embeds in
-- its own text is decoded, and the tags that it spells are dropped.
use geek_crawler_rag.Base.{
  ℕ, zero, suc, ◌-◌, Bool, true, false, ◌&&◌, ◌||◌, not, List, [], ◌∷◌, map, Option, none, some,
  if◌then◌else◌, is_some, length, drop, ◌==◌, Text, codes, is_space, strip, starts_with,
}

-- `_WHITESPACE.sub(" ", text)`; `inside` where the last character was white space.
unfoldable pub collapse : Bool → Text → Text
collapse inside [] = []
collapse inside (c ∷ s) =
    let in_run = collapse true s in
    let after = collapse false s in
    if is_space c then (if inside then in_run else 32 ∷ in_run) else c ∷ after

-- The five sequences, and the characters that they spell.
abbrev pub markup_escapes : List (Text × ℕ)
markup_escapes =
    (codes "003c", 60)
    ∷ (codes "003e", 62)
    ∷ (codes "0022", 34)
    ∷ (codes "0026", 38)
    ∷ (codes "0027", 39)
    ∷ []

abbrev pub tag_names : List Text
tag_names =
    codes "div"
    ∷ codes "span"
    ∷ codes "p"
    ∷ codes "a"
    ∷ codes "ul"
    ∷ codes "ol"
    ∷ codes "li"
    ∷ codes "table"
    ∷ codes "tr"
    ∷ codes "td"
    ∷ codes "th"
    ∷ codes "h1"
    ∷ codes "h2"
    ∷ codes "h3"
    ∷ codes "h4"
    ∷ codes "h5"
    ∷ codes "h6"
    ∷ codes "br"
    ∷ codes "img"
    ∷ codes "section"
    ∷ codes "article"
    ∷ codes "nav"
    ∷ codes "header"
    ∷ codes "footer"
    ∷ []

-- `fold` is the character that stands for all those of its letter, upper and lower case, which
-- `re.I` compares; `is_word` is `\w`.
module _ (fold : ℕ → ℕ) (is_word : ℕ → Bool) where
  unfoldable pub escape_of : List (Text × ℕ) → Text → Option ℕ
  escape_of [] s = none
  escape_of ((digits, c) ∷ es) s =
      if starts_with digits (map fold s) then some c else escape_of es s

  abbrev pub after_u : Text → Option ℕ
  after_u [] = none
  after_u (c ∷ s) = if fold c == 117 then escape_of markup_escapes s else none

  -- `ESCAPED_MARKUP` at the start of a text: the character, and the length of the sequence.
  abbrev pub with_length : ℕ → Option ℕ → Option (ℕ × ℕ)
  with_length n none = none
  with_length n (some c) = some (c, n)

  abbrev pub escape_at : Text → Option (ℕ × ℕ)
  escape_at [] = none
  escape_at (c ∷ s) = if c == 92 then with_length 6 (after_u s) else with_length 5 (after_u (c ∷ s))

  -- `ESCAPED_MARKUP.search(text)`
  unfoldable pub has_escape : Text → Bool
  has_escape [] = false
  has_escape (c ∷ s) = is_some (escape_at (c ∷ s)) || has_escape s

  -- The text with each sequence replaced; `skip` characters belong to the last one.
  unfoldable pub decode : ℕ → Text → Text
  decode skip [] = []
  decode (suc skip) (c ∷ s) = decode skip s
  decode zero (c ∷ s) = elim (escape_at (c ∷ s)) [
    | none ↦ c ∷ decode zero s
    | some (d, n) ↦ d ∷ decode (n - 1) s
  ]

  -- `\b[^>]*>`, of what follows a tag's name: the length up to the `>`.
  unfoldable pub to_close : ℕ → Text → Option ℕ
  to_close n [] = none
  to_close n (c ∷ s) = if c == 62 then some (suc n) else to_close (suc n) s

  abbrev pub ends_word : Text → Bool
  ends_word [] = true
  ends_word (c ∷ s) = not (is_word c)

  unfoldable pub tag_length : List Text → Text → Option ℕ
  tag_length [] s = none
  tag_length (name ∷ names) s =
      if starts_with name (map fold s) && ends_word (drop (length name) s)
      then to_close (length name) (drop (length name) s)
      else tag_length names s

  abbrev pub after_slash : Text → Option ℕ
  after_slash [] = none
  after_slash (c ∷ s) =
      if c == 47 then map_suc (tag_length tag_names s) else tag_length tag_names (c ∷ s)
    where
      map_suc : Option ℕ → Option ℕ
      map_suc none = none
      map_suc (some n) = some (suc n)

  -- `INLINE_HTML.sub(" ", text)`
  unfoldable pub drop_tags : ℕ → Text → Text
  drop_tags skip [] = []
  drop_tags (suc skip) (c ∷ s) = drop_tags skip s
  drop_tags zero (c ∷ s) =
      let kept = c ∷ drop_tags zero s in
      if c == 60 then (elim (after_slash s) [ none ↦ kept | some n ↦ 32 ∷ drop_tags n s ]) else kept

  unfoldable pub clean_prose_text : Text → Text
  clean_prose_text text =
      if has_escape text
      then strip (collapse false (drop_tags zero (decode zero text)))
      else strip text
