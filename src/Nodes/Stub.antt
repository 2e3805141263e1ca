-- ===== src/Nodes/Stub.antt =====
-- `is_stub_text` of src/geek_crawler_rag/chunk.py. `str.lower` is given.
use geek_crawler_rag.Base.{
  ℕ, suc, Bool, true, false, ◌&&◌, ◌||◌, not, List, [], ◌∷◌, ◌++◌, Option, none, some,
  if◌then◌else◌, leb, ltb, ◌==◌, length, Text, text_eq, is_empty, is_space, strip, join,
}

abbrev pub emit : Text → List Text → List Text
emit [] ws = ws
emit (c ∷ w) ws = (c ∷ w) ∷ ws

-- `str.split`, with the word that is open.
unfoldable pub split_words : Text → Text → List Text
split_words word [] = emit word []
split_words word (c ∷ s) =
    let apart = split_words [] s in
    let inside = split_words (word ++ c ∷ []) s in if is_space c then emit word apart else inside

-- The parts of a text between its slashes.
unfoldable pub slash_parts : Text → Text → List Text
slash_parts part [] = part ∷ []
slash_parts part (c ∷ s) =
    let apart = slash_parts [] s in
    let inside = slash_parts (part ++ c ∷ []) s in if c == 47 then part ∷ apart else inside

unfoldable pub has_newline : Text → Bool
has_newline [] = false
has_newline (c ∷ s) = c == 10 || has_newline s

-- `[^/\n]{1,40}`, of a part without a slash.
unfoldable pub is_segment : Text → Bool
is_segment s = leb 1 (length s) && leb (length s) 40 && not (has_newline s)

-- `\s` and then a segment.
abbrev pub spaced_segment : Text → Bool
spaced_segment [] = false
spaced_segment (c ∷ s) = is_space c && is_segment s

-- A segment and then `\s`.
unfoldable pub segment_spaced : Text → Text → Bool
segment_spaced before [] = false
segment_spaced before (c ∷ []) = is_segment before && is_space c
segment_spaced before (c ∷ d ∷ s) = segment_spaced (before ++ c ∷ []) (d ∷ s)

-- A segment between two `\s`.
abbrev pub both_spaced : Text → Bool
both_spaced [] = false
both_spaced (c ∷ s) = is_space c && segment_spaced [] s

-- The parts after the first one: all but the last stand between two separators.
unfoldable pub crumbs : List Text → Bool
crumbs [] = false
crumbs (p ∷ []) = spaced_segment p
crumbs (p ∷ q ∷ ps) = both_spaced p && crumbs (q ∷ ps)

-- `_BREADCRUMB`, of a text that does not end in a newline.
unfoldable pub is_breadcrumb_parts : List Text → Bool
is_breadcrumb_parts [] = false
is_breadcrumb_parts (p ∷ ps) =
    segment_spaced [] p && leb 1 (length ps) && leb (length ps) 6 && crumbs ps

abbrev pub is_breadcrumb : Text → Bool
is_breadcrumb t = is_breadcrumb_parts (slash_parts [] t)

abbrev pub starts_word : ℕ → Bool
starts_word c = (leb 48 c && leb c 57) || (leb 65 c && leb c 90) || (leb 97 c && leb c 122)

-- `[A-Za-z0-9'’&.-]`
abbrev pub in_word : ℕ → Bool
in_word c = starts_word c || c == 39 || c == 8217 || c == 38 || c == 46 || c == 45

-- `len(_WORD.findall(plain))`, with whether a match is open.
unfoldable pub count_words : Bool → Text → ℕ
count_words inside [] = 0
count_words inside (c ∷ s) =
    let open_after = count_words true s in
    let none_after = count_words false s in
    if inside && in_word c then open_after else if starts_word c then suc open_after else none_after

abbrev pub stub_max_words : ℕ
stub_max_words = 8

module _ (lower : Text → Text) where
  -- `_normalised`
  unfoldable pub normalised : Text → Text
  normalised text = lower (strip (join (32 ∷ []) (split_words [] text)))

  abbrev pub is_title : Text → Option Text → Bool
  is_title plain none = false
  is_title plain (some title) = not (is_empty title) && text_eq plain (normalised title)

  unfoldable pub is_stub_text : Text → Option Text → Bool
  is_stub_text text section_title =
      let plain = normalised text in
      is_empty plain
      || is_title plain section_title
      || is_breadcrumb plain
      || ltb (count_words false plain) stub_max_words
