-- ===== src/Chunk/Window.antt =====
-- `chunk_text` and `_fit_window` of src/geek_crawler_rag/chunk.py, over the `ChunkTokenizer`
-- protocol of src/geek_crawler_rag/chunk_tokenizer.py.
use geek_crawler_rag.Base.{
  ℕ, zero, suc, ◌+◌, ◌-◌, min, ℤ, pos, negsuc, Bool, true, ◌&&◌, List, [], ◌∷◌, Option, none, some,
  ltb, leb, if◌then◌else◌, length, get_or, All, Option-cases, inl, inr, ◌≡◌, ◌⊎◌, false, arith,
  take, drop, Text, strip, is_empty,
}

-- The embedding model's tokenizer. `token_spans` gives one half-open character span a content token.
pub record ChunkTokenizer : Type 0 where
  pub sequence_limit : ℕ
  pub special_token_overhead : ℕ
  pub token_spans : Text → List (ℕ × ℕ)

pub data ChunkError : Type 0 where
  size_too_small overlap_out_of_range over_model_budget out_of_fuel : ChunkError

pub data Result {ℓ} (A : Type ℓ) : Type ℓ where
  ok : A → Result A
  err : ChunkError → Result A

-- `text[a:b]`
abbrev pub slice : Text → ℕ → ℕ → Text
slice text a b = take (b - a) (drop a text)

-- One round of the loop: the tokens `first` to `last` that it took, and the text of them.
pub record Window : Type 0 where
  pub first : ℕ
  pub last : ℕ
  pub piece : Text

abbrev pub push : Window → Option (List Window) → Option (List Window)
push window none = none
push window (some ws) = some (window ∷ ws)

module _ (tok : ChunkTokenizer) (cleaned : Text) (spans : List (ℕ × ℕ)) (size : ℕ) where
  -- `cleaned[spans[start][0] : spans[end - 1][1]].strip()`, for `end = start + count + 1`.
  abbrev pub window_text : ℕ → ℕ → Text
  window_text start count =
      strip (slice cleaned (get_or spans start (0, 0)).0 (get_or spans (start + count) (0, 0)).1)

  -- `_fit_window` for `end = start + count`.
  unfoldable pub fit_window : ℕ → ℕ → Window
  fit_window start zero = record { first = start; last = start + 1; piece = [] }
  fit_window start (suc count) =
      let piece = window_text start count in
      let shorter = fit_window start count in
      if is_empty piece
      then record { first = start; last = start + suc count; piece = [] }
      else if leb (length (tok.token_spans piece)) size
      then record { first = start; last = start + suc count; piece = piece }
      else shorter

  -- The loop `while start < len(spans)`; `none` means that the fuel ran out.
  unfoldable pub windows : ℕ → ℕ → ℕ → Option (List Window)
  windows step zero start = none
  windows step (suc fuel) start =
      let window = fit_window start (min (start + size) (length spans) - start) in
      let rest = windows step fuel (start + step) in
      if ltb start (length spans)
      then (if leb (length spans) window.last then some (window ∷ []) else push window rest)
      else some []

  -- What holds of every window that `_fit_window` makes holds of every round of the loop.
  pub windows_induction {κ} :
      (P : Window → Type κ)
      → ((start count : ℕ) → P (fit_window start count))
      → (step fuel start : ℕ) (ws : List Window) → windows step fuel start ≡ some ws
      → All P ws
  unfolding windows
  windows_induction P h step zero start ws e = cc
  windows_induction P h step (suc fuel) start ws e =
      let p = h start (min (start + size) (length spans) - start) in
      elim (Option-cases (windows step fuel (start + step))) [
        | inl n ↦ ground (arith, n)
        | inr (r, s) ↦ ground (arith, p, windows_induction P h step fuel (start + step) r s)
      ]

-- `if piece: chunks.append(piece)`
unfoldable pub pieces : List Window → List Text
pieces [] = []
pieces (w ∷ ws) = if is_empty w.piece then pieces ws else w.piece ∷ pieces ws

-- `size_tokens > usable`, where the model has a limit that leaves room for content.
abbrev pub exceeds_model : ChunkTokenizer → ℕ → Bool
exceeds_model tok size =
    ltb 0 (tok.sequence_limit - tok.special_token_overhead)
    && ltb (tok.sequence_limit - tok.special_token_overhead) size

abbrev pub collect : Option (List Window) → Result (List Text)
collect none = err out_of_fuel
collect (some ws) = ok (pieces ws)

-- The loop starts at most once for each token.
unfoldable pub chunk_windows : ChunkTokenizer → Text → ℕ → ℕ → Option (List Window)
unfolding windows fit_window
chunk_windows tok cleaned size overlap =
    let spans = tok.token_spans cleaned in
    windows tok cleaned spans size (size - overlap) (suc (length spans)) 0

abbrev pub bad_overlap : ℕ → ℤ → Bool
bad_overlap size (negsuc n) = true
bad_overlap size (pos overlap) = leb size overlap

abbrev pub to_ℕ : ℤ → ℕ
to_ℕ (pos n) = n
to_ℕ (negsuc n) = 0

unfoldable pub chunk_text : ChunkTokenizer → Text → ℤ → ℤ → Result (List Text)
chunk_text tok text size overlap =
    let cleaned = strip text in
    if is_empty cleaned
    then ok []
    else if ltb (to_ℕ size) 1
    then err size_too_small
    else if bad_overlap (to_ℕ size) overlap
    then err overlap_out_of_range
    else if exceeds_model tok (to_ℕ size)
    then err over_model_budget
    else collect (chunk_windows tok cleaned (to_ℕ size) (to_ℕ overlap))

-- A successful call had no text, or passed every guard and ran the loop.
pub chunk_text_cases :
    (tok : ChunkTokenizer) (text : Text) (size overlap : ℤ) (cs : List Text)
    → chunk_text tok text size overlap ≡ ok cs
    → (cs ≡ [])
      ⊎ ((collect (chunk_windows tok (strip text) (to_ℕ size) (to_ℕ overlap)) ≡ ok cs)
          × (exceeds_model tok (to_ℕ size) ≡ false))
unfolding chunk_text
chunk_text_cases tok text size overlap cs e = ground arith
