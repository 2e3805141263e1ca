-- ===== src/Chunk/Verbatim.antt =====
-- No chunk is rebuilt from tokens: each is a part of the text, character for character.
use geek_crawler_rag.Base.{
  ℕ, zero, suc, ◌-◌, ◌≡◌, inl, inr, ℤ, List, [], ◌∷◌, some, arith, length, All, All-map, Text,
  strip, is_empty, Infix, Infix-trans, strip-Infix, slice-Infix, Option-cases, subst, Bool-cases,
  leb, refl,
}
use geek_crawler_rag.Chunk.Window.{
  ChunkTokenizer, Window, ok, fit_window, window_text, windows_induction, pieces, chunk_text,
  chunk_text_cases, chunk_windows, to_ℕ,
}

module _ (tok : ChunkTokenizer) (cleaned : Text) (spans : List (ℕ × ℕ)) (size : ℕ) where
  window_text-Infix :
      (start count : ℕ) → Infix (window_text tok cleaned spans size start count) cleaned
  window_text-Infix start count =
      Infix-trans (window_text tok cleaned spans size start count) _ cleaned (strip-Infix _)
        (slice-Infix _ _ cleaned)

  fit_window-Infix :
      (start count : ℕ) → Infix (fit_window tok cleaned spans size start count).piece cleaned
  unfolding fit_window
  fit_window-Infix start zero = ([], cleaned, refl)
  fit_window-Infix start (suc count) =
      let piece = window_text tok cleaned spans size start count in
      elim (Bool-cases (is_empty piece)) [
        | inl e ↦ rw e ([], cleaned, refl)
        | inr n ↦ elim (Bool-cases (leb (length (tok.token_spans piece)) size)) [
          | inl fits ↦ rw (n, fits) (window_text-Infix start count)
          | inr long ↦ rw (n, long) (fit_window-Infix start count)
        ]
      ]

pieces-All {ℓ} :
    (P : Text → Type ℓ) (ws : List Window) → All (λ w. P w.piece) ws → All P (pieces ws)
unfolding pieces
pieces-All P [] h = tt
pieces-All P (w ∷ ws) h = elim (Bool-cases (is_empty w.piece)) [
  | inl e ↦ rw e (pieces-All P ws h.1)
  | inr n ↦ rw n (h.0, pieces-All P ws h.1)
]

chunk_windows-Infix :
    (tok : ChunkTokenizer) (cleaned : Text) (size overlap : ℕ) (ws : List Window)
    → chunk_windows tok cleaned size overlap ≡ some ws
    → All (λ c. Infix c cleaned) (pieces ws)
unfolding chunk_windows
chunk_windows-Infix tok cleaned size overlap ws e =
    pieces-All (λ c. Infix c cleaned) ws
      (windows_induction tok cleaned (tok.token_spans cleaned) size (λ w. Infix w.piece cleaned)
        (fit_window-Infix tok cleaned (tok.token_spans cleaned) size) (size - overlap)
        (suc (length (tok.token_spans cleaned))) 0 ws e)

-- Every chunk stands in the text that was given, character for character.
pub chunk_text-Infix :
    (tok : ChunkTokenizer) (text : Text) (size overlap : ℤ) (cs : List Text)
    → chunk_text tok text size overlap ≡ ok cs
    → All (λ c. Infix c text) cs
chunk_text-Infix tok text size overlap cs e = elim (chunk_text_cases tok text size overlap cs e) [
  | inl n ↦ rw n tt
  | inr (c, x) ↦ elim (Option-cases (chunk_windows tok (strip text) (to_ℕ size) (to_ℕ overlap))) [
    | inl n ↦ absurd (ground (arith, n))
    | inr (ws, s) ↦ subst (All (λ c. Infix c text)) (ground arith) (
        All-map (λ (p : Text) i. Infix-trans p (strip text) text i (strip-Infix text)) (pieces ws)
          (chunk_windows-Infix tok (strip text) (to_ℕ size) (to_ℕ overlap) ws s))
  ]
]
