-- ===== src/Chunk/Coverage.antt =====
-- The loop of `chunk_text` ends, and which tokens of the text its chunks hold.
use geek_crawler_rag.Base.{
  ℕ, zero, suc, ◌+◌, ◌-◌, ◌≤◌, ◌<◌, min, ◌≡◌, ◌≢◌, subst, refl, ◌⊎◌, inl, inr, pos, false, List, [],
  ◌∷◌, none, some, arith, length, All, Text, strip, is_empty, Bool-cases, Option-cases,
}
use geek_crawler_rag.Chunk.Window.{
  ChunkTokenizer, Window, ok, fit_window, windows, window_text, pieces, chunk_text, chunk_windows,
  exceeds_model,
}

-- A window that is kept holds the token.
abbrev pub Covered : ℕ → List Window → Type 0
Covered i [] = ⊥
Covered i (w ∷ ws) = ((is_empty w.piece ≡ false) × (w.first ≤ i) × (i < w.last)) ⊎ Covered i ws

-- The window is kept, and reaches the end of the text or the start of the next window.
abbrev pub Reaches : ℕ → ℕ → Window → Type 0
Reaches n step w = (is_empty w.piece ≡ false) × ((n ≤ w.last) ⊎ (w.first + step ≤ w.last))

All-le : (a k : ℕ) (ws : List Window) → All (λ w. a + k ≤ w.first) ws → All (λ w. a ≤ w.first) ws
All-le a k [] h = tt
All-le a k (w ∷ ws) h = (omega arith, All-le a k ws h.1)

not-Covered : (i a : ℕ) (ws : List Window) → All (λ w. a ≤ w.first) ws → i < a → ¬ Covered i ws
not-Covered i a [] h k c = c
not-Covered i a (w ∷ ws) h k (inl c) = omega arith
not-Covered i a (w ∷ ws) h k (inr c) = not-Covered i a ws h.1 k c

not-Covered_cons :
    (i : ℕ) (w : Window) (ws : List Window) → w.last ≤ i → ¬ Covered i ws → ¬ Covered i (w ∷ ws)
not-Covered_cons i w ws h k (inl c) = omega arith
not-Covered_cons i w ws h k (inr c) = k c

module _ (tok : ChunkTokenizer) (cleaned : Text) (spans : List (ℕ × ℕ)) (size : ℕ) where
  first-fit_window :
      (start count : ℕ) → (fit_window tok cleaned spans size start count).first ≡ start
  unfolding fit_window
  first-fit_window start zero = refl
  first-fit_window start (suc count) = ground (arith, first-fit_window start count)

  -- `start` grows by at least one token a round, so one round for each token and one more are enough.
  windows-ne-none :
      (step fuel start : ℕ)
      → 0 < step
      → length spans ≤ start + fuel
      → windows tok cleaned spans size step (suc fuel) start ≢ none
  unfolding windows
  windows-ne-none step zero start p h = ground arith
  windows-ne-none step (suc fuel) start p h =
      ground (arith, windows-ne-none step fuel (start + step))

  -- No window starts before the loop does.
  windows_after :
      (step fuel start : ℕ) (ws : List Window)
      → windows tok cleaned spans size step fuel start ≡ some ws
      → All (λ w. start ≤ w.first) ws
  unfolding windows
  windows_after step zero start ws e = cc
  windows_after step (suc fuel) start ws e =
      let w = fit_window tok cleaned spans size start (min (start + size) (length spans) - start) in
      let f : w.first ≡ start =
        first-fit_window start (min (start + size) (length spans) - start) in
      elim (Option-cases (windows tok cleaned spans size step fuel (start + step))) [
        | inl n ↦ ground (arith, f)
        | inr (r, s) ↦
            ground (arith, f, All-le start step r (windows_after step fuel (start + step) r s))
      ]

  windows-Covered :
      (step fuel start i : ℕ) (ws : List Window)
      → windows tok cleaned spans size step fuel start ≡ some ws
      → All (Reaches (length spans) step) ws
      → start ≤ i
      → i < length spans
      → Covered i ws
  unfolding windows
  windows-Covered step zero start i ws e r lo hi = cc
  windows-Covered step (suc fuel) start i ws e r lo hi =
      let w = fit_window tok cleaned spans size start (min (start + size) (length spans) - start) in
      let f : w.first ≡ start =
        first-fit_window start (min (start + size) (length spans) - start) in
      elim (Option-cases (windows tok cleaned spans size step fuel (start + step))) [
        | inl n ↦ ground (arith, f)
        | inr (rest, s) ↦ ground (arith, f, windows-Covered step fuel (start + step) i rest s)
      ]

  -- No window of at most `size` tokens measures more on its own than it did in the text.
  abbrev pub IsCompact : Type 0
  IsCompact =
      (start count : ℕ)
      → start + count < length spans
      → count < size
      → (is_empty (window_text tok cleaned spans size start count) ≡ false)
        × (length (tok.token_spans (window_text tok cleaned spans size start count)) ≤ size)

  fit_window_whole :
      (start count : ℕ)
      → IsCompact
      → start + count < length spans
      → count < size
      → let w = fit_window tok cleaned spans size start (suc count) in
        (is_empty w.piece ≡ false) × (w.first ≡ start) × (w.last ≡ start + suc count)
  unfolding fit_window
  fit_window_whole start count c h k = ground (arith, c start count h k)

  -- The window that the loop takes at `start`.
  fit_window-Reaches :
      (step start n : ℕ)
      → IsCompact
      → start < length spans
      → step ≤ size
      → start + n ≡ min (start + size) (length spans)
      → 0 < n
      → Reaches (length spans) step (fit_window tok cleaned spans size start n)
  fit_window-Reaches step start zero c h q e p = absurd (omega arith)
  fit_window-Reaches step start (suc n) c h q e p = ground (arith, fit_window_whole start n c)

  windows-Reaches :
      (step fuel start : ℕ) (ws : List Window)
      → IsCompact
      → 0 < size
      → step ≤ size
      → windows tok cleaned spans size step fuel start ≡ some ws
      → All (Reaches (length spans) step) ws
  unfolding windows
  windows-Reaches step zero start ws c p q e = cc
  windows-Reaches step (suc fuel) start ws c p q e =
      elim (Option-cases (windows tok cleaned spans size step fuel (start + step))) [
        | inl n ↦
            ground
              (arith, fit_window-Reaches step start (min (start + size) (length spans) - start) c)
        | inr (r, s) ↦ ground (
          arith,
          fit_window-Reaches step start (min (start + size) (length spans) - start) c,
          windows-Reaches step fuel (start + step) r c p q s,
        )
      ]

  windows_gap :
      (step fuel count : ℕ) (ws : List Window)
      → count ≡ min (0 + size) (length spans) - 0
      → (fit_window tok cleaned spans size 0 count).last < length spans
      → (fit_window tok cleaned spans size 0 count).last < step
      → windows tok cleaned spans size step (suc fuel) 0 ≡ some ws
      → ¬ Covered (fit_window tok cleaned spans size 0 count).last ws
  unfolding windows
  windows_gap step fuel count ws c h k e =
      elim (Option-cases (windows tok cleaned spans size step fuel (0 + step))) [
        | inl n ↦ absurd (ground (arith, c))
        | inr (r, s) ↦
            let w = fit_window tok cleaned spans size 0 count in
            let after : All (λ v. step ≤ v.first) r =
              subst (λ a. All (λ v. a ≤ v.first) r) (omega arith)
                (windows_after step fuel (0 + step) r s) in
            let shape : ws ≡ w ∷ r = ground (arith, c) in
            rw shape (not-Covered_cons w.last w r le_self (not-Covered w.last step r after k))
      ]
    where
      le_self : {n : ℕ} → n ≤ n
      le_self = omega arith

-- With an overlap below the size, and a size that does not exceed the model's budget, the call returns
-- its chunks: the fuel of the loop never runs out.
pub chunk_text_total :
    (tok : ChunkTokenizer) (text : Text) (size overlap : ℕ)
    → overlap < size
    → exceeds_model tok size ≡ false
    → (cs : List Text) × (chunk_text tok text (pos size) (pos overlap) ≡ ok cs)
unfolding chunk_text
chunk_text_total tok text size overlap h x = elim (Bool-cases (is_empty (strip text))) [
  | inl blank ↦ ([], ground arith)
  | inr some_text ↦ elim (Option-cases (chunk_windows tok (strip text) size overlap)) [
    | inl n ↦ absurd (
        windows-ne-none tok (strip text) (tok.token_spans (strip text)) size (size - overlap)
          (length (tok.token_spans (strip text))) 0 (omega arith) (omega arith)
          (unfold chunk_windows in n))
    | inr (ws, s) ↦ (pieces ws, ground arith)
  ]
]

-- If the text of every window of at most `size` tokens is non-empty and measures at most `size`
-- tokens on its own, and the overlap is below `size`, every token of the text lies in a window that
-- is kept.
pub chunk_windows-Covered :
    (tok : ChunkTokenizer) (cleaned : Text) (size overlap : ℕ) (ws : List Window) (i : ℕ)
    → IsCompact tok cleaned (tok.token_spans cleaned) size
    → overlap < size
    → chunk_windows tok cleaned size overlap ≡ some ws
    → i < length (tok.token_spans cleaned)
    → Covered i ws
unfolding chunk_windows
chunk_windows-Covered tok cleaned size overlap ws i c h e k =
    let spans = tok.token_spans cleaned in
    windows-Covered tok cleaned spans size (size - overlap) (suc (length spans)) 0 i ws e
      (windows-Reaches tok cleaned spans size (size - overlap) (suc (length spans)) 0 ws c
        (omega arith) (omega arith) e)
      (omega arith) k

-- The loop steps by `size - overlap` however far `_fit_window` shrank the window: where the first
-- window ends short of the text and of the next window's start, the token at its end is in no
-- window that is kept.
pub chunk_windows_gap :
    (tok : ChunkTokenizer) (cleaned : Text) (size overlap : ℕ) (ws : List Window)
    → let spans = tok.token_spans cleaned in
      let w = fit_window tok cleaned spans size 0 (min size (length spans)) in
      w.last < length spans
      → w.last < size - overlap
      → chunk_windows tok cleaned size overlap ≡ some ws
      → ¬ Covered w.last ws
unfolding chunk_windows
chunk_windows_gap tok cleaned size overlap ws h k e =
    windows_gap tok cleaned (tok.token_spans cleaned) size (size - overlap)
      (length (tok.token_spans cleaned)) (min size (length (tok.token_spans cleaned))) ws
      (omega arith) h k e
