-- ===== src/Query/Fusion/Spec.antt =====
-- Where a node that both halves return stands in the fused list.
use geek_crawler_rag.Base.{
  ℕ, ◌+◌, ◌*◌, ◌≤◌, ◌<◌, ◌≡◌, ◌∙◌, ◌⊎◌, sym, ap, subst, ℤ, true, false, List, [], ◌∷◌, ◌++◌, Option,
  none, some, inl, inr, get_elem?, arith, Text, is_listed, IsUnique,
}
use geek_crawler_rag.Query.Fusion.{
  Hit, Score, Scores, add_reciprocal, is_below, add_ranks, sort_scores, cut, nodes_of, Fused,
  with_nodes, fuse, latest_first, rank_fusion,
}
use geek_crawler_rag.Query.Fusion.Order.{two_beat_one}
use geek_crawler_rag.Query.Fusion.Ranks.{
  keys, score_at, added, score_at-add_ranks, added_unlisted, added_placed,
}
use geek_crawler_rag.Query.Fusion.Laws.{scores_of, IsRanking, fused-IsRanking, IsRanking-before}

abbrev pub one_rank : ℕ → Score
one_rank t = add_reciprocal (1 + t) (0, 1)

abbrev pub two_ranks : ℕ → ℕ → Score
two_ranks p q = add_reciprocal (1 + q) (add_reciprocal (1 + p) (0, 1))

one_below_two : (p q t : ℕ) → p ≤ 60 → q ≤ 60 → is_below (one_rank t) (two_ranks p q) ≡ true
one_below_two p q t h k =
    let product = two_beat_one p q t h k in
    let less : (0 * (60 + (1 + t)) + 1) * (1 * (60 + (1 + p)) * (60 + (1 + q)))
        < ((0 * (60 + (1 + p)) + 1) * (60 + (1 + q)) + 1 * (60 + (1 + p))) * (1 * (60 + (1 + t))) =
      grind (arith, product) in
    ground (arith, less)

-- The text has the rank in one half, and none in the other.
abbrev pub IsInOne : List Text → List Text → Text → ℕ → Type 0
IsInOne ds ss y t =
    ((get_elem? ds t ≡ some y) × (is_listed y ss ≡ false))
    ⊎ ((is_listed y ds ≡ false) × (get_elem? ss t ≡ some y))

module _ (ds ss : List Text) (unique_ds : IsUnique ds) (unique_ss : IsUnique ss) where
  score_lem : (j : Text) → score_at (scores_of ds ss) j ≡ added 1 ss j (added 1 ds j (0, 1))
  score_lem j =
      score_at-add_ranks 1 ss (add_ranks 1 ds []) j
      ∙ ap (added 1 ss j) (score_at-add_ranks 1 ds [] j)

  in_both :
      (x : Text) (p q : ℕ)
      → get_elem? ds p ≡ some x
      → get_elem? ss q ≡ some x
      → score_at (scores_of ds ss) x ≡ two_ranks p q
  in_both x p q e f =
      score_lem x
      ∙ (ap (added 1 ss x) (added_placed 1 ds x (0, 1) p unique_ds e)
          ∙ added_placed 1 ss x (add_reciprocal (1 + p) (0, 1)) q unique_ss f)

  in_one : (y : Text) (t : ℕ) → IsInOne ds ss y t → score_at (scores_of ds ss) y ≡ one_rank t
  in_one y t (inl (e, n)) =
      score_lem y
      ∙ (added_unlisted 1 ss y (added 1 ds y (0, 1)) n ∙ added_placed 1 ds y (0, 1) t unique_ds e)
  in_one y t (inr (n, f)) =
      score_lem y
      ∙ (ap (added 1 ss y) (added_unlisted 1 ds y (0, 1) n)
          ∙ added_placed 1 ss y (0, 1) t unique_ss f)

fuse_scores :
    (hits : List Hit) (ds ss : List Text) (top_k : ℤ) (nodes : List Hit) (scores : Scores)
    → fuse hits ds ss top_k ≡ Fused.fused nodes scores
    → scores ≡ cut top_k (sort_scores (scores_of ds ss))
fuse_scores [] ds ss top_k nodes scores e = cc
fuse_scores (h ∷ hits) ds ss top_k nodes scores e =
    kept (nodes_of (h ∷ hits) (cut top_k (sort_scores (scores_of ds ss)))) e
  where
    kept :
        (o : Option (List Hit))
        → with_nodes (cut top_k (sort_scores (scores_of ds ss))) o ≡ Fused.fused nodes scores
        → scores ≡ cut top_k (sort_scores (scores_of ds ss))
    kept none e = cc
    kept (some ns) e = cc

-- In the fused list of two halves without repeats, whatever its limit, a node that both halves rank
-- among their first 61 comes before each node that one half alone returns.
pub rank_fusion-both_first :
    (dense sparse : List Hit) (ds ss : List Text) (top_k : ℤ) (nodes : List Hit) (scores : Scores)
    (x y : Text) (p q t i j : ℕ)
    → IsUnique ds
    → IsUnique ss
    → rank_fusion dense sparse ds ss top_k ≡ Fused.fused nodes scores
    → get_elem? ds p ≡ some x
    → get_elem? ss q ≡ some x
    → p ≤ 60
    → q ≤ 60
    → IsInOne ds ss y t
    → get_elem? (keys scores) i ≡ some x
    → get_elem? (keys scores) j ≡ some y
    → i < j
unfolding rank_fusion
rank_fusion-both_first dense sparse ds ss top_k nodes scores x y p q t i j ud us e at_p at_q h k one
      at_i at_j =
    let ranking =
      subst (IsRanking (scores_of ds ss))
        (sym (fuse_scores (latest_first dense ++ sparse) ds ss top_k nodes scores e))
        (fused-IsRanking ds ss top_k) in
    IsRanking-before (scores_of ds ss) scores i j x y ranking at_i at_j (
      rw (in_both ds ss ud us x p q at_p at_q, in_one ds ss ud us y t one)
        (one_below_two p q t h k))
