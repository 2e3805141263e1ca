-- ===== src/Tests/Fusions.antt =====
-- The fusion of two small halves, and of two of 64 hits.
use geek_crawler_rag.Base.{
  ℕ, zero, suc, ◌<◌, ◌≡◌, refl, pos, inr, List, [], ◌∷◌, ◌++◌, some, get_elem?, arith, Text, codes,
  text_eq, ltb, is_listed,
}
use geek_crawler_rag.Query.Fusion.{
  Hit, Scores, Fused, add_rank, add_ranks, insert_score, sort_scores, latest_first, node_of,
  nodes_of, rank_fusion, fuse_halves,
}
use geek_crawler_rag.Query.Fusion.Ranks.{keys}
use geek_crawler_rag.Query.Fusion.Laws.{scores_of}
use geek_crawler_rag.Query.Fusion.Spec.{rank_fusion-both_first}
use geek_crawler_rag.Query.Fusion.Union.{IsUnion, fuse_halves-IsUnion}

abbrev hit : Text → Hit
hit i = record { node_id = i; content = [] }

abbrev dense : List Hit
dense = hit (codes "a") ∷ hit (codes "b") ∷ []

abbrev sparse : List Hit
sparse = hit (codes "c") ∷ hit (codes "b") ∷ []

fuse_halves-IsUnion_example :
    (nodes : List Hit) × (scores : Scores) × (fuse_halves ltb
        (3 ∷ 2 ∷ [])
        dense
        (9 ∷ 7 ∷ [])
        sparse
        (pos 4)
      ≡ Fused.fused nodes scores)
    × IsUnion dense sparse nodes scores
fuse_halves-IsUnion_example =
    fuse_halves-IsUnion ltb (3 ∷ 2 ∷ []) dense (9 ∷ 7 ∷ []) sparse 4 (omega arith) (omega arith)

abbrev scores : Scores
scores = (codes "b", (124, 3844)) ∷ (codes "a", (1, 61)) ∷ (codes "c", (1, 61)) ∷ []

fusion_run :
    rank_fusion dense sparse (codes "a" ∷ codes "b" ∷ []) (codes "c" ∷ codes "b" ∷ []) (pos 4)
    ≡ Fused.fused (hit (codes "b") ∷ hit (codes "a") ∷ hit (codes "c") ∷ []) scores
unfolding rank_fusion add_rank add_ranks insert_score sort_scores latest_first node_of nodes_of
    text_eq
fusion_run = refl

rank_fusion-both_first_example : 0 < 2
unfolding is_listed text_eq
rank_fusion-both_first_example =
    rank_fusion-both_first dense sparse (codes "a" ∷ codes "b" ∷ []) (codes "c" ∷ codes "b" ∷ [])
      (pos 4) (hit (codes "b") ∷ hit (codes "a") ∷ hit (codes "c") ∷ []) scores (codes "b")
      (codes "c") 1 1 0 0 2 (refl, (refl, tt)) (refl, (refl, tt)) fusion_run refl refl (omega arith)
      (omega arith) (inr (refl, refl)) refl refl

-- One-letter ids from a number on.
abbrev count : ℕ → ℕ → List Text
count start zero = []
count start (suc n) = (start ∷ []) ∷ count (suc start) n

-- A node that both halves return at rank 64 comes after those that one half alone returns at rank 1.
late_in_both :
    get_elem?
      (keys
        (sort_scores (scores_of (count 100 63 ++ (7 ∷ []) ∷ []) (count 200 63 ++ (7 ∷ []) ∷ []))))
      3
    ≡ some (7 ∷ [])
unfolding add_rank add_ranks insert_score sort_scores text_eq
late_in_both = refl
