-- ===== src/Query/Fusion.antt =====
-- `_rank_fusion` and `_ranked_ids` of src/geek_crawler_rag/llama_engine.py, the fusion of the halves of
-- a hybrid search. A fused score, a float there, is the exact fraction here.
pub mod Order
pub mod Ranks
pub mod Keys
pub mod Laws
pub mod Spec
pub mod Union
use geek_crawler_rag.Base.{
  ℕ, zero, suc, ◌+◌, ◌*◌, ℤ, pos, negsuc, Bool, true, false, List, [], ◌∷◌, ◌++◌, map, Option, none,
  some, if◌then◌else◌, leb, ltb, ◌==◌, length, take, Text, text_eq,
}

pub record Hit : Type 0 where
  pub node_id : Text
  pub content : Text

-- A sum of reciprocals: its numerator and its denominator.
abbrev pub Score : Type 0
Score = ℕ × ℕ

abbrev pub rrf_k : ℕ
rrf_k = 60

-- `score + 1.0 / (RRF_K + rank)`
abbrev pub add_reciprocal : ℕ → Score → Score
add_reciprocal rank (a, b) = (a * (rrf_k + rank) + b, b * (rrf_k + rank))

-- The first score is less than the second.
abbrev pub is_below : Score → Score → Bool
is_below (a, b) (c, d) = ltb (a * d) (c * b)

-- The dictionary of scores, in the order of its insertions.
abbrev pub Scores : Type 0
Scores = List (Text × Score)

-- `score[node_id] = score.get(node_id, 0.0) + 1.0 / (RRF_K + rank)`
unfoldable pub add_rank : ℕ → Text → Scores → Scores
add_rank rank node_id [] = (node_id, add_reciprocal rank (0, 1)) ∷ []
add_rank rank node_id ((i, s) ∷ score) =
    if text_eq i node_id
    then (i, add_reciprocal rank s) ∷ score
    else (i, s) ∷ add_rank rank node_id score

-- The loop over the ids of one half.
unfoldable pub add_ranks : ℕ → List Text → Scores → Scores
add_ranks rank [] score = score
add_ranks rank (i ∷ ids) score = add_ranks (suc rank) ids (add_rank rank i score)

unfoldable pub insert_score : Text × Score → Scores → Scores
insert_score x [] = x ∷ []
insert_score x (y ∷ ys) = if is_below x.1 y.1 then y ∷ insert_score x ys else x ∷ y ∷ ys

-- `sorted`, best first; equal scores keep their order.
unfoldable pub sort_scores : Scores → Scores
sort_scores [] = []
sort_scores (x ∷ xs) = insert_score x (sort_scores xs)

-- `fused[:top_k]`, where the limit is positive.
abbrev pub cut : ℤ → Scores → Scores
cut (negsuc n) fused = fused
cut (pos zero) fused = fused
cut (pos (suc n)) fused = take (suc n) fused

-- A dictionary's last entry at a key stands.
unfoldable pub latest_first : List Hit → List Hit
latest_first [] = []
latest_first (h ∷ hs) = latest_first hs ++ h ∷ []

-- `nodes[i]`: the last node of the meaning half with the id, or else the first of the other half.
unfoldable pub node_of : List Hit → Text → Option Hit
node_of [] i = none
node_of (h ∷ hs) i = if text_eq h.node_id i then some h else node_of hs i

abbrev pub cons_node : Option Hit → Option (List Hit) → Option (List Hit)
cons_node none rest = none
cons_node (some h) none = none
cons_node (some h) (some hs) = some (h ∷ hs)

unfoldable pub nodes_of : List Hit → Scores → Option (List Hit)
nodes_of hits [] = some []
nodes_of hits ((i, s) ∷ fused) = cons_node (node_of hits i) (nodes_of hits fused)

-- No nodes at all, the fused list with its nodes, or the `KeyError`.
pub data Fused : Type 0 where
  no_nodes : Fused
  fused : List Hit → Scores → Fused
  missing_node : Fused

abbrev pub with_nodes : Scores → Option (List Hit) → Fused
with_nodes scores none = Fused.missing_node
with_nodes scores (some hits) = Fused.fused hits scores

abbrev pub fuse : List Hit → List Text → List Text → ℤ → Fused
fuse [] dense_ids sparse_ids top_k = Fused.no_nodes
fuse (h ∷ hits) dense_ids sparse_ids top_k =
    let kept = cut top_k (sort_scores (add_ranks 1 sparse_ids (add_ranks 1 dense_ids []))) in
    with_nodes kept (nodes_of (h ∷ hits) kept)

-- `_rank_fusion`
unfoldable pub rank_fusion : List Hit → List Hit → List Text → List Text → ℤ → Fused
rank_fusion dense sparse dense_ids sparse_ids top_k =
    fuse (latest_first dense ++ sparse) dense_ids sparse_ids top_k

-- `_ranked_ids`, with the order of the scores of a search given.
module _ {Number : Type 0} (less : Number → Number → Bool) where
  unfoldable pub insert_hit : Number × Hit → List (Number × Hit) → List (Number × Hit)
  insert_hit x [] = x ∷ []
  insert_hit x (y ∷ ys) = if less x.0 y.0 then y ∷ insert_hit x ys else x ∷ y ∷ ys

  unfoldable pub sort_hits : List (Number × Hit) → List (Number × Hit)
  sort_hits [] = []
  sort_hits (x ∷ xs) = insert_hit x (sort_hits xs)

  unfoldable pub zip_hits : List Number → List Hit → List (Number × Hit)
  zip_hits [] hits = []
  zip_hits (s ∷ sims) [] = []
  zip_hits (s ∷ sims) (h ∷ hits) = (s, h) ∷ zip_hits sims hits

  unfoldable pub ranked_ids : List Number → List Hit → List Text
  ranked_ids sims hits =
      if length sims == length hits
      then map (λ p. p.1.node_id) (sort_hits (zip_hits sims hits))
      else map (λ h. h.node_id) hits

  -- The fusion of two results of a search.
  unfoldable pub fuse_halves : List Number → List Hit → List Number → List Hit → ℤ → Fused
  fuse_halves dense_sims dense sparse_sims sparse top_k =
      rank_fusion dense sparse (ranked_ids dense_sims dense) (ranked_ids sparse_sims sparse) top_k
