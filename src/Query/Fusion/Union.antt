-- ===== src/Query/Fusion/Union.antt =====
-- The fusion of the halves of a search is their union, in the order of the scores.
use geek_crawler_rag.Base.{
  ℕ, suc, ◌+◌, ◌≤◌, ◌<◌, ◌≡◌, ◌∙◌, refl, sym, ap, subst, pos, Bool, true, ◌||◌, List, [], ◌∷◌, ◌++◌,
  map, map-append, inl, inr, length, length-map, length-append, ◌==◌, Bool-cases, arith, Text,
  text_eq, is_listed, IsUnique,
}
use geek_crawler_rag.Query.Fusion.{
  Hit, Scores, sort_scores, cut, Fused, fuse, latest_first, rank_fusion, insert_hit, sort_hits,
  zip_hits, ranked_ids, fuse_halves,
}
use geek_crawler_rag.Query.Fusion.Order.{IsSorted}
use geek_crawler_rag.Query.Fusion.Ranks.{keys}
use geek_crawler_rag.Query.Fusion.Keys.{listed-sort_scores, IsUnique-sort_scores}
use geek_crawler_rag.Query.Fusion.Laws.{
  scores_of, ids_of, listed-scores_of, IsUnique-scores_of, cut_none, nodes_of_listed, keys_All,
  fused-IsRanking,
}

module _ {Number : Type 0} (less : Number → Number → Bool) where
  insert_ids :
      (x : Number × Hit) (ys : List (Number × Hit)) (j : Text)
      → is_listed j (map (λ p. p.1.node_id) (insert_hit less x ys))
        ≡ is_listed j (map (λ p. p.1.node_id) (x ∷ ys))
  unfolding insert_hit is_listed
  insert_ids x [] j = refl
  insert_ids x (y ∷ ys) j = elim (Bool-cases (less x.0 y.0)) [
    | inl b ↦ rw (b, insert_ids x ys j) (ground arith)
    | inr b ↦ rw b refl
  ]

  sort_ids :
      (xs : List (Number × Hit)) (j : Text)
      → is_listed j (map (λ p. p.1.node_id) (sort_hits less xs))
        ≡ is_listed j (map (λ p. p.1.node_id) xs)
  unfolding sort_hits is_listed
  sort_ids [] j = refl
  sort_ids (x ∷ xs) j =
      insert_ids x (sort_hits less xs) j ∙ ap (λ b. text_eq x.1.node_id j || b) (sort_ids xs j)

  zip_ids :
      (sims : List Number) (hits : List Hit)
      → length sims ≡ length hits
      → map (λ p. p.1.node_id) (zip_hits less sims hits) ≡ ids_of hits
  unfolding zip_hits
  zip_ids [] [] e = refl
  zip_ids [] (h ∷ hits) e = absurd (no_zero (length hits) e)
    where
      no_zero : (n : ℕ) → 0 ≡ suc n → ⊥
      no_zero n q = omega arith
  zip_ids (s ∷ sims) [] e = absurd (no_suc (length sims) e)
    where
      no_suc : (n : ℕ) → suc n ≡ 0 → ⊥
      no_suc n q = omega arith
  zip_ids (s ∷ sims) (h ∷ hits) e = ap (◌∷◌ h.node_id) (zip_ids sims hits (omega arith))

  insert_length :
      (x : Number × Hit) (ys : List (Number × Hit))
      → length (insert_hit less x ys) ≡ suc (length ys)
  unfolding insert_hit
  insert_length x [] = refl
  insert_length x (y ∷ ys) = elim (Bool-cases (less x.0 y.0)) [
    | inl b ↦ rw b (omega (arith, insert_length x ys))
    | inr b ↦ rw b refl
  ]

  sort_length : (xs : List (Number × Hit)) → length (sort_hits less xs) ≡ length xs
  unfolding sort_hits
  sort_length [] = refl
  sort_length (x ∷ xs) = omega (arith, insert_length x (sort_hits less xs), sort_length xs)

  -- The ids of one half are those of its nodes.
  pub ranked_lem :
      (sims : List Number) (hits : List Hit)
      → ((j : Text) → is_listed j (ranked_ids less sims hits) ≡ is_listed j (ids_of hits))
        × (length (ranked_ids less sims hits) ≡ length hits)
  unfolding ranked_ids
  ranked_lem sims hits = elim (Bool-cases (length sims == length hits)) [
    | inr b ↦ rw b (λ j. refl, length-map (λ (h : Hit). h.node_id) hits)
    | inl b ↦
        let same : length sims ≡ length hits = ground arith in
        let zipped = zip_ids sims hits same in
        let counted : length (zip_hits less sims hits) ≡ length hits =
          sym (length-map (λ (p : Number × Hit). p.1.node_id) (zip_hits less sims hits))
          ∙ (ap length zipped ∙ length-map (λ (h : Hit). h.node_id) hits) in
        rw b (
          λ j. sort_ids (zip_hits less sims hits) j ∙ ap (is_listed j) zipped,
          length-map (λ (p : Number × Hit). p.1.node_id) (sort_hits less (zip_hits less sims hits))
              ∙ (sort_length (zip_hits less sims hits) ∙ counted),
        )
  ]

listed-append :
    (xs ys : List Text) (j : Text) → is_listed j (xs ++ ys) ≡ (is_listed j xs || is_listed j ys)
unfolding is_listed
listed-append [] ys j = refl
listed-append (x ∷ xs) ys j = rw (listed-append xs ys j) (ground arith)

-- The fused list of all hits of the halves, with its nodes.
abbrev pub IsUnion : List Hit → List Hit → List Hit → Scores → Type 0
IsUnion dense sparse nodes scores =
    ((j : Text)
      → is_listed j (keys scores) ≡ (is_listed j (ids_of dense) || is_listed j (ids_of sparse)))
    × IsUnique (keys scores)
    × (ids_of nodes ≡ keys scores)
    × IsSorted scores

fuse-IsUnion :
    (hits dense sparse : List Hit) (ds ss : List Text) (top_k : ℕ)
    → ((j : Text)
        → is_listed j (ids_of hits) ≡ (is_listed j (ids_of dense) || is_listed j (ids_of sparse)))
    → 0 < length hits
    → ((j : Text) → is_listed j ds ≡ is_listed j (ids_of dense))
    → ((j : Text) → is_listed j ss ≡ is_listed j (ids_of sparse))
    → length ds + length ss ≤ top_k
    → (nodes : List Hit) × (scores : Scores) × (fuse hits ds ss (pos top_k)
        ≡ Fused.fused nodes scores)
      × IsUnion dense sparse nodes scores
fuse-IsUnion [] dense sparse ds ss top_k whole filled from_ds from_ss room =
    absurd (none_filled filled)
  where
    none_filled : 0 < 0 → ⊥
    none_filled h = omega arith
fuse-IsUnion (h ∷ hits) dense sparse ds ss top_k whole filled from_ds from_ss room =
    let dict : Scores = scores_of ds ss in
    let uncut : cut (pos top_k) (sort_scores dict) ≡ sort_scores dict = cut_none ds ss top_k room in
    let (nodes, found, same) =
      nodes_of_listed (h ∷ hits) (sort_scores dict)
        (keys_All (h ∷ hits) (sort_scores dict) among) in
    (
      nodes,
      sort_scores dict,
      rw (uncut, found) refl,
      (
        members,
        IsUnique-sort_scores dict (IsUnique-scores_of ds ss),
        same,
        subst IsSorted uncut (fused-IsRanking ds ss (pos top_k)).1,
      ),
    )
  where
    members :
        (j : Text)
        → is_listed j (keys (sort_scores (scores_of ds ss)))
          ≡ (is_listed j (ids_of dense) || is_listed j (ids_of sparse))
    members j =
        listed-sort_scores (scores_of ds ss) j
        ∙ (listed-scores_of ds ss j ∙ rw (from_ds j, from_ss j) refl)

    among :
        (j : Text)
        → is_listed j (keys (sort_scores (scores_of ds ss))) ≡ true
        → is_listed j (ids_of (h ∷ hits)) ≡ true
    among j m = whole j ∙ (sym (members j) ∙ m)

-- The dictionary of the nodes has the ids of both halves.
listed-latest_first :
    (dense : List Hit) (j : Text)
    → is_listed j (ids_of (latest_first dense)) ≡ is_listed j (ids_of dense)
unfolding latest_first is_listed
listed-latest_first [] j = refl
listed-latest_first (h ∷ hs) j =
    ap (is_listed j) (map-append (λ h. h.node_id) (latest_first hs) (h ∷ []))
    ∙ (listed-append (ids_of (latest_first hs)) (h.node_id ∷ []) j
        ∙ rw (listed-latest_first hs j) (ground arith))

listed-entries :
    (dense sparse : List Hit) (j : Text)
    → is_listed j (ids_of (latest_first dense ++ sparse))
      ≡ (is_listed j (ids_of dense) || is_listed j (ids_of sparse))
listed-entries dense sparse j =
    ap (is_listed j) (map-append (λ h. h.node_id) (latest_first dense) sparse)
    ∙ (listed-append (ids_of (latest_first dense)) (ids_of sparse) j
        ∙ rw (listed-latest_first dense j) refl)

length-latest_first : (dense : List Hit) → length (latest_first dense) ≡ length dense
unfolding latest_first
length-latest_first [] = refl
length-latest_first (h ∷ hs) =
    omega (arith, length-latest_first hs, length-append (latest_first hs) (h ∷ []))

-- Where the halves return something, and the limit is not below their hits together, as dense_query
-- sends it, the fusion finds every node: the fused list has each node of either half once, and no
-- other, with no score before a higher one.
pub fuse_halves-IsUnion :
    {Number : Type 0} (less : Number → Number → Bool) (dense_sims : List Number) (dense : List Hit)
    (sparse_sims : List Number) (sparse : List Hit) (top_k : ℕ)
    → 0 < length dense + length sparse
    → length dense + length sparse ≤ top_k
    → (nodes : List Hit) × (scores : Scores) × (fuse_halves less dense_sims dense sparse_sims sparse
          (pos top_k)
        ≡ Fused.fused nodes scores)
      × IsUnion dense sparse nodes scores
unfolding fuse_halves rank_fusion
fuse_halves-IsUnion less dense_sims dense sparse_sims sparse top_k filled room =
    let (from_ds, many_ds) = ranked_lem less dense_sims dense in
    let (from_ss, many_ss) = ranked_lem less sparse_sims sparse in
    fuse-IsUnion (latest_first dense ++ sparse) dense sparse (ranked_ids less dense_sims dense)
      (ranked_ids less sparse_sims sparse) top_k (listed-entries dense sparse)
      (omega (arith, length-latest_first dense, length-append (latest_first dense) sparse, filled))
      from_ds from_ss (omega (arith, many_ds, many_ss))
