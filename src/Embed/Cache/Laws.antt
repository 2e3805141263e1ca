-- ===== src/Embed/Cache/Laws.antt =====
-- What a lookup finds in a cache that holds the model's own vectors, and what a write keeps.
use geek_crawler_rag.Base.{
  is_listed, ℕ, ◌≡◌, ◌∙◌, refl, sym, ap, Bool, true, false, ◌||◌, ◌&&◌, List, [], ◌∷◌, ◌++◌, some,
  length, ◌==◌, arith, inl, inr, Text, text_eq, text_eq_iff, All, MemOf, Bool-cases, Option-cases,
}
use geek_crawler_rag.Mongo.Collection.{Collection}
use geek_crawler_rag.Embed.Cache.{
  cache_key, distinct_after, distinct, Vector, CacheRow, Vectors, vector_of, text_of_key, asks_for,
  add_found, read_rows, get_many, new_row, put_many,
}

after_model : (model s t : Text) → model ++ (0 ∷ s) ≡ model ++ (0 ∷ t) → s ≡ t
after_model [] s t e = cc
after_model (c ∷ model) s t e =
    let rest : model ++ (0 ∷ s) ≡ model ++ (0 ∷ t) = cc in after_model model s t rest

-- Under a digest that no two texts share, no two texts have a key in common.
pub cache_key_unique :
    (sha256 : Text → Text) (model : Text)
    → ((x y : Text) → sha256 x ≡ sha256 y → x ≡ y)
    → (s t : Text) → cache_key sha256 model s ≡ cache_key sha256 model t
    → s ≡ t
unfolding cache_key
cache_key_unique sha256 model h s t e = after_model model s t (h _ _ e)

-- Every text of a list is among its distinct ones, or was seen before.
distinct_after-is_listed :
    (seen texts : List Text) (t : Text)
    → is_listed t texts ≡ true
    → (is_listed t seen || is_listed t (distinct_after seen texts)) ≡ true
unfolding is_listed distinct_after
distinct_after-is_listed seen [] t h = cc
distinct_after-is_listed seen (u ∷ us) t h =
    let apart : is_listed t us ≡ true
        → ((text_eq u t || is_listed t seen) || is_listed t (distinct_after (u ∷ seen) us)) ≡ true =
      distinct_after-is_listed (u ∷ seen) us t in
    elim (Bool-cases (is_listed u seen)) [
      | inl s ↦ rw s (elim (Bool-cases (text_eq u t)) [
        | inl e ↦
            let same : u ≡ t = (text_eq_iff u t).0 e in
            let there : is_listed t seen ≡ true = rw (sym same) s in rw there refl
        | inr n ↦ distinct_after-is_listed seen us t (ground (arith, n, h))
      ])
      | inr s ↦ rw s (ground (arith, h, apart))
    ]

pub distinct-is_listed :
    (texts : List Text) (t : Text) → is_listed t texts ≡ true → is_listed t (distinct texts) ≡ true
unfolding is_listed
distinct-is_listed texts t h = distinct_after-is_listed [] texts t h

module _ {Number : Type 0} (embed : Text → Vector Number) where
  -- Each vector of a dictionary is the one that the model gives its text.
  abbrev pub IsFaithful : Vectors Number → Type 0
  IsFaithful = All (λ p. p.1 ≡ embed p.0)

  pub vector_of-IsFaithful :
      (vs : Vectors Number) (t : Text) (v : Vector Number)
      → IsFaithful vs
      → vector_of Number vs t ≡ some v
      → v ≡ embed t
  unfolding vector_of
  vector_of-IsFaithful [] t v h e = cc
  vector_of-IsFaithful ((u, w) ∷ vs) t v h e = elim (Bool-cases (text_eq u t)) [
    | inl y ↦
        let same : u ≡ t = (text_eq_iff u t).0 y in
        let found : w ≡ v = ground (arith, y, e) in sym found ∙ (h.0 ∙ ap embed same)
    | inr n ↦ vector_of-IsFaithful vs t v h.1 (ground (arith, n, e))
  ]

  module _ (cache : Collection (CacheRow Number)) (sha256 : Text → Text) (model : Text)
      (dimensions : ℕ) where
    -- A vector of the right length under a text's key is the one that the model gives the text.
    abbrev pub IsSound : cache.Docs → Type 0
    IsSound d =
        (t : Text) (row : CacheRow Number) (v : Vector Number)
        → cache.find_one d (cache_key sha256 model t) ≡ some row
        → row.vector ≡ some v
        → (length v == dimensions) ≡ true
        → v ≡ embed t

    -- The text found for a key has that key.
    text_of_key_sound :
        (texts : List Text) (key t : Text)
        → text_of_key Number cache sha256 model dimensions texts key ≡ some t
        → cache_key sha256 model t ≡ key
    unfolding text_of_key
    text_of_key_sound [] key t e = cc
    text_of_key_sound (u ∷ us) key t e =
        elim (Option-cases (text_of_key Number cache sha256 model dimensions us key)) [
          | inr (w, found) ↦ text_of_key_sound us key t (found ∙ (rw found at e))
          | inl found ↦ elim (Bool-cases (text_eq (cache_key sha256 model u) key)) [
            | inl y ↦
                let same : u ≡ t = ground (arith, y, rw found at e) in
                rw (sym same) ((text_eq_iff (cache_key sha256 model u) key).0 y)
            | inr n ↦ ground (arith, n, rw found at e)
          ]
        ]

    add_found-IsFaithful :
        (d : cache.Docs) (texts : List Text) (key : Text) (row : CacheRow Number)
        (found : Vectors Number)
        → IsSound d
        → cache.find_one d key ≡ some row
        → IsFaithful found
        → IsFaithful (
            add_found Number cache sha256 model dimensions
              (text_of_key Number cache sha256 model dimensions texts key)
              row.vector
              found)
    add_found-IsFaithful d texts key row found h there old =
        elim (Option-cases (text_of_key Number cache sha256 model dimensions texts key)) [
          | inl e ↦ rw e old
          | inr (t, e) ↦ elim (Option-cases row.vector) [
            | inl m ↦ rw (e, m) old
            | inr (v, m) ↦ elim (Bool-cases (length v == dimensions)) [
              | inl y ↦
                  let same = text_of_key_sound texts key t e in
                  rw (e, m) (rw y (h t row v (rw same there) m y, old))
              | inr n ↦ rw (e, m) (rw n old)
            ]
          ]
        ]

    read_rows-IsFaithful :
        (d : cache.Docs) (texts : List Text) (rows : List (Text × CacheRow Number))
        (found : Vectors Number)
        → IsSound d
        → All (λ p. cache.find_one d p.0 ≡ some p.1) rows
        → IsFaithful found
        → IsFaithful (read_rows Number cache sha256 model dimensions texts rows found)
    unfolding read_rows
    read_rows-IsFaithful d texts [] found h there old = old
    read_rows-IsFaithful d texts ((key, row) ∷ rows) found h there old =
        elim (Bool-cases (asks_for Number cache sha256 model dimensions texts key)) [
          | inl y ↦ rw y (
              read_rows-IsFaithful d texts rows _ h there.1
                (add_found-IsFaithful d texts key row found h there.0 old))
          | inr n ↦ rw n (read_rows-IsFaithful d texts rows found h there.1 old)
        ]

    rows_there :
        (d : cache.Docs) (rows : List (Text × CacheRow Number))
        → ((k : Text) (r : CacheRow Number) → MemOf (k, r) rows → cache.find_one d k ≡ some r)
        → All (λ p. cache.find_one d p.0 ≡ some p.1) rows
    rows_there d [] h = tt
    rows_there d ((k, r) ∷ rows) h = (h k r (inl refl), rows_there d rows (λ j s m. h j s (inr m)))

    -- What a sound cache answers is faithful, also where it cannot be read.
    pub get_many-IsFaithful :
        (answers : Bool) (d : cache.Docs) (texts : List Text)
        → IsSound d
        → IsFaithful (get_many Number cache sha256 model dimensions answers d texts)
    unfolding get_many
    get_many-IsFaithful false d texts h = tt
    get_many-IsFaithful true d texts h =
        read_rows-IsFaithful d (distinct texts) (cache.find d (λ row. true)) [] h
          (rows_there d (cache.find d (λ row. true))
            (λ k r m. ((cache.find_iff d (λ row. true) k r).0 m).0))
          tt

    module _
        (unique_keys : (s t : Text)
          → cache_key sha256 model s ≡ cache_key sha256 model t
          → s ≡ t) where
      put_one-IsSound :
          (d : cache.Docs) (t : Text) (v : Vector Number)
          → IsSound d
          → v ≡ embed t
          → IsSound
              (cache.upsert_one d
                (cache_key sha256 model t)
                (λ row. true)
                (λ row. row)
                (new_row Number cache sha256 model dimensions v)).1
      put_one-IsSound d t v h good s row w there stored fits =
          let law =
            cache.find_one-upsert_one d (cache_key sha256 model t) (λ row. true) (λ row. row)
              (new_row Number cache sha256 model dimensions v) (cache_key sha256 model s) in
          elim (Bool-cases (text_eq (cache_key sha256 model t) (cache_key sha256 model s))) [
            | inr n ↦ h s row w (rw (law, n) at there) stored fits
            | inl y ↦
                let same : t ≡ s =
                  unique_keys t s
                    ((text_eq_iff (cache_key sha256 model t) (cache_key sha256 model s)).0 y) in
                elim (Option-cases (cache.find_one d (cache_key sha256 model t))) [
                  | inl e ↦
                      let now : some (new_row Number cache sha256 model dimensions v) ≡ some row =
                        rw (law, y, e) at there in
                      let rows : new_row Number cache sha256 model dimensions v ≡ row = cc in
                      let vector : some v ≡ some w = ap (λ r. r.vector) rows ∙ stored in
                      let single : v ≡ w = cc in sym single ∙ (good ∙ ap embed same)
                  | inr (r, e) ↦
                      let now : some r ≡ some row = rw (law, y, e) at there in
                      h s row w
                        (sym (ap (λ x. cache.find_one d (cache_key sha256 model x)) same)
                          ∙ (e ∙ now))
                        stored fits
                ]
          ]

      -- Writing faithful vectors keeps the cache sound, whichever of the writes are made.
      pub put_many-IsSound :
          (lands : Text → Bool) (vs : Vectors Number) (d : cache.Docs)
          → IsSound d
          → IsFaithful vs
          → IsSound (put_many Number cache sha256 model dimensions lands d vs)
      unfolding put_many
      put_many-IsSound lands [] d h f = h
      put_many-IsSound lands ((t, v) ∷ vs) d h f =
          elim (Bool-cases (length v == dimensions && lands t)) [
            | inl y ↦ rw y (put_many-IsSound lands vs _ (put_one-IsSound d t v h f.0) f.1)
            | inr n ↦ rw n (put_many-IsSound lands vs d h f.1)
          ]
