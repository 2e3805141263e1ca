-- ===== src/Mongo/Memory.antt =====
-- A collection held in memory, which meets every law of the interface.
use geek_crawler_rag.Base.{
  ◌≡◌, ◌≢◌, ◌↔◌, ◌&&◌, Bool, true, false, not, List, [], ◌∷◌, Option, none, some, if◌then◌else◌,
  is_some, Text, refl, text_eq, text_eq_iff, MemOf, arith, inl, inr, Bool-cases, and_true,
}
use geek_crawler_rag.Mongo.Collection.{Collection, matches, updated, upserted, upsert_returns}

-- Every write, the newest first; `none` is a deletion.
abbrev pub Log : Type 0 → Type 0
Log Row = List (Text × Option Row)

module _ {Row : Type 0} where
  abbrev pub lookup : Log Row → Text → Option Row
  lookup [] j = none
  lookup ((k, o) ∷ d) j = if text_eq k j then o else lookup d j

abbrev pub holds : {A : Type 0} → Dec A → Bool
holds (yes a) = true
holds (no n) = false

holds_iff : {A : Type 0} (d : Dec A) → (holds d ≡ true) ↔ A
holds_iff (yes a) = (λ _. a, λ _. refl)
holds_iff (no n) = (λ e. cc, λ a. absurd (n a))

module _ {Row : Type 0} (dec : Discrete Row) where
  unfoldable pub option_discrete : Discrete (Option Row)
  option_discrete = hlevel dec

  unfoldable pub same : Option Row → Option Row → Bool
  same a b = holds (option_discrete a b)

  same_iff : (a b : Option Row) → (same a b ≡ true) ↔ (a ≡ b)
  unfolding same
  same_iff a b = holds_iff (option_discrete a b)

  -- The documents among the writes that are still current, where the filter holds.
  unfoldable pub select : Log Row → (Row → Bool) → Log Row → List (Text × Row)
  select whole p [] = []
  select whole p ((k, none) ∷ d) = select whole p d
  select whole p ((k, some r) ∷ d) =
      let rest = select whole p d in
      if same (lookup whole k) (some r) && p r then (k, r) ∷ rest else rest

  select_sound :
      (whole : Log Row) (p : Row → Bool) (d : Log Row) (k : Text) (r : Row)
      → MemOf (k, r) (select whole p d)
      → (lookup whole k ≡ some r) × (p r ≡ true)
  unfolding select
  select_sound whole p [] k r m = absurd m
  select_sound whole p ((j, none) ∷ d) k r m = select_sound whole p d k r m
  select_sound whole p ((j, some s) ∷ d) k r m =
      elim (Bool-cases (same (lookup whole j) (some s) && p s)) [
        | inl e ↦ elim (rw e at m) [
          | inl here ↦
              let found = (same_iff (lookup whole j) (some s)).0 (and_true _ _ e).0 in
              ground (arith, found, here, (and_true (same (lookup whole j) (some s)) (p s) e).1)
          | inr later ↦ select_sound whole p d k r later
        ]
        | inr e ↦ select_sound whole p d k r (rw e at m)
      ]

  select_complete :
      (whole : Log Row) (p : Row → Bool) (d : Log Row) (k : Text) (r : Row)
      → lookup whole k ≡ some r
      → p r ≡ true
      → lookup d k ≡ some r
      → MemOf (k, r) (select whole p d)
  unfolding select
  select_complete whole p [] k r e h m = cc
  select_complete whole p ((j, none) ∷ d) k r e h m =
      select_complete whole p d k r e h (ground arith)
  select_complete whole p ((j, some s) ∷ d) k r e h m = elim (Bool-cases (text_eq j k)) [
    | inl t ↦
        let here : j ≡ k = (text_eq_iff j k).0 t in
        let row : s ≡ r = ground (arith, t, m) in
        let kept : same (lookup whole j) (some s) ≡ true =
          (same_iff (lookup whole j) (some s)).1 (rw (here, row) e) in
        let good : p s ≡ true = rw row h in rw (kept, good) (inl (rw (here, row)))
    | inr t ↦
        let later = select_complete whole p d k r e h (ground (arith, t, m)) in
        elim (Bool-cases (same (lookup whole j) (some s) && p s)) [
          | inl y ↦ rw y (inr later)
          | inr n ↦ rw n later
        ]
  ]

  pub find_iff_lem :
      (d : Log Row) (p : Row → Bool) (k : Text) (r : Row)
      → MemOf (k, r) (select d p d) ↔ ((lookup d k ≡ some r) × (p r ≡ true))
  find_iff_lem d p k r = (select_sound d p d k r, λ (e, h). select_complete d p d k r e h e)

  contra : (u o : Option Row) → u ≢ o → same u o ≡ false
  contra u o n = elim (Bool-cases (same u o)) [
    | inl y ↦ absurd (n ((same_iff u o).0 y))
    | inr y ↦ y
  ]

  pub modified_iff :
      (d : Log Row) (k : Text) (p : Row → Bool) (f : Row → Row)
      → ((matches p (lookup d k) && not (same (updated p f (lookup d k)) (lookup d k))) ≡ true)
        ↔ ((matches p (lookup d k) ≡ true) × (updated p f (lookup d k) ≢ lookup d k))
  modified_iff d k p f =
      let o : Option Row = lookup d k in
      let u : Option Row = updated p f o in
      (
        λ h. (ground arith, λ e. ground (arith, (same_iff u o).1 e)),
        λ (m, n). ground (arith, m, contra u o n),
      )

-- The collection over such a log.
unfoldable pub memory : {Row : Type 0} → Discrete Row → Collection Row
unfolding select same option_discrete
memory {Row} dec = record {
  Docs = Log Row;
  find_one = lookup;
  find = λ d p. select dec d p d;
  update_one = λ d k p f. (
    record {
      matched = matches p (lookup d k);
      modified = matches p (lookup d k) && not (same dec (updated p f (lookup d k)) (lookup d k));
    },
    (k, updated p f (lookup d k)) ∷ d,
  );
  upsert_one =
      λ d k p f new. (upsert_returns p f new (lookup d k), (k, upserted p f new (lookup d k)) ∷ d);
  delete_one = λ d k. (is_some (lookup d k), (k, none) ∷ d);
  find_iff = find_iff_lem dec;
  matched-update_one = λ d k p f. refl;
  modified-update_one = modified_iff dec;
  find_one-update_one = λ d k p f j. refl;
  upsert_one_lem = λ d k p f new. refl;
  find_one-upsert_one = λ d k p f new j. refl;
  delete_one_lem = λ d k. refl;
  find_one-delete_one = λ d k j. refl;
}
