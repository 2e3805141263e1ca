-- ===== src/Page/Unusable/Laws.antt =====
-- Which pages are left out for their locale.
use geek_crawler_rag.Base.{
  ℕ, ◌≡◌, ◌≢◌, ◌⊎◌, ◌↔◌, refl, subst, inl, inr, Bool, true, false, List, [], ◌∷◌, Option, none,
  some, if◌then◌else◌, Text, codes, text_eq, text_eq_refl, text_eq_iff, text_eq_ne, or_text, arith,
  MemOf, Bool-cases, Option-cases,
}
use geek_crawler_rag.Index.Run.{Reason}
use geek_crawler_rag.Page.Unusable.{
  is_in, letter_pairs, drop_region, non_english_locale, segments, first_of, before, hyphen, slash,
  excludes_segment, should_exclude_locale_path, is_error, is_denied, has_reason, lacks_blocks,
  classify_unusable_page,
}
use geek_crawler_rag.Page.Unusable.Parts.{
  IsBefore, IsFirst, before-IsBefore, before_unique, segments-IsFirst, segments_unique,
}

is_in_iff : (x : Text) (xs : List Text) → (is_in x xs ≡ true) ↔ MemOf x xs
unfolding is_in
is_in_iff x [] = ((λ e. absurd cc), λ m. absurd m)
is_in_iff x (y ∷ ys) = (
  (λ e. elim (Bool-cases (text_eq x y)) [
    | inl t ↦ inl ((text_eq_iff x y).0 t)
    | inr f ↦ inr ((is_in_iff x ys).0 (rw f at e))
  ]),
  λ m. elim m [
    | inl t ↦ rw (t, text_eq_refl y) refl
    | inr n ↦ rw ((is_in_iff x ys).1 n) (ground arith)
  ],
)

text_apart : (x y : Text) → text_eq x y ≡ false → x ≢ y
text_apart x y e same = ground (arith, e, (text_eq_iff x y).1 same)

-- The four tests of a segment that is not empty.
segment_tests :
    (american region english locale : Bool)
    → (if american then false else if region then true else if english then false else locale)
      ≡ true
    → (american ≡ false) × ((region ≡ true) ⊎ ((english ≡ false) × (locale ≡ true)))
segment_tests true region english locale h = absurd cc
segment_tests false true english locale h = (refl, inl refl)
segment_tests false false true locale h = absurd cc
segment_tests false false false locale h = (refl, inr (refl, h))

module _ (url_path : Text → Option Text) (lower : Text → Text) (is_word : ℕ → Bool) where
  -- A segment that names a region other than the American one, or a language other than English.
  abbrev pub IsForeign : Text → Type 0
  IsForeign seg =
      (lower seg ≢ codes "us")
      × (MemOf (lower seg) (letter_pairs drop_region)
          ⊎ ((lang : Text) × IsBefore hyphen (lower seg) lang
              × (lang ≢ codes "en")
              × MemOf lang (letter_pairs non_english_locale)))

  -- The URL parses, and the first segment of its path is foreign.
  abbrev pub HasForeignPath : Text → Type 0
  HasForeignPath url =
      (path seg : Text) × (url_path url ≡ some path) × IsFirst slash path seg × IsForeign seg

  excludes-IsForeign :
      (seg : Text) → excludes_segment url_path lower is_word seg ≡ true → (seg ≢ []) × IsForeign seg
  excludes-IsForeign [] e = absurd cc
  excludes-IsForeign (a ∷ seg) e =
      let word : Text = lower (a ∷ seg) in
      let (us, tests) =
        segment_tests (text_eq word (codes "us")) (is_in word (letter_pairs drop_region))
          (text_eq (before hyphen word) (codes "en"))
          (is_in (before hyphen word) (letter_pairs non_english_locale)) e in
      (
        (λ k. cc),
        (
          text_apart word (codes "us") us,
          elim tests [
            | inl r ↦ inl ((is_in_iff word (letter_pairs drop_region)).0 r)
            | inr (en, l) ↦ inr (
              before hyphen word,
              before-IsBefore hyphen word,
              text_apart (before hyphen word) (codes "en") en,
              (is_in_iff (before hyphen word) (letter_pairs non_english_locale)).0 l,
            )
          ],
        ),
      )

  IsForeign-excludes :
      (seg : Text) → seg ≢ [] → IsForeign seg → excludes_segment url_path lower is_word seg ≡ true
  IsForeign-excludes [] filled f = absurd (filled refl)
  IsForeign-excludes (a ∷ seg) filled (us, inl m) =
      rw
        (
          text_eq_ne (lower (a ∷ seg)) (codes "us") us,
          (is_in_iff (lower (a ∷ seg)) (letter_pairs drop_region)).1 m,
        )
        refl
  IsForeign-excludes (a ∷ seg) filled (us, inr (lang, b, en, m)) =
      let word : Text = lower (a ∷ seg) in
      let same = before_unique hyphen word lang b in
      let english : text_eq (before hyphen word) (codes "en") ≡ false =
        subst (λ x. text_eq x (codes "en") ≡ false) same (text_eq_ne lang (codes "en") en) in
      let locale : is_in (before hyphen word) (letter_pairs non_english_locale) ≡ true =
        subst (λ x. is_in x (letter_pairs non_english_locale) ≡ true) same
          ((is_in_iff lang (letter_pairs non_english_locale)).1 m) in
      elim (Bool-cases (is_in word (letter_pairs drop_region))) [
        | inl r ↦ rw (text_eq_ne word (codes "us") us, r) refl
        | inr r ↦ rw (text_eq_ne word (codes "us") us, r, english) locale
      ]

  should_exclude-HasForeignPath :
      (url : Text)
      → (should_exclude_locale_path url_path lower is_word url ≡ true) ↔ HasForeignPath url
  unfolding should_exclude_locale_path
  should_exclude-HasForeignPath url = (
    (λ e. elim (Option-cases (url_path url)) [
      | inl n ↦ absurd (ground (arith, n, e))
      | inr (path, p) ↦
          let seg : Text = first_of (segments slash [] path) in
          let (filled, foreign) =
            excludes-IsForeign seg (rw (p, should_exclude_locale_path) at e) in
          (path, seg, p, segments-IsFirst slash path filled, foreign)
    ]),
    λ (path, seg, p, first, foreign).
        let (lead, s, e, all, b, filled) = first in
        rw (p, should_exclude_locale_path)
          (subst (λ x. excludes_segment url_path lower is_word x ≡ true)
            (segments_unique slash path seg first) (IsForeign-excludes seg filled foreign)),
  )

  -- The six tests in their order.
  locale_first :
      (l e s d r b : Bool)
      → (((if l
              then some Reason.locale
              else if e
              then some Reason.http_error
              else if s
              then some Reason.sitemap
              else if d
              then some Reason.failure
              else if r
              then some Reason.failure
              else if b
              then some Reason.no_content
              else none)
            ≡ some Reason.locale)
          → l ≡ true)
  locale_first l e s d r b h = ground (arith, h)

  module _ {A : Type 0} (url final_url : Text) (failure : Option Text) (robots : Option Bool)
      (code : Option ℕ) (blocks : Option (List A)) where
    -- A page is left out for its locale exactly when one of its two URLs (that after the redirects,
    -- or the first one where there is none, and the first one) parses and the first non-empty segment
    -- of its path, in small letters, is not `us` and is the code of another region, or begins, up to
    -- its first hyphen, with a code of a language other than `en`; whatever else holds of the page.
    pub classify_locale :
        (classify_unusable_page url_path lower is_word url final_url failure robots code blocks
          ≡ some Reason.locale)
        ↔ (HasForeignPath (or_text final_url url) ⊎ HasForeignPath url)
    unfolding classify_unusable_page
    classify_locale =
        let page_url = or_text final_url url in
        (
          (λ h.
              let l =
                locale_first _ (is_error url_path lower is_word code) _
                  (is_denied url_path lower is_word robots)
                  (has_reason url_path lower is_word failure)
                  (lacks_blocks url_path lower is_word blocks) h in
              elim (Bool-cases (should_exclude_locale_path url_path lower is_word page_url)) [
                | inl y ↦ inl ((should_exclude-HasForeignPath page_url).0 y)
                | inr n ↦ inr ((should_exclude-HasForeignPath url).0 (ground (arith, l, n)))
              ]),
          λ h. elim h [
            | inl a ↦ rw ((should_exclude-HasForeignPath page_url).1 a) refl
            | inr a ↦
                elim (Bool-cases (should_exclude_locale_path url_path lower is_word page_url)) [
                  | inl y ↦ rw y refl
                  | inr n ↦ rw (n, (should_exclude-HasForeignPath url).1 a) refl
                ]
          ],
        )
