-- ===== src/Tests/Pages.antt =====
-- URLs given by their paths, in lower case.
use geek_crawler_rag.Base.{
  ℕ, ◌≡◌, ◌↔◌, ◌⊎◌, refl, Bool, true, false, ◌&&◌, ◌||◌, List, [], ◌∷◌, Option, none, some, leb,
  ◌==◌, Text, text_eq, codes, or_text,
}
use geek_crawler_rag.Index.Run.{Reason}
use geek_crawler_rag.Page.Unusable.{
  should_exclude_locale_path, is_sitemap_url, classify_unusable_page, is_in, letter_pairs, segments,
  before, before_last_dot, after_prefix, any_qualifier, is_sitemap_segment, tail_from,
}
use geek_crawler_rag.Page.Unusable.Laws.{HasForeignPath, classify_locale}

abbrev path_of : Text → Option Text
path_of url = some url

abbrev same : Text → Text
same t = t

abbrev one_block : Option (List ℕ)
one_block = some (7 ∷ [])

abbrev is_letter : ℕ → Bool
is_letter c = (leb 97 c && leb c 122) || c == 95

excludes_german : should_exclude_locale_path path_of same is_letter (codes "/de/blog") ≡ true
unfolding should_exclude_locale_path is_in letter_pairs segments before text_eq
excludes_german = refl

keeps_american : should_exclude_locale_path path_of same is_letter (codes "/en-us/blog") ≡ false
unfolding should_exclude_locale_path is_in letter_pairs segments before text_eq
keeps_american = refl

finds_sitemap : is_sitemap_url path_of same is_letter (codes "/portal/product-sitemap.shtml") ≡ true
unfolding is_sitemap_url is_in segments before_last_dot after_prefix any_qualifier
    is_sitemap_segment tail_from text_eq
finds_sitemap = refl

keeps_article : is_sitemap_url path_of same is_letter (codes "/blog/how-to-build-a-sitemap") ≡ false
unfolding is_sitemap_url is_in segments before_last_dot after_prefix any_qualifier
    is_sitemap_segment tail_from text_eq
keeps_article = refl

classify_locale_example :
    (classify_unusable_page path_of same is_letter
        (codes "/de-at/a")
        []
        none
        none
        (some 200)
        one_block
      ≡ some Reason.locale)
    ↔ (HasForeignPath path_of same is_letter (or_text [] (codes "/de-at/a"))
        ⊎ HasForeignPath path_of same is_letter (codes "/de-at/a"))
classify_locale_example =
    classify_locale path_of same is_letter (codes "/de-at/a") [] none none (some 200) one_block
