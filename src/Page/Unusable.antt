-- ===== src/Page/Unusable.antt =====
-- `classify_unusable_page` of src/geek_crawler_rag/unusable.py and the tests of a URL that it calls.

pub mod Parts
pub mod Laws
use geek_crawler_rag.Base.{
  ℕ, zero, suc, Bool, true, false, ◌&&◌, ◌||◌, not, List, [], ◌∷◌, ◌++◌, map, Option, none, some,
  if◌then◌else◌, leb, ◌==◌, Text, codes, text_eq, is_empty, or_text, strip,
}
use geek_crawler_rag.Index.Run.{Reason}

-- `x in xs`
unfoldable pub is_in : Text → List Text → Bool
is_in x [] = false
is_in x (y ∷ ys) = text_eq x y || is_in x ys

-- A set of two-letter codes, written one after the other.
unfoldable pub letter_pairs : Text → List Text
letter_pairs [] = []
letter_pairs (a ∷ []) = []
letter_pairs (a ∷ b ∷ s) = (a ∷ b ∷ []) ∷ letter_pairs s

abbrev pub drop_region : Text
drop_region = codes "gbukaunzsgaecaieeuinzajpkrbrmxdefresitnl"

abbrev pub non_english_locale : Text
non_english_locale =
    codes "aaabaeafakamanarasavayazbabebgbhbibmbnbobrbscacechcocrcscucvcydadedvdz"
    ++ codes "eeeleoeseteufafffifjfofrfygagdglgngugvhahehihohrhthuhyhziaidieigiiikioisitiujajv"
    ++ codes
        "kakgkikjkkklkmknkokrkskukvkwkylalblglilnloltlulvmgmhmimkmlmnmrmsmtmynanbndnengnlnnnonrnvny"
    ++ codes "ocojomorospapiplpsptqurmrnrorurwsascsdsesgsiskslsmsnsosqsrssstsusvsw"
    ++ codes "tatetgthtitktltntotrtstttwtyugukuruzvevivowawoxhyiyozazhzu"

-- The parts of `s.split(c)` that are not empty; `part` is the one that is read.
unfoldable pub segments : ℕ → Text → Text → List Text
segments c part [] = if is_empty part then [] else part ∷ []
segments c part (d ∷ s) =
    if d == c
    then (if is_empty part then segments c [] s else part ∷ segments c [] s)
    else segments c (part ++ d ∷ []) s

abbrev pub first_of : List Text → Text
first_of [] = []
first_of (x ∷ xs) = x

abbrev pub last_of : List Text → Text
last_of [] = []
last_of (x ∷ []) = x
last_of (x ∷ y ∷ xs) = last_of (y ∷ xs)

-- `s.split(c, 1)[0]`
unfoldable pub before : ℕ → Text → Text
before c [] = []
before c (d ∷ s) = if d == c then [] else d ∷ before c s

-- `-`
abbrev pub hyphen : ℕ
hyphen = 45

-- `/`
abbrev pub slash : ℕ
slash = 47

-- `s.rsplit(".", 1)[0]`
unfoldable pub before_last_dot : Text → Text
before_last_dot [] = []
before_last_dot (d ∷ s) =
    let rest = before_last_dot s in
    if d == 46 then (if is_in (codes ".") (map (λ c. c ∷ []) s) then d ∷ rest else []) else d ∷ rest

-- What follows the prefix, where the text starts with it.
unfoldable pub after_prefix : Text → Text → Option Text
after_prefix [] s = some s
after_prefix (c ∷ p) [] = none
after_prefix (c ∷ p) (d ∷ s) = if c == d then after_prefix p s else none

abbrev pub qualifiers : List Text
qualifiers =
    codes "html"
    ∷ codes "xml"
    ∷ codes "page"
    ∷ codes "post"
    ∷ codes "product"
    ∷ codes "category"
    ∷ codes "image"
    ∷ codes "video"
    ∷ codes "news"
    ∷ []

-- `url_path` is the path that `urlparse` finds, `lower` is `str.lower`, and `is_word` is `\w`.
module _ (url_path : Text → Option Text) (lower : Text → Text) (is_word : ℕ → Bool) where
  -- `(?:[-_.][\w-]+)*$` after its first separator; `needs` where the last character read was one.
  unfoldable pub tail_from : Bool → Text → Bool
  tail_from needs [] = not needs
  tail_from needs (c ∷ s) =
      ((is_word c || c == 45) && tail_from false s) || (not needs && c == 46 && tail_from true s)

  abbrev pub is_tail : Text → Bool
  is_tail [] = true
  is_tail (c ∷ s) = (c == 45 || c == 95 || c == 46) && tail_from true s

  abbrev pub sitemap_then_tail : Option Text → Bool
  sitemap_then_tail none = false
  sitemap_then_tail (some rest) = is_tail rest

  abbrev pub starts_sitemap : Text → Bool
  starts_sitemap s = sitemap_then_tail (after_prefix (codes "sitemap") s)

  abbrev pub after_qualifier : Option Text → Bool
  after_qualifier none = false
  after_qualifier (some []) = false
  after_qualifier (some (c ∷ s)) = (c == 45 || c == 95) && starts_sitemap s

  unfoldable pub any_qualifier : List Text → Text → Bool
  any_qualifier [] s = false
  any_qualifier (q ∷ qs) s = after_qualifier (after_prefix q s) || any_qualifier qs s

  -- `_SITEMAP_SEGMENT`
  unfoldable pub is_sitemap_segment : Text → Bool
  is_sitemap_segment seg = any_qualifier qualifiers (lower seg) || starts_sitemap (lower seg)

  -- The path's first segment decides, where it has one.
  abbrev pub excludes_segment : Text → Bool
  excludes_segment seg =
      if is_empty seg
      then false
      else if text_eq (lower seg) (codes "us")
      then false
      else if is_in (lower seg) (letter_pairs drop_region)
      then true
      else if text_eq (before hyphen (lower seg)) (codes "en")
      then false
      else is_in (before hyphen (lower seg)) (letter_pairs non_english_locale)

  -- `should_exclude_locale_path`; a URL that does not parse is kept.
  unfoldable pub should_exclude_locale_path : Text → Bool
  should_exclude_locale_path url = elim (url_path url) [
    | none ↦ false
    | some path ↦ excludes_segment (first_of (segments slash [] path))
  ]

  abbrev pub stem : Text → Text
  stem last = if is_in (codes ".") (map (λ c. c ∷ []) last) then before_last_dot last else last

  -- `is_sitemap_url`
  unfoldable pub is_sitemap_url : Text → Bool
  is_sitemap_url url = elim (url_path url) [
    | none ↦ false
    | some path ↦
        let last = last_of (segments slash [] path) in
        not (is_empty last) && (is_sitemap_segment last || is_sitemap_segment (stem last))
  ]

  abbrev pub is_error : Option ℕ → Bool
  is_error none = false
  is_error (some code) = leb 400 code

  abbrev pub is_denied : Option Bool → Bool
  is_denied none = false
  is_denied (some allowed) = not allowed

  abbrev pub has_reason : Option Text → Bool
  has_reason none = false
  has_reason (some reason) = not (is_empty (strip reason))

  abbrev pub lacks_blocks : {A : Type 0} → Option (List A) → Bool
  lacks_blocks none = true
  lacks_blocks (some []) = true
  lacks_blocks (some (b ∷ bs)) = false

  unfoldable pub classify_unusable_page :
      {A : Type 0}
      → Text
      → Text
      → Option Text
      → Option Bool
      → Option ℕ
      → Option (List A)
      → Option Reason
  classify_unusable_page url final_url failure_reason robots_allowed status_code blocks =
      let page_url = or_text final_url url in
      if should_exclude_locale_path page_url || should_exclude_locale_path url
      then some Reason.locale
      else if is_error status_code
      then some Reason.http_error
      else if is_sitemap_url page_url || is_sitemap_url url
      then some Reason.sitemap
      else if is_denied robots_allowed
      then some Reason.failure
      else if has_reason failure_reason
      then some Reason.failure
      else if lacks_blocks blocks
      then some Reason.no_content
      else none
