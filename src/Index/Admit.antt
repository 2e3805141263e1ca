-- ===== src/Index/Admit.antt =====
-- `_admit_page_nodes` of src/geek_crawler_rag/indexer.py: one page for each embedded text of a run.
pub mod Owners
use geek_crawler_rag.Base.{
  ℕ, suc, Bool, true, false, not, List, [], ◌∷◌, Option, none, some, if◌then◌else◌, Text, text_eq,
  is_empty,
}

-- A chunk, with the metadata that the index job reads.
pub record Node : Type 0 where
  pub id : Text
  pub page_id : Text
  pub text_digest : Text
  pub text : Text

-- `text_owners`: the digest of a text, and the first page that carried it.
abbrev pub Owners : Type 0
Owners = List (Text × Text)

unfoldable pub owner_of : Owners → Text → Option Text
owner_of [] digest = none
owner_of ((d, page) ∷ owners) digest =
    if text_eq d digest then some page else owner_of owners digest

-- `owner is not None and owner != page_id`
abbrev pub is_other : Option Text → Text → Bool
is_other none page = false
is_other (some owner) page = not (text_eq owner page)

abbrev pub is_repeat : Owners → Text → Node → Bool
is_repeat owners page node =
    if is_empty node.text_digest then false else is_other (owner_of owners node.text_digest) page

-- The nodes kept, and how many were not.
unfoldable pub keep_nodes : Owners → Text → List Node → List Node × ℕ
keep_nodes owners page [] = ([], 0)
keep_nodes owners page (node ∷ nodes) =
    let rest = keep_nodes owners page nodes in
    if is_repeat owners page node then (rest.0, suc rest.1) else (node ∷ rest.0, rest.1)

-- `text_owners.setdefault(digest, page_id)`
abbrev pub set_default : Owners → Text → Text → Owners
set_default owners digest page = elim (owner_of owners digest) [
  | none ↦ (digest, page) ∷ owners
  | some p ↦ owners
]

unfoldable pub own_texts : Owners → Text → List Node → Owners
unfolding owner_of
own_texts owners page [] = owners
own_texts owners page (node ∷ nodes) =
    own_texts
      (if is_empty node.text_digest then owners else set_default owners node.text_digest page) page
      nodes

-- The nodes kept, the number of repeats, and the owners after the page.
unfoldable pub admit_page_nodes : Text → List Node → Owners → List Node × ℕ × Owners
admit_page_nodes page nodes owners =
    let (kept, repeats) = keep_nodes owners page nodes in
    (kept, repeats, own_texts owners page kept)
