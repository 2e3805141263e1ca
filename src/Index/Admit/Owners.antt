-- ===== src/Index/Admit/Owners.antt =====
-- What the admission of pages keeps true of the nodes admitted so far.
use geek_crawler_rag.Base.{
  ◌≡◌, ◌≢◌, refl, subst, inl, inr, Bool, true, false, List, [], ◌∷◌, ◌++◌, none, some,
  if◌then◌else◌, Text, text_eq, text_eq_refl, text_eq_iff, text_eq_ne, is_empty, length, All,
  All-map, Bool-cases, Option-cases, arith,
}
use geek_crawler_rag.Index.Admit.{
  Node, Owners, owner_of, is_repeat, keep_nodes, set_default, own_texts, admit_page_nodes,
}

-- The node's text has no digest, or its page is the one that owns the text.
abbrev pub IsOwned : Owners → Node → Type 0
IsOwned owners node =
    is_empty node.text_digest ≡ false → owner_of owners node.text_digest ≡ some node.page_id

-- The text has an owner, whichever page it is.
abbrev pub IsHeld : Owners → Node → Type 0
IsHeld owners node =
    is_empty node.text_digest ≡ false
    → (page : Text) × (owner_of owners node.text_digest ≡ some page)

-- Owners are never changed once set.
set_default-owner_of :
    (owners : Owners) (digest page d p : Text)
    → owner_of owners d ≡ some p
    → owner_of (set_default owners digest page) d ≡ some p
unfolding owner_of
set_default-owner_of owners digest page d p e = elim (Option-cases (owner_of owners digest)) [
  | inl n ↦ elim (Bool-cases (text_eq digest d)) [
    | inl s ↦ absurd (ground (arith, n, (text_eq_iff digest d).0 s, e))
    | inr s ↦ ground (arith, n, s, e)
  ]
  | inr (q, s) ↦ ground (arith, s, e)
]

-- A digest has an owner once a page is set by default.
set_default-owned :
    (owners : Owners) (digest page : Text)
    → owner_of (set_default owners digest page) digest
      ≡ elim (owner_of owners digest) [ none ↦ some page | some p ↦ some p ]
unfolding owner_of
set_default-owned owners digest page = elim (Option-cases (owner_of owners digest)) [
  | inl n ↦ ground (arith, n, text_eq_refl digest)
  | inr (q, s) ↦ ground (arith, s)
]

pub own_texts-owner_of :
    (owners : Owners) (page : Text) (nodes : List Node) (d p : Text)
    → owner_of owners d ≡ some p
    → owner_of (own_texts owners page nodes) d ≡ some p
unfolding own_texts
own_texts-owner_of owners page [] d p e = e
own_texts-owner_of owners page (node ∷ nodes) d p e =
    elim (Bool-cases (is_empty node.text_digest)) [
      | inl b ↦ rw b (own_texts-owner_of owners page nodes d p e)
      | inr b ↦ rw b (
          own_texts-owner_of (set_default owners node.text_digest page) page nodes d p
            (set_default-owner_of owners node.text_digest page d p e))
    ]

-- What is not a repeat of another page's text has this page as its owner afterwards.
not_repeat-owned :
    (owners : Owners) (page : Text) (node : Node)
    → is_repeat owners page node ≡ false
    → is_empty node.text_digest ≡ false
    → owner_of (set_default owners node.text_digest page) node.text_digest ≡ some page
not_repeat-owned owners page node r b =
    let e = set_default-owned owners node.text_digest page in
    elim (Option-cases (owner_of owners node.text_digest)) [
      | inl n ↦ ground (arith, e, n)
      | inr (q, s) ↦ elim (Bool-cases (text_eq q page)) [
        | inl t ↦ ground (arith, e, s, (text_eq_iff q page).0 t)
        | inr t ↦ absurd (ground (arith, r, b, s, t))
      ]
    ]

-- A page that takes a text for itself makes no node of its own a repeat.
is_repeat-set_default :
    (owners : Owners) (page digest : Text) (node : Node)
    → is_repeat owners page node ≡ false
    → is_repeat (set_default owners digest page) page node ≡ false
unfolding owner_of
is_repeat-set_default owners page digest node r = elim (Option-cases (owner_of owners digest)) [
  | inl n ↦ elim (Bool-cases (text_eq digest node.text_digest)) [
    | inl t ↦ ground (arith, n, t, text_eq_refl page)
    | inr t ↦ ground (arith, n, t, r)
  ]
  | inr (q, s) ↦ ground (arith, s, r)
]

own_texts-cons :
    (owners : Owners) (page : Text) (node : Node) (nodes : List Node) (b : Bool)
    → is_empty node.text_digest ≡ b
    → own_texts (if b then owners else set_default owners node.text_digest page) page nodes
      ≡ own_texts owners page (node ∷ nodes)
unfolding own_texts
own_texts-cons owners page node nodes b e = rw e refl

own_texts-IsOwned :
    (owners : Owners) (page : Text) (nodes : List Node)
    → All (λ n. is_repeat owners page n ≡ false) nodes
    → All (λ n. n.page_id ≡ page) nodes
    → All (IsOwned (own_texts owners page nodes)) nodes
own_texts-IsOwned owners page [] r e = tt
own_texts-IsOwned owners page (node ∷ nodes) r e = elim (Bool-cases (is_empty node.text_digest)) [
  | inl b ↦
      subst (λ o. IsOwned o node × All (IsOwned o) nodes)
        (own_texts-cons owners page node nodes true b)
        ((λ c. absurd (ground (arith, b, c))), own_texts-IsOwned owners page nodes r.1 e.1)
  | inr b ↦
      let later = set_default owners node.text_digest page in
      subst (λ o. IsOwned o node × All (IsOwned o) nodes)
        (own_texts-cons owners page node nodes false b)
        (
          (λ c. rw e.0 (
              own_texts-owner_of later page nodes node.text_digest page
                (not_repeat-owned owners page node r.0 b))),
          own_texts-IsOwned later page nodes
              (All-map (is_repeat-set_default owners page node.text_digest) nodes r.1) e.1,
        )
]

keep_nodes-fresh :
    (owners : Owners) (page : Text) (nodes : List Node)
    → All (λ n. is_repeat owners page n ≡ false) (keep_nodes owners page nodes).0
unfolding keep_nodes
keep_nodes-fresh owners page [] = tt
keep_nodes-fresh owners page (node ∷ nodes) = elim (Bool-cases (is_repeat owners page node)) [
  | inl r ↦ rw r (keep_nodes-fresh owners page nodes)
  | inr r ↦ rw r (r, keep_nodes-fresh owners page nodes)
]

keep_nodes-All {ℓ} :
    (P : Node → Type ℓ) (owners : Owners) (page : Text) (nodes : List Node)
    → All P nodes
    → All P (keep_nodes owners page nodes).0
unfolding keep_nodes
keep_nodes-All P owners page [] h = tt
keep_nodes-All P owners page (node ∷ nodes) h = elim (Bool-cases (is_repeat owners page node)) [
  | inl r ↦ rw r (keep_nodes-All P owners page nodes h.1)
  | inr r ↦ rw r (h.0, keep_nodes-All P owners page nodes h.1)
]

pub All-append {ℓ} :
    (P : Node → Type ℓ) (xs ys : List Node) → All P xs → All P ys → All P (xs ++ ys)
All-append P [] ys h k = k
All-append P (x ∷ xs) ys h k = (h.0, All-append P xs ys h.1 k)

-- A list is dealt out, in its order, into those kept, all of which satisfy P, and those dropped,
-- all of which satisfy Q.
pub data Split (P Q : Node → Type 0) : List Node → List Node → List Node → Type 0 where
  done : Split P Q [] [] []
  keeps :
      {nodes kept dropped : List Node} (n : Node)
      → P n
      → Split P Q nodes kept dropped
      → Split P Q (n ∷ nodes) (n ∷ kept) dropped
  drops :
      {nodes kept dropped : List Node} (n : Node)
      → Q n
      → Split P Q nodes kept dropped
      → Split P Q (n ∷ nodes) kept (n ∷ dropped)

-- The node's text has a digest that another page owns.
abbrev pub IsRepeat : Owners → Text → Node → Type 0
IsRepeat owners page node =
    (is_empty node.text_digest ≡ false)
    × (owner : Text) × (owner_of owners node.text_digest ≡ some owner)
    × (owner ≢ page)

is_repeat-IsRepeat :
    (owners : Owners) (page : Text) (node : Node)
    → is_repeat owners page node ≡ true
    → IsRepeat owners page node
is_repeat-IsRepeat owners page node r = elim (Option-cases (owner_of owners node.text_digest)) [
  | inl n ↦ absurd (ground (arith, r, n))
  | inr (owner, e) ↦
      let other : text_eq owner page ≡ false = ground (arith, r, e) in
      (ground (arith, r), owner, e, λ same. ground (arith, other, (text_eq_iff owner page).1 same))
]

not_repeat :
    (owners : Owners) (page : Text) (node : Node)
    → is_repeat owners page node ≡ false
    → IsRepeat owners page node
    → ⊥
not_repeat owners page node r (b, owner, e, other) =
    let apart = text_eq_ne owner page other in ground (arith, r, b, e, apart)

keep_nodes-Split :
    (owners : Owners) (page : Text) (nodes : List Node)
    → (dropped : List Node) × Split
        (λ n. IsRepeat owners page n → ⊥)
        (IsRepeat owners page)
        nodes
        (keep_nodes owners page nodes).0
        dropped
      × ((keep_nodes owners page nodes).1 ≡ length dropped)
unfolding keep_nodes
keep_nodes-Split owners page [] = ([], done, refl)
keep_nodes-Split owners page (node ∷ nodes) =
    let (dropped, split, count) = keep_nodes-Split owners page nodes in
    elim (Bool-cases (is_repeat owners page node)) [
      | inl r ↦ rw r (
        node ∷ dropped,
        drops node (is_repeat-IsRepeat owners page node r) split,
        omega (arith, count),
      )
      | inr r ↦ rw r (dropped, keeps node (not_repeat owners page node r) split, count)
    ]

-- Admitting a page's nodes keeps, in their order, exactly those whose text no other page owns, and
-- counts those that it drops; and if every node admitted before had its page as the owner of its
-- text, every one admitted so far has.
pub admit_page_nodes-IsOwned :
    (page : Text) (nodes earlier : List Node) (owners : Owners)
    → All (λ n. n.page_id ≡ page) nodes
    → All (IsOwned owners) earlier
    → let (kept, repeats, owners') = admit_page_nodes page nodes owners in
      ((dropped : List Node) × Split
          (λ n. IsRepeat owners page n → ⊥)
          (IsRepeat owners page)
          nodes
          kept
          dropped
        × (repeats ≡ length dropped))
      × All (IsOwned owners') (earlier ++ kept)
unfolding admit_page_nodes
admit_page_nodes-IsOwned page nodes earlier owners e h =
    let kept = (keep_nodes owners page nodes).0 in
    (
      keep_nodes-Split owners page nodes,
      All-append _ earlier kept
          (All-map (λ n i c. own_texts-owner_of owners page kept n.text_digest n.page_id (i c))
            earlier h)
          (own_texts-IsOwned owners page kept (keep_nodes-fresh owners page nodes)
            (keep_nodes-All _ owners page nodes e)),
    )
