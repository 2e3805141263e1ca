-- ===== src/Chunk/Units/Laws.antt =====
-- What holds of the units of a page: their texts are the page's own, and their numbers are distinct.
use geek_crawler_rag.Base.{
  ℕ, suc, ◌+◌, ◌≡◌, refl, sym, ap, Bool, List, [], ◌∷◌, ◌++◌, length, length-append, All, All-map,
  Text, Infix, Infix-refl, Infix-trans, arith, subst,
}
use geek_crawler_rag.Page.Blocks.{Block, derive_plaintext_from_blocks}
use geek_crawler_rag.Chunk.Window.{ChunkTokenizer, Result, ok, err, chunk_text}
use geek_crawler_rag.Chunk.Verbatim.{chunk_text-Infix}
use geek_crawler_rag.Chunk.Sections.{BlockSection, split_blocks_into_sections}
use geek_crawler_rag.Chunk.Sections.Laws.{sections-Infix}
use geek_crawler_rag.Chunk.Units.{
  ParentChildUnit, Sizes, Numbered, or_parent, child_units, before_units, with_children,
  parent_units, with_parents, and_then, section_units, units_of, parent_child_units,
}

-- The units are numbered from `start` on, in their order.
abbrev pub IsNumbered : ℕ → List ParentChildUnit → Type 0
IsNumbered start [] = Unit
IsNumbered start (u ∷ us) = (u.child_index ≡ start) × IsNumbered (suc start) us

IsNumbered-append :
    (start : ℕ) (us vs : List ParentChildUnit)
    → IsNumbered start us
    → IsNumbered (start + length us) vs
    → IsNumbered start (us ++ vs)
IsNumbered-append start [] vs h k = subst (λ n. IsNumbered n vs) (omega arith) k
IsNumbered-append start (u ∷ us) vs h k =
    (h.0, IsNumbered-append (suc start) us vs h.1 (subst (λ n. IsNumbered n vs) (omega arith) k))

All-append : {A : Type 0} (P : A → Type 0) (xs ys : List A) → All P xs → All P ys → All P (xs ++ ys)
All-append P [] ys h k = k
All-append P (x ∷ xs) ys h k = (h.0, All-append P xs ys h.1 k)

-- The child stands in its parent, and the parent in the page.
abbrev pub StandsIn : Text → ParentChildUnit → Type 0
StandsIn page u = Infix u.child_text u.parent_text × Infix u.parent_text page

record IsMade (page : Text) (child_index : ℕ) (n : Numbered) : Type 0 where
  texts : All (StandsIn page) n.units
  numbers : IsNumbered child_index n.units
  next : n.next_child ≡ child_index + length n.units

child_units-made :
    (page : Text) (section : BlockSection) (parent : Text) (pi ci : ℕ) (cs : List Text)
    → Infix parent page
    → All (λ c. Infix c parent) cs
    → All (StandsIn page) (child_units section parent pi ci cs)
      × IsNumbered ci (child_units section parent pi ci cs)
      × (length (child_units section parent pi ci cs) ≡ length cs)
unfolding child_units
child_units-made page section parent pi ci [] i h = (tt, tt, refl)
child_units-made page section parent pi ci (c ∷ cs) i h =
    let (t, n, l) = child_units-made page section parent pi (suc ci) cs i h.1 in
    (((h.0, i), t), (refl, n), omega (arith, l))

module _ (page : Text) where
  -- What a result says, where there is one.
  abbrev Made : ℕ → Result Numbered → Type 0
  Made ci (err e) = Unit
  Made ci (ok n) = IsMade page ci n

  before_units-Made :
      (ci : ℕ) (us : List ParentChildUnit) (r : Result Numbered)
      → All (StandsIn page) us
      → IsNumbered ci us
      → Made (ci + length us) r
      → Made ci (before_units us r)
  before_units-Made ci us (err e) t n h = tt
  before_units-Made ci us (ok rest) t n h = record {
    texts = All-append (StandsIn page) us rest.units t h.texts;
    numbers = IsNumbered-append ci us rest.units n h.numbers;
    next = omega (arith, h.next, length-append us rest.units);
  }

  or_parent-Infix :
      (parent : Text) (cs : List Text)
      → All (λ c. Infix c parent) cs
      → All (λ c. Infix c parent) (or_parent parent cs)
  or_parent-Infix parent [] h = (Infix-refl parent, tt)
  or_parent-Infix parent (c ∷ cs) h = h

  module _ (tok : ChunkTokenizer) (sizes : Sizes) where
    with_children-Made :
        (section : BlockSection) (parent : Text) (pi ci : ℕ) (r : Result (List Text))
        (go_on : ℕ → Result Numbered)
        → Infix parent page
        → ((cs : List Text) → r ≡ ok cs → All (λ c. Infix c parent) cs)
        → ((next : ℕ) → Made next (go_on next))
        → Made ci (with_children tok sizes section parent pi ci r go_on)
    with_children-Made section parent pi ci (err e) go_on i h k = tt
    with_children-Made section parent pi ci (ok cs) go_on i h k =
        let kids = or_parent parent cs in
        let (t, n, l) =
          child_units-made page section parent pi ci kids i
            (or_parent-Infix parent cs (h cs refl)) in
        before_units-Made ci (child_units section parent pi ci kids) (go_on (ci + length kids)) t n
          (subst (λ x. Made x (go_on (ci + length kids))) (ap (λ x. ci + x) (sym l))
            (k (ci + length kids)))

    parent_units-Made :
        (section : BlockSection) (ps : List Text) (pi ci : ℕ)
        → All (λ p. Infix p page) ps
        → Made ci (parent_units tok sizes section ps pi ci)
    unfolding parent_units
    parent_units-Made section [] pi ci h = record { texts = tt; numbers = tt; next = omega arith }
    parent_units-Made section (p ∷ ps) pi ci h =
        with_children-Made section p pi ci (chunk_text tok p sizes.child_size sizes.child_overlap)
          (λ next. parent_units tok sizes section ps (suc pi) next) h.0
          (chunk_text-Infix tok p sizes.child_size sizes.child_overlap)
          (λ next. parent_units-Made section ps (suc pi) next h.1)

    with_parents-Made :
        (section : BlockSection) (pi ci : ℕ) (r : Result (List Text))
        → ((ps : List Text) → r ≡ ok ps → All (λ p. Infix p page) ps)
        → Made ci (with_parents tok sizes section pi ci r)
    with_parents-Made section pi ci (err e) h = tt
    with_parents-Made section pi ci (ok ps) h = parent_units-Made section ps pi ci (h ps refl)

    and_then-Made :
        (ci : ℕ) (r : Result Numbered) (go_on : ℕ → ℕ → Result Numbered)
        → Made ci r
        → ((p next : ℕ) → Made next (go_on p next))
        → Made ci (and_then tok sizes r go_on)
    and_then-Made ci (err e) go_on h k = tt
    and_then-Made ci (ok n) go_on h k =
        before_units-Made ci n.units (go_on n.next_parent n.next_child) h.texts h.numbers (
          subst (λ x. Made x (go_on n.next_parent n.next_child)) h.next
            (k n.next_parent n.next_child))

    section_units-Made :
        (ss : List BlockSection) (pi ci : ℕ)
        → All (λ s. Infix s.text page) ss
        → Made ci (section_units tok sizes ss pi ci)
    unfolding section_units
    section_units-Made [] pi ci h = record { texts = tt; numbers = tt; next = omega arith }
    section_units-Made (s ∷ ss) pi ci h =
        and_then-Made ci
          (with_parents tok sizes s pi ci
            (chunk_text tok s.text sizes.parent_size sizes.parent_overlap))
          (λ p c. section_units tok sizes ss p c)
          (with_parents-Made s pi ci (chunk_text tok s.text sizes.parent_size sizes.parent_overlap)
            (λ ps e.
              All-map (λ (p : Text) i. Infix-trans p s.text page i h.0) ps
                (chunk_text-Infix tok s.text sizes.parent_size sizes.parent_overlap ps e)))
          (λ p c. section_units-Made ss p c h.1)

units_of-ok :
    (tok : ChunkTokenizer) (sizes : Sizes) (page : Text) (ci : ℕ) (r : Result Numbered)
    (us : List ParentChildUnit)
    → Made page ci r
    → units_of tok sizes r ≡ ok us
    → All (StandsIn page) us × IsNumbered ci us
units_of-ok tok sizes page ci (err e) us h q = cc
units_of-ok tok sizes page ci (ok n) us h q =
    subst (λ x. All (StandsIn page) x × IsNumbered ci x) (ok_inj q) (h.texts, h.numbers)
  where
    ok_inj : {a b : List ParentChildUnit} → Result.ok a ≡ ok b → a ≡ b
    ok_inj e = cc

-- In the units of a page each child's text stands in its parent's, the parent's stands in the text of
-- the page, character for character, and the children are numbered from 0 in their order.
pub parent_child_units-StandsIn :
    (tok : ChunkTokenizer) (sizes : Sizes) (fold : ℕ → ℕ) (is_word : ℕ → Bool) (blocks : List Block)
    (us : List ParentChildUnit)
    → parent_child_units tok sizes fold is_word blocks ≡ ok us
    → All (StandsIn (derive_plaintext_from_blocks fold is_word blocks)) us × IsNumbered 0 us
unfolding parent_child_units
parent_child_units-StandsIn tok sizes fold is_word blocks us e =
    let page = derive_plaintext_from_blocks fold is_word blocks in
    let sections = split_blocks_into_sections fold is_word blocks in
    units_of-ok tok sizes page 0 (section_units tok sizes sections 0 0) us
      (section_units-Made page tok sizes sections 0 0 (sections-Infix fold is_word blocks))
      (ground (arith, e))
