-- ===== src/Index/Run/Texts.antt =====
-- Which page the nodes that an index run gives to the engine belong to.
use geek_crawler_rag.Base.{
  ℕ, ◌+◌, ◌≡◌, sym, inl, inr, Bool, true, false, List, [], ◌∷◌, ◌++◌, Option, none, some, Text,
  length, leb, All, All-map, Bool-cases, is_empty, MemOf,
}
use geek_crawler_rag.Mongo.Collection.{Collection}
use geek_crawler_rag.Jobs.Model.{JobRow}
use geek_crawler_rag.Index.Admit.{Node, Owners, owner_of, admit_page_nodes}
use geek_crawler_rag.Index.Admit.Owners.{
  IsOwned, All-append, own_texts-owner_of, admit_page_nodes-IsOwned,
}
use geek_crawler_rag.Index.Run.{
  Reason, PageNodes, Answer, answered, raised, Embedded, Visit, World, Progress, Stop, Pass,
  persist, sync_embedding_stats, end_run, fail_quarantined, flush, take_nodes, read_nodes,
  classified, visit_alive, visit_page, visit_pages, next, flush_rest, interrupt, index_pages,
  complete_run, conclude, replace_index,
}

-- The page's nodes carry its id.
abbrev pub IsOfPage : Text → Answer PageNodes → Type 0
IsOfPage page (raised message) = Unit
IsOfPage page (answered PageNodes.empty) = Unit
IsOfPage page (answered PageNodes.lang) = Unit
IsOfPage page (answered (PageNodes.made nodes stubs)) = All (λ n. n.page_id ≡ page) nodes

-- Each node that was given, or that waits, has its page as the owner of its text.
record IsSingle (owners : Owners) (offered pending : List Node) : Type 0 where
  given : All (IsOwned owners) offered
  waiting : All (IsOwned owners) pending

IsOwned-single :
    (owners : Owners) (xs : List Node) (a : Node)
    → All (IsOwned owners) xs
    → MemOf a xs
    → is_empty a.text_digest ≡ false
    → owner_of owners a.text_digest ≡ some a.page_id
IsOwned-single owners [] a h m e = absurd m
IsOwned-single owners (x ∷ xs) a h (inl m) e = rw m (h.0 (rw (sym m) e))
IsOwned-single owners (x ∷ xs) a h (inr m) e = IsOwned-single owners xs a h.1 m e

module _ (jobs : Collection JobRow) (owner : Text) (stats : List Node → ℕ × ℕ)
    (str : ℕ → Text) where
  abbrev Single : Progress jobs.Docs → Type 0
  Single p = IsSingle p.owners p.offered p.pending

  flush-Single :
      (notify : Bool) (kill : Option Text) (embedded : Embedded) (p : Progress jobs.Docs)
      → Single p
      → Single (flush jobs owner stats str notify kill embedded p).progress
  unfolding flush persist sync_embedding_stats
  flush-Single notify (some r) embedded p h = h
  flush-Single notify none (Embedded.circuit_open r path) p h = record {
    given = All-append _ p.offered p.pending h.given h.waiting;
    waiting = h.waiting;
  }
  flush-Single notify none (Embedded.embed_raised m) p h = record {
    given = All-append _ p.offered p.pending h.given h.waiting;
    waiting = h.waiting;
  }
  flush-Single notify none (Embedded.upserted n) p h = record {
    given = All-append _ p.offered p.pending h.given h.waiting;
    waiting = tt;
  }

  take_nodes-Single :
      (batch : ℕ) (v : Visit) (nodes : List Node) (stubs : ℕ) (p : Progress jobs.Docs)
      → All (λ n. n.page_id ≡ v.page_id) nodes
      → Single p
      → Single (take_nodes jobs owner stats str batch v nodes stubs p).progress
  unfolding take_nodes admit_page_nodes
  take_nodes-Single batch v nodes stubs p e h =
      let (kept, repeats, owners') = admit_page_nodes v.page_id nodes p.owners in
      let taken = record p {
        status = record p.status {
          pages_english = p.status.pages_english + 1;
          chunks_skipped_stub = p.status.chunks_skipped_stub + stubs;
          chunks_skipped_repeat = p.status.chunks_skipped_repeat + repeats;
        };
        owners = owners';
        pending = p.pending ++ kept;
      } in
      let k : Single taken = record {
        given =
            All-map
              (λ n i c. own_texts-owner_of p.owners v.page_id kept n.text_digest n.page_id (i c))
              p.offered h.given;
        waiting = (admit_page_nodes-IsOwned v.page_id nodes p.pending p.owners e h.waiting).1;
      } in
      elim (Bool-cases (leb batch (length taken.pending))) [
        | inl b ↦ rw b (flush-Single false v.killed_at_batch v.embedded taken k)
        | inr b ↦ rw b k
      ]

  read_nodes-Single :
      (batch : ℕ) (v : Visit) (nodes : Answer PageNodes) (p : Progress jobs.Docs)
      → IsOfPage v.page_id nodes
      → Single p
      → Single (read_nodes jobs owner stats str batch v nodes p).progress
  read_nodes-Single batch v (raised message) p e h = h
  read_nodes-Single batch v (answered PageNodes.empty) p e h = h
  read_nodes-Single batch v (answered PageNodes.lang) p e h = h
  read_nodes-Single batch v (answered (PageNodes.made nodes stubs)) p e h =
      take_nodes-Single batch v nodes stubs p e h

  classified-Single :
      (batch : ℕ) (v : Visit) (reject : Option Reason) (p : Progress jobs.Docs)
      → IsOfPage v.page_id v.nodes
      → Single p
      → Single (classified jobs owner stats str batch v reject p).progress
  classified-Single batch v (some reason) p e h = h
  classified-Single batch v none p e h = read_nodes-Single batch v v.nodes p e h

  visit_alive-Single :
      (batch : ℕ) (v : Visit) (kill : Option Text) (p : Progress jobs.Docs)
      → IsOfPage v.page_id v.nodes
      → Single p
      → Single (visit_alive jobs owner stats str batch v kill p).progress
  visit_alive-Single batch v (some reason) p e h = h
  visit_alive-Single batch v none p e h =
      classified-Single batch v v.reject
        (record p { status = record p.status { pages_seen = p.status.pages_seen + 1 } }) e h

  next-Single :
      (pass rest : Pass jobs.Docs) (stop : Option Stop)
      → Single pass.progress
      → Single rest.progress
      → Single (next jobs owner stats str pass rest stop).progress
  next-Single pass rest none h k = k
  next-Single pass rest (some s) h k = h

  visit_pages-Single :
      (batch : ℕ) (vs : List Visit) (p : Progress jobs.Docs)
      → All (λ v. IsOfPage v.page_id v.nodes) vs
      → Single p
      → Single (visit_pages jobs owner stats str batch vs p).progress
  unfolding visit_pages visit_page
  visit_pages-Single batch [] p e h = h
  visit_pages-Single batch (v ∷ vs) p e h =
      let pass = visit_page jobs owner stats str batch v p in
      let k = visit_alive-Single batch v v.killed p e.0 h in
      next-Single pass (visit_pages jobs owner stats str batch vs pass.progress) pass.stop k
        (visit_pages-Single batch vs pass.progress e.1 k)

  flush_rest-Single :
      (w : World) (pending : List Node) (p : Progress jobs.Docs)
      → Single p
      → Single (flush_rest jobs owner stats str w pending p).progress
  flush_rest-Single w [] p h = h
  flush_rest-Single w (n ∷ ns) p h = flush-Single true w.killed_at_end w.embedded_at_end p h

  interrupt-Single :
      (w : World) (message : Option Text) (p : Progress jobs.Docs)
      → Single p
      → Single (interrupt jobs owner stats str w message p).progress
  interrupt-Single w (some message) p h = h
  interrupt-Single w none p h = flush_rest-Single w p.pending p h

  conclude-Single :
      (w : World) (stop : Option Stop) (p : Progress jobs.Docs)
      → Single p
      → Single (conclude jobs owner stats str w stop p).1
  unfolding conclude complete_run end_run persist fail_quarantined sync_embedding_stats
  conclude-Single w none p h = elim (Bool-cases (leb p.status.pages_english 0)) [
    | inl b ↦ rw b h
    | inr b ↦ rw b h
  ]
  conclude-Single w (some (Stop.killed reason)) p h = h
  conclude-Single w (some (Stop.circuit reason path)) p h = h
  conclude-Single w (some (Stop.error_raised message)) p h = h

  -- When an index run replaces a run's points, however it ends: two nodes with the same text digest
  -- that it gave to the engine are of the same page, where every page's nodes carry the page's id.
  pub replace_index_single :
      (batch : ℕ) (w : World) (p : Progress jobs.Docs) (a b : Node)
      → All (λ v. IsOfPage v.page_id v.nodes) w.visits
      → let offered = (replace_index jobs owner stats str batch w (answered tt) p).1.offered in
        MemOf a offered
        → MemOf b offered
        → a.text_digest ≡ b.text_digest
        → is_empty a.text_digest ≡ false
        → a.page_id ≡ b.page_id
  unfolding replace_index index_pages
  replace_index_single batch w p a b e i j d n =
      let start = record p { owners = []; pending = []; offered = [] } in
      let pass = visit_pages jobs owner stats str batch w.visits start in
      let k = visit_pages-Single batch w.visits start e (record { given = tt; waiting = tt }) in
      let all =
        next-Single pass (interrupt jobs owner stats str w w.interrupted pass.progress) pass.stop k
          (interrupt-Single w w.interrupted pass.progress k) in
      let last = index_pages jobs owner stats str batch w start in
      let q = (conclude jobs owner stats str w last.stop last.progress).1 in
      let end : Single q = conclude-Single w last.stop last.progress all in
      let x = IsOwned-single q.owners q.offered a end.given i n in
      let y = IsOwned-single q.owners q.offered b end.given j (rw (sym d) n) in cc
