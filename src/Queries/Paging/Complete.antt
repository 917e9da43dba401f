-- ===== src/Queries/Paging/Complete.antt =====
-- What the lists come to that are read page by page.
use job_lens.Common.{
  ℕ, ◌≤◌, ◌≡◌, refl, ap, sym, ◌∙◌, Bool, true, false, String, Option, none, some, List, [], ◌∷◌,
  ◌++◌, append_assoc, append-nil, is_some, arith,
}
use job_lens.Queries.{Page, flat_items}
use job_lens.Queries.Paging.{
  by_cursor, by_flag, Pages, unread, items, successes, last_page, InfiniteQuery, Serves,
}

module _ {A : Type 0} where
  last_page-append : (ps : List (Page A)) (p : Page A) → last_page (ps ++ p ∷ []) ≡ some p
  unfolding last_page
  last_page-append [] p = refl
  last_page-append (q ∷ ps) p = rw (last_page-append ps p) refl

  flat_items-append :
      (ps : List (Page A)) (q : Page A) → flat_items (ps ++ q ∷ []) ≡ flat_items ps ++ q.items
  unfolding flat_items
  flat_items-append [] q = append-nil q.items
  flat_items-append (p ∷ ps) q =
      ap (λ xs. p.items ++ xs) (flat_items-append ps q)
      ∙ sym (append_assoc p.items (flat_items ps) q.items)

module _ {A : Type 0} {next_of : Page A → Option String} (Q : InfiniteQuery A next_of)
    (api : Option String → Page A) where
  -- Fetches in order, by whether each reaches the API.
  pub fetches : List Bool → Pages A → Pages A
  fetches [] s = s
  fetches (r ∷ rs) s = fetches rs (Q.fetch api r s)

  -- All pages are there: these are the items, and no next page is offered.
  abbrev pub Complete : List A → Pages A → Type 0
  Complete xs s = (items s ≡ xs) × (Q.has_next s ≡ false)

  -- Which page a list of pages waits for.
  data Due : Option String → List (Page A) → Type 0 where
    at_start : Due none []
    after :
        (ps : List (Page A)) (p : Page A) (d : String)
        → last_page ps ≡ some p
        → next_of p ≡ some d
        → Due (some d) ps

  adds_page :
      {c : Option String} {ps : List (Page A)} (s : Pages A)
      → Due c ps
      → s.pages ≡ ps
      → (Q.fetch api true s).pages ≡ ps ++ api c ∷ []
  adds_page s at_start h = Q.fetch-first api s h
  adds_page s (after ps p d l n) h =
      Q.fetch-next api s p d (rw h l) n ∙ ap (λ qs. qs ++ api (some d) ∷ []) h

  items-added :
      (s t : Pages A) (p : Page A) → t.pages ≡ s.pages ++ p ∷ [] → items t ≡ items s ++ p.items
  unfolding items
  items-added s t p h = rw h (flat_items-append s.pages p)

  items-same : (s t : Pages A) → t.pages ≡ s.pages → items t ≡ items s
  unfolding items
  items-same s t h = rw h refl

  last_page-added :
      (s t : Pages A) (p : Page A) → t.pages ≡ s.pages ++ p ∷ [] → last_page t.pages ≡ some p
  last_page-added s t p h = rw h (last_page-append s.pages p)

  -- Once the last page is there, nothing changes any more.
  fetches-over :
      (rs : List Bool) (s : Pages A) (p : Page A) (xs : List A)
      → last_page s.pages ≡ some p
      → next_of p ≡ none
      → items s ≡ xs
      → Complete xs (fetches rs s)
  unfolding fetches
  fetches-over [] s p xs l n e = (e, Q.has_next-last s p l ∙ ap is_some n)
  fetches-over (true ∷ rs) s p xs l n e =
      let same_pages = Q.fetch-over api s p l n in
      fetches-over rs (Q.fetch api true s) p xs (rw same_pages l) n
        (items-same s (Q.fetch api true s) same_pages ∙ e)
  fetches-over (false ∷ rs) s p xs l n e =
      let same_pages = Q.fetch-failed api s in
      fetches-over rs (Q.fetch api false s) p xs (rw same_pages l) n
        (items-same s (Q.fetch api false s) same_pages ∙ e)

  -- The query's option reads the next cursor of every page that the API serves.
  abbrev pub Reads : Type 0
  Reads =
      ((p : Page A) (d : String) → p.has_more ≡ true → p.next_cursor ≡ some d → next_of p ≡ some d)
      × ((p : Page A) → p.has_more ≡ false → p.next_cursor ≡ none → next_of p ≡ none)

  fetches-more :
      Reads
      → (rs : List Bool) (s : Pages A) {c : Option String} {xs : List A} {k : ℕ} → Due c s.pages
      → Serves api c xs k
      → k ≤ successes rs
      → Complete (items s ++ xs) (fetches rs s)
  unfolding fetches
  fetches-more read [] s h (Serves.last m n) e = absurd (omega arith)
  fetches-more read [] s h (Serves.more m n v) e = absurd (omega arith)
  fetches-more read (false ∷ rs) s {xs = xs} h v e =
      let same_pages = Q.fetch-failed api s in
      rw (← items-same s (Q.fetch api false s) same_pages)
        (fetches-more read rs (Q.fetch api false s) (rw same_pages h) v e)
  fetches-more read (true ∷ rs) s {c = c} h (Serves.last m n) e =
      let grown = adds_page s h refl in
      let reached = Q.fetch api true s in
      fetches-over rs reached (api c) _ (last_page-added s reached (api c) grown)
        (read.1 (api c) m n) (items-added s reached (api c) grown)
  fetches-more read (true ∷ rs) s {c = c} h (Serves.more {d = d} {xs = xs} m n v) e =
      let grown = adds_page s h refl in
      let reached = Q.fetch api true s in
      let next_due : Due (some d) reached.pages =
        after reached.pages (api c) d (last_page-added s reached (api c) grown)
          (read.0 (api c) d m n) in
      rw (← append_assoc (items s) (api c).items xs, ← items-added s reached (api c) grown)
        (fetches-more read rs reached next_due v (omega arith))

  fetches-unread :
      Reads
      → (rs : List Bool) {xs : List A} {k : ℕ} → Serves api none xs k
      → k ≤ successes rs
      → Complete xs (fetches rs unread)
  unfolding unread items flat_items
  fetches-unread read rs v e = fetches-more read rs unread at_start v e

module _ {A : Type 0} where
  -- Where the API serves a list in `k` pages, and at least `k` of the fetches reach it, then with
  -- the option of the learner's lists and of the submissions and with that of the cases alike the items
  -- are the whole list, once and in its order, and no next page is offered, whatever other fetches fail.
  pub fetches-Complete :
      (C : InfiniteQuery A by_cursor) (F : InfiniteQuery A by_flag) (api : Option String → Page A)
      (rs : List Bool) {xs : List A} {k : ℕ}
      → Serves api none xs k
      → k ≤ successes rs
      → Complete C api xs (fetches C api rs unread) × Complete F api xs (fetches F api rs unread)
  unfolding by_cursor by_flag
  fetches-Complete C F api rs v e = (
    fetches-unread C api ((λ p d m n. n), (λ p m n. n)) rs v e,
    fetches-unread F api ((λ p d m n. rw m n), (λ p m n. rw m refl)) rs v e,
  )
