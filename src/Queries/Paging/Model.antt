-- ===== src/Queries/Paging/Model.antt =====
-- An infinite query that meets `InfiniteQuery`.
use job_lens.Common.{
  ◌≡◌, refl, Bool, true, false, String, Option, none, some, [], ◌∷◌, ◌++◌, is_some,
}
use job_lens.Queries.{Page}
use job_lens.Queries.Paging.{Pages, InfiniteQuery, last_page}

module _ {A : Type 0} (next_of : Page A → Option String) where
  -- The cursors to ask for: the first page has none, and after the last page nothing is asked.
  abbrev cursor_after : Option String → Option (Option String)
  cursor_after none = none
  cursor_after (some c) = some (some c)

  abbrev due_after : Option (Page A) → Option (Option String)
  due_after none = some none
  due_after (some p) = cursor_after (next_of p)

  pub fetch_due : (Option String → Page A) → Bool → Option (Option String) → Pages A → Pages A
  fetch_due api reached none s = s
  fetch_due api true (some c) s = record { pages = s.pages ++ api c ∷ []; is_error = false }
  fetch_due api false (some c) s = record s { is_error = true }

  pub fetch_failed :
      (api : Option String → Page A) (d : Option (Option String)) (s : Pages A)
      → (fetch_due api false d s).pages ≡ s.pages
  unfolding fetch_due
  fetch_failed api none s = refl
  fetch_failed api (some c) s = refl

  pub first_pages :
      (api : Option String → Page A) (s : Pages A)
      → s.pages ≡ []
      → (fetch_due api true (due_after (last_page s.pages)) s).pages ≡ api none ∷ []
  unfolding fetch_due last_page
  first_pages api s h = rw h refl

  pub list_query : InfiniteQuery A next_of
  list_query = record {
    fetch = λ api reached s. fetch_due api reached (due_after (last_page s.pages)) s;
    has_next = λ s. is_some (due_after (last_page s.pages));
    fetch-first = first_pages;
    fetch-next = λ api s p c l n. unfold fetch_due in rw (l, n) refl;
    fetch-over = λ api s p l n. unfold fetch_due in rw (l, n) refl;
    fetch-failed = λ api s. fetch_failed api (due_after (last_page s.pages)) s;
    has_next-last = λ s p l. rw l (some_cursor (next_of p));
  }
    where
      some_cursor : (o : Option String) → is_some (cursor_after o) ≡ is_some o
      some_cursor none = refl
      some_cursor (some c) = refl
