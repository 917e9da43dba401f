-- ===== src/Queries/Paging.antt =====
-- The lists that are read page by page: the `getNextPageParam` of the `queries.ts` files, over the
-- interface of `useInfiniteQuery` that they rely on. The API is the function from a cursor to its
-- answer; each fetch reaches it or fails on the way.
pub mod Model
pub mod Complete
use job_lens.Common.{
  ℕ, suc, ◌≤◌, ◌≡◌, refl, ap, sym, ◌∙◌, Bool, true, false, String, Option, none, some, List, [],
  ◌∷◌, ◌++◌, append_assoc, append-nil, if◌then◌else◌, is_some, arith,
}
use job_lens.Queries.{Page, flat_items}

module _ {A : Type 0} where
  -- `getNextPageParam` of the learner's lists and of the submissions, and of the list of cases.
  unfoldable pub by_cursor : Page A → Option String
  by_cursor p = p.next_cursor

  unfoldable pub by_flag : Page A → Option String
  by_flag p = if p.has_more then p.next_cursor else none

-- The state of an infinite query.
pub record Pages (A : Type 0) : Type 0 where
  pub pages : List (Page A)
  pub is_error : Bool

module _ {A : Type 0} where
  unfoldable pub unread : Pages A
  unread = record { pages = []; is_error = false }

  -- `data.pages.flatMap(page => page.items)`.
  unfoldable pub items : Pages A → List A
  unfolding flat_items
  items s = flat_items s.pages

-- How many attempts reach the API.
abbrev pub successes : List Bool → ℕ
successes [] = 0
successes (true ∷ rs) = suc (successes rs)
successes (false ∷ rs) = successes rs

-- The page that is read last.
unfoldable pub last_page : {A : Type 0} → List (Page A) → Option (Page A)
last_page [] = none
last_page (p ∷ ps) = elim (last_page ps) [ none ↦ some p | some q ↦ some q ]

-- What @tanstack/react-query documents of an infinite query with this `getNextPageParam`, whose first
-- page is asked for without a cursor: a fetch that reaches the API adds the page of the next cursor,
-- without a next cursor and where it fails it leaves the pages, and `hasNextPage` tells whether there
-- is a next cursor.
pub record InfiniteQuery (A : Type 0) (next_of : Page A → Option String) : Type 0 where
  pub fetch : (Option String → Page A) → Bool → Pages A → Pages A
  pub has_next : Pages A → Bool
  pub fetch-first :
      (api : Option String → Page A) (s : Pages A)
      → s.pages ≡ []
      → (fetch api true s).pages ≡ api none ∷ []
  pub fetch-next :
      (api : Option String → Page A) (s : Pages A) (p : Page A) (c : String)
      → last_page s.pages ≡ some p
      → next_of p ≡ some c
      → (fetch api true s).pages ≡ s.pages ++ api (some c) ∷ []
  pub fetch-over :
      (api : Option String → Page A) (s : Pages A) (p : Page A)
      → last_page s.pages ≡ some p
      → next_of p ≡ none
      → (fetch api true s).pages ≡ s.pages
  pub fetch-failed :
      (api : Option String → Page A) (s : Pages A) → (fetch api false s).pages ≡ s.pages
  pub has_next-last :
      (s : Pages A) (p : Page A) → last_page s.pages ≡ some p → has_next s ≡ is_some (next_of p)

-- From a cursor on, the API serves this list in so many pages. Its routes set `next_cursor` to the next
-- cursor or null, and `has_more` to whether there is one.
pub data Serves {A : Type 0} (api : Option String → Page A)
    : Option String → List A → ℕ → Type 0 where
  last :
      {c : Option String}
      → (api c).has_more ≡ false
      → (api c).next_cursor ≡ none
      → Serves api c (api c).items 1
  more :
      {c : Option String} {d : String} {xs : List A} {k : ℕ}
      → (api c).has_more ≡ true
      → (api c).next_cursor ≡ some d
      → Serves api (some d) xs k
      → Serves api c ((api c).items ++ xs) (suc k)
