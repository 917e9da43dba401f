-- ===== src/Queries/Tests.antt =====
-- Writes with the cache of `Query.Model`.
use job_lens.Queries.{Page}
use job_lens.Queries.Paging.{by_cursor, by_flag, Serves, unread}
use job_lens.Queries.Paging.Model.{list_query}
use job_lens.Queries.Paging.Complete.{Complete, fetches, fetches-Complete}
use job_lens.Common.{
  Option, String, List, Bool, arith, ◌≡◌, refl, true, false, none, some, [], ◌∷◌, codes, ℕ,
}
use job_lens.Api.{ok}
use job_lens.Query.Cache.{Cached}
use job_lens.Query.Expiry.{Store}
use job_lens.Query.Model.{table_client}
use job_lens.Queries.{flat_items}
use job_lens.Queries.Effects.{settle}
use job_lens.Queries.Counselor.{use_case, use_confirm_match}
use job_lens.Queries.Stale.{confirmed_case, Leaves-settle}

abbrev fetched : Store table_client
fetched = record {
  cache = table_client.set_data ("case" ∷ "c" ∷ []) (Cached.fetched 1) (λ k. none);
  csrf = some (codes "token");
}

abbrev answer : Cached
answer = Cached.fetched 2

Leaves-settle_example :
    table_client.get
      (settle table_client (use_confirm_match "c") (ok answer) fetched).cache
      (use_case "c").key
    ≡ table_client.get fetched.cache (use_case "c").key
Leaves-settle_example = Leaves-settle table_client answer fetched (confirmed_case "c")

flattened :
    flat_items {A = ℕ} (
      record { items = 1 ∷ 2 ∷ []; next_cursor = some "c"; has_more = true }
      ∷ record { items = 3 ∷ []; next_cursor = none; has_more = false }
      ∷ [])
    ≡ 1 ∷ 2 ∷ 3 ∷ []
unfolding flat_items
flattened = refl

-- An API with two pages, the second by the cursor "c".
abbrev two_pages : Option String → Page ℕ
two_pages none = record { items = 1 ∷ 2 ∷ []; next_cursor = some "c"; has_more = true }
two_pages (some c) = record { items = 3 ∷ []; next_cursor = none; has_more = false }

two_pages-Serves : Serves two_pages none (1 ∷ 2 ∷ 3 ∷ []) 2
two_pages-Serves = Serves.more refl refl (Serves.last refl refl)

abbrev tries : List Bool
tries = false ∷ true ∷ false ∷ true ∷ []

fetches-Complete_example :
    Complete
      (list_query by_cursor)
      two_pages
      (1 ∷ 2 ∷ 3 ∷ [])
      (fetches (list_query by_cursor) two_pages tries unread)
    × Complete
        (list_query by_flag)
        two_pages
        (1 ∷ 2 ∷ 3 ∷ [])
        (fetches (list_query by_flag) two_pages tries unread)
fetches-Complete_example =
    fetches-Complete (list_query by_cursor) (list_query by_flag) two_pages tries two_pages-Serves
      (omega arith)
