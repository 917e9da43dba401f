-- ===== src/Query/Expiry.antt =====
-- apps/web/src/app/query.ts: `createQueryClient`.
use job_lens.Common.{
  ℕ, Bool, true, false, not, ◌&&◌, ◌||◌, Text, Option, none, some, [], ◌∷◌, same, ◌==◌, ltb,
  if◌then◌else◌,
}
use job_lens.Api.{ApiError, Failure, api, error}
use job_lens.Query.Cache.{QueryClient, QueryState, Key, QueryStatus, FetchStatus}

abbrev pub session_key : Key
session_key = "session" ∷ []

-- `query.queryKey[0] !== 'session'`; a key with no first part is private.
abbrev pub is_private : Key → Bool
is_private [] = true
is_private (x ∷ _) = not (same x "session")

module _ (Q : QueryClient) where
  open Q use {Cache, get, remove, cancel, set_state}

  -- The cache together with the CSRF token of the HTTP client.
  pub record Store : Type 0 where
    pub cache : Cache
    pub csrf : Option Text

  abbrev pub expired : ApiError → QueryState → QueryState
  expired e s = record s {
    content = none;
    failure = some (api e);
    status = QueryStatus.error;
    fetch_status = FetchStatus.idle;
  }

  unfoldable pub expire_session : ApiError → Option QueryState → Store → Store
  expire_session e none s = s
  expire_session e (some q) s = elim q.content [
    | none ↦ s
    | some _ ↦ record {
      csrf = none;
      cache = set_state session_key (expired e q) (remove is_private (cancel is_private s.cache));
    }
  ]

  -- `expire`, the `onError` of every query and mutation.
  unfoldable pub expire : Failure → Store → Store
  unfolding expire_session
  expire (error _) s = s
  expire (api e) s =
      if not (e.status == 401) then s else expire_session e (get s.cache session_key) s

-- `retry` of the queries.
unfoldable pub should_retry : ℕ → Failure → Bool
should_retry count (error _) = false
should_retry count (api e) = ltb count 2 && (e.status == 502 || e.status == 503 || e.status == 504)
