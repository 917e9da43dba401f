-- ===== src/Query/Tests.antt =====
-- The expiry rule on a small cache.
use job_lens.Common.{◌≡◌, refl, none, some, [], ◌∷◌, codes, true, false}
use job_lens.Schema.{User, Role}
use job_lens.Api.{ApiError, api}
use job_lens.Query.Cache.{Key, QueryState, QueryStatus, FetchStatus, Cached}
use job_lens.Query.Expiry.{Store, session_key, should_retry}
use job_lens.Query.Model.{table_client}

abbrev unauthorised : ApiError
unauthorised = record {
  status = 401;
  code = codes "SESSION_EXPIRED";
  message = codes "会话失效";
  trace_id = none;
}

abbrev ann : User
ann = record { id = "learner"; display_name = codes "A"; roles = Role.learner ∷ [] }

abbrev held : Cached → QueryState
held d = record {
  content = some d;
  failure = none;
  status = QueryStatus.success;
  fetch_status = FetchStatus.idle;
  stale = false;
}

abbrev tasks_key : Key
tasks_key = "tasks" ∷ []

abbrev signed_in_store : Store table_client
signed_in_store = record {
  cache =
      table_client.set_data tasks_key (Cached.fetched 7)
        (table_client.set_data session_key (Cached.session ann) (λ k. none));
  csrf = some (codes "token");
}

retries : should_retry 1 (api (record unauthorised { status = 503 })) ≡ true
unfolding should_retry
retries = refl

gives_up : should_retry 2 (api (record unauthorised { status = 503 })) ≡ false
unfolding should_retry
gives_up = refl
