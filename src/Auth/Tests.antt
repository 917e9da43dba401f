-- ===== src/Auth/Tests.antt =====
-- A learner's session that ends on a task's page.
use job_lens.Common.{starts_with, ◌≡◌, refl, none, some, [], ◌∷◌, codes, false, Text}
use job_lens.Schema.{User, Role, LoginResult}
use job_lens.Api.{ApiError, api, ok, fail, string, other}
use job_lens.Query.Cache.{QueryState, QueryStatus, FetchStatus, Cached, eq_key}
use job_lens.Query.Expiry.{Store, expire, session_key}
use job_lens.Query.Model.{table_client}
use job_lens.Auth.{login, logout, target, session_gate, to_login, is_path, login_path, has_role}
use job_lens.Auth.Target.{IsLocal, target-IsLocal}
use job_lens.Auth.Session.{
  SignsIn, IsEmpty, login_cases, logout-IsEmpty, expire-session_gate-target,
}

abbrev learner : User
learner = record { id = "learner"; display_name = codes "小林"; roles = Role.learner ∷ [] }

abbrev over : ApiError
over = record {
  status = 401;
  code = codes "SESSION_EXPIRED";
  message = codes "会话失效";
  trace_id = none;
}

abbrev session_state : QueryState
session_state = record {
  content = some (Cached.session learner);
  failure = none;
  status = QueryStatus.success;
  fetch_status = FetchStatus.idle;
  stale = false;
}

abbrev store : Store table_client
store = record {
  cache = table_client.set_data session_key (Cached.session learner) (λ k. none);
  csrf = some (codes "token");
}

held : table_client.get store.cache session_key ≡ some session_state
unfolding eq_key
held = refl

abbrev page : Text
page = codes "/learner/tasks/7"

expire-session_gate-target_example :
    (session_gate
        (some Role.learner)
        page
        (table_client.get (expire table_client (api over) store).cache session_key)
      ≡ to_login page)
    × (target (string page) learner ≡ page)
unfolding is_path starts_with
expire-session_gate-target_example =
    expire-session_gate-target table_client (some Role.learner) page over store learner refl held
      refl refl refl refl

target-IsLocal_example : IsLocal (target (string (codes "//example.org")) learner)
target-IsLocal_example = target-IsLocal (string (codes "//example.org")) learner

other_host : target (string (codes "//example.org")) learner ≡ codes "/learner"
unfolding target is_path has_role
other_host = refl

abbrev result : LoginResult
result = record { user = learner; csrf_token = codes "new" }

login_cases_example :
    SignsIn table_client
      (λ r. target other r.user)
      (ok (codes "csrf"))
      (ok result)
      store
      (login table_client other (ok (codes "csrf")) (ok result) store)
login_cases_example = login_cases table_client other (ok (codes "csrf")) (ok result) store

-- A sign-in that is refused.
stays_out : (login table_client other (ok (codes "csrf")) (fail (api over)) store).went_to ≡ none
unfolding login
stays_out = refl

logout-IsEmpty_example :
    IsEmpty table_client (logout table_client (ok (codes "csrf")) (fail (api over)) store).store
    × (login_path ≡ login_path)
unfolding logout
logout-IsEmpty_example =
    logout-IsEmpty table_client (ok (codes "csrf")) (fail (api over)) store login_path refl
