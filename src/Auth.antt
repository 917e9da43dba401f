-- ===== src/Auth.antt =====
-- apps/web/src/features/auth/public.tsx and authApi.ts: the gate of the private pages, signing in and
-- signing out. The cache is that of `Query`; the calls' answers are arguments.
pub mod Target
pub mod Session
pub mod Controls
pub mod Tests
use job_lens.Common.{
  ℕ, Bool, true, false, ◌&&◌, ◌||◌, not, String, Text, codes, Option, none, some, List, [], ◌∷◌,
  if◌then◌else◌, ◌==◌, any, or_else, starts_with,
}
use job_lens.Schema.{User, Role, LoginResult}
use job_lens.Api.{ApiError, Failure, api, error, Settled, ok, fail, Field, string, other}
use job_lens.Query.Cache.{QueryClient, QueryState, QueryStatus, Key, Cached}
use job_lens.Query.Expiry.{Store, session_key}

abbrev same_role : Role → Role → Bool
same_role Role.learner Role.learner = true
same_role Role.counselor Role.counselor = true
same_role _ _ = false

-- `roles.includes(role)`.
unfoldable pub has_role : Role → User → Bool
has_role role u = any (same_role role) u.roles

-- What the gate shows. A redirect to the login page carries the location.
pub data Gate : Type 0 where
  loading : Gate
  to_login : (return_to : Text) → Gate
  unavailable forbidden admitted : Gate

abbrev is_401 : Failure → Bool
is_401 (error _) = false
is_401 (api e) = e.status == 401

unfoldable pub for_role : Option Role → User → Gate
unfolding has_role
for_role none u = admitted
for_role (some role) u = if has_role role u then admitted else forbidden

-- The gate on a session's data and error; `location` is the path with its query and fragment.
unfoldable pub with_error : Text → Option Failure → Gate
with_error location none = unavailable
with_error location (some f) = if is_401 f then to_login location else unavailable

unfoldable pub with_content : Option Role → Option Cached → Gate
unfolding for_role
with_content role (some (Cached.session u)) = for_role role u
with_content role _ = unavailable

unfoldable pub with_status : QueryStatus → Option Role → Text → QueryState → Gate
unfolding with_error with_content
with_status QueryStatus.pending role location q = loading
with_status QueryStatus.error role location q = with_error location q.failure
with_status QueryStatus.success role location q = with_content role q.content

unfoldable pub session_gate : Option Role → Text → Option QueryState → Gate
unfolding with_status
session_gate role location none = loading
session_gate role location (some q) = with_status q.status role location q

-- `/^\/(?!\/)/.test(target)`.
unfoldable pub is_path : Text → Bool
is_path [] = false
is_path (c ∷ []) = c == b'/'
is_path (c ∷ d ∷ _) = c == b'/' && not (d == b'/')

abbrev pub backslash : ℕ
backslash = 92

abbrev pub login_path : Text
login_path = codes "/login"

abbrev pub fallback : User → Text
fallback u = if has_role Role.counselor u then codes "/counselor" else codes "/learner"

-- Where the login page goes; `return_to` is the property of an unknown state.
unfoldable pub target : Field → User → Text
unfolding is_path starts_with
target other u = fallback u
target (string t) u =
    if is_path t && not (any (λ c. c == backslash) t) && not (starts_with login_path t)
    then t
    else fallback u

-- A form that talks to the API: the store, the text of its error, and where it went.
pub record Outcome (Q : QueryClient) : Type 0 where
  pub store : Store Q
  pub error_text : Text
  pub went_to : Option Text

abbrev pub message_of : Failure → Text
message_of (api e) = e.message
message_of (error _) = codes "连接未完成，请稍后重试。"

module _ (Q : QueryClient) where
  -- `prepareCsrf`: the token of `/auth/csrf` is kept.
  abbrev pub prepared : Text → Store Q → Store Q
  prepared token s = record s { csrf = some token }

  -- `cancelQueries` and `clear`.
  abbrev pub emptied : Store Q → Store Q
  emptied s = record s { cache = Q.clear (Q.cancel (λ k. true) s.cache) }

  abbrev pub signed_in : LoginResult → Store Q → Store Q
  signed_in r s = record {
    cache = Q.set_data session_key (Cached.session r.user) (emptied s).cache;
    csrf = some r.csrf_token;
  }

  login_with : Field → Settled LoginResult → Store Q → Outcome Q
  unfolding target
  login_with return_to (fail f) s = record { store = s; error_text = message_of f; went_to = none }
  login_with return_to (ok r) s = record {
    store = signed_in r s;
    error_text = [];
    went_to = some (target return_to r.user);
  }

  -- `submit` of the login page, with the answers to `/auth/csrf` and `/auth/login`.
  unfoldable pub login : Field → Settled Text → Settled LoginResult → Store Q → Outcome Q
  unfolding login_with
  login return_to (fail f) answer s = record {
    store = s;
    error_text = message_of f;
    went_to = none;
  }
  login return_to (ok token) answer s = login_with return_to answer (prepared token s)

  abbrev pub signed_out : Store Q → Outcome Q
  signed_out s = record {
    store = record (emptied s) { csrf = none };
    error_text = [];
    went_to = some login_path;
  }

  logout_failed : Failure → Store Q → Outcome Q
  logout_failed f s =
      if is_401 f
      then signed_out s
      else record { store = s; error_text = codes "退出未完成，请重试。"; went_to = none }

  logout_with : Settled (Unit {0}) → Store Q → Outcome Q
  unfolding logout_failed
  logout_with (ok _) s = signed_out s
  logout_with (fail f) s = logout_failed f s

  -- `logout`, with the answers to `/auth/csrf` and `/auth/logout`.
  unfoldable pub logout : Settled Text → Settled (Unit {0}) → Store Q → Outcome Q
  unfolding logout_with logout_failed
  logout (fail f) answer s = logout_failed f s
  logout (ok token) answer s = logout_with answer (prepared token s)
