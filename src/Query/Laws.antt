-- ===== src/Query/Laws.antt =====
-- What a 401 does to the cache and to the CSRF token (apps/web/src/app/query.ts).
use job_lens.Common.{
  ◌≡◌, refl, Bool, true, false, ◌&&◌, Option, none, some, ◌==◌, if◌then◌else◌, arith, inl, inr,
  Bool-cases, is_some,
}
use job_lens.Api.{ApiError, Failure, api, error}
use job_lens.Query.Cache.{QueryClient, QueryState, Key, Cached, eq_key}
use job_lens.Query.Expiry.{session_key, is_private, Store, expire, expired, expire_session}

and_false : (b : Bool) → (b && false) ≡ false
and_false true = refl
and_false false = refl

abbrev pub is_401 : Failure → Bool
is_401 (error _) = false
is_401 (api e) = e.status == 401

module _ (Q : QueryClient) where
  open Q use {Cache, get, remove, cancel, set_state}

  abbrev has_content : Option QueryState → Bool
  has_content none = false
  has_content (some q) = is_some q.content

  -- Some user's session stands in the cache.
  abbrev signed_in : Store Q → Bool
  signed_in s = has_content (get s.cache session_key)

  expire_session_signed_out :
      (e : ApiError) (o : Option QueryState) (s : Store Q)
      → has_content o ≡ false
      → expire_session Q e o s ≡ s
  unfolding expire_session
  expire_session_signed_out e none s h = refl
  expire_session_signed_out e (some q) s h = ground arith

  -- Where no session is held, or on any failure other than a 401 of the API, neither the cache nor
  -- the token changes.
  pub expire_unchanged :
      (f : Failure) (s : Store Q) → (is_401 f && signed_in s) ≡ false → expire Q f s ≡ s
  unfolding expire
  expire_unchanged (error m) s h = refl
  expire_unchanged (api e) s h = elim (Bool-cases (e.status == 401)) [
    | inl yes401 ↦ rw yes401 (expire_session_signed_out e _ s (ground arith))
    | inr other ↦ rw other
  ]

  -- The state of the query with key `k` after the session with state `q` expired by the error `e`.
  abbrev after_expiry : ApiError → QueryState → Store Q → Key → Option QueryState
  after_expiry e q s k =
      if is_private k
      then none
      else if eq_key session_key k
      then some (expired Q e q)
      else get s.cache k

  pub expire_step :
      (e : ApiError) (s : Store Q) {q : QueryState} {u : Cached}
      → e.status ≡ 401
      → get s.cache session_key ≡ some q
      → q.content ≡ some u
      → expire Q (api e) s ≡ record {
        csrf = none;
        cache =
            set_state session_key (expired Q e q) (remove is_private (cancel is_private s.cache));
      }
  unfolding expire
  expire_step e s h g c = ground arith

  -- After the expiry of a held session by a 401, no further failure changes the cache or the
  -- token.
  pub expire_once :
      (e : ApiError) (f : Failure) (s : Store Q) {q : QueryState} {u : Cached}
      → e.status ≡ 401
      → get s.cache session_key ≡ some q
      → q.content ≡ some u
      → expire Q f (expire Q (api e) s) ≡ expire Q (api e) s
  expire_once e f s {q} h g c = rw (expire_step e s h g c) (
      expire_unchanged f _
        (rw (Q.get-set_state session_key (expired Q e q) _) (and_false (is_401 f))))
