-- ===== src/Auth/Session.antt =====
-- What signing in, signing out and the expiry of a session leave behind.
use job_lens.Common.{
  starts_with, ◌≡◌, refl, ◌≢◌, inl, inr, true, false, Text, Option, none, some, [], ◌==◌, any,
  arith, Bool-cases,
}
use job_lens.Schema.{User, Role, LoginResult}
use job_lens.Api.{ApiError, Failure, api, error, Settled, ok, fail, Field, string}
use job_lens.Query.Cache.{QueryClient, QueryState, Key, Cached}
use job_lens.Query.Expiry.{Store, session_key, expire, expired, is_private}
use job_lens.Query.Laws.{expire_step}
use job_lens.Auth.{
  login, login_with, logout, logout_with, logout_failed, signed_in, emptied, prepared, target,
  login_path, Outcome, message_of, session_gate, with_status, with_error, to_login, is_path,
  backslash,
}

module _ (Q : QueryClient) where
  -- The store holds this sign-in and nothing of before it.
  pub record IsFresh (r : LoginResult) (s : Store Q) : Type 0 where
    pub session : QueryState
    pub held : Q.get s.cache session_key ≡ some session
    pub user : session.content ≡ some (Cached.session r.user)
    pub alone : (k : Key) → session_key ≢ k → Q.get s.cache k ≡ none
    pub token : s.csrf ≡ some r.csrf_token

  pub signed_in-IsFresh : (r : LoginResult) (s : Store Q) → IsFresh r (signed_in Q r s)
  signed_in-IsFresh r s =
      let (q, held, user, status) =
        Q.get-set_data session_key (Cached.session r.user) (emptied Q s).cache in
      record {
        session = q;
        held = held;
        user = user;
        alone = λ k ne.
            rw (Q.get-set_data_ne session_key (Cached.session r.user) (emptied Q s).cache k ne)
              (Q.get-clear _ k);
        token = refl;
      }

  -- What a sign-in that leads to this place has done, by the answers to its two calls.
  abbrev pub SignsIn :
      (LoginResult → Text) → Settled Text → Settled LoginResult → Store Q → Outcome Q → Type 0
  SignsIn place (fail f) answer s o =
      (o.store ≡ s) × (o.error_text ≡ message_of f) × (o.went_to ≡ none)
  SignsIn place (ok token) (fail f) s o =
      (o.store.cache ≡ s.cache)
      × (o.store.csrf ≡ some token)
      × (o.error_text ≡ message_of f)
      × (o.went_to ≡ none)
  SignsIn place (ok token) (ok r) s o =
      IsFresh r o.store × (o.error_text ≡ []) × (o.went_to ≡ some (place r))

  -- Where the call for the token fails, the store stays, the page too, and the failure's text shows;
  -- where that call succeeds and the sign-in fails, the cache and the page stay, the token is kept and
  -- the text shows; where both succeed, the cache holds the new user's session and nothing else, with
  -- the sign-in's own token, no error shows and the page goes to its target.
  pub login_cases :
      (return_to : Field) (csrf : Settled Text) (answer : Settled LoginResult) (s : Store Q)
      → SignsIn (λ r. target return_to r.user) csrf answer s (login Q return_to csrf answer s)
  unfolding login login_with
  login_cases return_to (fail f) answer s = (refl, refl, refl)
  login_cases return_to (ok token) (fail f) s = (refl, refl, refl, refl)
  login_cases return_to (ok token) (ok r) s = (signed_in-IsFresh r (prepared Q token s), refl, refl)

  -- The store holds nothing of any user.
  pub record IsEmpty (s : Store Q) : Type 0 where
    pub no_query : (k : Key) → Q.get s.cache k ≡ none
    pub no_token : s.csrf ≡ none

  pub emptied-IsEmpty : (s : Store Q) → IsEmpty (record (emptied Q s) { csrf = none })
  emptied-IsEmpty s = record { no_query = λ k. Q.get-clear _ k; no_token = refl }

  failed-IsEmpty :
      (f : Failure) (s : Store Q) (t : Text)
      → (logout_failed Q f s).went_to ≡ some t
      → IsEmpty (logout_failed Q f s).store × (t ≡ login_path)
  unfolding logout_failed
  failed-IsEmpty (error m) s t h = absurd (cc)
  failed-IsEmpty (api e) s t h = elim (Bool-cases (e.status == 401)) [
    | inl expired401 ↦ rw expired401 (emptied-IsEmpty s, away expired401 h)
    | inr other_status ↦ absurd (stays other_status h)
  ]
    where
      away :
          (e.status == 401) ≡ true → (logout_failed Q (api e) s).went_to ≡ some t → t ≡ login_path
      away p k = ground arith

      stays : (e.status == 401) ≡ false → (logout_failed Q (api e) s).went_to ≡ some t → ⊥
      stays p k = ground arith

  -- Whenever signing out leaves the page, be it after the call or because the session was over, no
  -- cached data and no token of the user stay behind, and the login page follows.
  pub logout-IsEmpty :
      (csrf : Settled Text) (answer : Settled (Unit {0})) (s : Store Q) (t : Text)
      → (logout Q csrf answer s).went_to ≡ some t
      → IsEmpty (logout Q csrf answer s).store × (t ≡ login_path)
  unfolding logout logout_with
  logout-IsEmpty (fail f) answer s t h = failed-IsEmpty f s t h
  logout-IsEmpty (ok token) (ok _) s t h = (emptied-IsEmpty (prepared Q token s), ground arith)
  logout-IsEmpty (ok token) (fail f) s t h = failed-IsEmpty f (prepared Q token s) t h

  gate_of_expired :
      (role : Option Role) (location : Text) (e : ApiError) (q : QueryState)
      → e.status ≡ 401
      → session_gate role location (some (expired Q e q)) ≡ to_login location
  unfolding session_gate with_status with_error
  gate_of_expired role location e q h = rw h refl

  -- When a 401 ends a held session, the gate of the page that is open redirects to the login page
  -- with its location, and that location is where signing in leads, provided it starts with one
  -- slash, holds no backslash and does not start with `/login`.
  pub expire-session_gate-target :
      (role : Option Role) (location : Text) (e : ApiError) (s : Store Q) {q : QueryState}
      {c : Cached} (u : User)
      → e.status ≡ 401
      → Q.get s.cache session_key ≡ some q
      → q.content ≡ some c
      → is_path location ≡ true
      → any (λ x. x == backslash) location ≡ false
      → starts_with login_path location ≡ false
      → (session_gate role location (Q.get (expire Q (api e) s).cache session_key)
          ≡ to_login location)
        × (target (string location) u ≡ location)
  unfolding target
  expire-session_gate-target role location e s {q} u h g c p b l =
      let kept =
        Q.get-set_state session_key (expired Q e q)
          (Q.remove is_private (Q.cancel is_private s.cache)) in
      (rw (expire_step Q e s h g c, kept) (gate_of_expired role location e q h), rw (p, b, l) refl)
