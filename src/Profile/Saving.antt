-- ===== src/Profile/Saving.antt =====
-- What saving the profile does to the session that the pages are shown under.
use job_lens.Common.{
  ℕ, ◌≡◌, refl, sym, ◌≢◌, Option-cases, inl, inr, Text, Option, none, some, arith,
}
use job_lens.Schema.{Profile, ProfileWrite, User, Role}
use job_lens.Api.{Settled, ok, Failure, api, error}
use job_lens.Query.Cache.{QueryClient, QueryState, QueryStatus, Key, Cached, eq_key, eq_key_iff}
use job_lens.Query.Expiry.{Store, session_key}
use job_lens.Auth.{
  session_gate, with_status, with_error, with_content, for_role, has_role, admitted,
}
use job_lens.Profile.{Form, body}
use job_lens.Profile as ProfileForm
use job_lens.Profile.Page.{profile_key, renamed, rename, saved, settle, submit}

-- The data of an entry of the cache.
abbrev pub content_of : Option QueryState → Option Cached
content_of none = none
content_of (some q) = q.content

module _ (Q : QueryClient) where
  error_unadmitted : (location : Text) (f : Option Failure) → with_error location f ≢ admitted
  unfolding with_error
  error_unadmitted location none h = absurd (ground arith)
  error_unadmitted location (some (error _)) h = absurd (ground arith)
  error_unadmitted location (some (api e)) h = ground arith

  content_held :
      (role : Option Role) (c : Option Cached)
      → with_content role c ≡ admitted
      → (u : User) × (c ≡ some (Cached.session u)) × (for_role role u ≡ admitted)
  unfolding with_content
  content_held role none h = absurd (ground arith)
  content_held role (some (Cached.session u)) h = (u, refl, h)
  content_held role (some (Cached.task _)) h = absurd (ground arith)
  content_held role (some (Cached.profile _)) h = absurd (ground arith)
  content_held role (some (Cached.fetched _)) h = absurd (ground arith)

  status_held :
      (status : QueryStatus) (role : Option Role) (location : Text) (q : QueryState)
      → with_status status role location q ≡ admitted
      → (u : User) × (q.content ≡ some (Cached.session u)) × (for_role role u ≡ admitted)
  unfolding with_status
  status_held QueryStatus.pending role location q h = absurd (ground arith)
  status_held QueryStatus.error role location q h = absurd (error_unadmitted location q.failure h)
  status_held QueryStatus.success role location q h = content_held role q.content h

  renamed_allowed :
      (role : Option Role) (p : Profile) (u : User) → for_role role (renamed p u) ≡ for_role role u
  unfolding for_role has_role
  renamed_allowed none p u = refl
  renamed_allowed (some r) p u = refl

  keys_apart : profile_key ≢ session_key
  unfolding eq_key
  keys_apart h = let equal = (eq_key_iff profile_key session_key).1 h in ground (arith, equal)

  rename_step :
      (p : Profile) (q : QueryState) (u : User) (c : Q.Cache)
      → q.content ≡ some (Cached.session u)
      → rename Q p (some q) c ≡ Q.set_data session_key (Cached.session (renamed p u)) c
  unfolding rename
  rename_step p q u c h = rw h refl

  success_admitted :
      (role : Option Role) (location : Text) (q : QueryState) (u : User)
      → q.status ≡ QueryStatus.success
      → q.content ≡ some (Cached.session u)
      → session_gate role location (some q) ≡ for_role role u
  unfolding session_gate with_status with_content
  success_admitted role location q u st co = rw (st, co) refl

  -- The store after a profile was saved: the session's user has the saved name and keeps all else, the
  -- entry of the profile holds the saved one, and every other entry and the token are as before.
  pub record IsSaved (p : Profile) (s t : Store Q) : Type 0 where
    pub user : User
    pub before : content_of (Q.get s.cache session_key) ≡ some (Cached.session user)
    pub after :
        content_of (Q.get t.cache session_key)
        ≡ some (Cached.session (record user { display_name = p.display_name }))
    pub shown : content_of (Q.get t.cache profile_key) ≡ some (Cached.profile p)
    pub others : (k : Key) → session_key ≢ k → profile_key ≢ k → Q.get t.cache k ≡ Q.get s.cache k
    pub token : t.csrf ≡ s.csrf

  -- The cache that `saved` leaves when the session is that of the user.
  abbrev written : Profile → User → Q.Cache → Q.Cache
  written p u c =
      Q.set_data session_key (Cached.session (renamed p u))
        (Q.set_data profile_key (Cached.profile p) c)

  saved_step :
      (p : Profile) (s : Store Q) (q : QueryState) (u : User)
      → Q.get s.cache session_key ≡ some q
      → q.content ≡ some (Cached.session u)
      → saved Q p s ≡ record s { cache = written p u s.cache }
  unfolding saved
  saved_step p s q u held co =
      rw
        (
          Q.get-set_data_ne profile_key (Cached.profile p) s.cache session_key keys_apart,
          held,
          rename_step p q u (Q.set_data profile_key (Cached.profile p) s.cache) co,
        )
        refl

  written-IsSaved :
      (p : Profile) (s : Store Q) (q : QueryState) (u : User)
      → Q.get s.cache session_key ≡ some q
      → q.content ≡ some (Cached.session u)
      → IsSaved p s (record s { cache = written p u s.cache })
  written-IsSaved p s q u held co =
      let inner = Q.set_data profile_key (Cached.profile p) s.cache in
      let (at, found, content, status) =
        Q.get-set_data session_key (Cached.session (renamed p u)) inner in
      let (at', found', content', status') =
        Q.get-set_data profile_key (Cached.profile p) s.cache in
      record {
        user = u;
        before = rw held co;
        after = rw found content;
        shown =
            rw
              (
                Q.get-set_data_ne session_key (Cached.session (renamed p u)) inner profile_key
                    (λ e. keys_apart (sym e)),
                found',
              )
              content';
        others = λ k a b.
            rw
              (
                Q.get-set_data_ne session_key (Cached.session (renamed p u)) inner k a,
                Q.get-set_data_ne profile_key (Cached.profile p) s.cache k b,
              )
              refl;
        token = refl;
      }

  written-session_gate :
      (role : Option Role) (location : Text) (p : Profile) (u : User) (c : Q.Cache)
      → for_role role u ≡ admitted
      → session_gate role location (Q.get (written p u c) session_key) ≡ admitted
  written-session_gate role location p u c h =
      let (at, found, content, status) =
        Q.get-set_data session_key (Cached.session (renamed p u))
          (Q.set_data profile_key (Cached.profile p) c) in
      rw
        (
          found,
          success_admitted role location at (renamed p u) status content,
          renamed_allowed role p u,
        )
        h

  submit_step :
      (save : ℕ → ProfileWrite → Settled Profile) (f : Form) (s : Store Q) (p : Profile)
      → save f.base.version (body f) ≡ ok p
      → ((submit Q save f s).1 ≡ saved Q p s) × ((submit Q save f s).0.base ≡ p)
  unfolding submit settle ProfileForm.saved
  submit_step save f s p h = (rw h refl, rw h refl)

  -- On a page that the gate admits, for any role and location, a save of the profile that the server
  -- answers with a profile leaves the gate admitting; the session's user has the answered name and
  -- keeps all else, the profile's entry and the form hold the answer, and the rest of the store is as
  -- before.
  pub submit-IsSaved :
      (role : Option Role) (location : Text) (save : ℕ → ProfileWrite → Settled Profile) (f : Form)
      (s : Store Q) (p : Profile)
      → session_gate role location (Q.get s.cache session_key) ≡ admitted
      → save f.base.version (body f) ≡ ok p
      → (session_gate role location (Q.get (submit Q save f s).1.cache session_key) ≡ admitted)
        × IsSaved p s (submit Q save f s).1
        × ((submit Q save f s).0.base ≡ p)
  unfolding session_gate
  submit-IsSaved role location save f s p shown answered =
      elim (Option-cases (Q.get s.cache session_key)) [
        | inl missing ↦ absurd (no_entry missing)
        | inr (q, held) ↦
            let (u, co, allowed) = status_held q.status role location q (at_entry q held) in
            let (left, base) = submit_step save f s p answered in
            rw (left, saved_step p s q u held co)
              (
                written-session_gate role location p u s.cache allowed,
                written-IsSaved p s q u held co,
                base,
              )
      ]
    where
      no_entry : Q.get s.cache session_key ≡ none → ⊥
      no_entry missing = ground (arith, missing, shown)

      at_entry :
          (q : QueryState)
          → Q.get s.cache session_key ≡ some q
          → with_status q.status role location q ≡ admitted
      at_entry q held = ground (arith, held, shown)
