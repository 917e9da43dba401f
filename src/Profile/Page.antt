-- ===== src/Profile/Page.antt =====
-- `ProfilePage` of apps/web/src/features/profile/ProfileForm.tsx: what a saved or a reloaded profile
-- writes into the cache. The form is that of `Profile`.
use job_lens.Common.{ℕ, Option, none, some, [], ◌∷◌}
use job_lens.Schema.{Profile, ProfileWrite, User}
use job_lens.Api.{Settled, ok, fail, error}
use job_lens.Query.Cache.{QueryClient, QueryState, Key, Cached}
use job_lens.Query.Expiry.{Store, session_key, expire}
use job_lens.Queries.Screen.{Result}
use job_lens.Profile.{Form, reload, body}
use job_lens.Profile as ProfileForm

abbrev pub profile_key : Key
profile_key = "profile" ∷ []

abbrev pub renamed : Profile → User → User
renamed p u = record u { display_name = p.display_name }

-- `reload` of the page: the refetch's error, or its data.
unfoldable pub reread : Result Profile → Settled Profile
reread r = elim r.failure [
  | some f ↦ fail f
  | none ↦ elim r.content [ some p ↦ ok p | none ↦ fail (error "Profile unavailable") ]
]

module _ (Q : QueryClient) where
  -- The updater of `['session']`: without data it writes nothing. The entry holds a user whenever it
  -- holds data.
  unfoldable pub rename : Profile → Option QueryState → Q.Cache → Q.Cache
  rename p none c = c
  rename p (some q) c = elim q.content [
    | some (Cached.session u) ↦ Q.set_data session_key (Cached.session (renamed p u)) c
    | _ ↦ c
  ]

  -- `saved` of the page.
  unfoldable pub saved : Profile → Store Q → Store Q
  unfolding rename
  saved p s =
      let c = Q.set_data profile_key (Cached.profile p) s.cache in
      record s { cache = rename p (Q.get c session_key) c }

  -- The call of `submit` when it has settled: the form, and the cache or what a 401 leaves of it.
  unfoldable pub settle : Settled Profile → Form → Store Q → Form × Store Q
  unfolding saved expire
  settle (ok p) f s = (ProfileForm.saved (ok p) f, saved p s)
  settle (fail e) f s = (ProfileForm.saved (fail e) f, expire Q e s)

  unfoldable pub submit : (ℕ → ProfileWrite → Settled Profile) → Form → Store Q → Form × Store Q
  unfolding settle body
  submit save f s = settle (save f.base.version (body f)) (record f { status = [] }) s

  -- The button that reads the latest profile; the answer of the refetch fills the cache too.
  unfoldable pub read_again : Result Profile → Form → Store Q → Form × Store Q
  unfolding reread reload expire
  read_again r f s = elim (reread r) [
    | ok p ↦
        (reload (ok p) f, record s { cache = Q.set_data profile_key (Cached.profile p) s.cache })
    | fail e ↦ (reload (fail e) f, expire Q e s)
  ]
