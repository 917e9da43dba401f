-- ===== src/Shell/Links.antt =====
-- Where the links of WorkspaceShell.tsx lead, and which one is marked as the current page.
use job_lens.Common.{
  ℕ, ◌≡◌, refl, ◌≢◌, inl, inr, Bool, true, false, ◌||◌, Text, codes, none, some, List, [], ◌++◌,
  map, if◌then◌else◌, starts_with, All, All-imp, All-append, All-map, get_elem?, arith, Bool-cases,
  ◌∙◌,
}
use job_lens.Schema.{User, Role}
use job_lens.Auth.{
  admitted, has_role, session_gate, with_status, with_content, with_error, for_role,
}
use job_lens.Query.Cache.{QueryState, QueryStatus, Cached}
use job_lens.Cases.{Params}
use job_lens.Shell.{
  Destination, holds, destinations, for_counselor, for_learner, for_all, is_cases_tab, brand_link,
  links,
}
use job_lens.Shell.Routes.{Route, feature_routes, gate_of, path_of}

-- The query of the session holds this user.
pub record IsSession (u : User) (q : QueryState) : Type 0 where
  pub success : q.status ≡ QueryStatus.success
  pub held : q.content ≡ some (Cached.session u)

-- A link leads to a private route whose gate lets the user in.
abbrev pub Admits : QueryState → Text → Text → Type 0
Admits q location link =
    (i : ℕ) × (r : Route) × (get_elem? feature_routes i ≡ some r)
    × (path_of link ≡ r.path)
    × (gate_of r location (some q) ≡ admitted)

module _ (u : User) (q : QueryState) (location : Text) where
  gate-session : (r : Route) → IsSession u q → gate_of r location (some q) ≡ for_role r.role u
  unfolding gate_of session_gate with_status with_content
  gate-session r h = rw (h.success, h.held) refl

  Admits-all :
      (link : Text) (i : ℕ) (r : Route)
      → get_elem? feature_routes i ≡ some r
      → path_of link ≡ r.path
      → r.role ≡ none
      → IsSession u q
      → Admits q location link
  unfolding for_role
  Admits-all link i r e p n h = (i, r, e, p, gate-session r h ∙ (rw n refl))

  Admits-role :
      (role : Role) (link : Text) (i : ℕ) (r : Route)
      → get_elem? feature_routes i ≡ some r
      → path_of link ≡ r.path
      → r.role ≡ some role
      → has_role role u ≡ true
      → IsSession u q
      → Admits q location link
  unfolding for_role
  Admits-role role link i r e p n w h = (i, r, e, p, gate-session r h ∙ (rw (n, w) refl))

  counselor_links :
      (tab : Bool) (path : Text)
      → has_role Role.counselor u ≡ true
      → IsSession u q
      → All (λ d. Admits q location d.href) (for_counselor tab path)
  unfolding feature_routes path_of
  counselor_links tab path w h = (
    Admits-role Role.counselor (codes "/counselor") 8 _ refl refl refl w h,
    (
      Admits-role Role.counselor (codes "/counselor?tab=cases") 8 _ refl refl refl w h,
      (Admits-role Role.counselor (codes "/counselor/support") 12 _ refl refl refl w h, tt),
    ),
  )

  learner_links :
      (path : Text)
      → has_role Role.learner u ≡ true
      → IsSession u q
      → All (λ d. Admits q location d.href) (for_learner path)
  unfolding feature_routes path_of
  learner_links path w h = (
    Admits-role Role.learner (codes "/learner") 4 _ refl refl refl w h,
    (Admits-role Role.learner (codes "/learner/records") 6 _ refl refl refl w h, tt),
  )

  notification_link : IsSession u q → Admits q location (codes "/notifications")
  unfolding feature_routes path_of
  notification_link h = Admits-all (codes "/notifications") 3 _ refl refl refl h

  when {ℓ} :
      {A : Type ℓ} (P : A → Type 0) (b : Bool) (xs : List A)
      → (b ≡ true → All P xs)
      → All P (if b then xs else [])
  when P true xs h = h refl
  when P false xs h = tt

  abbrev Good : Destination → Type 0
  Good d = Admits q location d.href

  destinations-Admits :
      (ps : Params) (path : Text) → IsSession u q → All Good (destinations (some u) ps path)
  unfolding destinations holds
  destinations-Admits ps path h =
      let c = for_counselor (is_cases_tab ps) path in
      let l = for_learner path in
      All-append Good
        ((if has_role Role.counselor u then c else [])
          ++ (if has_role Role.learner u then l else []))
        (for_all path)
        (All-append Good (if has_role Role.counselor u then c else []) _
          (when Good (has_role Role.counselor u) c
            (λ w. counselor_links (is_cases_tab ps) path w h))
          (when Good (has_role Role.learner u) l (λ w. learner_links path w h)))
        (notification_link h, tt)

  brand_link-Admits :
      (has_role Role.counselor u || has_role Role.learner u) ≡ true
      → IsSession u q
      → Admits q location (brand_link (some u))
  unfolding brand_link holds feature_routes path_of
  brand_link-Admits w h = elim (Bool-cases (has_role Role.counselor u)) [
    | inl c ↦ rw c (Admits-role Role.counselor (codes "/counselor") 8 _ refl refl refl c h)
    | inr n ↦
        rw n (Admits-role Role.learner (codes "/learner") 4 _ refl refl refl (ground (arith)) h)
  ]

  -- For a user with one of the two roles, whose session the cache holds, every link of the shell
  -- leads to the path of a private route whose gate admits the user: the brand, the navigation,
  -- the settings, the profile and the notifications.
  pub links-Admits :
      (ps : Params) (path : Text)
      → (has_role Role.counselor u || has_role Role.learner u) ≡ true
      → IsSession u q
      → All (Admits q location) (links (some u) ps path)
  unfolding links feature_routes path_of
  links-Admits ps path w h = (
    brand_link-Admits w h,
    All-append (Admits q location) (map (λ d. d.href) (destinations (some u) ps path)) _
        (All-map (Admits q location) (λ d. d.href) _ (destinations-Admits ps path h))
        (
          Admits-all (codes "/settings") 0 _ refl refl refl h,
          (
            Admits-all (codes "/settings?tab=profile") 0 _ refl refl refl h,
            (notification_link h, tt),
          ),
        ),
  )

abbrev pub home_of : Role → Text
home_of Role.learner = codes "/learner"
home_of Role.counselor = codes "/counselor"

-- The routes under the path of a role name that role.
abbrev Guarded : Role → Route → Type 0
Guarded role r = starts_with (home_of role) r.path ≡ true → r.role ≡ some role

routes-Guarded : (role : Role) → All (Guarded role) feature_routes
unfolding feature_routes starts_with
routes-Guarded Role.learner = ground arith
routes-Guarded Role.counselor = ground arith

not_admitted :
    (role : Role) (u : User) (q : QueryState) (location : Text)
    → q.content ≡ some (Cached.session u)
    → has_role role u ≡ false
    → session_gate (some role) location (some q) ≢ admitted
unfolding session_gate with_status with_content with_error for_role
not_admitted role u q location h w = ground arith

-- A user without a role passes no gate of the routes under that role's path, whatever the status
-- and the error of the query that holds the user.
pub routes-closed :
    (role : Role) (u : User) (q : QueryState) (location : Text)
    → q.content ≡ some (Cached.session u)
    → has_role role u ≡ false
    → All
        (λ r. starts_with (home_of role) r.path ≡ true → gate_of r location (some q) ≢ admitted)
        feature_routes
unfolding gate_of
routes-closed role u q location h w =
    All-imp _ _ (λ r g s. rw (g s) (not_admitted role u q location h w)) feature_routes
      (routes-Guarded role)
