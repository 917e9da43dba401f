-- ===== src/Account/Session.antt =====
-- What registering and setting a new password leave behind.
use job_lens.Common.{◌≡◌, refl, Text, codes, []}
use job_lens.Schema.{LoginResult}
use job_lens.Api.{Settled, ok, fail}
use job_lens.Query.Cache.{QueryClient}
use job_lens.Query.Expiry.{Store}
use job_lens.Auth.{prepared, message_of}
use job_lens.Auth.Session.{SignsIn, signed_in-IsFresh, IsEmpty, emptied-IsEmpty}
use job_lens.Account.{
  register, register_with, Reset, ResetView, reset_password, reset_with, reset_view,
}

module _ (Q : QueryClient) where
  -- Where a call of the registration fails, the page and the cache stay and the failure's text shows;
  -- where both succeed, the cache holds the new user's session and nothing else, with the new token,
  -- and the learner's page follows.
  pub register_cases :
      (csrf : Settled Text) (answer : Settled LoginResult) (s : Store Q)
      → SignsIn Q (λ r. codes "/learner") csrf answer s (register Q csrf answer s)
  unfolding register register_with
  register_cases (fail f) answer s = (refl, refl, refl)
  register_cases (ok token) (fail f) s = (refl, refl, refl, refl)
  register_cases (ok token) (ok r) s = (signed_in-IsFresh Q r (prepared Q token s), refl, refl)

  -- What setting a new password has done, by the answers to its two calls.
  abbrev pub Resets : Settled Text → Settled (Unit {0}) → Reset → Store Q → Reset × Store Q → Type 0
  Resets (fail f) answer r s (t, u) =
      (reset_view t ≡ reset_view r)
      × (t.token ≡ r.token)
      × (t.error_text ≡ message_of f)
      × (u.cache ≡ s.cache)
  Resets (ok _) (fail f) r s (t, u) =
      (reset_view t ≡ reset_view r)
      × (t.token ≡ r.token)
      × (t.error_text ≡ message_of f)
      × (u.cache ≡ s.cache)
  Resets (ok _) (ok _) r s (t, u) =
      (reset_view t ≡ ResetView.finished) × (t.token ≡ []) × IsEmpty Q u

  -- Where a call of the reset fails, the view, the token of the link and the cache stay and the
  -- failure's text shows; where both succeed, the page says so, has forgotten the token of the link, and
  -- no cached data and no CSRF token stay behind.
  pub reset_password_cases :
      (csrf : Settled Text) (answer : Settled (Unit {0})) (r : Reset) (s : Store Q)
      → Resets csrf answer r s (reset_password Q csrf answer r s)
  unfolding reset_password reset_with reset_view
  reset_password_cases (fail f) answer r s = (refl, refl, refl, refl)
  reset_password_cases (ok token) (fail f) r s = (refl, refl, refl, refl)
  reset_password_cases (ok token) (ok _) r s = (refl, refl, emptied-IsEmpty Q (prepared Q token s))
