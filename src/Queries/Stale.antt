-- ===== src/Queries/Stale.antt =====
-- Reads that show what a write changed and that its `onSuccess` does not reach, in the `queries.ts` of
-- the features.
use job_lens.Common.{◌≡◌, refl, false, String}
use job_lens.Api.{ok}
use job_lens.Query.Cache.{QueryClient, Cached, eq_key}
use job_lens.Query.Expiry.{Store}
use job_lens.Queries.{Read, Write}
use job_lens.Queries.Sop.{use_publish_revision}
use job_lens.Queries.Support.{use_assistance_action}
use job_lens.Queries.Counselor.{use_case, use_cases, use_counselor_dashboard, use_confirm_match}
use job_lens.Queries.Effects.{covers, settle, apply_other}

-- A confirmed match changes its case, a published revision the counselor's cases and dashboard, and an
-- action on a request the dashboard, which counts the open ones.
pub data Leaves : Write → Read → Type 0 where
  confirmed_case : (c : String) → Leaves (use_confirm_match c) (use_case c)
  published_cases : (r c : String) → Leaves (use_publish_revision r c) use_cases
  published_dashboard : (r c : String) → Leaves (use_publish_revision r c) use_counselor_dashboard
  acted_dashboard : (r : String) → Leaves (use_assistance_action r) use_counselor_dashboard

Leaves-covers : {w : Write} {r : Read} → Leaves w r → covers w.effects r.key ≡ false
unfolding eq_key use_confirm_match use_case use_publish_revision use_cases use_counselor_dashboard
    use_assistance_action
Leaves-covers (confirmed_case c) = refl
Leaves-covers (published_cases r c) = refl
Leaves-covers (published_dashboard r c) = refl
Leaves-covers (acted_dashboard r) = refl

-- Whatever the server answers to a confirmation of a match that succeeds, the query of its case is as
-- it was; so are the queries of the counselor's cases and dashboard after a publication, and that of
-- the dashboard after an action on a request.
pub Leaves-settle :
    (Q : QueryClient) {w : Write} {r : Read} (answer : Cached) (s : Store Q)
    → Leaves w r
    → Q.get (settle Q w (ok answer) s).cache r.key ≡ Q.get s.cache r.key
unfolding settle
Leaves-settle Q {w} {r} answer s l = apply_other Q answer w.effects s.cache r.key (Leaves-covers l)
