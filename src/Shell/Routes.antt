-- ===== src/Shell/Routes.antt =====
-- apps/web/src/app/App.tsx and routes.generated.ts: the pages of the private routes and the gates in
-- front of them.
use job_lens.Common.{Text, codes, Option, none, some, List, [], ◌∷◌, ◌==◌, if◌then◌else◌}
use job_lens.Schema.{Role}
use job_lens.Auth.{Gate, session_gate}
use job_lens.Query.Cache.{QueryState}

-- The lazily loaded components.
pub data Page : Type 0 where
  settings_page profile_page preferences_page counselor_notifications_page : Page
  learner_page training_page records_page support_page : Page
  counselor_page case_page sop_page feedback_page counselor_support_page : Page
  assistance_page counselor_task_page : Page

pub record Route : Type 0 where
  pub path : Text
  pub role : Option Role
  pub page : Page

abbrev open_to_all : Text → Page → Route
open_to_all path page = record { path = path; role = none; page = page }

abbrev of_learners : Text → Page → Route
of_learners path page = record { path = path; role = some Role.learner; page = page }

abbrev of_counselors : Text → Page → Route
of_counselors path page = record { path = path; role = some Role.counselor; page = page }

-- `featureRoutes`.
unfoldable pub feature_routes : List Route
feature_routes =
    open_to_all (codes "/settings") settings_page
    ∷ open_to_all (codes "/profile") profile_page
    ∷ open_to_all (codes "/preferences") preferences_page
    ∷ open_to_all (codes "/notifications") counselor_notifications_page
    ∷ of_learners (codes "/learner") learner_page
    ∷ of_learners (codes "/learner/tasks/:id") training_page
    ∷ of_learners (codes "/learner/records") records_page
    ∷ of_learners (codes "/learner/support/:id") support_page
    ∷ of_counselors (codes "/counselor") counselor_page
    ∷ of_counselors (codes "/counselor/cases/:id") case_page
    ∷ of_counselors (codes "/counselor/sop/:id") sop_page
    ∷ of_counselors (codes "/counselor/submissions/:id") feedback_page
    ∷ of_counselors (codes "/counselor/support") counselor_support_page
    ∷ of_counselors (codes "/counselor/support/:id") assistance_page
    ∷ of_counselors (codes "/counselor/tasks/:id") counselor_task_page
    ∷ of_counselors (codes "/counselor/notifications") counselor_notifications_page
    ∷ []

-- `<SessionGate role={role} />` around the page of a route.
unfoldable pub gate_of : Route → Text → Option QueryState → Gate
unfolding session_gate
gate_of r location q = session_gate r.role location q

-- The path of a link: what stands before its query.
unfoldable pub path_of : Text → Text
path_of [] = []
path_of (c ∷ t) = let rest = path_of t in if c == b'?' then [] else c ∷ rest
