-- ===== src/Queries/Keys.antt =====
-- Which request a query key stands for.
use job_lens.Common.{
  ◌≡◌, refl, ap, sym, ◌∙◌, ◌≢◌, String, Option, none, some, List, [], ◌∷◌, ◌++◌, same, same_iff,
  if◌then◌else◌, arith, or_try,
}
use job_lens.Query.Cache.{Key}
use job_lens.Queries.{Read, Get, get_path}
use job_lens.Queries.Training.{use_submission, use_snapshot_revision, use_task, use_submissions}
use job_lens.Queries.Sop.{use_plans, use_revision}
use job_lens.Queries.Support.{
  Filter, queued, accepted, resolved, cancelled, filter_word, param, use_assistance,
  use_assistance_messages, use_notifications, use_assistance_requests,
}
use job_lens.Queries.Counselor.{
  use_cases, use_counselor_dashboard, use_case, use_case_profile, use_match, use_records,
}
use job_lens.Queries.Learner.{
  use_learner_dashboard, use_learner_cases, use_learner_tasks, use_learner_records,
}

-- A read of the pages. A case filter is an id, never the word that stands for all cases.
pub data IsRead : Read → Type 0 where
  submission : (id : String) → IsRead (use_submission id)
  snapshot_revision : (id : String) → IsRead (use_snapshot_revision id)
  task : (id : String) → IsRead (use_task id)
  submissions : (id : String) → IsRead (use_submissions id)
  plans : (id : String) → IsRead (use_plans id)
  revision : (id : String) → IsRead (use_revision id)
  assistance : (id : String) → IsRead (use_assistance id)
  assistance_messages : (id : String) → IsRead (use_assistance_messages id)
  notifications : IsRead use_notifications
  cases : IsRead use_cases
  counselor_dashboard : IsRead use_counselor_dashboard
  case : (id : String) → IsRead (use_case id)
  case_profile : (id : String) → IsRead (use_case_profile id)
  match : (id : String) → IsRead (use_match id)
  records : (id : String) → IsRead (use_records id)
  learner_dashboard : IsRead use_learner_dashboard
  learner_cases : IsRead use_learner_cases
  learner_tasks : IsRead use_learner_tasks
  learner_records : (id : String) → IsRead (use_learner_records id)
  all_requests : (state : Option Filter) → IsRead (use_assistance_requests state none)
  case_requests :
      (state : Option Filter) (id : String)
      → id ≢ "all"
      → IsRead (use_assistance_requests state (some id))

limited : String → List String → Get
limited n path = record { path = path; query = ("limit", n) ∷ [] }

-- The request of a key with an id.
with_id : String → String → Option Get
unfolding limited
with_id root id =
    if same root "submission"
    then some (get_path ("submissions" ∷ id ∷ []))
    else if same root "training-revision"
    then some (get_path ("sop-revisions" ∷ id ∷ []))
    else if same root "task"
    then some (get_path ("tasks" ∷ id ∷ []))
    else if same root "submissions"
    then some (limited "20" ("tasks" ∷ id ∷ "submissions" ∷ []))
    else if same root "sop-plans"
    then some (get_path ("cases" ∷ id ∷ "sop-plans" ∷ []))
    else if same root "sop-revision"
    then some (get_path ("sop-revisions" ∷ id ∷ []))
    else if same root "assistance"
    then some (get_path ("assistance-requests" ∷ id ∷ []))
    else if same root "assistance-messages"
    then some (get_path ("assistance-requests" ∷ id ∷ "messages" ∷ []))
    else if same root "case"
    then some (get_path ("cases" ∷ id ∷ []))
    else if same root "case-profile"
    then some (get_path ("cases" ∷ id ∷ "profile" ∷ []))
    else if same root "match"
    then some (get_path ("cases" ∷ id ∷ "match" ∷ []))
    else if same root "case-records"
    then some (get_path ("cases" ∷ id ∷ "records" ∷ []))
    else if same root "learner-records"
    then some (limited "20" ("cases" ∷ id ∷ "records" ∷ []))
    else none

-- The request of a key without an id.
alone : String → Option Get
unfolding limited
alone root =
    if same root "learner-cases"
    then some (limited "20" ("cases" ∷ []))
    else if same root "notifications"
    then some (limited "50" ("notifications" ∷ []))
    else none

view : String → Get
view v = record { path = "dashboard" ∷ []; query = ("view", v) ∷ [] }

-- The request of a key of two fixed words.
words : String → String → Option Get
unfolding limited view
words root word =
    if same root "cases"
    then some (limited "20" ("cases" ∷ []))
    else if same root "tasks"
    then some (limited "20" ("tasks" ∷ []))
    else if same root "dashboard"
    then some (view word)
    else none

all_or : String → String → List (String × String)
all_or name value = if same value "all" then [] else (name, value) ∷ []

filtered : String → String → Get
unfolding all_or
filtered state case_id = record {
  path = "assistance-requests" ∷ [];
  query = all_or "state" state ++ (all_or "case_id" case_id ++ ("limit", "100") ∷ []);
}

decode : Key → Option Get
unfolding with_id alone words filtered
decode (root ∷ []) = alone root
decode (root ∷ id ∷ []) = or_try (words root id) (with_id root id)
decode (root ∷ state ∷ case_id ∷ []) = some (filtered state case_id)
decode _ = none

decode-key : {r : Read} → IsRead r → decode r.key ≡ some r.request
unfolding decode param filter_word use_submission use_snapshot_revision use_task use_submissions
    use_plans use_revision use_assistance use_assistance_messages use_notifications
    use_assistance_requests use_cases use_counselor_dashboard use_case use_case_profile use_match
    use_records use_learner_dashboard use_learner_cases use_learner_tasks use_learner_records
decode-key (submission id) = refl
decode-key (snapshot_revision id) = refl
decode-key (task id) = refl
decode-key (submissions id) = refl
decode-key (plans id) = refl
decode-key (revision id) = refl
decode-key (assistance id) = refl
decode-key (assistance_messages id) = refl
decode-key (case id) = refl
decode-key (case_profile id) = refl
decode-key (match id) = refl
decode-key (records id) = refl
decode-key (learner_records id) = refl
decode-key notifications = refl
decode-key cases = refl
decode-key counselor_dashboard = refl
decode-key learner_dashboard = refl
decode-key learner_cases = refl
decode-key learner_tasks = refl
decode-key (all_requests none) = refl
decode-key (case_requests none id ne) = ground (arith, same_iff id "all")
decode-key (all_requests (some queued)) = refl
decode-key (case_requests (some queued) id ne) = ground (arith, same_iff id "all")
decode-key (all_requests (some accepted)) = refl
decode-key (case_requests (some accepted) id ne) = ground (arith, same_iff id "all")
decode-key (all_requests (some resolved)) = refl
decode-key (case_requests (some resolved) id ne) = ground (arith, same_iff id "all")
decode-key (all_requests (some cancelled)) = refl
decode-key (case_requests (some cancelled) id ne) = ground (arith, same_iff id "all")

-- Two reads of the pages that share a query key send the same request, where a list of requests
-- for help is never filtered by a case whose id is the word `all`.
pub key-request : {r s : Read} → IsRead r → IsRead s → r.key ≡ s.key → r.request ≡ s.request
key-request a b h = some_injective (sym (decode-key a) ∙ (ap decode h ∙ decode-key b))
  where
    some_injective : {x y : Get} → some x ≡ some y → x ≡ y
    some_injective e = cc
