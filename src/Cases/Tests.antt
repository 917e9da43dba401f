-- ===== src/Cases/Tests.antt =====
-- Two loaded cases.
use job_lens.Common.{◌≡◌, refl, none, some, List, [], ◌∷◌, codes, Text, trim, contains, starts_with}
use job_lens.Schema.{Case, Lifecycle, DisplayStatus}
use job_lens.Cases.{visible, fits, clear, selected_filter, filter_of, query, get}

abbrev case_of : Text → DisplayStatus → Case
case_of id status = record {
  id = id;
  learner_id = "l";
  counselor_id = some "k";
  lifecycle = Lifecycle.active;
  display_status = status;
  current_task_id = none;
  version = 1;
}

abbrev loaded : List Case
loaded =
    case_of (codes "1a") DisplayStatus.training ∷ case_of (codes "1b") DisplayStatus.closed ∷ []

abbrev identity : Text → Text
identity t = t

all_shown : visible identity clear loaded ≡ loaded
unfolding visible clear selected_filter filter_of query get fits contains starts_with trim
all_shown = refl
