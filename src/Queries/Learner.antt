-- ===== src/Queries/Learner.antt =====
-- apps/web/src/features/learner/queries.ts.
use job_lens.Common.{String, [], ◌∷◌}
use job_lens.Queries.{Read}

unfoldable pub use_learner_dashboard : Read
use_learner_dashboard = record {
  key = "dashboard" ∷ "learner" ∷ [];
  request = record { path = "dashboard" ∷ []; query = ("view", "learner") ∷ [] };
}

unfoldable pub use_learner_cases : Read
use_learner_cases = record {
  key = "learner-cases" ∷ [];
  request = record { path = "cases" ∷ []; query = ("limit", "20") ∷ [] };
}

unfoldable pub use_learner_tasks : Read
use_learner_tasks = record {
  key = "tasks" ∷ "learner" ∷ [];
  request = record { path = "tasks" ∷ []; query = ("limit", "20") ∷ [] };
}

unfoldable pub use_learner_records : String → Read
use_learner_records id = record {
  key = "learner-records" ∷ id ∷ [];
  request = record { path = "cases" ∷ id ∷ "records" ∷ []; query = ("limit", "20") ∷ [] };
}
