-- ===== src/Learner/Cards.antt =====
-- The cards of LearnerPage, against the progress of their tasks.
use job_lens.Common.{◌≡◌, true, String, List, map, includes, Distinct}
use job_lens.Schema.{Task, StepProgress, SopStep}

abbrev pub step_ids : List StepProgress → List String
step_ids = map (λ p. p.step_id)

abbrev pub ids : List SopStep → List String
ids = map (λ s. s.id)

-- A task whose progress has at most one entry for each step of its revision, and no other.
pub record IsTracked (t : Task) : Type 0 where
  pub once : Distinct (step_ids t.progress)
  pub known :
      (i : String)
      → includes (step_ids t.progress) i ≡ true
      → includes (ids t.revision.steps) i ≡ true
