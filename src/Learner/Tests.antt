-- ===== src/Learner/Tests.antt =====
-- A task with one of its two steps done.
use job_lens.Common.{String, ℕ, ◌≡◌, refl, false, codes, none, some, [], ◌∷◌}
use job_lens.Schema.{Task, TaskStatus, StepStatus, SopStep, RevisionState}
use job_lens.Learner.Records.{minutes}

abbrev step_of : String → ℕ → SopStep
step_of id n = record {
  id = id;
  position = n;
  instruction = codes "核对";
  media_ids = [];
  estimated_seconds = 60;
  evidence_required = false;
}

abbrev task : Task
task = record {
  id = "t";
  case_id = "c";
  learner_id = "l";
  title = codes "文件整理";
  revision = record {
    goal = codes "整理";
    steps = step_of "s-1" 1 ∷ step_of "s-2" 2 ∷ [];
    reminder = record { speech_enabled = false; vibration_enabled = false; prompt_level = 1 };
    id = "r";
    plan_id = "p";
    revision_no = 1;
    state = RevisionState.published;
    version = 1;
    published_at = none;
  };
  status = TaskStatus.in_progress;
  due_on = none;
  current_step_id = some "s-2";
  progress = record { step_id = "s-1"; status = StepStatus.completed; attachment_ids = [] } ∷ [];
  prompt_override = none;
  version = 3;
}

half_up : minutes 90_000 ≡ 2
unfolding minutes
half_up = refl
