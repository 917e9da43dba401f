-- ===== src/Training/Workspace/Tests.antt =====
-- The page of a task with two steps.
use job_lens.Common.{
  ◌≡◌, refl, ℕ, Bool, true, false, String, none, some, [], ◌∷◌, codes, trim, ◌&&◌, is_some,
}
use job_lens.Schema.{Task, TaskStatus, SopStep, RevisionState, StepStatus, PromptOverrideWrite}
use job_lens.Training.Rules.{pause, transition, by_learner}
use job_lens.Training.Workspace.{
  Page, opened, panel, working, current_step, choose_evidence, attachments, save_disabled,
}
use job_lens.Training.Workspace.Laws.{
  IsSaveable, save_command-IsSaveable, offered, fits, offered_iff_allowed,
}
use job_lens.Training.Workspace.Hints.{run, opening, toggle, move_on, IsCounted, run-IsCounted}
use job_lens.Training.Counselor.{CancelCard, submit_cancel, submit_override, OverrideCard}

abbrev step_of : String → ℕ → Bool → SopStep
step_of id n evidence = record {
  id = id;
  position = n;
  instruction = codes "扫码";
  media_ids = [];
  estimated_seconds = 720;
  evidence_required = evidence;
}

abbrev task : Task
task = record {
  id = "t";
  case_id = "c";
  learner_id = "l";
  title = codes "收银";
  revision = record {
    goal = codes "结账";
    steps = step_of "a" 1 false ∷ step_of "b" 2 true ∷ [];
    reminder = record { speech_enabled = true; vibration_enabled = false; prompt_level = 2 };
    id = "r";
    plan_id = "p";
    revision_no = 1;
    state = RevisionState.published;
    version = 2;
    published_at = some "2026-01-01";
  };
  status = TaskStatus.in_progress;
  due_on = none;
  current_step_id = some "b";
  progress =
      record { step_id = "a"; status = StepStatus.completed; attachment_ids = [] }
      ∷ record { step_id = "b"; status = StepStatus.pending; attachment_ids = [] }
      ∷ [];
  prompt_override = none;
  version = 7;
}

shows_step : panel task none ≡ working (step_of "b" 2 true)
unfolding panel
shows_step = refl

needs_evidence : save_disabled false task opened (step_of "b" 2 true) ≡ true
unfolding save_disabled
needs_evidence = refl

abbrev with_file : Page
with_file = choose_evidence "b" ("f" ∷ []) opened

save_command-IsSaveable_example : IsSaveable task with_file (step_of "b" 2 true)
unfolding panel save_disabled choose_evidence
save_command-IsSaveable_example =
    save_command-IsSaveable task none with_file (step_of "b" 2 true) false refl refl

attachments_tests :
    (attachments task with_file (step_of "b" 2 true) ≡ "f" ∷ [])
    × (attachments task with_file (step_of "a" 1 false) ≡ [])
unfolding attachments choose_evidence
attachments_tests = (refl, refl)

abbrev cancelling : CancelCard
cancelling = record { reason = codes " 换岗 "; confirming = true }

cancels : submit_cancel task cancelling ≡ some (7, codes "换岗")
unfolding submit_cancel trim
cancels = refl

offered_iff_allowed_example : offered pause (panel task none) ≡ (
    by_learner pause
    && is_some (transition task.status pause)
    && fits pause (is_some (current_step task)))
offered_iff_allowed_example = offered_iff_allowed pause task none

run-IsCounted_example :
    IsCounted "s" (run (toggle "e" "a" ∷ move_on ∷ toggle "f" "b" ∷ []) (opening "s"))
run-IsCounted_example = run-IsCounted "s" (toggle "e" "a" ∷ move_on ∷ toggle "f" "b" ∷ [])

abbrev more_help : OverrideCard
more_help = record { level = 3; reason = codes " 换了机器 " }

abbrev override : PromptOverrideWrite
override = record { prompt_level = 3; reason = codes "换了机器" }

overrides : submit_override 7 more_help ≡ some (7, override)
unfolding submit_override trim
overrides = refl
