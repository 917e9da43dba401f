-- ===== src/Training/Counselor.antt =====
-- apps/web/src/features/training/CounselorTaskPage.tsx: the counselor's page of one task, with the
-- cards that set the prompt level and cancel the task.
pub mod Shown
use job_lens.Common.{
  ℕ, ◌≤◌, ◌≡◌, Bool, true, false, ◌&&◌, not, String, Text, Option, none, some, List, [], ◌∷◌,
  if◌then◌else◌, same, is_some, trim, filled, filled-trim, length-trim, length, arith,
}
use job_lens.Schema.{Task, TaskStatus, StepStatus, StepProgress, PromptOverrideWrite}
use job_lens.Training.Rules.{cancel, transition}

unfoldable pub final : Task → Bool
final t = elim t.status [ TaskStatus.completed ↦ true | TaskStatus.cancelled ↦ true | _ ↦ false ]

-- The status that a step's row shows: the last entry for the step counts.
status_from : StepStatus → String → List StepProgress → StepStatus
status_from found id [] = found
status_from found id (p ∷ ps) = status_from (if same p.step_id id then p.status else found) id ps

unfoldable pub step_status : Task → String → StepStatus
unfolding status_from
step_status t id = status_from StepStatus.pending id t.progress

pub record OverrideCard : Type 0 where
  pub level : ℕ
  pub reason : Text

prompt_level_or : Option PromptOverrideWrite → ℕ → ℕ
prompt_level_or none d = d
prompt_level_or (some w) d = w.prompt_level

unfoldable pub override_card : Option PromptOverrideWrite → OverrideCard
unfolding prompt_level_or
override_card current = record { level = prompt_level_or current 2; reason = [] }

-- What the form sends with the task's version; `none` where it returns early.
unfoldable pub submit_override : ℕ → OverrideCard → Option (ℕ × PromptOverrideWrite)
submit_override version c =
    if not (filled c.reason)
    then none
    else some (version, record { prompt_level = c.level; reason = trim c.reason })

pub record CancelCard : Type 0 where
  pub reason : Text
  pub confirming : Bool

-- The card is shown on a task that is not final; its form, after the first button.
unfoldable pub submit_cancel : Task → CancelCard → Option (ℕ × Text)
unfolding final
submit_cancel t c =
    if not (final t) && c.confirming && filled c.reason
    then some (t.version, trim c.reason)
    else none

-- What rules.py asks of a cancellation.
pub record IsCancellable (t : Task) (version : ℕ) (reason : Text) : Type 0 where
  pub target : transition t.status cancel ≡ some TaskStatus.cancelled
  pub given : filled reason ≡ true
  pub at_version : version ≡ t.version

cancellable : (t : Task) → final t ≡ false → transition t.status cancel ≡ some TaskStatus.cancelled
unfolding final transition
cancellable t h = ground arith

-- A cancellation that the page sends names the version of a task that the API's table lets a
-- counselor cancel, with a reason that is not blank and no longer than what was typed.
pub submit_cancel-IsCancellable :
    (t : Task) (c : CancelCard) (version : ℕ) (reason : Text)
    → submit_cancel t c ≡ some (version, reason)
    → IsCancellable t version reason × (length reason ≤ length c.reason)
unfolding submit_cancel
submit_cancel-IsCancellable t c version reason h = (
  record {
    target = cancellable t (ground arith);
    given = ground (arith, filled-trim c.reason);
    at_version = ground arith;
  },
  ground (arith, length-trim c.reason),
)

-- The page offers to cancel exactly the tasks that the API would cancel.
pub final_iff : (t : Task) → final t ≡ not (is_some (transition t.status cancel))
unfolding final transition
final_iff t = ground arith

-- A prompt level is sent with a trimmed reason that is not empty.
pub submit_override_lem :
    (version n : ℕ) (c : OverrideCard) (w : PromptOverrideWrite)
    → submit_override version c ≡ some (n, w)
    → (n ≡ version)
      × (w.prompt_level ≡ c.level)
      × (filled w.reason ≡ true)
      × (length w.reason ≤ length c.reason)
unfolding submit_override
submit_override_lem version n c w h = ground (arith, filled-trim c.reason, length-trim c.reason)
