-- ===== src/Training/Workspace.antt =====
-- apps/web/src/features/training/TrainingPage.tsx: the learner's page of one task.
pub mod Laws
pub mod Hints
pub mod Shown
pub mod Tests
use job_lens.Common.{
  ℕ, zero, suc, ◌+◌, Bool, true, false, ◌&&◌, ◌||◌, not, String, Text, codes, Option, none, some,
  List, [], ◌∷◌, if◌then◌else◌, same, or_else, or_try, is_empty, is_some, find, keep, length, ◌==◌,
  any,
}
use job_lens.Schema.{Task, TaskStatus, StepStatus, StepProgress, SopStep, Submission, Feedback}
use job_lens.Api.{ApiError, Failure, api, error, Settled, ok, fail}
use job_lens.Training.Rules.{TaskCommand, start, pause, resume, submit}

-- `new Map(entries).get(id)`: of several entries with one key the last counts.
progress_from : Option StepProgress → String → List StepProgress → Option StepProgress
progress_from found id [] = found
progress_from found id (p ∷ ps) = progress_from (if same p.step_id id then some p else found) id ps

unfoldable pub progress_of : Task → String → Option StepProgress
unfolding progress_from
progress_of t id = progress_from none id t.progress

-- `s.id === task.current_step_id`.
abbrev is_current : Option String → SopStep → Bool
is_current none s = false
is_current (some id) s = same s.id id

unfoldable pub current_step : Task → Option SopStep
current_step t = find (is_current t.current_step_id) t.revision.steps

abbrev pub is_completed : StepProgress → Bool
is_completed p = elim p.status [ StepStatus.completed ↦ true | _ ↦ false ]

unfoldable pub completed : Task → ℕ
completed t = length (keep is_completed t.progress)

-- The state that the page keeps between renders.
pub record Page : Type 0 where
  pub note : Text
  pub evidence : List (String × List String)
  pub show_hint : Bool
  pub notice : Text

abbrev pub opened : Page
opened = record { note = []; evidence = []; show_hint = false; notice = [] }

-- `evidence[id]`, and `{ ...evidence, [id]: ids }`.
pub evidence_of : String → List (String × List String) → Option (List String)
evidence_of id [] = none
evidence_of id ((k, v) ∷ m) = if same k id then some v else evidence_of id m

pub put_evidence : String → List String → List (String × List String) → List (String × List String)
put_evidence id ids [] = (id, ids) ∷ []
put_evidence id ids ((k, v) ∷ m) =
    if same k id then (id, ids) ∷ m else (k, v) ∷ put_evidence id ids m

unfoldable pub choose_evidence : String → List String → Page → Page
unfolding put_evidence
choose_evidence id ids p = record p { evidence = put_evidence id ids p.evidence }

abbrev saved_attachments : Option StepProgress → Option (List String)
saved_attachments none = none
saved_attachments (some p) = some p.attachment_ids

-- `evidence[step.id] ?? progress.get(step.id)?.attachment_ids ?? []`.
unfoldable pub attachments : Task → Page → SopStep → List String
unfolding evidence_of progress_of
attachments t p s =
    or_else (or_try (evidence_of s.id p.evidence) (saved_attachments (progress_of t s.id))) []

-- What the main panel shows.
pub data Panel : Type 0 where
  starting : (due_on : Option String) → Panel
  resting : Panel
  changing : (message : Text) → Panel
  submitted : Panel
  finished : (message : Text) → Panel
  ended : Panel
  working : SopStep → Panel
  all_done : Panel

abbrev message_or : Option Submission → Text → Text
message_or none d = d
message_or (some s) d = elim s.feedback [ none ↦ d | some f ↦ f.message ]

unfoldable pub panel_of : TaskStatus → Option String → Option SopStep → Option Submission → Panel
panel_of TaskStatus.not_started due step latest = starting due
panel_of TaskStatus.paused due step latest = resting
panel_of TaskStatus.changes_requested due step latest =
    changing (message_or latest (codes "辅导员建议已收到，请查看下方反馈。"))
panel_of TaskStatus.submitted due step latest = submitted
panel_of TaskStatus.completed due step latest =
    finished (message_or latest (codes "你可以在记录中回顾这次练习。"))
panel_of TaskStatus.cancelled due step latest = ended
panel_of TaskStatus.in_progress due (some s) latest = working s
panel_of TaskStatus.in_progress due none latest = all_done

-- `latest` is the first of the submissions that were read.
unfoldable pub panel : Task → Option Submission → Panel
unfolding panel_of current_step
panel t latest = panel_of t.status t.due_on (current_step t) latest

-- The commands on the task that the panel has a button for.
abbrev pub offers : Panel → List TaskCommand
offers (starting _) = start ∷ []
offers resting = resume ∷ []
offers (changing _) = resume ∷ []
offers (working _) = pause ∷ []
offers all_done = submit ∷ []
offers _ = []

-- The button that completes a step.
unfoldable pub save_disabled : Bool → Task → Page → SopStep → Bool
unfolding attachments
save_disabled busy t p s = busy || (s.evidence_required && is_empty (attachments t p s))

pub record SaveProgress : Type 0 where
  pub version : ℕ
  pub step_id : String
  pub attachment_ids : List String

unfoldable pub save_command : Task → Page → SopStep → SaveProgress
unfolding attachments
save_command t p s = record {
  version = t.version;
  step_id = s.id;
  attachment_ids = attachments t p s;
}

-- `error.status` is one of 412 and 428.
abbrev pub is_conflict : ApiError → Bool
is_conflict e = e.status == 412 || e.status == 428

unfoldable pub error_text : Failure → Text
error_text (api e) = if is_conflict e then codes "进度已更新，请重新读取后继续。" else e.message
error_text (error _) = codes "保存未完成，请重试。"

-- The errors of the three mutations.
pub record Errors : Type 0 where
  pub action : Option Failure
  pub save : Option Failure
  pub submitting : Option Failure

-- `action.error ?? save.error ?? submit.error`.
abbrev pub shown_error : Errors → Option Failure
shown_error e = or_try e.action (or_try e.save e.submitting)

-- `refresh`, with what `reload` settles to.
unfoldable pub refresh : Settled Task → Page → Errors → Page × Errors
refresh (ok _) p e = (
  record p { notice = codes "已读取最新进度。" },
  record { action = none; save = none; submitting = none },
)
refresh (fail _) p e = (record p { notice = codes "重新读取失败，请稍后重试。" }, e)

-- The button "提交结果", where every step is done: the version and the note that it sends.
unfoldable pub submit_note : Bool → Task → Option Submission → Page → Option (ℕ × Text)
unfolding panel
submit_note busy t latest p = elim (panel t latest) [
  | all_done ↦ if busy then none else some (t.version, p.note)
  | _ ↦ none
]

-- The note is emptied once it was taken.
unfoldable pub submitted_note : Settled (Unit {0}) → Page → Page
submitted_note (ok _) p = record p { note = [] }
submitted_note (fail _) p = p
