-- ===== src/Training/Workspace/Shown.antt =====
-- What apps/web/src/features/training/TrainingPage.tsx shows around its panel: the list of steps, the
-- tools of the current step, and the submissions with their feedback. The texts of dates are the
-- browser's.
use job_lens.Common.{
  ℕ, Bool, true, false, ◌&&◌, not, String, Text, codes, Option, none, some, List, [], ◌++◌, map,
  if◌then◌else◌, is_empty, same, includes, keep, length,
}
use job_lens.Schema.{Task, SopStep, Submission, Feedback, Outcome, StepProgress, Preferences}
use job_lens.Api.Decimal.{decimal}
use job_lens.Queries.Paging.{Pages, items}
use job_lens.Queries.Screen.{
  Result, is_pending, is_error, Screen, loading, failed, content, has_status,
}
use job_lens.Training.Labels.{status_label}
use job_lens.Training.Workspace.{
  progress_of, is_completed, current_step, completed, attachments, Page,
}

is_done : Option StepProgress → Bool
is_done none = false
is_done (some p) = is_completed p

-- A row of the list of steps; a completed one has a tick for its number.
pub record Item : Type 0 where
  pub position : Option ℕ
  pub instruction : Text
  pub current : Bool

abbrev is_same : Option SopStep → SopStep → Bool
is_same none s = false
is_same (some c) s = same s.id c.id

unfoldable pub item : Task → SopStep → Item
unfolding progress_of is_done current_step
item t s = record {
  position = if is_done (progress_of t s.id) then none else some s.position;
  instruction = s.instruction;
  current = is_same (current_step t) s;
}

pub record Overview : Type 0 where
  pub status : Text
  pub title : Text
  pub items : List Item
  pub summary : Text

unfoldable pub overview : Task → Overview
unfolding status_label item completed decimal
overview t = record {
  status = status_label t.status;
  title = t.title;
  items = map (item t) t.revision.steps;
  summary =
      codes "已完成 "
      ++ decimal (completed t)
      ++ codes " / "
      ++ decimal (length t.revision.steps)
      ++ codes " 步";
}

file_link : String → Text
file_link id = codes "/api/v1/files/" ++ codes id ++ codes "/content"

-- The tools below the instruction of the current step.
pub record Tools : Type 0 where
  pub material : List Text
  pub summary : Text
  pub opened : Bool
  pub attached : List String
  pub note : Option Text
  pub listen : Bool
  pub help : Text
  pub hint : Option Text

module _ {V : Type 0} where
  -- `!quiet_mode && speech_enabled && reminder.speech_enabled`.
  unfoldable pub can_listen : Preferences V → Task → Bool
  can_listen p t = not p.quiet_mode && p.speech_enabled && t.revision.reminder.speech_enabled

  unfoldable pub tools : Preferences V → Task → Page → SopStep → Tools
  unfolding attachments can_listen file_link
  tools prefs t p s = record {
    material = map file_link s.media_ids;
    summary = if s.evidence_required then codes "提交这一步的附件" else codes "添加附件（可选）";
    opened = s.evidence_required;
    attached = attachments t p s;
    note = if s.evidence_required then some (codes "这一步需要附件，通过安全检查后可以完成。") else none;
    listen = can_listen prefs t;
    help =
        codes "/learner/support/"
        ++ codes t.case_id
        ++ codes "?task="
        ++ codes t.id
        ++ codes "&step="
        ++ codes s.id;
    hint =
        if p.show_hint
        then some (codes "训练目标：" ++ t.revision.goal ++ codes "。需要帮助时，可以把问题发给辅导员。")
        else none;
  }

-- A step that a feedback asks for again.
unfoldable pub redo_text : SopStep → Text
unfolding decimal
redo_text s = codes "第 " ++ decimal s.position ++ codes " 步 · " ++ s.instruction

unfoldable pub redo_rows : List SopStep → Feedback → List Text
unfolding redo_text
redo_rows steps f =
    if is_empty f.redo_step_ids
    then []
    else map redo_text (keep (λ (s : SopStep). includes f.redo_step_ids s.id) steps)

pub record Answer : Type 0 where
  pub outcome : Text
  pub message : Text
  pub annotations : List String
  pub redo : List Text

unfoldable pub answer : List SopStep → Feedback → Answer
unfolding redo_rows
answer steps f = record {
  outcome = elim f.outcome [
    | Outcome.passed ↦ codes "通过"
    | Outcome.changes_requested ↦ codes "需要调整"
  ];
  message = f.message;
  annotations = f.annotation_ids;
  redo = redo_rows steps f;
}

-- One submission; without an answer it waits for its review.
pub record Attempt : Type 0 where
  pub heading : Text
  pub note : Option Text
  pub review : Option Answer

unfoldable pub attempt : Task → Submission → Attempt
unfolding decimal answer
attempt t s = record {
  heading = codes "第 " ++ decimal s.attempt_no ++ codes " 次提交";
  note = if is_empty s.note then none else some s.note;
  review = elim s.feedback [ none ↦ none | some f ↦ some (answer t.revision.steps f) ];
}

-- The submissions that were read, the text where there are none, and the button for more with
-- whether it is disabled.
pub record History : Type 0 where
  pub attempts : List Attempt
  pub empty : Option Text
  pub more : Option Bool

unfoldable pub history_of : Task → (has_next fetching : Bool) → List Submission → History
unfolding attempt
history_of t has_next fetching xs = record {
  attempts = map (attempt t) xs;
  empty = if is_empty xs then some (codes "完成步骤后，在这里查看提交结果。") else none;
  more = if has_next then some fetching else none;
}

unfoldable pub history :
    Task → (has_next fetching : Bool) → Result (Pages Submission) → Screen History
unfolding history_of items
history t has_next fetching r =
    if is_pending r
    then loading
    else if is_error r
    then failed (codes "提交记录暂不可用") true
    else content
        (history_of t has_next fetching (elim r.content [ none ↦ [] | some ps ↦ items ps ]))

-- `TaskDetail`.
unfoldable pub task_detail : Result Task → Screen Task
unfolding has_status
task_detail r = if is_pending r then loading else elim r.content [
  | some t ↦ content t
  | none ↦ failed (if has_status 404 r.failure then codes "此任务不存在或您无权访问" else codes "任务暂不可用") true
]
