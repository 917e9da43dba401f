-- ===== src/Training/Counselor/Shown.antt =====
-- What apps/web/src/features/training/CounselorTaskPage.tsx and FeedbackView.tsx show. The texts of
-- the dates are left to the browser.
use job_lens.Common.{
  ℕ, ◌≡◌, Bool, true, false, ◌||◌, not, String, Text, codes, Option, none, some, List, ◌++◌, map,
  if◌then◌else◌, is_empty, is_some, filled, length, find, ◌==◌, or_else, arith,
}
use job_lens.Schema.{Task, SopStep, PromptOverrideWrite, Submission, Feedback}
use job_lens.Api.{Failure, fail, Fetched, unwrap}
use job_lens.Api.Decimal.{decimal}
use job_lens.Profile.{join}
use job_lens.Queries.Paging.{Pages, items}
use job_lens.Queries.Screen.{
  Result, is_pending, is_error, Screen, loading, failed, content, nothing, has_status,
  has_status-unwrap,
}
use job_lens.Training.Labels.{
  status_label, outcome_label, tag_label, step_label, prompt_label, prompt_levels,
}
use job_lens.Training.Counselor.{final, step_status, OverrideCard, CancelCard}

-- The label of a level among the options, or else the level itself.
unfoldable pub level_text : ℕ → Text
unfolding prompt_label prompt_levels decimal
level_text n = elim (find (λ v. v == n) prompt_levels) [
  | none ↦ decimal n
  | some v ↦ or_else (prompt_label v) (decimal n)
]

override_text : Option PromptOverrideWrite → Option Text
unfolding level_text
override_text none = none
override_text (some w) = some (level_text w.prompt_level)

pub record StepRow : Type 0 where
  pub position : ℕ
  pub instruction : Text
  pub status : Text

pub record Detail : Type 0 where
  pub status : Text
  pub title : Text
  pub goal : Text
  pub due_on : Option String
  pub prompt : Option Text
  pub steps : List StepRow
  pub cards : Bool

unfoldable pub detail : Task → Detail
unfolding status_label override_text step_label step_status final
detail t = record {
  status = status_label t.status;
  title = t.title;
  goal = t.revision.goal;
  due_on = t.due_on;
  prompt = override_text t.prompt_override;
  steps =
      map
        (λ (s : SopStep). record {
          position = s.position;
          instruction = s.instruction;
          status = step_label (step_status t s.id);
        })
        t.revision.steps;
  cards = not (final t);
}

abbrev pub missing_task : Text
missing_task = codes "此任务不存在或您无权访问"

detail_of : Option Task → Screen Detail
unfolding detail
detail_of none = nothing
detail_of (some t) = content (detail t)

-- `TaskDetail`.
unfoldable pub task_detail : Result Task → Screen Detail
unfolding detail_of has_status
task_detail q =
    if is_pending q
    then loading
    else if is_error q
    then (if has_status 404 q.failure
        then failed missing_task false
        else failed (codes "任务信息暂不可用") true)
    else detail_of q.content

-- A row of `SubmissionHistory`: whether it leads to the review or to its feedback.
pub record Attempt : Type 0 where
  pub number : ℕ
  pub submission_id : String
  pub reviewed : Bool

unfoldable pub history : Result (Pages Submission) → Screen (List Attempt)
unfolding items
history q = if is_pending q then loading else elim q.content [
  | none ↦ failed (codes "提交历史未能加载") true
  | some ps ↦ content (
      map
        (λ (s : Submission). record {
          number = s.attempt_no;
          submission_id = s.id;
          reviewed = is_some s.feedback;
        })
        (items ps))
]

-- The buttons of the two cards while their calls run, and the texts of their errors.
unfoldable pub override_disabled : Bool → OverrideCard → Bool
override_disabled busy c = busy || not (filled c.reason)

unfoldable pub cancel_disabled : Bool → CancelCard → Bool
cancel_disabled busy c = busy || not (filled c.reason)

unfoldable pub conflict_text : Text → Option Failure → Text
unfolding has_status
conflict_text otherwise f = if has_status 412 f then codes "内容已被他人修改，请刷新后重试" else otherwise

-- `FeedbackView`.
pub record Review : Type 0 where
  pub outcome : Text
  pub message : Text
  pub annotations : List String
  pub tags : Option Text
  pub redo : Option ℕ

unfoldable pub review : Feedback → Review
unfolding outcome_label tag_label join
review f = record {
  outcome = outcome_label f.outcome;
  message = f.message;
  annotations = f.annotation_ids;
  tags = if is_empty f.tags then none else some (codes "标签：" ++ join (map tag_label f.tags));
  redo = if is_empty f.redo_step_ids then none else some (length f.redo_step_ids);
}

-- Where the read of the task has failed with an answer that `unwrap` refuses, the status of the
-- answer decides the page: with 404 it says that the task does not exist or is not the
-- counselor's, and offers no retry; with any other status it offers one.
pub task_detail-unwrap :
    (answer : Fetched Task) (q : Result Task) {f : Failure}
    → unwrap answer ≡ fail f
    → q.failure ≡ some f
    → is_error q ≡ true
    → task_detail q ≡ (
        if answer.response.status == 404
        then failed missing_task false
        else failed (codes "任务信息暂不可用") true)
unfolding task_detail
task_detail-unwrap answer q e k h = ground (arith, has_status-unwrap 404 answer e)
