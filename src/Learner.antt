-- ===== src/Learner.antt =====
-- apps/web/src/features/learner/public.tsx: the learner's list of tasks and the training records.
pub mod Cards
pub mod Records
mod Tests
use job_lens.Common.{
  ℕ, ◌≤◌, ◌≡◌, refl, Bool, true, false, not, ◌&&◌, ◌||◌, String, Text, codes, Option, none, some,
  List, [], ◌∷◌, ◌++◌, map, if◌then◌else◌, is_empty, is_some, keep, length, any, leb,
}
use job_lens.Schema.{Task, TaskStatus, StepProgress, Dashboard, Case}
use job_lens.Api.Decimal.{decimal}
use job_lens.Queries.Paging.{Pages, items}
use job_lens.Queries.Screen.{Result, is_pending, is_error, Screen, loading, failed, content}
use job_lens.Training.Workspace.{is_completed}

-- `statuses`.
unfoldable pub status_text : TaskStatus → Text
status_text TaskStatus.not_started = codes "准备开始"
status_text TaskStatus.in_progress = codes "正在进行"
status_text TaskStatus.paused = codes "已暂停"
status_text TaskStatus.submitted = codes "等待反馈"
status_text TaskStatus.changes_requested = codes "有新的反馈"
status_text TaskStatus.completed = codes "已完成"
status_text TaskStatus.cancelled = codes "已取消"

-- `!['completed', 'cancelled'].includes(task.status)`.
unfoldable pub is_active : TaskStatus → Bool
is_active TaskStatus.completed = false
is_active TaskStatus.cancelled = false
is_active _ = true

-- The text of the link to a task.
pub data Action : Type 0 where
  see_submission see_feedback see_task go_on : Action

unfoldable pub action_of : TaskStatus → Action
action_of TaskStatus.submitted = see_submission
action_of TaskStatus.changes_requested = see_feedback
action_of TaskStatus.not_started = see_task
action_of _ = go_on

unfoldable pub action_text : Action → Text
action_text see_submission = codes "查看提交"
action_text see_feedback = codes "查看反馈"
action_text see_task = codes "查看任务"
action_text go_on = codes "继续任务"

pub record Card : Type 0 where
  pub title : Text
  pub badge : Text
  pub goal : Text
  pub value : ℕ
  pub max : ℕ
  pub steps : ℕ
  pub due_on : Option String
  pub task_id : String
  pub action : Action

-- `Math.max(1, n)`.
abbrev max_one : ℕ → ℕ
max_one n = if leb 1 n then n else 1

-- The card of a task. `value` and `max` are those of its progress bar.
unfoldable pub card : Task → Card
unfolding status_text action_of
card t = record {
  title = t.title;
  badge = status_text t.status;
  goal = t.revision.goal;
  value = length (keep is_completed t.progress);
  max = max_one (length t.revision.steps);
  steps = length t.revision.steps;
  due_on = t.due_on;
  task_id = t.id;
  action = action_of t.status;
}

unfoldable pub active_tasks : List Task → List Task
unfolding is_active
active_tasks = keep (λ t. is_active t.status)

pub record Overview : Type 0 where
  pub pending_tasks : ℕ
  pub pending_feedback : ℕ
  pub pending_assistance : ℕ
  pub cards : List Card
  pub empty_text : Option Text
  pub more : Bool
  pub more_disabled : Bool
  pub later_failed : Bool
  pub contacts : List Text

abbrev pub empty_text_of : Bool → Text
empty_text_of has_case =
    if has_case
    then codes "辅导员准备好下一次训练后，它会出现在这里。你也可以回看已完成的训练。"
    else codes "先填写个人资料，让接下来的支持更适合你。个案分配完成后，你会在这里看到任务。"

-- The page with its three answers; `more` is `hasNextPage` and `fetching_next` the other flag.
unfoldable pub overview : Dashboard → Pages Task → Pages Case → Bool → Bool → Bool → Overview
unfolding active_tasks card items
overview d tasks cases more fetching_next tasks_error =
    let active = active_tasks (items tasks) in
    record {
      pending_tasks = d.pending_tasks;
      pending_feedback = d.pending_feedback;
      pending_assistance = d.pending_assistance;
      cards = map card active;
      empty_text =
          if is_empty active
          then some (empty_text_of (any (λ p. not (is_empty p.items)) cases.pages))
          else none;
      more = more;
      more_disabled = fetching_next;
      later_failed = tasks_error;
      contacts = map (λ c. c.id) (items cases);
    }

-- `LearnerPage`.
unfoldable pub learner_page :
    Result Dashboard → Result (Pages Task) → Result (Pages Case) → Bool → Bool → Screen Overview
unfolding overview
learner_page d tasks cases more fetching_next =
    if is_pending d || is_pending tasks || is_pending cases then loading else elim d.content [
      | none ↦ failed (codes "工作台暂时未能加载") true
      | some board ↦ elim tasks.content [
        | none ↦ failed (codes "工作台暂时未能加载") true
        | some ts ↦ elim cases.content [
          | none ↦ failed (codes "工作台暂时未能加载") true
          | some cs ↦ content (overview board ts cs more fetching_next (is_error tasks))
        ]
      ]
    ]
