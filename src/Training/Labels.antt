-- ===== src/Training/Labels.antt =====
-- apps/web/src/features/training/labels.ts.
use job_lens.Common.{ℕ, Text, codes, Option, none, some, List, [], ◌∷◌, ◌==◌, if◌then◌else◌}
use job_lens.Schema.{TaskStatus, StepStatus, Outcome, FeedbackTag}

-- `TASK_STATUS_LABELS`.
unfoldable pub status_label : TaskStatus → Text
status_label TaskStatus.not_started = codes "未开始"
status_label TaskStatus.in_progress = codes "进行中"
status_label TaskStatus.paused = codes "已暂停"
status_label TaskStatus.submitted = codes "已提交"
status_label TaskStatus.changes_requested = codes "需修改"
status_label TaskStatus.completed = codes "已完成"
status_label TaskStatus.cancelled = codes "已取消"

-- `OUTCOME_LABELS`.
unfoldable pub outcome_label : Outcome → Text
outcome_label Outcome.passed = codes "通过"
outcome_label Outcome.changes_requested = codes "需修改"

-- `TAG_LABELS`.
unfoldable pub tag_label : FeedbackTag → Text
tag_label FeedbackTag.title_correct = codes "标题正确"
tag_label FeedbackTag.naming_adjustment = codes "命名需调整"
tag_label FeedbackTag.retake_required = codes "需重新提交"
tag_label FeedbackTag.other = codes "其他"

-- `STEP_STATUS_LABELS`.
unfoldable pub step_label : StepStatus → Text
step_label StepStatus.pending = codes "待完成"
step_label StepStatus.in_progress = codes "进行中"
step_label StepStatus.completed = codes "已完成"

-- `PROMPT_LEVEL_LABELS`.
unfoldable pub prompt_label : ℕ → Option Text
prompt_label n =
    if n == 1
    then some (codes "基础提示")
    else if n == 2
    then some (codes "标准提示")
    else if n == 3
    then some (codes "详细提示")
    else none

-- The values of `PROMPT_LEVEL_OPTIONS`.
unfoldable pub prompt_levels : List ℕ
prompt_levels = 1 ∷ 2 ∷ 3 ∷ []
