-- ===== src/Counselor.antt =====
-- apps/web/src/features/counselor: the counselor's first page, one case with its profile, and the
-- records of its training.
pub mod Elapsed
pub mod Board
pub mod CasePage
mod Tests
use job_lens.Common.{Bool, Text, text_eq, codes, Option, none, some, if◌then◌else◌, starts_with}
use job_lens.Schema.{DisplayStatus, TaskStatus}
use job_lens.Cases.{Params, get}
use job_lens.Shell.{is_cases_tab}

-- `DISPLAY_STATUS_LABELS`.
unfoldable pub display_status_text : DisplayStatus → Text
display_status_text DisplayStatus.pending_match = codes "待匹配"
display_status_text DisplayStatus.sop_pending = codes "SOP待制定"
display_status_text DisplayStatus.training = codes "训练中"
display_status_text DisplayStatus.awaiting_feedback = codes "待反馈"
display_status_text DisplayStatus.feedback_available = codes "可反馈"
display_status_text DisplayStatus.stage_complete = codes "阶段完成"
display_status_text DisplayStatus.closed = codes "已结案"

-- `TASK_STATUS_LABELS`.
unfoldable pub task_status_text : TaskStatus → Text
task_status_text TaskStatus.not_started = codes "未开始"
task_status_text TaskStatus.in_progress = codes "进行中"
task_status_text TaskStatus.paused = codes "已暂停"
task_status_text TaskStatus.submitted = codes "已提交"
task_status_text TaskStatus.changes_requested = codes "需修改"
task_status_text TaskStatus.completed = codes "已完成"
task_status_text TaskStatus.cancelled = codes "已取消"

pub data Tab : Type 0 where
  case_list dashboard : Tab

-- `CounselorPage`.
unfoldable pub counselor_page : Params → Tab
unfolding is_cases_tab
counselor_page ps = if is_cases_tab ps then case_list else dashboard
