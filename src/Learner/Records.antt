-- ===== src/Learner/Records.antt =====
-- RecordsPage of apps/web/src/features/learner/public.tsx: the training records of each case.
use job_lens.Common.{
  ℕ, ◌+◌, ◌/◌, Bool, true, String, Text, codes, Option, none, some, List, [], ◌++◌, map,
  if◌then◌else◌, is_empty,
}
use job_lens.Schema.{TrainingRecord, Case}
use job_lens.Api.Decimal.{decimal}
use job_lens.Queries.Paging.{Pages, items}
use job_lens.Queries.Screen.{Result, is_pending, is_error, Screen, loading, failed, content}
use job_lens.Learner.{status_text}

-- `Math.round(ms / 60000)`.
unfoldable pub minutes : ℕ → ℕ
minutes ms = (ms + 30_000) / 60_000

elapsed_text : Option ℕ → Text
unfolding decimal minutes
elapsed_text none = []
elapsed_text (some ms) = codes " · 观测时长 " ++ decimal (minutes ms) ++ codes " 分钟"

-- The line of counts of a record.
unfoldable pub counts_text : TrainingRecord → Text
unfolding decimal elapsed_text
counts_text r =
    codes "提交 "
    ++ decimal r.attempts
    ++ codes " 次 · 查看提示 "
    ++ decimal r.hint_requests
    ++ codes " 次 · 求助 "
    ++ decimal r.assistance_requests
    ++ codes " 次"
    ++ elapsed_text r.observed_elapsed_ms

pub record Row : Type 0 where
  pub title : Text
  pub badge : Text
  pub counts : Text
  pub task_id : String

pub record CaseRecords : Type 0 where
  pub rows : List Row
  pub empty : Bool
  pub more : Bool
  pub more_disabled : Bool
  pub later_failed : Bool

abbrev row : TrainingRecord → Row
row r = record {
  title = r.title;
  badge = status_text r.status;
  counts = counts_text r;
  task_id = r.task_id;
}

-- `CaseRecords`.
unfoldable pub case_records : Result (Pages TrainingRecord) → Bool → Bool → Screen CaseRecords
unfolding items counts_text status_text
case_records q more fetching_next = if is_pending q then loading else elim q.content [
  | none ↦ failed (codes "这组记录未能加载") true
  | some ps ↦ content (record {
    rows = map row (items ps);
    empty = is_empty (items ps);
    more = more;
    more_disabled = fetching_next;
    later_failed = is_error q;
  })
]

pub record Records : Type 0 where
  pub cases : List Text
  pub empty : Bool
  pub more : Bool
  pub more_disabled : Bool

-- `RecordsPage`: a list of records for each case.
unfoldable pub records_page : Result (Pages Case) → Bool → Bool → Screen Records
unfolding items
records_page q more fetching_next = if is_pending q then loading else elim q.content [
  | none ↦ failed (codes "训练记录暂不可用") true
  | some ps ↦ content (record {
    cases = map (λ c. c.id) (items ps);
    empty = is_empty (items ps);
    more = more;
    more_disabled = fetching_next;
  })
]
