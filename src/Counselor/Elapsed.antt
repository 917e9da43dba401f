-- ===== src/Counselor/Elapsed.antt =====
-- apps/web/src/features/counselor/RecordsView.tsx: the observed times of the training records.
use job_lens.Common.{
  ℕ, ◌+◌, ◌*◌, ◌/◌, ◌%◌, ◌≤◌, ◌<◌, true, Text, codes, Option, none, some, List, [], ◌++◌, map,
  if◌then◌else◌, is_empty, ltb, arith, Bool-cases, inl, inr,
}
use job_lens.Schema.{TrainingRecord}
use job_lens.Api.Decimal.{decimal}
use job_lens.Queries.Screen.{Result, is_pending, is_error, Screen, loading, failed, content}
use job_lens.Counselor.{task_status_text}

-- The units of `fmtElapsed`.
pub data Elapsed : Type 0 where
  unobserved : Elapsed
  seconds : ℕ → Elapsed
  minutes : ℕ → Elapsed
  hours : (hour minute : ℕ) → Elapsed

-- `Math.round(ms / 1000)`.
abbrev pub whole_seconds : ℕ → ℕ
whole_seconds ms = (ms + 500) / 1000

unfoldable pub elapsed : Option ℕ → Elapsed
elapsed none = unobserved
elapsed (some ms) =
    let sec = whole_seconds ms in
    let min = sec / 60 in
    if ltb sec 60
    then seconds sec
    else if ltb min 60
    then minutes min
    else hours (min / 60) (min % 60)

print : Elapsed → Text
unfolding decimal
print unobserved = codes "未观测"
print (seconds n) = decimal n ++ codes " 秒"
print (minutes n) = decimal n ++ codes " 分钟"
print (hours h m) = decimal h ++ codes " 小时 " ++ decimal m ++ codes " 分"

-- `fmtElapsed`.
unfoldable pub fmt_elapsed : Option ℕ → Text
unfolding elapsed print
fmt_elapsed ms = print (elapsed ms)

unfoldable pub stats_text : TrainingRecord → Text
unfolding fmt_elapsed decimal
stats_text r =
    codes "尝试 "
    ++ decimal r.attempts
    ++ codes " 次 · 提示请求 "
    ++ decimal r.hint_requests
    ++ codes " 次 · 求助 "
    ++ decimal r.assistance_requests
    ++ codes " 次 · 观察时长 "
    ++ fmt_elapsed r.observed_elapsed_ms

pub record Row : Type 0 where
  pub title : Text
  pub badge : Text
  pub stats : Text
  pub note : Option Text

unfoldable pub row : TrainingRecord → Row
unfolding stats_text task_status_text
row r = record {
  title = r.title;
  badge = task_status_text r.status;
  stats = stats_text r;
  note = if is_empty r.measurement_note then none else some r.measurement_note;
}

abbrev items_of : Option (List TrainingRecord) → List TrainingRecord
items_of none = []
items_of (some rs) = rs

-- `RecordsView`: without rows it says that there are none.
unfoldable pub records_view : Result (List TrainingRecord) → Screen (List Row)
unfolding row
records_view q =
    if is_pending q
    then loading
    else if is_error q
    then failed (codes "训练记录暂不可用") true
    else content (map row (items_of q.content))

-- A printed time stands for this many milliseconds.
abbrev pub Reads : ℕ → Elapsed → Type 0
Reads ms unobserved = ⊥
Reads ms (seconds n) = (n < 60) × (n * 1000 ≤ ms + 500) × (ms < n * 1000 + 500)
Reads ms (minutes n) = (1 ≤ n) × (n < 60) × (n * 60_000 ≤ ms + 500) × (ms + 500 < (n + 1) * 60_000)
Reads ms (hours h m) =
    (1 ≤ h) × (m < 60) × ((h * 60 + m) * 60_000 ≤ ms + 500) × (ms + 500 < (h * 60 + m + 1) * 60_000)

-- What `fmtElapsed` prints of an observed time is that time rounded to the second and cut to the
-- last unit that is printed: seconds below 60, minutes from 1 to 59, or hours from 1 with the
-- minutes below 60.
pub elapsed-Reads : (ms : ℕ) → Reads ms (elapsed (some ms))
unfolding elapsed
elapsed-Reads ms = elim (Bool-cases (ltb (whole_seconds ms) 60)) [
  | inl short ↦ rw short (ground arith)
  | inr longer ↦ elim (Bool-cases (ltb (whole_seconds ms / 60) 60)) [
    | inl within_hour ↦ rw (longer, within_hour) (ground arith)
    | inr long ↦ rw (longer, long) (ground arith)
  ]
]
