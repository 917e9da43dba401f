-- ===== src/Cases/Shown.antt =====
-- What apps/web/src/features/counselor/CaseList.tsx shows of the loaded cases. `toLowerCase` is a
-- parameter.
use job_lens.Common.{
  ℕ, Bool, true, false, ◌||◌, not, Text, codes, Option, none, some, List, ◌++◌, map, if◌then◌else◌,
  is_empty, is_some, length,
}
use job_lens.Schema.{Case}
use job_lens.Queries.Paging.{Pages, items}
use job_lens.Queries.Screen.{Result, is_pending, is_error, Screen, loading, failed, content}
use job_lens.Cases.{
  CaseFilter, every, pending_match, sop_pending, training, awaiting_feedback, Params,
  selected_filter, query, visible,
}
use job_lens.Counselor.{display_status_text}
use job_lens.Counselor.Board.{short_id}

-- The labels of `CASE_FILTERS`.
unfoldable pub filter_label : CaseFilter → Text
filter_label every = codes "全部"
filter_label pending_match = codes "待匹配"
filter_label sop_pending = codes "SOP待制定"
filter_label training = codes "训练中"
filter_label awaiting_feedback = codes "待反馈"

abbrev is_every : CaseFilter → Bool
is_every every = true
is_every _ = false

pub record Card : Type 0 where
  pub link : Text
  pub title : Text
  pub note : Text
  pub status : Text

unfoldable pub card : Case → Card
unfolding short_id display_status_text
card c = record {
  link = codes "/counselor/cases/" ++ c.id;
  title = codes "个案 #" ++ short_id c.id;
  note = if is_some c.current_task_id then codes "已有训练任务，可查看进度与提交" else codes "阅读资料，继续准备下一步";
  status = display_status_text c.display_status;
}

-- The panel that stands in for an empty list: its heading, its text and whether it offers to clear
-- the filters.
pub record Empty : Type 0 where
  pub heading : Text
  pub text : Text
  pub clears : Bool

unfoldable pub empty : Bool → Params → List Case → Empty
unfolding selected_filter query
empty has_next ps all_cases = record {
  heading = if is_empty all_cases then codes "还没有分配的个案" else codes "没有符合条件的个案";
  text =
      if has_next
      then codes "筛选只作用于已加载的个案，可以继续加载下一页。"
      else if is_empty all_cases
      then codes "分配完成后，你可以在这里查看资料、安排训练并跟进反馈。"
      else codes "试着清除搜索或切换状态。";
  clears = not (is_empty (query ps)) || not (is_every (selected_filter ps));
}

-- What the page reads of the infinite query besides its result.
pub record Flags : Type 0 where
  pub has_next : Bool
  pub refetching : Bool
  pub fetching_next : Bool
  pub next_failed : Bool

-- What a failed fetch says, and whether its retry is for the next page or for the whole list.
pub data Retry : Type 0 where
  next_page whole_list : Retry

unfoldable pub trouble : Bool → Bool → Option (Text × Retry)
trouble is_failed next_failed =
    if not is_failed
    then none
    else if next_failed
    then some (codes "下一页未能加载，已有个案仍保留。", next_page)
    else some (codes "刷新未完成，当前显示上次读取的数据。", whole_list)

pub record Listing : Type 0 where
  pub refresh_text : Text
  pub busy : Bool
  pub loaded : ℕ
  pub shown : ℕ
  pub pressed : CaseFilter
  pub cards : List Card
  pub instead : Option Empty
  pub trouble : Option (Text × Retry)
  pub more : Option Text

-- `busy` disables the buttons that refresh and that load more.
unfoldable pub listing : (Text → Text) → Params → Flags → Result (Pages Case) → Pages Case → Listing
unfolding visible items card empty trouble selected_filter
listing lower ps flags q pages =
    let all_cases = items pages in
    let cases = visible lower ps all_cases in
    record {
      refresh_text = if flags.refetching then codes "正在刷新…" else codes "刷新列表";
      busy = q.fetching;
      loaded = length all_cases;
      shown = length cases;
      pressed = selected_filter ps;
      cards = map card cases;
      instead = if is_empty cases then some (empty flags.has_next ps all_cases) else none;
      trouble = trouble (is_error q) flags.next_failed;
      more =
          if flags.has_next
          then some (if flags.fetching_next then codes "正在加载…" else codes "加载更多个案")
          else none;
    }

-- `CaseList`.
unfoldable pub case_list : (Text → Text) → Params → Flags → Result (Pages Case) → Screen Listing
unfolding listing
case_list lower ps flags q = if is_pending q then loading else elim q.content [
  | none ↦ failed (codes "个案列表暂不可用") true
  | some pages ↦ content (listing lower ps flags q pages)
]
