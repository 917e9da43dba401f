-- ===== src/Support/Shown.antt =====
-- What the pages of apps/web/src/features/support show: the counselor's list, one request with its
-- messages, and the learner's page. The texts of the dates are left to the browser.
use job_lens.Common.{
  Bool, true, false, ◌||◌, not, String, Text, codes, Option, none, some, List, [], map,
  if◌then◌else◌, or_try,
}
use job_lens.Schema.{Assistance, AssistanceState, PreferredMode}
use job_lens.Api.{Failure}
use job_lens.Queries.Screen.{
  Result, is_pending, is_error, Screen, loading, failed, content, nothing, has_status,
}
use job_lens.Queries.{Read}
use job_lens.Queries.Support.{Filter as StateFilter, use_assistance_requests}
use job_lens.Support.{accept, resolve, cancel, shows, closed}

-- `ASSISTANCE_STATE_LABELS`.
unfoldable pub state_label : AssistanceState → Text
state_label AssistanceState.queued = codes "待接单"
state_label AssistanceState.accepted = codes "已接单"
state_label AssistanceState.resolved = codes "已解决"
state_label AssistanceState.cancelled = codes "已取消"

-- `MODE_LABELS`.
unfoldable pub mode_label : PreferredMode → Text
mode_label PreferredMode.text = codes "文字"
mode_label PreferredMode.annotation = codes "标注"

-- `CounselorSupportPage`: its filters, of which the last is no state at all.
pub data Filter : Type 0 where
  queued accepted every : Filter

unfoldable pub filter_label : Filter → Text
filter_label queued = codes "待接单"
filter_label accepted = codes "已接单"
filter_label every = codes "全部"

-- `filter === 'all' ? undefined : filter`, the argument of the hook.
unfoldable pub state_of : Filter → Option StateFilter
state_of queued = some StateFilter.queued
state_of accepted = some StateFilter.accepted
state_of every = none

unfoldable pub requests_of : Filter → Read
unfolding use_assistance_requests state_of
requests_of f = use_assistance_requests (state_of f) none

pub record Row : Type 0 where
  pub request_id : String
  pub state : Text
  pub mode : Text
  pub message : Text

unfoldable pub row : Assistance → Row
unfolding state_label mode_label
row r = record {
  request_id = r.id;
  state = state_label r.state;
  mode = mode_label r.preferred_mode;
  message = r.message;
}

abbrev items_of {ℓ} : {A : Type ℓ} → Option (List A) → List A
items_of none = []
items_of (some xs) = xs

unfoldable pub request_list : Result (List Assistance) → Screen (List Row)
unfolding row
request_list q =
    if is_pending q
    then loading
    else if is_error q
    then failed (codes "求助列表暂不可用") true
    else content (map row (items_of q.content))

-- The detail of a request: its texts, the bodies of its messages and, while it is open, the buttons
-- and the form.
pub record Detail : Type 0 where
  pub state : Text
  pub mode : Text
  pub message : Text
  pub thread : List Text
  pub open_form : Bool
  pub cancels : Bool
  pub accepts : Bool
  pub resolves : Bool

unfoldable pub detail : Bool → Assistance → List Text → Detail
unfolding state_label mode_label closed shows
detail learner r thread = record {
  state = state_label r.state;
  mode = mode_label r.preferred_mode;
  message = r.message;
  thread = thread;
  open_form = not (closed r.state);
  cancels = shows learner r.state cancel;
  accepts = shows learner r.state accept;
  resolves = shows learner r.state resolve;
}

abbrev pub missing_request : Text
missing_request = codes "此求助不存在或您无权访问"

detail_of : Bool → Option Assistance → List Text → Screen Detail
unfolding detail
detail_of learner none thread = nothing
detail_of learner (some r) thread = content (detail learner r thread)

-- `AssistanceDetail`, with the answers for the request and for the bodies of its messages.
unfoldable pub assistance_detail : Bool → Result Assistance → Result (List Text) → Screen Detail
unfolding detail_of has_status
assistance_detail learner q messages =
    if is_pending q || is_pending messages
    then loading
    else if is_error q || is_error messages
    then (if has_status 404 (or_try q.failure messages.failure)
        then failed missing_request false
        else failed (codes "求助信息暂不可用") true)
    else detail_of learner q.content (items_of messages.content)

-- The text of a failed action.
unfoldable pub action_error : Option Failure → Text
unfolding has_status
action_error f = if has_status 412 f then codes "内容已被他人修改，请刷新后重试" else codes "操作失败，请重试"
