-- ===== src/Notices.antt =====
-- apps/web/src/features/notifications: the list of notifications, and marking one as read. The server's
-- list and what a mark does to it are arguments.
pub mod Reading
mod Tests
use job_lens.Common.{
  ℕ, ◌≡◌, refl, Bool, true, false, not, ◌&&◌, ◌||◌, String, Text, codes, Option, none, some, List,
  [], ◌∷◌, map, if◌then◌else◌, is_empty, is_some, any, same, ◌==◌,
}
use job_lens.Schema.{Notification, ResourceType}
use job_lens.Api.{ApiError, Failure, api, error}
use job_lens.Queries.Screen.{
  Result, is_pending, is_error, Screen, loading, failed, content, has_status,
}

-- `RESOURCE_TYPE_LABELS`.
unfoldable pub resource_text : ResourceType → Text
resource_text ResourceType.task = codes "任务"
resource_text ResourceType.submission = codes "提交"
resource_text ResourceType.assistance = codes "求助"
resource_text ResourceType.annotation = codes "标注"
resource_text ResourceType.file = codes "文件"
resource_text ResourceType.case = codes "个案"

abbrev known_types : List (String × String)
known_types =
    ("training.created", "有新的训练任务")
    ∷ ("training.submitted", "学员已提交训练成果")
    ∷ ("training.feedback", "辅导员已给出反馈")
    ∷ ("training.cancelled", "训练任务已结束")
    ∷ ("support.requested", "学员发来了求助")
    ∷ ("support.accept", "辅导员已接到求助")
    ∷ ("support.resolve", "求助已解决")
    ∷ ("support.cancel", "求助已取消")
    ∷ ("support.message", "有新的沟通消息")
    ∷ ("support.annotation_published", "有新的图片标注")
    ∷ ("files.ready", "文件已通过检测")
    ∷ ("files.rejected", "文件未通过检测")
    ∷ []

lookup : List (String × String) → String → String
lookup [] type = type
lookup ((k, v) ∷ rows) type = let rest = lookup rows type in if same k type then v else rest

-- The text of a type, or the type itself where it is not known.
unfoldable pub type_text : String → String
unfolding lookup
type_text = lookup known_types

abbrev pub is_unread : Notification → Bool
is_unread n = not (is_some n.read_at)

pub record Row : Type 0 where
  pub id : String
  pub text : String
  pub resource : Text
  pub created_at : String
  pub read : Bool
  pub button : Bool

unfoldable pub row : Notification → Row
unfolding type_text resource_text
row n = record {
  id = n.id;
  text = type_text n.type;
  resource = resource_text n.resource_type;
  created_at = n.created_at;
  read = is_some n.read_at;
  button = is_unread n;
}

pub record Listing : Type 0 where
  pub badge : Bool
  pub empty : Bool
  pub rows : List Row
  pub mark_failed : Bool

unfoldable pub listing : Bool → List Notification → Listing
unfolding row
listing mark_failed ns = record {
  badge = any is_unread ns;
  empty = is_empty ns;
  rows = map row ns;
  mark_failed = mark_failed;
}

abbrev items_of : Option (List Notification) → List Notification
items_of none = []
items_of (some ns) = ns

-- `CounselorNotificationsPage`, the page of both roles.
unfoldable pub notifications_page : Result (List Notification) → Bool → Screen Listing
unfolding listing has_status
notifications_page q mark_failed =
    if is_pending q
    then loading
    else if is_error q
    then (if has_status 410 q.failure
        then failed (codes "通知记录已过期，请刷新") true
        else failed (codes "通知暂不可用") true)
    else content (listing mark_failed (items_of q.content))
