-- ===== src/Files.antt =====
-- apps/web/src/shared/ui/AssetInput.tsx: the files of a form. The ids that are ready are the parent's
-- `value`; those that were uploaded here are the component's `pending`.
pub mod Bounds
pub mod Row
pub mod Polling
pub mod Tests
use job_lens.Common.{
  ℕ, Bool, true, false, ◌||◌, not, String, Text, codes, Option, none, some, List, [], ◌∷◌, ◌++◌,
  if◌then◌else◌, includes, without, unique, length, leb,
}
use job_lens.Schema.{FileAsset, FileState}
use job_lens.Api.{Settled, ok, fail, Failure, api, error}

pub record Input : Type 0 where
  pub value : List String
  pub pending : List String
  pub uploading : Bool
  pub upload_error : Option Failure

unfoldable pub opened : List String → Input
opened value = record { value = value; pending = []; uploading = false; upload_error = none }

-- `[...new Set([...value, ...pending])]`: the rows.
unfoldable pub ids : Input → List String
ids s = unique (s.value ++ s.pending)

-- The field that picks a file.
unfoldable pub pick_disabled : Bool → Input → Bool
unfolding ids
pick_disabled disabled s = disabled || s.uploading || leb 5 (length (ids s))

-- A file is picked, and its upload starts.
unfoldable pub pick : Bool → Input → Input
unfolding pick_disabled
pick disabled s =
    if pick_disabled disabled s then s else record s { uploading = true; upload_error = none }

-- The upload settles.
unfoldable pub uploaded : Settled FileAsset → Input → Input
uploaded (ok asset) s = record s {
  pending = s.pending ++ asset.id ∷ [];
  uploading = false;
  upload_error = none;
}
uploaded (fail e) s = record s { uploading = false; upload_error = some e }

-- The effect of a row whose file is ready.
unfoldable pub ready : String → Input → Input
ready id s = if includes s.value id then s else record s { value = s.value ++ id ∷ [] }

-- What follows when the server has deleted a row's file.
unfoldable pub remove : String → Input → Input
remove id s = record s { pending = without id s.pending; value = without id s.value }

-- `refetchInterval` of a row, in milliseconds.
unfoldable pub refetch_interval : Option FileState → Option ℕ
refetch_interval (some FileState.quarantined) = some 2000
refetch_interval (some FileState.scanning) = some 2000
refetch_interval _ = none

unfoldable pub state_text : FileState → Text
state_text FileState.quarantined = codes "等待安全检查"
state_text FileState.scanning = codes "正在检查"
state_text FileState.ready = codes "可以使用"
state_text FileState.rejected = codes "未通过检测"
state_text FileState.deleted = codes "已删除"

-- The link that shows a file.
unfoldable pub viewable : FileState → Bool
viewable FileState.ready = true
viewable _ = false

unfoldable pub error_text : Failure → Text
error_text (api e) = e.message
error_text (error _) = codes "上传未完成，请重试。"
