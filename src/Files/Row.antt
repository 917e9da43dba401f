-- ===== src/Files/Row.antt =====
-- `AssetRow` of apps/web/src/shared/ui/AssetInput.tsx: the state of one file, which is read again and
-- again while the server checks it.
use Prim.Native.Nat.{◌/◌}
use job_lens.Common.{
  ℕ, ◌+◌, Bool, true, false, ◌||◌, String, Text, codes, Option, none, some, List, [], ◌∷◌, ◌++◌,
  if◌then◌else◌, is_some,
}
use job_lens.Schema.{FileAsset, FileState}
use job_lens.Api.{Settled, ok, fail, Failure, api, error}
use job_lens.Api.Decimal.{decimal}
use job_lens.Files.{Input, ready, remove, refetch_interval, state_text, viewable}

-- `file.data`, `file.isError`, and the mutation that deletes the file.
pub record Row : Type 0 where
  pub asset : Option FileAsset
  pub is_error : Bool
  pub deleting : Bool
  pub delete_error : Option Failure

abbrev pub unread : Row
unread = record { asset = none; is_error = false; deleting = false; delete_error = none }

abbrev pub state_of : Row → Option FileState
state_of r = elim r.asset [ none ↦ none | some a ↦ some a.state ]

-- An answer to the query; one that fails keeps the data of before.
unfoldable pub fetched : Settled FileAsset → Row → Row
fetched (ok a) r = record r { asset = some a; is_error = false }
fetched (fail _) r = record r { is_error = true }

-- The effect on `asset?.state`.
unfoldable pub effect : String → Row → Input → Input
unfolding ready
effect id r s = elim (state_of r) [ some FileState.ready ↦ ready id s | _ ↦ s ]

-- Whether the query will be read again on its own.
unfoldable pub polls : Row → Bool
unfolding refetch_interval
polls r = is_some (refetch_interval (state_of r))

-- The row, its parent's files, and how many of the answers were asked for.
pub record Polled : Type 0 where
  pub row : Row
  pub input : Input
  pub requests : ℕ

-- The first reading of the row and those that its interval asks for, with the server's answers.
unfoldable pub poll : String → List (Settled FileAsset) → Row → Input → Polled
unfolding fetched effect polls
poll id [] r s = record { row = r; input = s; requests = 0 }
poll id (a ∷ rest) r s =
    let later = poll id rest (fetched a r) (effect id (fetched a r) s) in
    if polls (fetched a r)
    then record later { requests = later.requests + 1 }
    else record { row = fetched a r; input = effect id (fetched a r) s; requests = 1 }

-- The button "删除": the version that it sends.
unfoldable pub delete_version : (disabled : Bool) → Row → Option ℕ
delete_version disabled r =
    if disabled || r.deleting then none else elim r.asset [ none ↦ none | some a ↦ some a.version ]

unfoldable pub deleted : String → Settled (Unit {0}) → Row → Input → Row × Input
unfolding remove
deleted id (ok _) r s = (record r { deleting = false; delete_error = none }, remove id s)
deleted id (fail e) r s = (record r { deleting = false; delete_error = some e }, s)

-- `Math.ceil(size / 1024)`.
unfoldable pub kilobytes : ℕ → ℕ
kilobytes n = (n + 1023) / 1024

-- What a row shows once its file was read.
pub record Line : Type 0 where
  pub filename : String
  pub state : Text
  pub reason : Option Text
  pub delete_error : Option Text
  pub link : Option Text
  pub delete_disabled : Bool

pub data RowView : Type 0 where
  note : (alert : Bool) (text : Text) → RowView
  line : Line → RowView

delete_text : Failure → Text
delete_text (api e) = e.message
delete_text (error _) = codes "文件未能删除。"

line_of : (disabled : Bool) → String → Row → FileAsset → Line
unfolding delete_text state_text kilobytes decimal viewable
line_of disabled id r a = record {
  filename = a.filename;
  state = state_text a.state ++ codes " · " ++ decimal (kilobytes a.size_bytes) ++ codes " KB";
  reason = a.reason;
  delete_error = elim r.delete_error [ none ↦ none | some e ↦ some (delete_text e) ];
  link =
      if viewable a.state
      then some (codes "/api/v1/files/" ++ codes id ++ codes "/content")
      else none;
  delete_disabled = disabled || r.deleting;
}

unfoldable pub row_view : (disabled : Bool) → String → Row → RowView
unfolding line_of
row_view disabled id r = elim r.asset [
  | none ↦ note r.is_error (if r.is_error then codes "文件信息未能加载" else codes "正在读取文件状态…")
  | some a ↦ line (line_of disabled id r a)
]
