-- ===== src/Support/Learner.antt =====
-- What apps/web/src/features/support/SupportPage.tsx shows: the way back, the form where no request of
-- the task is open, the request in full, and the case's requests.
use job_lens.Common.{
  Bool, true, false, ◌||◌, not, String, Text, codes, Option, none, some, List, [], ◌++◌, map,
  if◌then◌else◌, is_empty, is_some, filled,
}
use job_lens.Schema.{Assistance}
use job_lens.Api.{Failure, api, error, Settled, ok, fail}
use job_lens.Queries.Screen.{Result, is_pending, Screen, loading, failed, content}
use job_lens.Support.{active, shown}
use job_lens.Support.Shown.{state_label}

-- The state of the page, with the mutation that creates a request.
pub record Desk : Type 0 where
  pub message : Text
  pub selected : Option String
  pub pending : Bool
  pub create_error : Option Failure

unfoldable pub opened : Desk
opened = record { message = []; selected = none; pending = false; create_error = none }

-- What follows the answer to a request that was sent.
unfoldable pub asked : Settled Assistance → Desk → Desk
asked (ok r) d = record { message = []; selected = some r.id; pending = false; create_error = none }
asked (fail e) d = record d { pending = false; create_error = some e }

unfoldable pub select : String → Desk → Desk
select id d = record d { selected = some id }

ask_error : Failure → Text
ask_error (api e) = e.message
ask_error (error _) = codes "求助未能发送，请重试。"

pub record AskForm : Type 0 where
  pub locked : Bool
  pub send_disabled : Bool
  pub button : Text
  pub error : Option Text

unfoldable pub ask_form : Desk → AskForm
unfolding ask_error
ask_form d = record {
  locked = d.pending;
  send_disabled = d.pending || not (filled d.message);
  button = if d.pending then codes "正在发送…" else codes "发送求助";
  error = elim d.create_error [ none ↦ none | some e ↦ some (ask_error e) ];
}

pub record Entry : Type 0 where
  pub id : String
  pub label : Text

unfoldable pub entry : Assistance → Entry
unfolding state_label
entry r = record { id = r.id; label = state_label r.state ++ codes " · " ++ r.message }

pub record HelpDesk : Type 0 where
  pub form : Option AskForm
  pub detail : Option String
  pub entries : List Entry
  pub empty : Option Text

unfoldable pub help_desk : Option String → Desk → List Assistance → HelpDesk
unfolding active shown ask_form entry
help_desk task d items = record {
  form = if is_some (active task items) then none else some (ask_form d);
  detail = shown d.selected task items;
  entries = map entry items;
  empty = if is_empty items then some (codes "还没有求助记录。") else none;
}

-- The link "返回任务".
unfoldable pub back_link : Option String → Text
back_link none = codes "/learner"
back_link (some task) = codes "/learner/tasks/" ++ codes task

unfoldable pub learner_support : Option String → Desk → Result (List Assistance) → Screen HelpDesk
unfolding help_desk
learner_support task d r = if is_pending r then loading else elim r.content [
  | none ↦ failed (codes "求助记录未能加载") true
  | some items ↦ content (help_desk task d items)
]
