-- ===== src/Support.antt =====
-- apps/web/src/features/support: a learner's requests for help and the page of one request, with the
-- transitions that apps/api/app/modules/support/rules.py accepts.
pub mod Laws
pub mod Shown
pub mod Closing
pub mod OneActive
pub mod Learner
pub mod Tests
use job_lens.Common.{
  ℕ, Bool, true, false, ◌&&◌, ◌||◌, not, String, Text, Option, none, some, List, [], ◌∷◌,
  if◌then◌else◌, same, filled, trim, find, is_some, or_try,
}
use job_lens.Schema.{Assistance, AssistanceState, AssistanceCreate, PreferredMode}

pub data Action : Type 0 where
  accept resolve cancel : Action

-- `transition_assistance`; the user is the case's learner or else its counselor.
unfoldable pub transition : Bool → AssistanceState → Action → Option AssistanceState
transition true AssistanceState.queued cancel = some AssistanceState.cancelled
transition true AssistanceState.accepted cancel = some AssistanceState.cancelled
transition false AssistanceState.queued accept = some AssistanceState.accepted
transition false AssistanceState.accepted resolve = some AssistanceState.resolved
transition _ _ _ = none

abbrev pub is_queued : AssistanceState → Bool
is_queued AssistanceState.queued = true
is_queued _ = false

abbrev pub is_accepted : AssistanceState → Bool
is_accepted AssistanceState.accepted = true
is_accepted _ = false

-- `closed` of the page.
unfoldable pub closed : AssistanceState → Bool
closed AssistanceState.resolved = true
closed AssistanceState.cancelled = true
closed _ = false

-- The buttons of the page.
unfoldable pub shows : Bool → AssistanceState → Action → Bool
unfolding closed
shows learner state cancel = not (closed state) && learner
shows learner state accept = not (closed state) && not learner && is_queued state
shows learner state resolve = not (closed state) && not learner && is_accepted state

-- What a button sends: the action with the version of the request; `none` where it is not there or
-- disabled.
unfoldable pub act : Bool → Bool → Assistance → Action → Option (ℕ × Action)
unfolding shows
act busy learner r a = if not busy && shows learner r.state a then some (r.version, a) else none

-- The reply that the form sends.
unfoldable pub reply : Bool → AssistanceState → Text → Option Text
unfolding closed
reply busy state draft =
    if not (closed state) && not busy && filled draft then some (trim draft) else none

-- `request.task_id === taskId`, where both may be null.
abbrev pub same_task : Option String → Option String → Bool
same_task none none = true
same_task (some a) (some b) = same a b
same_task _ _ = false

abbrev pub is_active_on : Option String → Assistance → Bool
is_active_on task r = same_task r.task_id task && (is_queued r.state || is_accepted r.state)

-- `active` of the page.
unfoldable pub active : Option String → List Assistance → Option Assistance
active task = find (is_active_on task)

abbrev id_of : Option Assistance → Option String
id_of none = none
id_of (some r) = some r.id

-- `selected ?? active?.id`: the request that is shown in full.
unfoldable pub shown : Option String → Option String → List Assistance → Option String
unfolding active
shown selected task items = or_try selected (id_of (active task items))

-- What the form sends; `none` where it is not there or its button is disabled.
unfoldable pub create :
    Bool → String → Option String → Option String → List Assistance → Text → Option AssistanceCreate
unfolding active
create pending case_id task step items message =
    if is_some (active task items) || pending || not (filled message)
    then none
    else some (record {
      case_id = case_id;
      task_id = task;
      step_id = step;
      message = trim message;
      attachment_ids = [];
      preferred_mode = PreferredMode.text;
    })
