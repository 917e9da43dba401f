-- ===== src/Support/Tests.antt =====
-- A learner who asks for help on a task.
use job_lens.Common.{
  true, ℕ, ◌≤◌, ◌≡◌, List, arith, refl, false, none, some, [], ◌∷◌, codes, trim, is_some,
  if◌then◌else◌,
}
use job_lens.Schema.{Assistance, AssistanceState, AssistanceCreate, PreferredMode}
use job_lens.Support.{accept, resolve, shows, closed, act, reply, create, transition, active, shown}
use job_lens.Support.OneActive.{
  Steps, here, next, created, moved, first, count_open, Steps-count_open,
}
use job_lens.Support.Closing.{Presses, open-closes}
use job_lens.Support.Laws.{act_iff}

abbrev request : AssistanceState → Assistance
request state = record {
  case_id = "c";
  task_id = some "t";
  step_id = none;
  message = codes "卡住了";
  attachment_ids = [];
  preferred_mode = PreferredMode.text;
  id = "r";
  counselor_id = "k";
  state = state;
  version = 3;
  created_at = "2026-01-01";
}

abbrev asked : AssistanceCreate
asked = record {
  case_id = "c";
  task_id = some "t";
  step_id = none;
  message = codes "怎么扫码";
  attachment_ids = [];
  preferred_mode = PreferredMode.text;
}

asks :
    create false "c" (some "t") none (request AssistanceState.resolved ∷ []) (codes " 怎么扫码 ")
    ≡ some asked
unfolding create active trim
asks = refl

act_iff_example :
    act false false (request AssistanceState.queued) accept
    ≡ (if is_some (transition false AssistanceState.queued accept) then some (3, accept) else none)
act_iff_example = act_iff false (request AssistanceState.queued) accept

replies : reply false AssistanceState.accepted (codes " 好 ") ≡ some (codes "好")
unfolding reply trim
replies = refl

shows_the_active_one : shown none (some "t") (request AssistanceState.queued ∷ []) ≡ some "r"
unfolding shown active
shows_the_active_one = refl

open-closes_example :
    ((n : ℕ) × Presses false AssistanceState.queued n AssistanceState.resolved)
    × Presses true AssistanceState.queued 1 AssistanceState.cancelled
unfolding closed
open-closes_example = open-closes AssistanceState.queued refl

resolving : Presses false AssistanceState.accepted 1 AssistanceState.resolved
unfolding shows closed transition
resolving = Presses.press resolve refl refl Presses.stop

abbrev over : List Assistance
over = request AssistanceState.resolved ∷ []

abbrev running : List Assistance
running = request AssistanceState.accepted ∷ over

asked_and_accepted : Steps over running
unfolding transition
asked_and_accepted =
    next
      (next here (
        created false "c" (some "t") none (codes " 怎么扫码 ") asked (request AssistanceState.queued)
          asks refl))
      (moved
        (first false accept (request AssistanceState.queued) AssistanceState.accepted over refl))

Steps-count_open_example : count_open (some "t") running ≤ 1
Steps-count_open_example = Steps-count_open (some "t") asked_and_accepted (omega arith)
