-- ===== src/Support/OneActive.antt =====
-- The open requests of one task over time: what SupportPage.tsx creates, and what the buttons of
-- AssistancePage.tsx and the API do to them.
use job_lens.Common.{
  ℕ, ◌≤◌, ◌≡◌, refl, ap, ◌∙◌, Bool, true, false, ◌||◌, String, Text, Option, none, some, List, [],
  ◌∷◌, length, keep, All, arith, Bool-cases, inl, inr, same_iff, sym,
}
use job_lens.Schema.{Assistance, AssistanceState, AssistanceCreate}
use job_lens.Support.{Action, transition, is_active_on, create, same_task, is_queued, is_accepted}
use job_lens.Support.Laws.{create-IsNew}

-- One of the requests is moved by a user whom the API lets.
pub data Moved : List Assistance → List Assistance → Type 0 where
  first :
      (learner : Bool) (a : Action) (r : Assistance) (st : AssistanceState) (rs : List Assistance)
      → transition learner r.state a ≡ some st
      → Moved (r ∷ rs) (record r { state = st } ∷ rs)
  later : (r : Assistance) {rs ts : List Assistance} → Moved rs ts → Moved (r ∷ rs) (r ∷ ts)

-- A step of a case's requests: the form of a task's page, whose list is the current one, creates a
-- request, which the API stores with the task that was sent; or a request is moved.
pub data Step (items : List Assistance) : List Assistance → Type 0 where
  created :
      (pending : Bool) (case_id : String) (task step : Option String) (message : Text)
      (b : AssistanceCreate) (r : Assistance)
      → create pending case_id task step items message ≡ some b
      → r.task_id ≡ b.task_id
      → Step items (r ∷ items)
  moved : {rs : List Assistance} → Moved items rs → Step items rs

pub data Steps (items : List Assistance) : List Assistance → Type 0 where
  here : Steps items items
  next : {rs ts : List Assistance} → Steps items rs → Step rs ts → Steps items ts

-- How many requests on the task are queued or accepted.
abbrev pub count_open : Option String → List Assistance → ℕ
count_open task items = length (keep (is_active_on task) items)

abbrev pub is_open : AssistanceState → Bool
is_open s = is_queued s || is_accepted s

open_before :
    (learner : Bool) (s : AssistanceState) (a : Action) (st : AssistanceState)
    → transition learner s a ≡ some st
    → is_open s ≡ true
unfolding transition
open_before learner AssistanceState.queued a st h = refl
open_before learner AssistanceState.accepted a st h = refl
open_before true AssistanceState.resolved a st h = absurd (ground arith)
open_before true AssistanceState.cancelled a st h = absurd (ground arith)
open_before false AssistanceState.resolved a st h = absurd (ground arith)
open_before false AssistanceState.cancelled a st h = absurd (ground arith)

Moved-count_open :
    (task : Option String) {rs ts : List Assistance}
    → Moved rs ts
    → count_open task ts ≤ count_open task rs
Moved-count_open task (first learner a r st rs h) =
    ground (arith, open_before learner r.state a st h)
Moved-count_open task (later r m) = ground (arith, Moved-count_open task m)

none_open :
    (task : Option String) (rs : List Assistance)
    → All (λ r. is_active_on task r ≡ false) rs
    → count_open task rs ≡ 0
none_open task [] h = refl
none_open task (r ∷ rs) (p, h) = rw p (none_open task rs h)

same_task_eq : (a b : Option String) → same_task a b ≡ true → a ≡ b
same_task_eq none none h = refl
same_task_eq none (some b) h = absurd (ground arith)
same_task_eq (some a) none h = absurd (ground arith)
same_task_eq (some a) (some b) h = ap (λ x. some x) ((same_iff a b).0 h)

active_on_eq :
    (task : Option String) (r : Assistance) → is_active_on task r ≡ true → r.task_id ≡ task
active_on_eq task r h = same_task_eq r.task_id task (ground arith)

created-count_open :
    (task own : Option String) (items : List Assistance) (r : Assistance)
    → r.task_id ≡ own
    → All (λ x. is_active_on own x ≡ false) items
    → count_open task items ≤ 1
    → count_open task (r ∷ items) ≤ 1
created-count_open task own items r e h few = elim (Bool-cases (is_active_on task r)) [
  | inl own_task ↦
      let same_one : own ≡ task = sym e ∙ active_on_eq task r own_task in
      rw (own_task, none_open task items (rw (← same_one) h)) (omega arith)
  | inr other_task ↦ rw other_task few
]

Step-count_open :
    (task : Option String) {rs ts : List Assistance}
    → Step rs ts
    → count_open task rs ≤ 1
    → count_open task ts ≤ 1
Step-count_open task {rs} (created pending case_id own step message b r sent kept) few =
    let fresh = create-IsNew pending case_id own step rs message b sent in
    created-count_open task own rs r (kept ∙ fresh.names_task) fresh.only few
Step-count_open task (moved m) few = omega (arith, Moved-count_open task m, few)

-- However requests are created from the pages of any tasks, with the list up to date, and moved by
-- learner and counselor, a task that had at most one open request (queued or accepted) never has two.
pub Steps-count_open :
    (task : Option String) {rs ts : List Assistance}
    → Steps rs ts
    → count_open task rs ≤ 1
    → count_open task ts ≤ 1
Steps-count_open task here few = few
Steps-count_open task (next ss s) few = Step-count_open task s (Steps-count_open task ss few)
