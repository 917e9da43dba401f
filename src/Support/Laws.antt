-- ===== src/Support/Laws.antt =====
-- What the pages of requests for help send, against the rules of the API.
use job_lens.Common.{
  ◌≤◌, ◌≡◌, Bool, true, false, ◌||◌, String, Text, Option, none, some, List, [], ◌∷◌, is_some, find,
  All, filled, filled-trim, trim, trim_idem, length, length-trim, arith, if◌then◌else◌,
}
use job_lens.Schema.{Assistance, AssistanceState, AssistanceCreate}
use job_lens.Support.{
  Action, transition, closed, shows, act, reply, is_active_on, active, create, is_queued,
  is_accepted,
}

shows_iff :
    (learner : Bool) (state : AssistanceState) (a : Action)
    → shows learner state a ≡ is_some (transition learner state a)
unfolding shows closed transition
shows_iff true AssistanceState.queued a = ground arith
shows_iff true AssistanceState.accepted a = ground arith
shows_iff true AssistanceState.resolved a = ground arith
shows_iff true AssistanceState.cancelled a = ground arith
shows_iff false AssistanceState.queued a = ground arith
shows_iff false AssistanceState.accepted a = ground arith
shows_iff false AssistanceState.resolved a = ground arith
shows_iff false AssistanceState.cancelled a = ground arith

-- A page that is not busy sends an action, with the request's version, exactly where the API accepts
-- it from this user in the request's state.
pub act_iff :
    (learner : Bool) (r : Assistance) (a : Action)
    → act false learner r a
      ≡ (if is_some (transition learner r.state a) then some (r.version, a) else none)
unfolding act
act_iff learner r a = ground (arith, shows_iff learner r.state a)

find-none {ℓ} :
    {A : Type ℓ} (p : A → Bool) (xs : List A)
    → is_some (find p xs) ≡ false
    → All (λ x. p x ≡ false) xs
find-none p [] h = tt
find-none p (x ∷ xs) h = (ground arith, find-none p xs (ground arith))

-- A request for help that is sent names the task, its message is trimmed, is not blank and no longer
-- than what was typed, and none of the requests that were read for that task is queued or accepted.
pub record IsNew (task : Option String) (items : List Assistance) (typed : Text)
    (b : AssistanceCreate) : Type 0 where
  pub names_task : b.task_id ≡ task
  pub given : filled b.message ≡ true
  pub trimmed : trim b.message ≡ b.message
  pub short : length b.message ≤ length typed
  pub only : All (λ r. is_active_on task r ≡ false) items

-- A request for help that the form sends names the page's task, its message is trimmed, not blank
-- and no longer than what was typed, and none of the requests that were read is queued or accepted
-- for that task.
pub create-IsNew :
    (pending : Bool) (case_id : String) (task step : Option String) (items : List Assistance)
    (message : Text) (b : AssistanceCreate)
    → create pending case_id task step items message ≡ some b
    → IsNew task items message b
unfolding create active
create-IsNew pending case_id task step items message b h = record {
  names_task = ground arith;
  given = ground (arith, filled-trim message);
  trimmed = ground (arith, trim_idem message);
  short = ground (arith, length-trim message);
  only = find-none (is_active_on task) items (ground arith);
}

-- A reply is sent only on a request that is queued or accepted, trimmed and not blank, and no longer
-- than what was typed.
pub reply-open :
    (busy : Bool) (state : AssistanceState) (draft t : Text)
    → reply busy state draft ≡ some t
    → ((is_queued state || is_accepted state) ≡ true)
      × (filled t ≡ true)
      × (trim t ≡ t)
      × (length t ≤ length draft)
unfolding reply closed
reply-open busy AssistanceState.queued draft t h =
    ground (arith, filled-trim draft, trim_idem draft, length-trim draft)
reply-open busy AssistanceState.accepted draft t h =
    ground (arith, filled-trim draft, trim_idem draft, length-trim draft)
reply-open busy AssistanceState.resolved draft t h = absurd (cc)
reply-open busy AssistanceState.cancelled draft t h = absurd (cc)
