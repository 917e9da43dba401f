-- ===== src/Training/Workspace/Laws.antt =====
-- The commands that TrainingPage.tsx offers, against the transitions that the API accepts, and the
-- attachments that a completed step sends.
use job_lens.Common.{
  ℕ, ◌≡◌, refl, Bool, true, false, ◌&&◌, not, String, Option, none, some, List, [], ◌∷◌,
  if◌then◌else◌, same, same_iff, is_empty, is_some, find, ◌==◌, any, arith,
}
use job_lens.Schema.{Task, TaskStatus, SopStep, Submission}
use job_lens.Training.Rules.{
  TaskCommand, start, pause, resume, submit, request_changes, pass, cancel, transition, by_learner,
}
use job_lens.Training.Workspace.{
  Page, Panel, working, panel, panel_of, offers, current_step, is_current, attachments,
  choose_evidence, save_disabled, save_command, evidence_of, put_evidence,
}

abbrev rank : TaskCommand → ℕ
rank start = 0
rank pause = 1
rank resume = 2
rank submit = 3
rank request_changes = 4
rank pass = 5
rank cancel = 6

-- The panel has a button for the command.
abbrev pub offered : TaskCommand → Panel → Bool
offered c p = any (λ d. rank c == rank d) (offers p)

-- The page holds pausing back where no step is left, and submitting where one is.
abbrev pub fits : TaskCommand → Bool → Bool
fits pause has_step = has_step
fits submit has_step = not has_step
fits _ has_step = true

offered_of :
    (c : TaskCommand) (st : TaskStatus) (due : Option String) (step : Option SopStep)
    (latest : Option Submission)
    → offered c (panel_of st due step latest)
      ≡ (by_learner c && is_some (transition st c) && fits c (is_some step))
unfolding panel_of transition
offered_of c TaskStatus.not_started due step latest = ground arith
offered_of c TaskStatus.paused due step latest = ground arith
offered_of c TaskStatus.changes_requested due step latest = ground arith
offered_of c TaskStatus.submitted due step latest = ground arith
offered_of c TaskStatus.completed due step latest = ground arith
offered_of c TaskStatus.cancelled due step latest = ground arith
offered_of c TaskStatus.in_progress due (some s) latest = ground arith
offered_of c TaskStatus.in_progress due none latest = ground arith

-- On every task the page offers exactly the commands that the API takes from a learner in the task's
-- status, but pausing only while a step is left and submitting only when none is.
pub offered_iff_allowed :
    (c : TaskCommand) (t : Task) (latest : Option Submission)
    → offered c (panel t latest)
      ≡ (by_learner c && is_some (transition t.status c) && fits c (is_some (current_step t)))
unfolding panel
offered_iff_allowed c t latest = offered_of c t.status t.due_on (current_step t) latest

evidence_of-put_evidence :
    (i : String) (ids : List String) (m : List (String × List String)) (j : String)
    → evidence_of j (put_evidence i ids m) ≡ (if same i j then some ids else evidence_of j m)
unfolding evidence_of put_evidence
evidence_of-put_evidence i ids [] j = refl
evidence_of-put_evidence i ids ((k, v) ∷ m) j =
    ground (arith, evidence_of-put_evidence i ids m j, same_iff i j, same_iff k i, same_iff k j)

-- Attachments that the learner chose for a step are the ones that the step sends, and a choice for
-- one step leaves every other step's attachments alone.
pub attachments-choose_evidence :
    (t : Task) (p : Page) (i : String) (ids : List String) (s : SopStep)
    → attachments t (choose_evidence i ids p) s ≡ (if same i s.id then ids else attachments t p s)
unfolding attachments choose_evidence
attachments-choose_evidence t p i ids s =
    ground (arith, evidence_of-put_evidence i ids p.evidence s.id)

find_passes {ℓ} :
    {A : Type ℓ} (p : A → Bool) (xs : List A) (a : A) → find p xs ≡ some a → p a ≡ true
find_passes p [] a h = cc
find_passes p (x ∷ xs) a h = ground (arith, find_passes p xs a)

is_current-id : (o : Option String) (s : SopStep) → is_current o s ≡ true → o ≡ some s.id
is_current-id none s h = cc
is_current-id (some id) s h = ground (arith, same_iff s.id id)

panel_of-working :
    (st : TaskStatus) (due : Option String) (step : Option SopStep) (latest : Option Submission)
    (s : SopStep)
    → panel_of st due step latest ≡ working s
    → (st ≡ TaskStatus.in_progress) × (step ≡ some s)
unfolding panel_of
panel_of-working st due step latest s h = ground arith

-- What the API asks of a completed step: the task runs, the step is the current one, and it comes
-- with an attachment where it needs evidence.
pub record IsSaveable (t : Task) (p : Page) (s : SopStep) : Type 0 where
  pub running : t.status ≡ TaskStatus.in_progress
  pub current : t.current_step_id ≡ some (save_command t p s).step_id
  pub with_evidence : (s.evidence_required && is_empty (save_command t p s).attachment_ids) ≡ false
  pub latest_version : (save_command t p s).version ≡ t.version

-- Where the page works on a step and the button that completes it is enabled, the task runs, what
-- the button sends names the task's current step and its version, and it has an attachment if the
-- step needs evidence.
pub save_command-IsSaveable :
    (t : Task) (latest : Option Submission) (p : Page) (s : SopStep) (busy : Bool)
    → panel t latest ≡ working s
    → save_disabled busy t p s ≡ false
    → IsSaveable t p s
unfolding panel save_disabled save_command current_step
save_command-IsSaveable t latest p s busy h enabled =
    let (runs, found) = panel_of-working t.status t.due_on (current_step t) latest s h in
    record {
      running = runs;
      current = is_current-id t.current_step_id s (find_passes _ t.revision.steps s found);
      with_evidence = ground arith;
      latest_version = refl;
    }
