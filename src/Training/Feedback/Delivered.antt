-- ===== src/Training/Feedback/Delivered.antt =====
-- From the counselor's review (FeedbackForm.tsx) to the learner's page of the task (TrainingPage.tsx).
use job_lens.Common.{
  ℕ, ◌≡◌, refl, Bool, false, ◌&&◌, none, some, List, [], ◌∷◌, map, if◌then◌else◌, is_empty,
  includes, keep, arith,
}
use job_lens.Schema.{Submission, SopStep, Outcome, Feedback, FeedbackCreate}
use job_lens.Training.Feedback.{Form, submit, redo_ids}
use job_lens.Training.Feedback.Shown.{Row, row, sent_cases, asks_cases, wants_changes}
use job_lens.Training.Workspace.Shown.{redo_rows, redo_text}

-- A row whose box is there and ticked.
abbrev pub is_ticked : Row → Bool
is_ticked r = elim r.redo_box [ none ↦ false | some b ↦ b ]

keep_unticked :
    (s : Submission) (f : Form) (steps : List SopStep)
    → f.outcome ≡ Outcome.passed
    → keep (λ (x : SopStep). is_ticked (row s f x)) steps ≡ []
unfolding row
keep_unticked s f [] h = refl
keep_unticked s f (x ∷ xs) h = rw h (keep_unticked s f xs h)

keep_ticked :
    (s : Submission) (f : Form) (steps : List SopStep)
    → f.outcome ≡ Outcome.changes_requested
    → keep (λ (x : SopStep). is_ticked (row s f x)) steps
      ≡ keep (λ (x : SopStep). includes f.redo x.id) steps
unfolding row
keep_ticked s f [] h = refl
keep_ticked s f (x ∷ xs) h = rw (h, keep_ticked s f xs h) refl

rows_by_outcome :
    (o : Outcome) (s : Submission) (f : Form) (steps : List SopStep)
    → f.outcome ≡ o
    → (wants_changes f && is_empty (redo_ids f)) ≡ false
    → (if is_empty (redo_ids f)
        then []
        else map redo_text (keep (λ (x : SopStep). includes (redo_ids f) x.id) steps))
      ≡ map redo_text (keep (λ (x : SopStep). is_ticked (row s f x)) steps)
unfolding redo_ids
rows_by_outcome Outcome.passed s f steps h asks = rw (keep_unticked s f steps h, h) refl
rows_by_outcome Outcome.changes_requested s f steps h asks =
    rw (keep_ticked s f steps h, h) (kept asks)
  where
    kept :
        (wants_changes f && is_empty (redo_ids f)) ≡ false
        → (if is_empty f.redo
            then []
            else map redo_text (keep (λ (x : SopStep). includes f.redo x.id) steps))
          ≡ map redo_text (keep (λ (x : SopStep). includes f.redo x.id) steps)
    kept a = ground (arith, h, a)

-- Where the review's button sends a feedback and the server stores its steps to redo as they were
-- sent, the learner's page lists, for any steps, those whose box was ticked in the review, in their
-- order and no others; after a pass it lists none.
pub submit-redo_rows :
    (busy : Bool) (s : Submission) (f : Form) (n : ℕ) (b : FeedbackCreate) (stored : Feedback)
    (steps : List SopStep)
    → submit busy s f ≡ some (n, b)
    → stored.redo_step_ids ≡ b.redo_step_ids
    → redo_rows steps stored ≡ map redo_text (keep (λ (x : SopStep). is_ticked (row s f x)) steps)
unfolding redo_rows
submit-redo_rows busy s f n b stored steps sent same_steps =
    let (outcome, redo, good) = sent_cases busy s f n b sent in
    rw (same_steps, redo)
      (rows_by_outcome f.outcome s f steps refl (asks_cases f.outcome f refl good))
