-- ===== src/Training/Feedback.antt =====
-- apps/web/src/features/training/FeedbackForm.tsx: the counselor's review of a submission.
pub mod Tags
pub mod Laws
pub mod Shown
pub mod Delivered
pub mod Tests
use job_lens.Common.{
  ℕ, Bool, true, false, ◌&&◌, ◌||◌, not, String, Text, Option, none, some, List, [], ◌∷◌, ◌++◌,
  if◌then◌else◌, same, filled, trim, includes, without, add, unique, is_empty, keep, any, ◌==◌,
}
use job_lens.Schema.{Submission, FeedbackCreate, FeedbackTag, Outcome, StepProgress, StepStatus}

-- The state of the form; `redo` is a `Set`.
pub record Form : Type 0 where
  pub outcome : Outcome
  pub message : Text
  pub tags : List FeedbackTag
  pub redo : List String
  pub annotation_ids : List String

unfoldable pub initial : Form
initial = record {
  outcome = Outcome.passed;
  message = [];
  tags = [];
  redo = [];
  annotation_ids = [];
}

-- `redoIds`.
unfoldable pub redo_ids : Form → List String
redo_ids f = elim f.outcome [ Outcome.changes_requested ↦ f.redo | Outcome.passed ↦ [] ]

abbrev is_passed : Outcome → Bool
is_passed Outcome.passed = true
is_passed Outcome.changes_requested = false

unfoldable pub valid : Form → Bool
unfolding redo_ids
valid f = filled f.message && (is_passed f.outcome || not (is_empty (redo_ids f)))

abbrev tag_rank : FeedbackTag → ℕ
tag_rank FeedbackTag.title_correct = 0
tag_rank FeedbackTag.naming_adjustment = 1
tag_rank FeedbackTag.retake_required = 2
tag_rank FeedbackTag.other = 3

abbrev pub same_tag : FeedbackTag → FeedbackTag → Bool
same_tag s t = tag_rank s == tag_rank t

abbrev pub has_tag : FeedbackTag → List FeedbackTag → Bool
has_tag t = any (λ s. same_tag s t)

unfoldable pub toggle_tag : FeedbackTag → Form → Form
toggle_tag t f = record f {
  tags = if has_tag t f.tags then keep (λ s. not (same_tag s t)) f.tags else f.tags ++ t ∷ [];
}

unfoldable pub toggle_redo : String → Form → Form
toggle_redo id f = record f {
  redo = if includes f.redo id then without id f.redo else add id f.redo;
}

unfoldable pub choose : Outcome → Form → Form
choose o f = record f { outcome = o }

unfoldable pub type_message : Text → Form → Form
type_message t f = record f { message = t }

-- An annotation that the editor below an image saved.
unfoldable pub annotated : String → Form → Form
annotated id f = record f { annotation_ids = f.annotation_ids ++ id ∷ [] }

-- What the button sends with the task's version; `none` where it is disabled.
unfoldable pub submit : Bool → Submission → Form → Option (ℕ × FeedbackCreate)
unfolding valid redo_ids
submit busy s f =
    if busy || not (valid f)
    then none
    else some (
      s.task_version,
      record {
        outcome = f.outcome;
        message = trim f.message;
        tags = f.tags;
        redo_step_ids = redo_ids f;
        annotation_ids = f.annotation_ids;
      },
    )

pub attachments_of : List StepProgress → List String
attachments_of [] = []
attachments_of (p ∷ ps) = p.attachment_ids ++ attachments_of ps

-- The files that the review shows, each once.
unfoldable pub evidence_ids : Submission → List String
unfolding attachments_of
evidence_ids s = unique (attachments_of s.snapshot.progress)

-- FeedbackPage.tsx: a submission that has its feedback is only shown.
pub data ReviewPage : Type 0 where
  view form : Submission → ReviewPage

unfoldable pub review_page : Submission → ReviewPage
review_page s = elim s.feedback [ some _ ↦ view s | none ↦ form s ]
