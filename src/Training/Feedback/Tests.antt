-- ===== src/Training/Feedback/Tests.antt =====
-- A review of one submission.
use job_lens.Common.{
  ◌≡◌, refl, true, false, none, some, [], ◌∷◌, codes, arith, includes, add, unique, trim, map, keep,
}
use job_lens.Training.Feedback.Delivered.{is_ticked, submit-redo_rows}
use job_lens.Training.Workspace.Shown.{redo_rows, redo_text}
use job_lens.Api.Decimal.{decimal}
use job_lens.Schema.{
  Feedback, SopStep, SopRevision, Submission, TaskStatus, StepStatus, Outcome, FeedbackCreate,
}
use job_lens.Training.Rules.{validate_feedback, within_limits}
use job_lens.Training.Feedback.{
  Form, initial, choose, type_message, toggle_redo, submit, evidence_ids,
}
use job_lens.Query.Cache.{QueryStatus}
use job_lens.Queries.Screen.{Result}
use job_lens.Training.Feedback.Shown.{row}
use job_lens.Training.Feedback.Laws.{here, next, chosen, typed, ticked, submit-validate_feedback}

abbrev submission : Submission
submission = record {
  id = "s";
  task_id = "t";
  attempt_no = 1;
  revision_id = "r";
  note = [];
  snapshot = record {
    revision_id = "r";
    progress =
        record { step_id = "a"; status = StepStatus.completed; attachment_ids = "f" ∷ "f" ∷ [] }
        ∷ [];
  };
  submitted_at = "2026-01-01";
  task_version = 5;
  task_status = TaskStatus.submitted;
  feedback = none;
}

abbrev reviewed : Form
reviewed =
    toggle_redo "a" (type_message (codes " 再试一次 ") (choose Outcome.changes_requested initial))

abbrev sent : FeedbackCreate
sent = record {
  outcome = Outcome.changes_requested;
  message = codes "再试一次";
  tags = [];
  redo_step_ids = "a" ∷ [];
  annotation_ids = [];
}

sends : submit false submission reviewed ≡ some (5, sent)
unfolding submit toggle_redo type_message choose initial includes trim add
sends = refl

submit-validate_feedback_example :
    (5 ≡ submission.task_version)
    × (validate_feedback sent ("a" ∷ []) ≡ true)
    × (within_limits sent ≡ true)
unfolding includes
submit-validate_feedback_example =
    submit-validate_feedback ("a" ∷ []) false submission reviewed 5 sent (omega arith)
      (next
        (next (next here (chosen Outcome.changes_requested initial))
          (typed (codes " 再试一次 ") (choose Outcome.changes_requested initial) (omega arith)))
        (ticked "a" (type_message (codes " 再试一次 ") (choose Outcome.changes_requested initial))
          refl))
      (refl, (refl, (refl, (refl, tt)))) sends

nothing_to_send : submit false submission initial ≡ none
unfolding submit initial trim
nothing_to_send = refl

evidence_once : evidence_ids submission ≡ "f" ∷ []
unfolding evidence_ids includes add unique
evidence_once = refl

abbrev step_a : SopStep
step_a = record {
  id = "a";
  position = 1;
  instruction = codes "打印文件";
  media_ids = [];
  estimated_seconds = 60;
  evidence_required = true;
}

abbrev no_revision : Result SopRevision
no_revision = record {
  status = QueryStatus.pending;
  content = none;
  failure = none;
  fetching = true;
}

marked_row : (row submission reviewed step_a).redo_box ≡ some true
unfolding row toggle_redo type_message choose initial includes add
marked_row = refl

abbrev step_b : SopStep
step_b = record step_a { id = "b"; position = 2; instruction = codes "装订" }

abbrev stored : Feedback
stored = record {
  outcome = Outcome.changes_requested;
  message = codes "再试一次";
  tags = [];
  redo_step_ids = "a" ∷ [];
  annotation_ids = [];
  id = "k";
  submission_id = "s";
  author_id = "c";
  created_at = "2026-01-02";
}

submit-redo_rows_example :
    redo_rows (step_a ∷ step_b ∷ []) stored
    ≡ map redo_text
        (keep (λ (x : SopStep). is_ticked (row submission reviewed x)) (step_a ∷ step_b ∷ []))
submit-redo_rows_example =
    submit-redo_rows false submission reviewed 5 sent stored (step_a ∷ step_b ∷ []) sends refl

listed : redo_rows (step_a ∷ step_b ∷ []) stored ≡ codes "第 1 步 · 打印文件" ∷ []
unfolding redo_rows redo_text includes decimal
listed = refl
