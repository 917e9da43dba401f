-- ===== src/Training/Feedback/Shown.antt =====
-- What apps/web/src/features/training/FeedbackForm.tsx shows of a submission and of the form's state.
-- The text of the submission's time is the browser's.
use job_lens.Common.{
  ℕ, ◌≡◌, refl, Bool, true, false, ◌&&◌, ◌||◌, not, String, Text, codes, Option, none, some, List,
  [], ◌∷◌, ◌++◌, map, if◌then◌else◌, is_empty, is_some, or_else, same, includes, starts_with, arith,
}
use job_lens.Schema.{
  Submission, SopStep, SopRevision, StepProgress, StepStatus, Outcome, FeedbackTag, FileAsset,
  FeedbackCreate,
}
use job_lens.Api.{Failure}
use job_lens.Queries.Screen.{Result, is_pending, Screen, loading, failed, content, has_status}
use job_lens.Training.Labels.{status_label, outcome_label, tag_label}
use job_lens.Training.Feedback.{Form, redo_ids, valid, has_tag, evidence_ids, submit}

-- `STEP_STATUS_LABELS` of the form.
unfoldable pub review_label : StepStatus → Text
review_label StepStatus.pending = codes "未开始"
review_label StepStatus.in_progress = codes "进行中"
review_label StepStatus.completed = codes "已完成"

-- `progressById.get`: of two entries of one step the `Map` holds the later.
unfoldable pub progress_of : String → List StepProgress → Option StepStatus
progress_of id [] = none
progress_of id (p ∷ ps) = elim (progress_of id ps) [
  | some s ↦ some s
  | none ↦ if same p.step_id id then some p.status else none
]

abbrev pub wants_changes : Form → Bool
wants_changes f = elim f.outcome [ Outcome.changes_requested ↦ true | Outcome.passed ↦ false ]

-- A row of the steps; the box to redo the step is there where changes are wanted.
pub record Row : Type 0 where
  pub id : String
  pub position : ℕ
  pub instruction : Text
  pub status : Text
  pub redo_box : Option Bool

unfoldable pub row : Submission → Form → SopStep → Row
unfolding review_label progress_of
row s f step = record {
  id = step.id;
  position = step.position;
  instruction = if is_empty step.instruction then codes "（未填写说明）" else step.instruction;
  status = review_label (or_else (progress_of step.id s.snapshot.progress) StepStatus.pending);
  redo_box = if wants_changes f then some (includes f.redo step.id) else none;
}

-- The section of the steps, by the query of the revision.
unfoldable pub steps_card : Result SopRevision → Submission → Form → Screen (List Row)
unfolding row
steps_card r s f = if is_pending r then loading else elim r.content [
  | some revision ↦ content (map (row s f) revision.steps)
  | none ↦ failed (codes "步骤内容暂不可用") false
]

-- The alert below the button.
unfoldable pub error_text : Failure → Text
unfolding has_status
error_text e =
    if has_status 412 (some e)
    then codes "该提交已被他人审核，请刷新查看最新状态"
    else if has_status 409 (some e)
    then codes "该提交已有审核结论，请刷新"
    else codes "提交失败，请重试"

abbrev same_outcome : Outcome → Outcome → Bool
same_outcome Outcome.passed Outcome.passed = true
same_outcome Outcome.changes_requested Outcome.changes_requested = true
same_outcome _ _ = false

-- `OUTCOME_OPTIONS` and `TAG_OPTIONS`.
unfoldable pub outcome_options : List Outcome
outcome_options = Outcome.passed ∷ Outcome.changes_requested ∷ []

unfoldable pub tag_options : List FeedbackTag
tag_options =
    FeedbackTag.title_correct ∷ FeedbackTag.naming_adjustment ∷ FeedbackTag.retake_required
    ∷ FeedbackTag.other ∷ []

pub record Review : Type 0 where
  pub badge : Text
  pub attempt : ℕ
  pub note : Option Text
  pub steps : Screen (List Row)
  pub evidence : List String
  pub outcomes : List (Text × Bool)
  pub tags : List (Text × Bool)
  pub asks_for_step : Bool
  pub submit_disabled : Bool
  pub error : Option Text

unfoldable pub review :
    (busy : Bool) (err : Option Failure) → Result SopRevision → Submission → Form → Review
unfolding steps_card status_label outcome_label tag_label error_text outcome_options tag_options
    redo_ids valid evidence_ids
review busy err r s f = record {
  badge = status_label s.task_status;
  attempt = s.attempt_no;
  note = if is_empty s.note then none else some (codes "学员说明：" ++ s.note);
  steps = steps_card r s f;
  evidence = evidence_ids s;
  outcomes = map (λ o. (outcome_label o, same_outcome f.outcome o)) outcome_options;
  tags = map (λ t. (tag_label t, has_tag t f.tags)) tag_options;
  asks_for_step = wants_changes f && is_empty (redo_ids f);
  submit_disabled = busy || not (valid f);
  error = elim err [ none ↦ none | some e ↦ some (error_text e) ];
}

-- `EvidenceReview`: an image can be annotated, any other file is a link.
pub data Evidence : Type 0 where
  editor : (task submission asset : String) → Evidence
  link : (href text : Text) → Evidence

unfoldable pub evidence_review :
    (task submission asset : String) → Result FileAsset → Screen Evidence
unfolding starts_with
evidence_review task submission asset r = if is_pending r then loading else elim r.content [
  | none ↦ failed (codes "附件未能加载") true
  | some file ↦
      if starts_with (codes "image/") (codes file.mime_type)
      then content (editor task submission asset)
      else content (
          link (codes "/api/v1/files/" ++ codes asset ++ codes "/content")
            (codes "查看附件：" ++ codes file.filename))
]

is_some-submit :
    (busy : Bool) (s : Submission) (f : Form)
    → is_some (submit busy s f) ≡ not (busy || not (valid f))
unfolding submit
is_some-submit busy s f = ground arith

pub sent_cases :
    (busy : Bool) (s : Submission) (f : Form) (n : ℕ) (b : FeedbackCreate)
    → submit busy s f ≡ some (n, b)
    → (b.outcome ≡ f.outcome) × (b.redo_step_ids ≡ redo_ids f) × (valid f ≡ true)
unfolding submit
sent_cases busy s f n b h = (ground arith, ground arith, ground arith)

box_cases :
    (o : Outcome) (f : Form) (id : String)
    → f.outcome ≡ o
    → (if wants_changes f then some (includes f.redo id) else none)
      ≡ (if same_outcome o Outcome.changes_requested then some (includes (redo_ids f) id) else none)
unfolding redo_ids
box_cases Outcome.passed f id h = rw h refl
box_cases Outcome.changes_requested f id h = rw h refl

pub asks_cases :
    (o : Outcome) (f : Form)
    → f.outcome ≡ o
    → valid f ≡ true
    → (wants_changes f && is_empty (redo_ids f)) ≡ false
unfolding valid redo_ids
asks_cases Outcome.passed f h v = rw h refl
asks_cases Outcome.changes_requested f h v = ground (arith, h, v)

row-submit :
    (busy : Bool) (s : Submission) (f : Form) (n : ℕ) (b : FeedbackCreate) (step : SopStep)
    → submit busy s f ≡ some (n, b)
    → ((row s f step).redo_box ≡ (
        if same_outcome b.outcome Outcome.changes_requested
        then some (includes b.redo_step_ids step.id)
        else none))
      × ((wants_changes f && is_empty (redo_ids f)) ≡ false)
unfolding row
row-submit busy s f n b step h =
    let (outcome, redo, good) = sent_cases busy s f n b h in
    (rw (outcome, redo) (box_cases f.outcome f step.id refl), asks_cases f.outcome f refl good)

-- Where the button sends a feedback, it is enabled, the page does not ask for a step to be ticked,
-- and the row of every step shows what is sent: its box is there where the sent outcome wants
-- changes, and is ticked where the step is among those sent.
pub review-submit :
    (busy : Bool) (err : Option Failure) (r : Result SopRevision) (s : Submission) (f : Form)
    (n : ℕ) (b : FeedbackCreate) (step : SopStep)
    → submit busy s f ≡ some (n, b)
    → ((review busy err r s f).submit_disabled ≡ false)
      × ((review busy err r s f).asks_for_step ≡ false)
      × ((row s f step).redo_box ≡ (
          if same_outcome b.outcome Outcome.changes_requested
          then some (includes b.redo_step_ids step.id)
          else none))
unfolding review
review-submit busy err r s f n b step h =
    let (box, asks) = row-submit busy s f n b step h in
    (ground (arith, is_some-submit busy s f, h), asks, box)
