-- ===== src/Schema/Training.antt =====
-- schema.d.ts: tasks, progress, submissions and feedback.
use job_lens.Common.{ℕ, String, Text, List, Option}
use job_lens.Schema.Sop.{SopRevision}

pub data TaskStatus : Type 0 where
  not_started in_progress paused submitted changes_requested completed cancelled : TaskStatus

pub data StepStatus : Type 0 where
  pending in_progress completed : StepStatus

pub data Outcome : Type 0 where
  passed changes_requested : Outcome

pub data FeedbackTag : Type 0 where
  title_correct naming_adjustment retake_required other : FeedbackTag

pub record StepProgress : Type 0 where
  pub step_id : String
  pub status : StepStatus
  pub attachment_ids : List String

pub record PromptOverrideWrite : Type 0 where
  pub prompt_level : ℕ
  pub reason : Text

pub record Task : Type 0 where
  pub id : String
  pub case_id : String
  pub learner_id : String
  pub title : Text
  pub revision : SopRevision
  pub status : TaskStatus
  pub due_on : Option String
  pub current_step_id : Option String
  pub progress : List StepProgress
  pub prompt_override : Option PromptOverrideWrite
  pub version : ℕ

pub record FeedbackCreate : Type 0 where
  pub outcome : Outcome
  pub message : Text
  pub tags : List FeedbackTag
  pub redo_step_ids : List String
  pub annotation_ids : List String

pub record Feedback : Type 0 where
  pub outcome : Outcome
  pub message : Text
  pub tags : List FeedbackTag
  pub redo_step_ids : List String
  pub annotation_ids : List String
  pub id : String
  pub submission_id : String
  pub author_id : String
  pub created_at : String

-- The constant `schema_version` is left out.
pub record SubmissionSnapshot : Type 0 where
  pub revision_id : String
  pub progress : List StepProgress

pub record Submission : Type 0 where
  pub id : String
  pub task_id : String
  pub attempt_no : ℕ
  pub revision_id : String
  pub note : Text
  pub snapshot : SubmissionSnapshot
  pub submitted_at : String
  pub task_version : ℕ
  pub task_status : TaskStatus
  pub feedback : Option Feedback
