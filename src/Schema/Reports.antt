-- ===== src/Schema/Reports.antt =====
-- schema.d.ts: the summaries, training records and notifications that the pages show.
use job_lens.Common.{ℕ, String, Text, Option}
use job_lens.Schema.Training.{TaskStatus}

-- The constant `view` is left out.
pub record Dashboard : Type 0 where
  pub pending_tasks : ℕ
  pub pending_feedback : ℕ
  pub pending_assistance : ℕ
  pub as_of : String

pub record TrainingRecord : Type 0 where
  pub task_id : String
  pub title : Text
  pub status : TaskStatus
  pub attempts : ℕ
  pub hint_requests : ℕ
  pub assistance_requests : ℕ
  pub observed_elapsed_ms : Option ℕ
  pub measurement_note : Text

pub data ResourceType : Type 0 where
  task submission assistance annotation file case : ResourceType

pub record Notification : Type 0 where
  pub id : String
  pub seq : String
  pub type : String
  pub resource_type : ResourceType
  pub resource_id : String
  pub created_at : String
  pub read_at : Option String
