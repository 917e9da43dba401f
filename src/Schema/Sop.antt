-- ===== src/Schema/Sop.antt =====
-- schema.d.ts: steps, revisions and plans of a standard operating procedure.
use mathlib.Core.Bool.{Bool}
use job_lens.Common.{ℕ, String, Text, List, Option}

pub record SopStep : Type 0 where
  pub id : String
  pub position : ℕ
  pub instruction : Text
  pub media_ids : List String
  pub estimated_seconds : ℕ
  pub evidence_required : Bool

pub record Reminder : Type 0 where
  pub speech_enabled : Bool
  pub vibration_enabled : Bool
  pub prompt_level : ℕ

pub record RevisionWrite : Type 0 where
  pub goal : Text
  pub steps : List SopStep
  pub reminder : Reminder

pub data RevisionState : Type 0 where
  draft published archived : RevisionState

pub record SopRevision : Type 0 where
  pub goal : Text
  pub steps : List SopStep
  pub reminder : Reminder
  pub id : String
  pub plan_id : String
  pub revision_no : ℕ
  pub state : RevisionState
  pub version : ℕ
  pub published_at : Option String

pub record SopPlan : Type 0 where
  pub id : String
  pub case_id : String
  pub title : Text
  pub published_revision_id : Option String
  pub draft_revision_id : Option String
  pub version : ℕ
