-- ===== src/Schema/Support.antt =====
-- schema.d.ts: requests for assistance, files and notifications.
use job_lens.Common.{ℕ, String, Text, List, Option}

pub data AssistanceState : Type 0 where
  queued accepted resolved cancelled : AssistanceState

pub data PreferredMode : Type 0 where
  text annotation : PreferredMode

pub record AssistanceCreate : Type 0 where
  pub case_id : String
  pub task_id : Option String
  pub step_id : Option String
  pub message : Text
  pub attachment_ids : List String
  pub preferred_mode : PreferredMode

pub record Assistance : Type 0 where
  pub case_id : String
  pub task_id : Option String
  pub step_id : Option String
  pub message : Text
  pub attachment_ids : List String
  pub preferred_mode : PreferredMode
  pub id : String
  pub counselor_id : String
  pub state : AssistanceState
  pub version : ℕ
  pub created_at : String

pub data FileState : Type 0 where
  quarantined scanning ready rejected deleted : FileState

pub data Purpose : Type 0 where
  profile_material task_evidence sop_media support_message : Purpose

pub record FileAsset : Type 0 where
  pub id : String
  pub case_id : String
  pub task_id : Option String
  pub purpose : Purpose
  pub filename : String
  pub mime_type : String
  pub size_bytes : ℕ
  pub state : FileState
  pub reason : Option Text
  pub width : Option ℕ
  pub height : Option ℕ
  pub version : ℕ
  pub created_at : String
