-- ===== src/Schema/People.antt =====
-- schema.d.ts: users, profiles, preferences, cases and matches.
use mathlib.Core.Bool.{Bool}
use job_lens.Common.{
  ℕ, ◌≡◌, ◌↔◌, true, false, ◌==◌, String, Text, text_eq, text_eq_iff, List, Option, arith,
}

pub data Role : Type 0 where
  learner counselor : Role

pub record User : Type 0 where
  pub id : String
  pub display_name : Text
  pub roles : List Role

pub record LoginResult : Type 0 where
  pub user : User
  pub csrf_token : Text

pub data FontScale : Type 0 where
  standard larger largest : FontScale

-- `V` is the type of the volume, a fraction of one.
pub record Preferences (V : Type 0) : Type 0 where
  pub font_scale : FontScale
  pub volume : V
  pub quiet_mode : Bool
  pub speech_enabled : Bool
  pub vibration_enabled : Bool
  pub version : ℕ

pub record ProfileWrite : Type 0 where
  pub display_name : Text
  pub sensory_preferences : List Text
  pub communication_preference : Text
  pub work_notes : Text

pub record Profile : Type 0 where
  pub display_name : Text
  pub sensory_preferences : List Text
  pub communication_preference : Text
  pub work_notes : Text
  pub user_id : String
  pub version : ℕ

pub record CaseProfile (V : Type 0) : Type 0 where
  pub display_name : Text
  pub sensory_preferences : List Text
  pub communication_preference : Text
  pub work_notes : Text
  pub user_id : Text
  pub version : ℕ
  pub preferences : Preferences V

pub data Lifecycle : Type 0 where
  pending_match active closed : Lifecycle

pub data DisplayStatus : Type 0 where
  pending_match sop_pending training awaiting_feedback feedback_available stage_complete closed :
      DisplayStatus

pub record Case : Type 0 where
  pub id : Text
  pub learner_id : String
  pub counselor_id : Option String
  pub lifecycle : Lifecycle
  pub display_status : DisplayStatus
  pub current_task_id : Option String
  pub version : ℕ

-- The number of a numeric field: a whole one, or any other by its decimal text.
pub data FieldNumber : Type 0 where
  whole : ℕ → FieldNumber
  other_number : Text → FieldNumber

unfoldable pub same_number : FieldNumber → FieldNumber → Bool
unfolding text_eq
same_number (whole m) (whole n) = m == n
same_number (other_number s) (other_number t) = text_eq s t
same_number _ _ = false

pub same_number_iff : (m n : FieldNumber) → (same_number m n ≡ true) ↔ (m ≡ n)
unfolding same_number
same_number_iff (whole m) (whole n) = ground arith
same_number_iff (whole m) (other_number t) = ground arith
same_number_iff (other_number s) (whole n) = ground arith
same_number_iff (other_number s) (other_number t) = ground (arith, text_eq_iff s t)

pub record MatchWrite : Type 0 where
  pub direction : Text
  pub focus : Text
  pub cycle_weeks : FieldNumber
  pub basis : Text

pub data MatchState : Type 0 where
  draft confirmed : MatchState

pub record SupportMatch : Type 0 where
  pub direction : Text
  pub focus : Text
  pub cycle_weeks : FieldNumber
  pub basis : Text
  pub id : String
  pub case_id : String
  pub state : MatchState
  pub version : ℕ
