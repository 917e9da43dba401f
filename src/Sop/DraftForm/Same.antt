-- ===== src/Sop/DraftForm/Same.antt =====
-- DraftForm.tsx compares contents by `JSON.stringify`, which on these data (texts, natural numbers,
-- Booleans and arrays, with the fields in one order) tells two contents apart exactly when they differ.
use job_lens.Common.{
  ◌≡◌, ◌↔◌, Bool, true, false, ◌&&◌, String, text_eq, text_eq_iff, List, [], ◌∷◌, same, same_iff,
  ◌==◌, arith,
}
use job_lens.Schema.{SopStep, Reminder, RevisionWrite}

abbrev same_bool : Bool → Bool → Bool
same_bool true b = b
same_bool false true = false
same_bool false false = true

same_ids : List String → List String → Bool
same_ids [] [] = true
same_ids (x ∷ xs) (y ∷ ys) = same x y && same_ids xs ys
same_ids _ _ = false

same_ids_iff : (xs ys : List String) → (same_ids xs ys ≡ true) ↔ (xs ≡ ys)
unfolding same_ids
same_ids_iff [] [] = ground arith
same_ids_iff [] (y ∷ ys) = ground arith
same_ids_iff (x ∷ xs) [] = ground arith
same_ids_iff (x ∷ xs) (y ∷ ys) = ground (arith, same_iff x y, same_ids_iff xs ys)

same_step : SopStep → SopStep → Bool
same_step s t =
    same s.id t.id
    && s.position == t.position
    && text_eq s.instruction t.instruction
    && same_ids s.media_ids t.media_ids
    && s.estimated_seconds == t.estimated_seconds
    && same_bool s.evidence_required t.evidence_required

same_step_iff : (s t : SopStep) → (same_step s t ≡ true) ↔ (s ≡ t)
unfolding same_step
same_step_iff s t = ground (
  arith,
  same_iff s.id t.id,
  text_eq_iff s.instruction t.instruction,
  same_ids_iff s.media_ids t.media_ids,
)

same_steps : List SopStep → List SopStep → Bool
same_steps [] [] = true
same_steps (x ∷ xs) (y ∷ ys) = same_step x y && same_steps xs ys
same_steps _ _ = false

same_steps_iff : (xs ys : List SopStep) → (same_steps xs ys ≡ true) ↔ (xs ≡ ys)
unfolding same_steps
same_steps_iff [] [] = ground arith
same_steps_iff [] (y ∷ ys) = ground arith
same_steps_iff (x ∷ xs) [] = ground arith
same_steps_iff (x ∷ xs) (y ∷ ys) = ground (arith, same_step_iff x y, same_steps_iff xs ys)

same_reminder : Reminder → Reminder → Bool
same_reminder r s =
    same_bool r.speech_enabled s.speech_enabled
    && same_bool r.vibration_enabled s.vibration_enabled
    && r.prompt_level == s.prompt_level

same_reminder_iff : (r s : Reminder) → (same_reminder r s ≡ true) ↔ (r ≡ s)
unfolding same_reminder
same_reminder_iff r s = ground arith

unfoldable pub same_content : RevisionWrite → RevisionWrite → Bool
unfolding same_steps same_step same_ids same_reminder text_eq
same_content b c =
    text_eq b.goal c.goal && same_steps b.steps c.steps && same_reminder b.reminder c.reminder

pub same_content_iff : (b c : RevisionWrite) → (same_content b c ≡ true) ↔ (b ≡ c)
unfolding same_content
same_content_iff b c = ground (
  arith,
  text_eq_iff b.goal c.goal,
  same_steps_iff b.steps c.steps,
  same_reminder_iff b.reminder c.reminder,
)
