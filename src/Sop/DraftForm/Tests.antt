-- ===== src/Sop/DraftForm/Tests.antt =====
-- A draft that is edited, published and refused.
use job_lens.Common.{
  ℕ, ◌≡◌, refl, ◌+◌, inl, true, false, String, Option, none, [], ◌∷◌, codes, arith,
}
use job_lens.Schema.{RevisionWrite, SopRevision, RevisionState}
use job_lens.Api.{Settled, ok, fail, error}
use job_lens.Sop.DraftForm.{
  Form, saved, published, content, body, dirty, publish_saved, save_draft, start, sync, edit_goal,
}
use job_lens.Sop.DraftForm.Publishing.{publish_saved-IsShown, IsShown}
use job_lens.Sop.DraftForm.Editing.{
  here, next, goal_edited, Steps-dirty-edited, start_here, then_synced, then_failed,
  Pending-save_draft,
}

abbrev draft_at : ℕ → RevisionWrite → SopRevision
draft_at version b = record {
  goal = b.goal;
  steps = b.steps;
  reminder = b.reminder;
  id = "r";
  plan_id = "p";
  revision_no = 1;
  state = RevisionState.draft;
  version = version;
  published_at = none;
}

abbrev blank : RevisionWrite
blank = record {
  goal = [];
  steps = [];
  reminder = record { speech_enabled = false; vibration_enabled = false; prompt_level = 2 };
}

abbrev first : SopRevision
first = draft_at 3 blank

-- A server that stores what it is sent under the next version.
abbrev storing : ℕ → RevisionWrite → Settled SopRevision
storing v b = ok (draft_at (v + 1) b)

abbrev refusing : ℕ → RevisionWrite → Settled SopRevision
refusing v b = fail (error "412")

abbrev publishing : ℕ → Option String → Settled (Unit {0})
publishing v d = ok tt

storing_echoes : (v : ℕ) (b : RevisionWrite) (r : SopRevision) → storing v b ≡ ok r → content r ≡ b
storing_echoes v b r h = ground arith

abbrev changed : Form
changed = record {
  goal = codes "结账";
  steps = [];
  reminder = blank.reminder;
  due_on = "";
  base = first;
  edited = true;
  status = [];
  reloading = false;
  save_error = none;
  publish_error = none;
}

publishes :
    (publish_saved storing publishing changed).1 ≡ published 4 none ∷ saved 3 (body changed) ∷ []
unfolding publish_saved dirty
publishes = refl

publish_saved-IsShown_example : IsShown storing publishing storing_echoes changed 4
unfolding publish_saved dirty
publish_saved-IsShown_example =
    publish_saved-IsShown storing publishing storing_echoes changed 4 none (inl refl)

Steps-dirty-edited_example : (edit_goal (codes "结账") (start first)).edited ≡ true
unfolding dirty edit_goal start
Steps-dirty-edited_example =
    Steps-dirty-edited first (next here (goal_edited (codes "结账") (start first))) refl

Pending-save_draft_example :
    (save_draft storing publishing
      (sync (draft_at 9 blank) (save_draft refusing publishing changed).0)).1
    ≡ saved 3 (body (sync (draft_at 9 blank) (save_draft refusing publishing changed).0)) ∷ []
Pending-save_draft_example =
    Pending-save_draft storing publishing
      (then_synced (draft_at 9 blank)
        (then_failed refusing publishing (error "412") (start_here changed) refl))
      refl
