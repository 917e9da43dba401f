-- ===== src/Sop/DraftForm.antt =====
-- apps/web/src/features/sop/DraftForm.tsx: the editor of a draft. The state is what React's hooks and
-- the two mutations hold between renders; the server is an argument of each handler, which gives the
-- new state and the commands that it sent, in order.
pub mod Same
pub mod Publishing
pub mod Editing
pub mod Tests
use job_lens.Common.{
  ℕ, Bool, true, false, ◌&&◌, ◌||◌, not, String, Text, codes, Option, none, some, List, [], ◌∷◌,
  if◌then◌else◌, filled, all, is_empty, same,
}
use job_lens.Schema.{SopStep, Reminder, RevisionWrite, SopRevision}
use job_lens.Api.{Settled, ok, fail, Failure}
use job_lens.Sop.DraftForm.Same.{same_content}

pub record Form : Type 0 where
  pub goal : Text
  pub steps : List SopStep
  pub reminder : Reminder
  pub due_on : String
  pub base : SopRevision
  pub edited : Bool
  pub status : Text
  pub reloading : Bool
  pub save_error : Option Failure
  pub publish_error : Option Failure

pub data Command : Type 0 where
  saved : (version : ℕ) → RevisionWrite → Command
  published : (version : ℕ) → (due_on : Option String) → Command

unfoldable pub start : SopRevision → Form
start revision = record {
  goal = revision.goal;
  steps = revision.steps;
  reminder = revision.reminder;
  due_on = "";
  base = revision;
  edited = false;
  status = [];
  reloading = false;
  save_error = none;
  publish_error = none;
}

unfoldable pub accept : SopRevision → Form → Form
accept value f = record f {
  edited = false;
  base = value;
  goal = value.goal;
  steps = value.steps;
  reminder = value.reminder;
}

-- The effect that runs when the cache hands down another revision.
unfoldable pub sync : SopRevision → Form → Form
sync revision f = if f.edited then f else record f {
  base = revision;
  goal = revision.goal;
  steps = revision.steps;
  reminder = revision.reminder;
}

abbrev pub content : SopRevision → RevisionWrite
content r = record { goal = r.goal; steps = r.steps; reminder = r.reminder }

abbrev pub body : Form → RevisionWrite
body f = record { goal = f.goal; steps = f.steps; reminder = f.reminder }

unfoldable pub dirty : Form → Bool
unfolding same_content
dirty f = not (same_content (body f) (content f.base))

-- `save.mutateAsync` settles the mutation's error, and `accept` follows a success.
settle_save : Settled SopRevision → Form → Form
unfolding accept
settle_save (ok value) f = accept value (record f { save_error = none })
settle_save (fail e) f = record f { save_error = some e }

settle_publish : Settled (Unit {0}) → Form → Form
settle_publish (ok _) f = record f { publish_error = none; status = codes "SOP 已发布。" }
settle_publish (fail e) f = record f { publish_error = some e }

-- `dueOn || null`.
abbrev due : String → Option String
due s = if same s "" then none else some s

module _ (save : ℕ → RevisionWrite → Settled SopRevision)
    (publish : ℕ → Option String → Settled (Unit {0})) where
  publish_at : ℕ → List Command → Form → Form × List Command
  unfolding settle_publish
  publish_at version sent f =
      (settle_publish (publish version (due f.due_on)) f, published version (due f.due_on) ∷ sent)

  publish_after : Settled SopRevision → List Command → Form → Form × List Command
  unfolding publish_at settle_save
  publish_after (ok value) sent f = publish_at value.version sent (settle_save (ok value) f)
  publish_after (fail e) sent f = (settle_save (fail e) f, sent)

  publish_from : Bool → Form → Form × List Command
  unfolding publish_after
  publish_from true f =
      publish_after (save f.base.version (body f)) (saved f.base.version (body f) ∷ []) f
  publish_from false f = publish_at f.base.version [] f

  -- The button that publishes; the commands stand with the last one first.
  unfoldable pub publish_saved : Form → Form × List Command
  unfolding publish_from dirty
  publish_saved f = publish_from (dirty f) (record f { status = [] })

  saved_status : Settled SopRevision → Form → Form
  saved_status (ok _) f = record f { status = codes "草稿已保存。" }
  saved_status (fail _) f = f

  -- The button that saves.
  unfoldable pub save_draft : Form → Form × List Command
  unfolding settle_save saved_status
  save_draft f =
      let result = save f.base.version (body f) in
      (
        saved_status result (settle_save result (record f { status = [] })),
        saved f.base.version (body f) ∷ [],
      )

-- What `onReload` settles to; without an `onReload` nothing happens.
reload_with : Settled SopRevision → Form → Form
unfolding accept
reload_with (ok value) f = record (accept value f) {
  save_error = none;
  publish_error = none;
  status = codes "已读取最新草稿。";
  reloading = false;
}
reload_with (fail _) f = record f { status = codes "重新读取失败，修改仍保留。"; reloading = false }

unfoldable pub reload : Option (Settled SopRevision) → Form → Form
unfolding reload_with
reload none f = f
reload (some result) f = reload_with result f

-- The fields; each change bubbles to the fieldset, which marks the form as edited.
unfoldable pub edit_goal : Text → Form → Form
edit_goal goal f = record f { edited = true; goal = goal }

unfoldable pub edit_steps : List SopStep → Form → Form
edit_steps steps f = record f { edited = true; steps = steps }

unfoldable pub edit_reminder : Reminder → Form → Form
edit_reminder reminder f = record f { edited = true; reminder = reminder }

unfoldable pub edit_due : String → Form → Form
edit_due due_on f = record f { edited = true; due_on = due_on }

unfoldable pub complete : Form → Bool
complete f =
    filled f.goal && not (is_empty f.steps) && all (λ (s : SopStep). filled s.instruction) f.steps

abbrev pub busy : Bool → Bool → Form → Bool
busy saving publishing f = saving || publishing || f.reloading

abbrev pub publish_disabled : Bool → Bool → Form → Bool
publish_disabled saving publishing f = busy saving publishing f || not (complete f)
