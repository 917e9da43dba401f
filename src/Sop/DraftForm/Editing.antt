-- ===== src/Sop/DraftForm/Editing.antt =====
-- The life of a draft in DraftForm.tsx between its revisions: what marks it as edited, and which
-- version a save is made against.
use job_lens.Common.{
  ℕ, ◌≡◌, refl, ◌⊎◌, inl, inr, Bool, true, false, String, Text, Option, none, some, List, [], ◌∷◌,
  arith, Bool-cases,
}
use job_lens.Schema.{RevisionWrite, SopRevision, SopStep, Reminder}
use job_lens.Api.{Settled, ok, fail, Failure}
use job_lens.Sop.DraftForm.{
  Form, Command, saved, content, body, dirty, publish_saved, save_draft, start, sync, reload,
  edit_goal, edit_steps, edit_reminder, edit_due, publish_from, publish_after, publish_at,
  settle_save, settle_publish, saved_status, accept, reload_with,
}
use job_lens.Sop.DraftForm.Same.{same_content_iff}

abbrev pub Save : Type 0
Save = ℕ → RevisionWrite → Settled SopRevision

abbrev pub Publish : Type 0
Publish = ℕ → Option String → Settled (Unit {0})

-- One event of the form; the servers and the result of a reload are the environment's choice.
pub data Step : Form → Form → Type 0 where
  synced : (r : SopRevision) (f : Form) → Step f (sync r f)
  goal_edited : (t : Text) (f : Form) → Step f (edit_goal t f)
  steps_edited : (l : List SopStep) (f : Form) → Step f (edit_steps l f)
  reminder_edited : (r : Reminder) (f : Form) → Step f (edit_reminder r f)
  due_edited : (d : String) (f : Form) → Step f (edit_due d f)
  draft_saved : (s : Save) (p : Publish) (f : Form) → Step f (save_draft s p f).0
  draft_published : (s : Save) (p : Publish) (f : Form) → Step f (publish_saved s p f).0
  reloaded : (o : Option (Settled SopRevision)) (f : Form) → Step f (reload o f)

pub data Steps (f : Form) : Form → Type 0 where
  here : Steps f f
  next : {g h : Form} → Steps f g → Step g h → Steps f h

-- A form that is not marked as edited shows its base revision.
abbrev pub IsTracked : Form → Type 0
IsTracked f = (f.edited ≡ true) ⊎ (body f ≡ content f.base)

start-IsTracked : (r : SopRevision) → IsTracked (start r)
unfolding start
start-IsTracked r = inr refl

settle_save-IsTracked :
    (r : Settled SopRevision) (f : Form) → IsTracked f → IsTracked (settle_save r f)
unfolding settle_save accept
settle_save-IsTracked (ok v) f t = inr refl
settle_save-IsTracked (fail e) f t = t

settle_publish-IsTracked :
    (r : Settled (Unit {0})) (f : Form) → IsTracked f → IsTracked (settle_publish r f)
unfolding settle_publish
settle_publish-IsTracked (ok _) f t = t
settle_publish-IsTracked (fail e) f t = t

saved_status-IsTracked :
    (s : Save) (p : Publish) (r : Settled SopRevision) (f : Form)
    → IsTracked f
    → IsTracked (saved_status s p r f)
unfolding saved_status
saved_status-IsTracked s p (ok _) f t = t
saved_status-IsTracked s p (fail _) f t = t

publish_after-IsTracked :
    (s : Save) (p : Publish) (r : Settled SopRevision) (c : List Command) (f : Form)
    → IsTracked f
    → IsTracked (publish_after s p r c f).0
unfolding publish_after publish_at
publish_after-IsTracked s p (ok v) c f t =
    settle_publish-IsTracked _ _ (settle_save-IsTracked (ok v) f t)
publish_after-IsTracked s p (fail e) c f t = settle_save-IsTracked (fail e) f t

publish_from-IsTracked :
    (s : Save) (p : Publish) (b : Bool) (f : Form)
    → IsTracked f
    → IsTracked (publish_from s p b f).0
unfolding publish_from publish_at
publish_from-IsTracked s p true f t = publish_after-IsTracked s p _ _ f t
publish_from-IsTracked s p false f t = settle_publish-IsTracked _ f t

reload_with-IsTracked :
    (r : Settled SopRevision) (f : Form) → IsTracked f → IsTracked (reload_with r f)
unfolding reload_with accept
reload_with-IsTracked (ok v) f t = inr refl
reload_with-IsTracked (fail e) f t = t

Step-IsTracked : {f g : Form} → Step f g → IsTracked f → IsTracked g
unfolding sync edit_goal edit_steps edit_reminder edit_due save_draft publish_saved reload
Step-IsTracked (synced r f) t = elim (Bool-cases f.edited) [
  | inl e ↦ inl (ground arith)
  | inr e ↦ inr (ground arith)
]
Step-IsTracked (goal_edited x f) t = inl refl
Step-IsTracked (steps_edited x f) t = inl refl
Step-IsTracked (reminder_edited x f) t = inl refl
Step-IsTracked (due_edited x f) t = inl refl
Step-IsTracked (draft_saved s p f) t =
    saved_status-IsTracked s p _ _ (settle_save-IsTracked (s f.base.version (body f)) _ t)
Step-IsTracked (draft_published s p f) t = publish_from-IsTracked s p (dirty f) _ t
Step-IsTracked (reloaded none f) t = t
Step-IsTracked (reloaded (some r) f) t = reload_with-IsTracked r f t

Steps-IsTracked : {f g : Form} → Steps f g → IsTracked f → IsTracked g
Steps-IsTracked here t = t
Steps-IsTracked (next s e) t = Step-IsTracked e (Steps-IsTracked s t)

dirty-edited_of : (f : Form) → IsTracked f → dirty f ≡ true → f.edited ≡ true
unfolding dirty
dirty-edited_of f (inl e) d = e
dirty-edited_of f (inr e) d = ground (arith, (same_content_iff (body f) (content f.base)).1 e)

-- Whatever happens to a form from its first revision on (edits, refetches, saves, publications and
-- reloads, whether they succeed or fail): if it shows anything that its base revision does not
-- hold, it is marked as edited.
pub Steps-dirty-edited :
    (r : SopRevision) {f : Form} → Steps (start r) f → dirty f ≡ true → f.edited ≡ true
Steps-dirty-edited r {f} s d = dirty-edited_of f (Steps-IsTracked s (start-IsTracked r)) d

-- The events that leave an edit unsaved: edits, refetched revisions, and saves that fail.
pub data Pending : Form → Form → Type 0 where
  start_here : (f : Form) → Pending f f
  then_synced : (r : SopRevision) {f g : Form} → Pending f g → Pending f (sync r g)
  then_goal : (t : Text) {f g : Form} → Pending f g → Pending f (edit_goal t g)
  then_steps : (l : List SopStep) {f g : Form} → Pending f g → Pending f (edit_steps l g)
  then_reminder : (r : Reminder) {f g : Form} → Pending f g → Pending f (edit_reminder r g)
  then_due : (d : String) {f g : Form} → Pending f g → Pending f (edit_due d g)
  then_failed :
      (s : Save) (p : Publish) (e : Failure) {f g : Form}
      → Pending f g
      → s g.base.version (body g) ≡ fail e
      → Pending f (save_draft s p g).0

Pending-keeps : {f g : Form} → Pending f g → f.edited ≡ true → (g.edited ≡ true) × (g.base ≡ f.base)
unfolding sync edit_goal edit_steps edit_reminder edit_due save_draft saved_status settle_save
Pending-keeps (start_here f) h = (h, refl)
Pending-keeps (then_synced r p) h = ground (arith, Pending-keeps p h)
Pending-keeps (then_goal t p) h = (refl, (Pending-keeps p h).1)
Pending-keeps (then_steps l p) h = (refl, (Pending-keeps p h).1)
Pending-keeps (then_reminder r p) h = (refl, (Pending-keeps p h).1)
Pending-keeps (then_due d p) h = (refl, (Pending-keeps p h).1)
Pending-keeps (then_failed s q e p fails) h = rw fails (Pending-keeps p h)

-- Once a form is marked as edited, every save is made with its fields against the base version
-- that it had then, after any further edits, any revisions that the cache hands down, and any
-- saves that fail.
pub Pending-save_draft :
    (s : Save) (p : Publish) {f g : Form}
    → Pending f g
    → f.edited ≡ true
    → (save_draft s p g).1 ≡ saved f.base.version (body g) ∷ []
unfolding save_draft
Pending-save_draft s p e h = rw ((Pending-keeps e h).1) refl
