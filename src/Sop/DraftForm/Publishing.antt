-- ===== src/Sop/DraftForm/Publishing.antt =====
-- What DraftForm.tsx publishes.
use job_lens.Common.{
  ℕ, ◌≡◌, refl, sym, ◌⊎◌, inl, inr, Bool, true, false, String, Option, List, [], ◌∷◌, arith,
}
use job_lens.Schema.{RevisionWrite, SopRevision}
use job_lens.Api.{Settled, ok, fail}
use job_lens.Sop.DraftForm.{
  Form, Command, saved, published, content, body, dirty, publish_saved, publish_from, publish_after,
  publish_at, settle_save, settle_publish, accept,
}
use job_lens.Sop.DraftForm.Same.{same_content_iff}

-- The command was sent.
abbrev pub Sent : Command → List Command → Type 0
Sent c [] = ⊥
Sent c (x ∷ xs) = (c ≡ x) ⊎ Sent c xs

dirty-false : (f : Form) → dirty f ≡ false → body f ≡ content f.base
unfolding dirty
dirty-false f h = (same_content_iff (body f) (content f.base)).0 (ground arith)

module _ (save : ℕ → RevisionWrite → Settled SopRevision)
    (publish : ℕ → Option String → Settled (Unit {0}))
    (echo : (v : ℕ) (b : RevisionWrite) (r : SopRevision) → save v b ≡ ok r → content r ≡ b) where
  -- The published version is that of a revision which the server holds, and which reads as the form.
  pub record IsShown (f : Form) (n : ℕ) : Type 0 where
    pub revision : SopRevision
    pub version : revision.version ≡ n
    pub shown : content revision ≡ body f
    pub held : (revision ≡ f.base) ⊎ (save f.base.version (body f) ≡ ok revision)

  publish_after-IsShown :
      (f g : Form) (n : ℕ) (d : Option String) (result : Settled SopRevision)
      → save f.base.version (body f) ≡ result
      → Sent
          (published n d)
          (publish_after save publish result (saved f.base.version (body f) ∷ []) g).1
      → IsShown f n
  unfolding publish_after publish_at
  publish_after-IsShown f g n d (ok r) h (inl e) = record {
    revision = r;
    version = cc;
    shown = echo f.base.version (body f) r h;
    held = inr h;
  }
  publish_after-IsShown f g n d (ok r) h (inr (inl e)) = absurd (cc)
  publish_after-IsShown f g n d (ok r) h (inr (inr e)) = absurd e
  publish_after-IsShown f g n d (fail x) h (inl e) = absurd (cc)
  publish_after-IsShown f g n d (fail x) h (inr e) = absurd e

  publish_from-IsShown :
      (f : Form) (n : ℕ) (d : Option String) (b : Bool)
      → dirty f ≡ b
      → Sent (published n d) (publish_from save publish b (record f { status = [] })).1
      → IsShown f n
  unfolding publish_from publish_at
  publish_from-IsShown f n d true h s =
      publish_after-IsShown f (record f { status = [] }) n d _ refl s
  publish_from-IsShown f n d false h (inl e) = record {
    revision = f.base;
    version = cc;
    shown = sym (dirty-false f h);
    held = inl refl;
  }
  publish_from-IsShown f n d false h (inr e) = absurd e

  -- Whatever version the form publishes, the server holds it with the goal, the steps and the
  -- reminder that the form shows: it is the form's base revision, or the one that answered the
  -- save just before. The server is assumed to answer a save with what was saved.
  pub publish_saved-IsShown :
      (f : Form) (n : ℕ) (d : Option String)
      → Sent (published n d) (publish_saved save publish f).1
      → IsShown f n
  unfolding publish_saved
  publish_saved-IsShown f n d s = publish_from-IsShown f n d (dirty f) refl s

  body_after :
      (f : Form) (result : Settled SopRevision) (sent : List Command)
      → save f.base.version (body f) ≡ result
      → body (publish_after save publish result sent (record f { status = [] })).0 ≡ body f
  unfolding publish_after publish_at settle_save settle_publish accept
  body_after f (ok r) sent h = ground (arith, echo f.base.version (body f) r h)
  body_after f (fail e) sent h = refl

  body_from :
      (f : Form) (b : Bool)
      → body (publish_from save publish b (record f { status = [] })).0 ≡ body f
  unfolding publish_from publish_at settle_publish
  body_from f true = body_after f _ _ refl
  body_from f false = ground arith

  -- Publishing changes nothing of what the form shows, whether the two calls succeed or fail.
  pub body-publish_saved : (f : Form) → body (publish_saved save publish f).0 ≡ body f
  unfolding publish_saved
  body-publish_saved f = body_from f (dirty f)
