-- ===== src/Matching/Versions.antt =====
-- The versions that the two buttons of MatchEditor.tsx name in `If-Match`, against a server that takes
-- a save of its current version and refuses every other.
use job_lens.Common.{ℕ, ◌≤◌, ◌≡◌, ◌≢◌, refl, true, false, Text, none, some, [], ◌∷◌, arith}
use job_lens.Schema.{MatchWrite, SupportMatch}
use job_lens.Api.{Settled, ok, fail, ApiError, api}
use job_lens.Matching.{
  Editor, saved, body, dirty, base_or_current, sync, edit_focus, save_draft, settle_save,
  save_disabled, confirm_disabled, confirm_saved, confirm_from, confirm_after,
}

module _ (save : ℕ → MatchWrite → Settled SupportMatch) (confirm : ℕ → Settled (Unit {0})) where
  under_edit :
      (m : SupportMatch) (f : Editor) → f.edited ≡ true → sync m f ≡ record f { current = m }
  unfolding sync
  under_edit m f e = rw e

  base_of : (f : Editor) → 1 ≤ f.base_version → base_or_current f ≡ f.base_version
  unfolding base_or_current
  base_of f p = ground arith

  -- A confirmation whose save is refused shows the error and sends nothing more.
  refused_from :
      (f : Editor) (n : ℕ) (e : ApiError)
      → base_or_current f ≡ n
      → save n (body f) ≡ fail (api e)
      → confirm_from save confirm true f
        ≡ (record f { save_error = some (api e) }, saved n (body f) ∷ [])
  unfolding confirm_from confirm_after settle_save
  refused_from f n e b h = rw (b, h) refl

  confirm_refused :
      (f : Editor) (e : ApiError)
      → 1 ≤ f.base_version
      → dirty f ≡ true
      → confirm_disabled false f ≡ false
      → save f.base_version (body f) ≡ fail (api e)
      → confirm_saved save confirm false f
        ≡ (record f { save_error = some (api e) }, saved f.base_version (body f) ∷ [])
  unfolding confirm_saved
  confirm_refused f e p d on h = rw (on, d) (refused_from f f.base_version e (base_of f p) h)

  save_taken :
      (f : Editor) (m : SupportMatch)
      → save_disabled false f ≡ false
      → save f.current.version (body f) ≡ ok m
      → save_draft save confirm false f
        ≡ (record f { save_error = none }, saved f.current.version (body f) ∷ [])
  unfolding save_draft settle_save
  save_taken f m on h = rw (on, h) refl

-- An edited form whose base version is at least 1 is saved by "保存草稿", which the server takes, and the
-- match that it answered with, of another version than the base, comes down. The server is assumed to
-- refuse a save of every other version from then on. Then after a further change of the focus that
-- differs from the match, an enabled "确认匹配" saves against the base version of before the save, is
-- refused, keeps the form with the refusal shown, and confirms nothing.
pub save_draft-confirm_saved :
    (save later : ℕ → MatchWrite → Settled SupportMatch) (confirm : ℕ → Settled (Unit {0}))
    (f : Editor) (m : SupportMatch) (t : Text) (e : ApiError)
    → f.edited ≡ true
    → 1 ≤ f.base_version
    → f.base_version ≢ m.version
    → save_disabled false f ≡ false
    → save f.current.version (body f) ≡ ok m
    → ((v : ℕ) (b : MatchWrite) → v ≢ m.version → later v b ≡ fail (api e))
    → dirty (edit_focus t (sync m (save_draft save confirm false f).0)) ≡ true
    → confirm_disabled false (edit_focus t (sync m (save_draft save confirm false f).0)) ≡ false
    → confirm_saved later confirm false (edit_focus t (sync m (save_draft save confirm false f).0))
      ≡ (
        record (edit_focus t f) { current = m; save_error = some (api e) },
        saved f.base_version (body (edit_focus t f)) ∷ [],
      )
unfolding edit_focus
save_draft-confirm_saved save later confirm f m t e ed p ne on taken refuses d ready =
    let kept = under_edit save confirm m (record f { save_error = none }) ed in
    let next : Editor = record f { save_error = none; current = m; edited = true; focus = t } in
    let step = save_taken save confirm f m on taken in
    rw (step, kept)
      (confirm_refused later confirm next e p (rw (step, kept) at d) (rw (step, kept) at ready)
        (refuses f.base_version (body next) ne))
