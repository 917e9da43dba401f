-- ===== src/Matching/Shown.antt =====
-- What MatchEditor.tsx confirms.
use job_lens.Common.{
  ℕ, ◌≡◌, ◌≢◌, refl, sym, ◌⊎◌, inl, inr, Bool, true, false, text_eq_iff, Bool-cases, List, [], ◌∷◌,
  arith,
}
use job_lens.Schema.{MatchWrite, SupportMatch, same_number_iff}
use job_lens.Api.{Settled, ok, fail}
use job_lens.Matching.{
  Editor, Command, saved, confirmed, body, content, dirty, base_or_current, confirm_saved,
  confirm_from, confirm_after, confirm_latest, confirm_disabled,
}

-- The command was sent.
abbrev pub Sent : Command → List Command → Type 0
Sent c [] = ⊥
Sent c (x ∷ xs) = (c ≡ x) ⊎ Sent c xs

dirty-false : (f : Editor) → dirty f ≡ false → body f ≡ content f.current
unfolding dirty
dirty-false f h = ground (
  arith,
  same_number_iff f.cycle_weeks f.current.cycle_weeks,
  text_eq_iff f.direction f.current.direction,
  text_eq_iff f.focus f.current.focus,
  text_eq_iff f.basis f.current.basis,
)

pub dirty_differs : (f : Editor) → dirty f ≡ true → body f ≢ content f.current
unfolding dirty
dirty_differs f d h = ground (
  arith,
  d,
  h,
  text_eq_iff f.direction f.current.direction,
  text_eq_iff f.focus f.current.focus,
  text_eq_iff f.basis f.current.basis,
  same_number_iff f.cycle_weeks f.current.cycle_weeks,
)

module _ (save : ℕ → MatchWrite → Settled SupportMatch) (confirm : ℕ → Settled (Unit {0}))
    (echo : (v : ℕ) (b : MatchWrite) (m : SupportMatch) → save v b ≡ ok m → content m ≡ b) where
  -- The confirmed version is that of a match which the server holds, and which reads as the form.
  pub record IsShown (f : Editor) (n : ℕ) : Type 0 where
    pub latest : SupportMatch
    pub version : latest.version ≡ n
    pub shown : content latest ≡ body f
    pub held : (latest ≡ f.current) ⊎ (save (base_or_current f) (body f) ≡ ok latest)

  confirm_after-IsShown :
      (f : Editor) (n : ℕ) (result : Settled SupportMatch)
      → save (base_or_current f) (body f) ≡ result
      → Sent
          (confirmed n)
          (confirm_after save confirm result (saved (base_or_current f) (body f) ∷ []) f).1
      → IsShown f n
  unfolding confirm_after confirm_latest
  confirm_after-IsShown f n (ok m) h (inl e) = record {
    latest = m;
    version = cc;
    shown = echo (base_or_current f) (body f) m h;
    held = inr h;
  }
  confirm_after-IsShown f n (ok m) h (inr (inl e)) = absurd (cc)
  confirm_after-IsShown f n (ok m) h (inr (inr e)) = absurd e
  confirm_after-IsShown f n (fail x) h (inl e) = absurd (cc)
  confirm_after-IsShown f n (fail x) h (inr e) = absurd e

  confirm_from-IsShown :
      (f : Editor) (n : ℕ) (b : Bool)
      → dirty f ≡ b
      → Sent (confirmed n) (confirm_from save confirm b f).1
      → IsShown f n
  unfolding confirm_from confirm_latest
  confirm_from-IsShown f n true h s = confirm_after-IsShown f n _ refl s
  confirm_from-IsShown f n false h (inl e) = record {
    latest = f.current;
    version = cc;
    shown = sym (dirty-false f h);
    held = inl refl;
  }
  confirm_from-IsShown f n false h (inr e) = absurd e

  -- Whatever version the editor confirms, with a call under way or not, the button is enabled, and the
  -- server holds that version with the direction, focus, cycle and basis that the editor shows: it is
  -- the match that was read last, or the one that answered the save just before. The server is assumed
  -- to answer a save with what was saved.
  pub confirm_saved-IsShown :
      (busy : Bool) (f : Editor) (n : ℕ)
      → Sent (confirmed n) (confirm_saved save confirm busy f).1
      → (confirm_disabled busy f ≡ false) × IsShown f n
  unfolding confirm_saved
  confirm_saved-IsShown busy f n s = elim (Bool-cases (confirm_disabled busy f)) [
    | inl off ↦ absurd (rw off at s)
    | inr on ↦ (on, confirm_from-IsShown f n (dirty f) refl (rw on at s))
  ]
