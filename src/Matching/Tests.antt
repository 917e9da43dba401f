-- ===== src/Matching/Tests.antt =====
-- A match that is edited while another counselor saves it.
use job_lens.Common.{
  ◌≡◌, refl, false, ℕ, [], ◌∷◌, codes, arith, ◌+◌, Text, trim, inl, ◌≢◌, none, some, ◌==◌,
  if◌then◌else◌,
}
use job_lens.Schema.{MatchWrite, MatchState, SupportMatch, whole}
use job_lens.Api.{Settled, ok, fail, ApiError, api}
use job_lens.Matching.{
  Editor, start, sync, fill_in, edit_focus, save_draft, confirm_saved, saved, body, content, dirty,
  base_or_current, confirm_disabled, save_disabled,
}
use job_lens.Matching.Shown.{IsShown, confirm_saved-IsShown}
use job_lens.Matching.Versions.{save_draft-confirm_saved}

abbrev at_version : ℕ → MatchWrite → SupportMatch
at_version n b = record {
  direction = b.direction;
  focus = b.focus;
  cycle_weeks = b.cycle_weeks;
  basis = b.basis;
  id = "m";
  case_id = "c";
  state = MatchState.draft;
  version = n;
}

abbrev plan : Text → MatchWrite
plan focus = record {
  direction = codes "超市";
  focus = focus;
  cycle_weeks = whole 4;
  basis = codes "面谈";
}

-- A server that takes every save.
abbrev take : ℕ → MatchWrite → Settled SupportMatch
take v b = ok (at_version (v + 1) b)

abbrev accept : ℕ → Settled (Unit {0})
accept v = ok tt

take_echo : (v : ℕ) (b : MatchWrite) (m : SupportMatch) → take v b ≡ ok m → content m ≡ b
take_echo v b m h = ground arith

abbrev edited : Editor
edited = edit_focus (codes "收银") (start (at_version 2 (plan (codes "理货"))))

confirm_saved-IsShown_example :
    (confirm_disabled false edited ≡ false) × IsShown take accept take_echo edited 3
unfolding edit_focus start sync fill_in confirm_saved confirm_disabled dirty base_or_current trim
confirm_saved-IsShown_example =
    confirm_saved-IsShown take accept take_echo false edited 3 (inl refl)

abbrev refusal : ApiError
refusal = record { status = 412; code = codes "STALE"; message = codes "已更新"; trace_id = none }

-- A server that holds the match at this version.
abbrev held_at : ℕ → ℕ → MatchWrite → Settled SupportMatch
held_at n v b = if v == n then ok (at_version (n + 1) b) else fail (api refusal)

held_refuses : (n v : ℕ) (b : MatchWrite) → v ≢ n → held_at n v b ≡ fail (api refusal)
held_refuses n v b ne = ground arith

abbrev of_another : SupportMatch
of_another = at_version 5 (plan (codes "搬运"))

save_draft-confirm_saved_example :
    confirm_saved (held_at 3) accept false (
      edit_focus
        (codes "陈列")
        (sync (at_version 3 (body edited)) (save_draft take accept false edited).0))
    ≡ (
      record (edit_focus (codes "陈列") edited) {
        current = at_version 3 (body edited);
        save_error = some (api refusal);
      },
      saved 2 (body (edit_focus (codes "陈列") edited)) ∷ [],
    )
unfolding edit_focus start sync fill_in dirty save_draft save_disabled confirm_disabled trim
save_draft-confirm_saved_example =
    save_draft-confirm_saved take (held_at 3) accept edited (at_version 3 (body edited))
      (codes "陈列") refusal refl (omega arith) (λ h. omega (arith, h)) refl refl (held_refuses 3)
      refl refl
