-- ===== src/Matching.antt =====
-- apps/web/src/features/counselor/MatchEditor.tsx: the editor of a case's match. The state is what
-- React's hooks, the two mutations and the query's data hold between renders; the server is an
-- argument of each handler, which gives the new state and the commands that it sent, the last first.
pub mod Shown
pub mod Versions
pub mod Tests
use job_lens.Common.{
  ℕ, Bool, true, false, ◌&&◌, ◌||◌, not, Text, text_eq, codes, Option, none, some, List, [], ◌∷◌,
  if◌then◌else◌, filled, or_try, ◌==◌,
}
use job_lens.Schema.{MatchWrite, MatchState, SupportMatch, FieldNumber, whole, same_number}
use job_lens.Api.{Settled, ok, fail, Failure, ApiError, api, error}

pub record Editor : Type 0 where
  pub current : SupportMatch
  pub edited : Bool
  pub base_version : ℕ
  pub direction : Text
  pub focus : Text
  pub basis : Text
  pub cycle_weeks : FieldNumber
  pub save_error : Option Failure
  pub confirm_error : Option Failure

pub data Command : Type 0 where
  saved : (version : ℕ) → MatchWrite → Command
  confirmed : (version : ℕ) → Command

unfoldable pub fill_in : SupportMatch → Editor → Editor
fill_in m f = record f {
  base_version = m.version;
  direction = m.direction;
  focus = m.focus;
  basis = m.basis;
  cycle_weeks = m.cycle_weeks;
}

-- The query hands down a match; the effect fills the fields in unless they were edited.
unfoldable pub sync : SupportMatch → Editor → Editor
unfolding fill_in
sync m f = if f.edited then record f { current = m } else fill_in m (record f { current = m })

-- The first match after the hooks' initial values.
unfoldable pub start : SupportMatch → Editor
unfolding sync fill_in
start m = sync m (record {
  current = m;
  edited = false;
  base_version = 0;
  direction = [];
  focus = [];
  basis = [];
  cycle_weeks = whole 4;
  save_error = none;
  confirm_error = none;
})

unfoldable pub edit_direction : Text → Editor → Editor
edit_direction t f = record f { edited = true; direction = t }

unfoldable pub edit_focus : Text → Editor → Editor
edit_focus t f = record f { edited = true; focus = t }

unfoldable pub edit_basis : Text → Editor → Editor
edit_basis t f = record f { edited = true; basis = t }

-- `Number(e.target.value)`.
unfoldable pub edit_cycle : FieldNumber → Editor → Editor
edit_cycle n f = record f { edited = true; cycle_weeks = n }

abbrev is_confirmed : MatchState → Bool
is_confirmed MatchState.draft = false
is_confirmed MatchState.confirmed = true

unfoldable pub required_missing : Editor → Bool
required_missing f = not (filled f.direction) || not (filled f.focus) || not (filled f.basis)

-- The buttons, for whether one of the two calls is under way.
unfoldable pub save_disabled : Bool → Editor → Bool
save_disabled busy f = is_confirmed f.current.state || busy

unfoldable pub confirm_disabled : Bool → Editor → Bool
unfolding required_missing
confirm_disabled busy f = is_confirmed f.current.state || required_missing f || busy

abbrev pub body : Editor → MatchWrite
body f = record {
  direction = f.direction;
  focus = f.focus;
  cycle_weeks = f.cycle_weeks;
  basis = f.basis;
}

abbrev pub content : SupportMatch → MatchWrite
content m = record {
  direction = m.direction;
  focus = m.focus;
  cycle_weeks = m.cycle_weeks;
  basis = m.basis;
}

unfoldable pub dirty : Editor → Bool
unfolding text_eq
dirty f =
    not (text_eq f.direction f.current.direction)
    || not (text_eq f.focus f.current.focus)
    || not (text_eq f.basis f.current.basis)
    || not (same_number f.cycle_weeks f.current.cycle_weeks)

-- `baseVersion || current.version`.
unfoldable pub base_or_current : Editor → ℕ
base_or_current f = if f.base_version == 0 then f.current.version else f.base_version

settle_save : Settled SupportMatch → Editor → Editor
settle_save (ok _) f = record f { save_error = none }
settle_save (fail e) f = record f { save_error = some e }

settle_confirm : Settled (Unit {0}) → Editor → Editor
settle_confirm (ok _) f = record f { confirm_error = none }
settle_confirm (fail e) f = record f { confirm_error = some e }

module _ (save : ℕ → MatchWrite → Settled SupportMatch) (confirm : ℕ → Settled (Unit {0})) where
  -- The button "保存草稿".
  unfoldable pub save_draft : Bool → Editor → Editor × List Command
  unfolding settle_save save_disabled
  save_draft busy f =
      if save_disabled busy f
      then (f, [])
      else (settle_save (save f.current.version (body f)) f, saved f.current.version (body f) ∷ [])

  -- What follows once the latest match is known.
  confirm_latest : SupportMatch → List Command → Editor → Editor × List Command
  unfolding settle_confirm
  confirm_latest latest sent f = (
    settle_confirm (confirm latest.version)
        (record f { edited = false; base_version = latest.version }),
    confirmed latest.version ∷ sent,
  )

  confirm_after : Settled SupportMatch → List Command → Editor → Editor × List Command
  unfolding confirm_latest settle_save
  confirm_after (ok latest) sent f = confirm_latest latest sent (settle_save (ok latest) f)
  confirm_after (fail e) sent f = (settle_save (fail e) f, sent)

  confirm_from : Bool → Editor → Editor × List Command
  unfolding confirm_after base_or_current
  confirm_from true f =
      confirm_after (save (base_or_current f) (body f)) (saved (base_or_current f) (body f) ∷ []) f
  confirm_from false f = confirm_latest f.current [] f

  -- The button "确认匹配".
  unfoldable pub confirm_saved : Bool → Editor → Editor × List Command
  unfolding confirm_from dirty confirm_disabled
  confirm_saved busy f = if confirm_disabled busy f then (f, []) else confirm_from (dirty f) f

-- The button "读取最新匹配"; a refetch that fails changes nothing.
unfoldable pub reload : Settled SupportMatch → Editor → Editor
unfolding fill_in
reload (fail _) f = f
reload (ok m) f =
    fill_in m (record f { current = m; edited = false; save_error = none; confirm_error = none })

-- `save.error ?? confirm.error`, and its text.
abbrev pub shown_error : Editor → Option Failure
shown_error f = or_try f.save_error f.confirm_error

unfoldable pub error_text : Failure → Text
error_text (api e) = if e.status == 412 then codes "内容已被他人修改，请刷新后重试" else codes "保存失败，请重试"
error_text (error _) = codes "保存失败，请重试"
