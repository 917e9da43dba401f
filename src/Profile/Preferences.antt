-- ===== src/Profile/Preferences.antt =====
-- The form of apps/web/src/features/profile/PreferencesPage.tsx. The cache's entry `preferences`, which
-- the pages' prompts read, stands beside the form's state.
use job_lens.Common.{
  ℕ, ◌≡◌, Bool, true, false, ◌||◌, Text, codes, Option, none, some, [], ◌==◌, arith,
}
use job_lens.Common.Numbers.{Numbers}
use job_lens.Schema.{Preferences, FontScale}
use job_lens.Api.{Settled, ok, fail, Failure, api, error}
use job_lens.Platform.{Browser, speak, vibrate, provided, prompt_speak, prompt_vibrate}

module _ (N : Numbers) where
  -- What is sent: the fields without the version.
  pub record PreferencesWrite : Type 0 where
    pub font_scale : FontScale
    pub volume : N.Num
    pub quiet_mode : Bool
    pub speech_enabled : Bool
    pub vibration_enabled : Bool

  abbrev pub written : Preferences N.Num → PreferencesWrite
  written p = record {
    font_scale = p.font_scale;
    volume = p.volume;
    quiet_mode = p.quiet_mode;
    speech_enabled = p.speech_enabled;
    vibration_enabled = p.vibration_enabled;
  }

  pub record Settings : Type 0 where
    pub value : Preferences N.Num
    pub status : Text
    pub save_error : Option Failure
    pub cached : Option (Preferences N.Num)

  unfoldable pub opened : Preferences N.Num → Settings
  opened p = record { value = p; status = []; save_error = none; cached = some p }

  unfoldable pub set_quiet : Bool → Settings → Settings
  set_quiet b s = record s { value = record s.value { quiet_mode = b } }

  unfoldable pub set_font_scale : FontScale → Settings → Settings
  set_font_scale x s = record s { value = record s.value { font_scale = x } }

  unfoldable pub set_speech : Bool → Settings → Settings
  set_speech b s = record s { value = record s.value { speech_enabled = b } }

  unfoldable pub set_volume : N.Num → Settings → Settings
  set_volume v s = record s { value = record s.value { volume = v } }

  unfoldable pub set_vibration : Bool → Settings → Settings
  set_vibration b s = record s { value = record s.value { vibration_enabled = b } }

  saved : Settled (Preferences N.Num) → Settings → Settings
  saved (ok p) s = record { value = p; status = codes "设置已保存。"; save_error = none; cached = some p }
  saved (fail e) s = record s { save_error = some e }

  -- `submit`, with the server as a function of the version and the body.
  unfoldable pub submit : (ℕ → PreferencesWrite → Settled (Preferences N.Num)) → Settings → Settings
  unfolding saved
  submit save s = saved (save s.value.version (written s.value)) (record s { status = [] })

  -- `reload`; the refetch that succeeds fills the cache too.
  unfoldable pub reload : Settled (Preferences N.Num) → Settings → Settings
  reload (ok p) s = record {
    value = p;
    status = codes "已读取最新设置。";
    save_error = none;
    cached = some p;
  }
  reload (fail _) s = record s { status = codes "重新读取失败，修改仍保留。" }

  -- The error that offers to read again.
  unfoldable pub conflict : Option Failure → Bool
  conflict none = false
  conflict (some (error _)) = false
  conflict (some (api e)) = e.status == 412 || e.status == 428

  silent :
      (b : Browser) (text : Text) (p : Preferences N.Num)
      → p.quiet_mode ≡ true
      → ((prompt_speak N b (some p) text).1 ≡ none) × ((prompt_vibrate N b (some p)).1 ≡ false)
  unfolding prompt_speak prompt_vibrate provided speak vibrate
  silent b text p q = (ground arith, ground arith)

  -- Once the form has saved settings with quiet mode on, no page speaks or vibrates, on any browser. The
  -- server is assumed to answer a save with what was saved.
  pub submit-silent :
      (save : ℕ → PreferencesWrite → Settled (Preferences N.Num)) (s : Settings)
      (p : Preferences N.Num) (b : Browser) (text : Text)
      → ((v : ℕ) (w : PreferencesWrite) (r : Preferences N.Num) → save v w ≡ ok r → written r ≡ w)
      → s.value.quiet_mode ≡ true
      → save s.value.version (written s.value) ≡ ok p
      → ((prompt_speak N b (submit save s).cached text).1 ≡ none)
        × ((prompt_vibrate N b (submit save s).cached).1 ≡ false)
  unfolding submit saved
  submit-silent save s p b text echo q h = rw h (silent b text p (quiet (echo _ _ p h)))
    where
      quiet : written p ≡ written s.value → p.quiet_mode ≡ true
      quiet e = ground arith
