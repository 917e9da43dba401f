-- ===== src/Platform.antt =====
-- apps/web/src/shared/platform and apps/web/src/shared/preferences: the prompts of a device (speech,
-- vibration) and the picking of an image. The browser is an argument: what it has, and what its calls
-- return.
pub mod Quiet
pub mod Picker
pub mod Tests
use job_lens.Common.{
  ℕ, Bool, true, false, ◌&&◌, ◌||◌, not, Text, Option, none, some, if◌then◌else◌, or_else,
}
use job_lens.Common.Numbers.{Numbers, clamp}
use job_lens.Schema.{Preferences, FontScale}

pub data PlatformFailure : Type 0 where
  unsupported permission_denied cancelled failed : PlatformFailure

pub data PlatformResult {ℓ} (T : Type ℓ) : Type ℓ where
  done : T → PlatformResult T
  refused : PlatformFailure → PlatformResult T

-- What the browser offers, and what its two calls do.
pub record Browser : Type 0 where
  pub has_speech : Bool
  pub speech_throws : Bool
  pub has_vibration : Bool
  pub vibration_throws : Bool
  pub vibrates : Bool

module _ (N : Numbers) where
  -- What was handed to the speech synthesis, where anything was.
  pub record Utterance : Type 0 where
    pub text : Text
    pub volume : N.Num

  abbrev pub Spoken : Type 0
  Spoken = PlatformResult (Unit {0}) × Option Utterance

  unfoldable pub speak : Browser → Text → Preferences N.Num → Spoken
  unfolding clamp
  speak b text p =
      if p.quiet_mode || not p.speech_enabled || N.leb p.volume N.zero
      then (done tt, none)
      else if not b.has_speech
      then (refused PlatformFailure.unsupported, none)
      else if b.speech_throws
      then (refused PlatformFailure.failed, none)
      else (done tt, some (record { text = text; volume = clamp N p.volume }))

  -- The result, and whether the device was asked to vibrate.
  unfoldable pub vibrate : Browser → Preferences N.Num → PlatformResult (Unit {0}) × Bool
  vibrate b p =
      if p.quiet_mode || not p.vibration_enabled
      then (done tt, false)
      else if not b.has_vibration
      then (refused PlatformFailure.unsupported, false)
      else if b.vibration_throws
      then (refused PlatformFailure.failed, true)
      else if b.vibrates
      then (done tt, true)
      else (refused PlatformFailure.failed, true)

  -- `QUIET_DEFAULTS`.
  unfoldable pub quiet_defaults : Preferences N.Num
  quiet_defaults = record {
    font_scale = FontScale.standard;
    volume = N.half;
    quiet_mode = true;
    speech_enabled = false;
    vibration_enabled = false;
    version = 1;
  }

  -- `saved.data ?? QUIET_DEFAULTS`, which the provider hands to every page.
  unfoldable pub provided : Option (Preferences N.Num) → Preferences N.Num
  unfolding quiet_defaults
  provided saved = or_else saved quiet_defaults

  -- The two calls of `usePrompt`, bound to the preferences of the provider.
  unfoldable pub prompt_speak : Browser → Option (Preferences N.Num) → Text → Spoken
  unfolding speak provided
  prompt_speak b saved text = speak b text (provided saved)

  unfoldable pub prompt_vibrate :
      Browser → Option (Preferences N.Num) → PlatformResult (Unit {0}) × Bool
  unfolding vibrate provided
  prompt_vibrate b saved = vibrate b (provided saved)
