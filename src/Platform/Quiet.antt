-- ===== src/Platform/Quiet.antt =====
-- When a page may make a sound or a vibration.
use job_lens.Common.{◌≡◌, refl, true, false, Text, Option, none, some, arith}
use job_lens.Common.Numbers.{Numbers, InUnit, clamp-InUnit}
use job_lens.Schema.{Preferences}
use job_lens.Platform.{
  Browser, Utterance, speak, vibrate, quiet_defaults, provided, prompt_speak, prompt_vibrate,
}

module _ (N : Numbers) where
  -- The preferences that the user saved allow speech.
  pub record Allows (saved : Option (Preferences N.Num)) (text : Text) (u : Utterance N)
      : Type 0 where
    pub preferences : Preferences N.Num
    pub read : saved ≡ some preferences
    pub not_quiet : preferences.quiet_mode ≡ false
    pub enabled : preferences.speech_enabled ≡ true
    pub audible : N.leb preferences.volume N.zero ≡ false
    pub in_unit : InUnit N u.volume
    pub says : u.text ≡ text

  silent :
      (b : Browser) (text : Text) (u : Utterance N)
      → (speak N b text (quiet_defaults N)).1 ≡ some u
      → ⊥
  unfolding speak quiet_defaults
  silent b text u h = cc

  spoken :
      (b : Browser) (text : Text) (p : Preferences N.Num) (u : Utterance N)
      → (speak N b text p).1 ≡ some u
      → Allows (some p) text u
  unfolding speak
  spoken b text p u h = record {
    preferences = p;
    read = refl;
    not_quiet = ground arith;
    enabled = ground arith;
    audible = ground arith;
    in_unit = ground (arith, clamp-InUnit N p.volume);
    says = ground arith;
  }

  -- On every browser, a page speaks only after the user's preferences were read, and only where they
  -- leave quiet mode, enable speech and have a volume above 0; it speaks the text it was given, with a
  -- volume from 0 to 1.
  pub prompt_speak-Allows :
      (b : Browser) (saved : Option (Preferences N.Num)) (text : Text) (u : Utterance N)
      → (prompt_speak N b saved text).1 ≡ some u
      → Allows saved text u
  unfolding prompt_speak provided
  prompt_speak-Allows b none text u h = absurd (silent b text u h)
  prompt_speak-Allows b (some p) text u h = spoken b text p u h

  -- On every browser, a page asks for a vibration only after the user's preferences were read, and
  -- only where they leave quiet mode and enable vibration.
  pub prompt_vibrate-allowed :
      (b : Browser) (saved : Option (Preferences N.Num))
      → (prompt_vibrate N b saved).1 ≡ true
      → (p : Preferences N.Num) × (saved ≡ some p)
        × (p.quiet_mode ≡ false)
        × (p.vibration_enabled ≡ true)
  unfolding prompt_vibrate provided vibrate quiet_defaults
  prompt_vibrate-allowed b none h = absurd (cc)
  prompt_vibrate-allowed b (some p) h = (p, refl, ground arith, ground arith)
