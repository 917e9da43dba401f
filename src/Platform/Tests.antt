-- ===== src/Platform/Tests.antt =====
-- A picked image, and prompts with saved preferences and volumes in percent.
use Prim.Native.Nat.{ℕ}
use job_lens.Common.{◌≡◌, refl, true, false, some, [], ◌∷◌, codes, List}
use job_lens.Common.Percent.{percent}
use job_lens.Common.Numbers.{clamp}
use job_lens.Schema.{Preferences, FontScale}
use job_lens.Platform.{Browser, Utterance, speak, prompt_speak, provided}
use job_lens.Platform.Quiet.{Allows, prompt_speak-Allows}
use job_lens.Platform.Picker.{Event, timeout}

abbrev browser : Browser
browser = record {
  has_speech = true;
  speech_throws = false;
  has_vibration = true;
  vibration_throws = false;
  vibrates = true;
}

abbrev loud : Preferences ℕ
loud = record {
  font_scale = FontScale.standard;
  volume = 140;
  quiet_mode = false;
  speech_enabled = true;
  vibration_enabled = true;
  version = 2;
}

abbrev heard : Utterance percent
heard = record { text = codes "下一步"; volume = 100 }

speaks : (prompt_speak percent browser (some loud) (codes "下一步")).1 ≡ some heard
unfolding prompt_speak provided speak clamp
speaks = refl

prompt_speak-Allows_example : Allows percent (some loud) (codes "下一步") heard
prompt_speak-Allows_example =
    prompt_speak-Allows percent browser (some loud) (codes "下一步") heard speaks

abbrev events : List (Event ℕ)
events = timeout ∷ []
