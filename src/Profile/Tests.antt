-- ===== src/Profile/Tests.antt =====
-- A profile with two sensory preferences, and settings that turn quiet mode on.
use job_lens.Common.{
  ◌≡◌, refl, ℕ, ◌+◌, true, false, none, some, List, [], ◌∷◌, codes, arith, trim, Text, All,
}
use job_lens.Common.Percent.{percent}
use job_lens.Schema.{Preferences, FontScale}
use job_lens.Api.{Settled, ok}
use job_lens.Platform.{Browser}
use job_lens.Profile.{items, join, split, get_section, Section}
use job_lens.Profile.Sensory.{IsItem, items-join}
use job_lens.Profile.Preferences.{
  PreferencesWrite, written, Settings, set_quiet, submit, submit-silent,
}
use job_lens.Profile.Preferences as SettingsForm
use job_lens.Schema.{User, Role, Profile, ProfileWrite}
use job_lens.Query.Cache.{Cached, eq_key}
use job_lens.Query.Expiry.{Store, session_key}
use job_lens.Query.Model.{table_client}
use job_lens.Auth.{session_gate, admitted}
use job_lens.Profile.Page as Page
use job_lens.Profile as ProfileForm
use job_lens.Profile.Saving.{IsSaved, submit-IsSaved}

abbrev two : List Text
two = codes "强光" ∷ codes "噪声" ∷ []

items-join_example : (items (join two) ≡ two) × All IsItem (items (codes "强光, 噪声，"))
unfolding trim
items-join_example = items-join two (codes "强光, 噪声，") ((refl, refl, refl), ((refl, refl, refl), tt))

typed_items : items (codes "强光, 噪声，") ≡ two
unfolding items split trim
typed_items = refl

abbrev loud : Preferences ℕ
loud = record {
  font_scale = FontScale.standard;
  volume = 40;
  quiet_mode = false;
  speech_enabled = true;
  vibration_enabled = true;
  version = 2;
}

abbrev version_up : ℕ → PreferencesWrite percent → Settled (Preferences ℕ)
version_up v w = ok (record {
  font_scale = w.font_scale;
  volume = w.volume;
  quiet_mode = w.quiet_mode;
  speech_enabled = w.speech_enabled;
  vibration_enabled = w.vibration_enabled;
  version = v + 1;
})

version_up_echo :
    (v : ℕ) (w : PreferencesWrite percent) (r : Preferences ℕ)
    → version_up v w ≡ ok r
    → written percent r ≡ w
version_up_echo v w r h = ground arith

abbrev quiet : Settings percent
quiet = set_quiet percent true (SettingsForm.opened percent loud)

abbrev device : Browser
device = record {
  has_speech = true;
  speech_throws = false;
  has_vibration = true;
  vibration_throws = false;
  vibrates = true;
}

unknown_section : get_section (some "other") ≡ Section.preferences
unfolding get_section
unknown_section = refl

abbrev user : User
user = record { id = "u"; display_name = codes "小林"; roles = Role.learner ∷ [] }

abbrev store : Store table_client
store = record {
  cache = table_client.set_data session_key (Cached.session user) (λ k. none);
  csrf = some (codes "token");
}

abbrev named : Profile
named = record {
  display_name = codes "林";
  sensory_preferences = two;
  communication_preference = codes "文字";
  work_notes = [];
  user_id = "u";
  version = 3;
}

abbrev place : Text
place = codes "/settings"

admits : session_gate none place (table_client.get store.cache session_key) ≡ admitted
unfolding session_gate eq_key
admits = refl

abbrev answers : ℕ → ProfileWrite → Settled Profile
answers v b = ok named

submit-IsSaved_example :
    (session_gate none place (
        table_client.get
          (Page.submit table_client answers (ProfileForm.opened named) store).1.cache
          session_key)
      ≡ admitted)
    × IsSaved table_client named store
        (Page.submit table_client answers (ProfileForm.opened named) store).1
    × ((Page.submit table_client answers (ProfileForm.opened named) store).0.base ≡ named)
submit-IsSaved_example =
    submit-IsSaved table_client none place answers (ProfileForm.opened named) store named admits
      refl
