-- ===== src/Profile.antt =====
-- apps/web/src/features/profile: the forms of the profile (ProfileForm.tsx) and of the preferences
-- (PreferencesPage.tsx), and the sections of the settings (SettingsPage.tsx).
pub mod Sensory
pub mod Preferences
pub mod Page
pub mod Shown
pub mod Saving
pub mod Tests
use job_lens.Common.{
  ℕ, Bool, true, false, ◌||◌, not, String, Text, codes, Option, none, some, List, [], ◌∷◌, ◌++◌,
  map, if◌then◌else◌, is_empty, keep, trim, ◌==◌, same,
}
use job_lens.Schema.{Profile, ProfileWrite}
use job_lens.Api.{Settled, ok, fail, Failure, ApiError, api, error}

-- The class `[、,，\n]`.
abbrev pub is_separator : ℕ → Bool
is_separator c = c == 0x3001 || c == 44 || c == 0xff0c || c == 10

put_in_front : ℕ → List Text → List Text
put_in_front c [] = (c ∷ []) ∷ []
put_in_front c (p ∷ ps) = (c ∷ p) ∷ ps

-- `split(/[、,，\n]/)`.
unfoldable pub split : Text → List Text
unfolding put_in_front
split [] = [] ∷ []
split (c ∷ t) = let rest = split t in if is_separator c then [] ∷ rest else put_in_front c rest

-- `join('、')`.
unfoldable pub join : List Text → Text
join [] = []
join (x ∷ []) = x
join (x ∷ y ∷ ys) = x ++ 0x3001 ∷ join (y ∷ ys)

abbrev pub is_given : Text → Bool
is_given t = not (is_empty t)

-- `.split(…).map(value => value.trim()).filter(Boolean)`.
unfoldable pub items : Text → List Text
unfolding split
items t = keep is_given (map trim (split t))

pub record Form : Type 0 where
  pub base : Profile
  pub name : Text
  pub sensory : Text
  pub communication : Text
  pub work : Text
  pub status : Text
  pub save_error : Option Failure

abbrev fields : Profile → Form → Form
fields p f = record f {
  base = p;
  name = p.display_name;
  sensory = join p.sensory_preferences;
  communication = p.communication_preference;
  work = p.work_notes;
}

unfoldable pub opened : Profile → Form
unfolding join
opened p = record {
  base = p;
  name = p.display_name;
  sensory = join p.sensory_preferences;
  communication = p.communication_preference;
  work = p.work_notes;
  status = [];
  save_error = none;
}

-- What `submit` sends.
unfoldable pub body : Form → ProfileWrite
unfolding items
body f = record {
  display_name = trim f.name;
  sensory_preferences = items f.sensory;
  communication_preference = f.communication;
  work_notes = f.work;
}

unfoldable pub saved : Settled Profile → Form → Form
saved (ok p) f = record f { base = p; status = codes "资料已保存。"; save_error = none }
saved (fail e) f = record f { save_error = some e }

-- `submit`: the version and the body that it sends, and the form once the call has settled.
unfoldable pub submit : (ℕ → ProfileWrite → Settled Profile) → Form → Form × ℕ × ProfileWrite
unfolding body saved
submit save f =
    (saved (save f.base.version (body f)) (record f { status = [] }), f.base.version, body f)

-- The button that reads the latest profile, with the answer; `catch` keeps the fields.
unfoldable pub reload : Settled Profile → Form → Form
unfolding join
reload (ok p) f = fields p (record f { status = []; save_error = none })
reload (fail _) f = record f { status = codes "重新读取失败，修改仍保留。" }

-- `getSection`.
pub data Section : Type 0 where
  profile preferences security : Section

unfoldable pub get_section : Option String → Section
get_section none = preferences
get_section (some key) =
    if same key "profile" then profile else if same key "security" then security else preferences
