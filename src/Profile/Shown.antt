-- ===== src/Profile/Shown.antt =====
-- What ProfileForm.tsx, PreferencesPage.tsx and SettingsPage.tsx of
-- apps/web/src/features/profile show. `V` is the type of a volume and `percent` its rounded
-- percentage.
use job_lens.Common.{
  ℕ, ◌≡◌, refl, Bool, true, false, ◌||◌, String, Text, codes, Option, none, some, List, [], ◌∷◌,
  ◌++◌, map, if◌then◌else◌, is_empty, keep,
}
use job_lens.Schema.{Profile, Preferences, FontScale}
use job_lens.Api.{Failure, api, error}
use job_lens.Api.Decimal.{decimal}
use job_lens.Queries.Screen.{Result, is_pending, Screen, loading, failed, content, has_status}
use job_lens.Profile.{Form, opened, Section, profile, preferences, security, get_section}

-- `conflict` of both forms: an error with the status 412 or 428.
unfoldable pub conflict : Option Failure → Bool
unfolding has_status
conflict f = has_status 412 f || has_status 428 f

-- The alert of a form: its text, and whether the latest version can be read again.
pub record Alert : Type 0 where
  pub text : Text
  pub offers_reload : Bool

message_or : Text → Failure → Text
message_or t (api e) = e.message
message_or t (error _) = t

alert : (changed unsaved : Text) → Option Failure → Option Alert
unfolding conflict message_or
alert changed unsaved none = none
alert changed unsaved (some f) = some (record {
  text = if conflict (some f) then changed else message_or unsaved f;
  offers_reload = conflict (some f);
})

-- A text that is shown where it is not empty.
abbrev where_given : Text → Option Text
where_given t = if is_empty t then none else some t

pub record Controls : Type 0 where
  pub locked : Bool
  pub alert : Option Alert
  pub status : Option Text
  pub button : Text

-- The form of the profile around its fields, while `saving` or `reading` again.
unfoldable pub profile_controls : (saving reading : Bool) → Form → Controls
unfolding alert
profile_controls saving reading f = record {
  locked = saving || reading;
  alert = alert (codes "资料有新版本。你的修改仍在这里，可以重新读取后再编辑。") (codes "资料未保存，请重试。") f.save_error;
  status = where_given f.status;
  button = if saving then codes "正在保存…" else codes "保存资料";
}

-- The form of the preferences around its fields.
unfoldable pub preferences_controls :
    (saving reading : Bool) (status : Text) → Option Failure → Controls
unfolding alert
preferences_controls saving reading status err = record {
  locked = saving || reading;
  alert = alert (codes "设置有新版本。你的修改仍保留，请读取最新版本后再保存。") (codes "设置未保存，请重试。") err;
  status = where_given status;
  button = if saving then codes "正在保存…" else codes "保存设置";
}

module _ {A B : Type 0} where
  -- A page that opens its form on the data of its query.
  abbrev page : Text → (A → B) → Result A → Screen B
  page unavailable show r =
      if is_pending r
      then loading
      else elim r.content [ none ↦ failed unavailable true | some x ↦ content (show x) ]

unfoldable pub profile_page : Result Profile → Screen Form
unfolding opened
profile_page r = page (codes "个人资料暂不可用") opened r

-- `Number(event.target.value)` of the choices of the font scale, with their labels.
unfoldable pub scale_label : FontScale → Text
scale_label FontScale.standard = codes "标准"
scale_label FontScale.larger = codes "较大"
scale_label FontScale.largest = codes "更大"

module _ {V : Type 0} (percent : V → ℕ) where
  unfoldable pub volume_label : Preferences V → Text
  unfolding decimal
  volume_label p = codes "音量 · " ++ decimal (percent p.volume) ++ codes "%"

unfoldable pub preferences_page : {V : Type 0} → Result (Preferences V) → Screen (Preferences V)
preferences_page r = page (codes "设置暂不可用") (λ p. p) r

unfoldable pub sections : List Section
sections = profile ∷ preferences ∷ security ∷ []

unfoldable pub section_key : Section → String
section_key profile = "profile"
section_key preferences = "preferences"
section_key security = "security"

unfoldable pub section_label : Section → Text × Text
section_label profile = (codes "个人资料", codes "称呼与支持需求")
section_label preferences = (codes "阅读与提醒", codes "文字、声音与提示")
section_label security = (codes "账户与安全", codes "登录与密码")

abbrev same_section : Section → Section → Bool
same_section profile profile = true
same_section preferences preferences = true
same_section security security = true
same_section _ _ = false

-- `change`: the value of `tab` in the address, which holds nothing else then.
unfoldable pub change : Section → Option String
unfolding section_key
change s = some (section_key s)

pub record Entry : Type 0 where
  pub section : Section
  pub label : Text
  pub description : Text
  pub is_current : Bool

-- The buttons of `nav`.
unfoldable pub entries_on : Section → List Entry
unfolding sections section_label
entries_on chosen =
    map
      (λ s. record {
        section = s;
        label = (section_label s).0;
        description = (section_label s).1;
        is_current = same_section chosen s;
      })
      sections

pub record Settings : Type 0 where
  pub entries : List Entry
  pub profile_shown : Bool
  pub preferences_shown : Bool
  pub security_shown : Bool

unfoldable pub settings_page : Option String → Settings
unfolding entries_on get_section
settings_page tab = record {
  entries = entries_on (get_section tab);
  profile_shown = same_section (get_section tab) profile;
  preferences_shown = same_section (get_section tab) preferences;
  security_shown = same_section (get_section tab) security;
}

abbrev pub shows : Section → Settings → Bool
shows profile v = v.profile_shown
shows preferences v = v.preferences_shown
shows security v = v.security_shown

-- The section of a button is the one that the address then selects.
pub get_section-change : (s : Section) → get_section (change s) ≡ s
unfolding get_section change section_key
get_section-change profile = refl
get_section-change preferences = refl
get_section-change security = refl

one_current :
    (s : Section)
    → map (λ (e : Entry). e.section) (keep (λ (e : Entry). e.is_current) (entries_on s)) ≡ s ∷ []
unfolding entries_on sections
one_current profile = refl
one_current preferences = refl
one_current security = refl

-- After a press on the button of a section that button alone is the current one, and of the three
-- panels the section's alone is shown.
pub settings_page-change :
    (s r : Section)
    → (map
          (λ (e : Entry). e.section)
          (keep (λ (e : Entry). e.is_current) (settings_page (change s)).entries)
        ≡ s ∷ [])
      × (shows r (settings_page (change s)) ≡ same_section s r)
unfolding settings_page entries_on
settings_page-change s r = (rw (get_section-change s) (one_current s), shown r)
  where
    shown : (r : Section) → shows r (settings_page (change s)) ≡ same_section s r
    shown profile = rw (get_section-change s) refl
    shown preferences = rw (get_section-change s) refl
    shown security = rw (get_section-change s) refl
