-- ===== src/Shell.antt =====
-- apps/web/src/app/WorkspaceShell.tsx: the navigation of the private pages and its heading, by the
-- user of the session and the page's address.
pub mod Routes
pub mod Links
pub mod Active
pub mod Current
pub mod Drawer
mod Tests
use job_lens.Common.{
  ℕ, Bool, true, false, ◌&&◌, ◌||◌, not, Text, text_eq, codes, Option, none, some, List, [], ◌∷◌,
  ◌++◌, if◌then◌else◌, is_empty, find, any, starts_with, map,
}
use job_lens.Schema.{User, Role}
use job_lens.Auth.{has_role}
use job_lens.Cases.{Params, get}

-- The icons of shared/ui/Icon.tsx that the shell uses.
pub data IconName : Type 0 where
  home users chat tasks records bell settings close sidebar menu : IconName

pub record Destination : Type 0 where
  pub href : Text
  pub label : Text
  pub icon : IconName
  pub active : Bool

-- `session.data?.roles.includes(role)`.
unfoldable pub holds : Role → Option User → Bool
holds role none = false
holds role (some u) = has_role role u

unfoldable pub is_cases_tab : Params → Bool
unfolding get text_eq
is_cases_tab ps = elim (get "tab" ps) [ none ↦ false | some t ↦ text_eq t (codes "cases") ]

-- The tests of `active`, on the path and on whether the tab is that of the cases.
unfoldable pub in_workbench : Bool → Text → Bool
unfolding text_eq
in_workbench tab path = text_eq path (codes "/counselor") && not tab

unfoldable pub in_cases : Bool → Text → Bool
unfolding text_eq starts_with
in_cases tab path =
    (text_eq path (codes "/counselor") && tab)
    || starts_with (codes "/counselor/cases") path
    || starts_with (codes "/counselor/sop") path
    || starts_with (codes "/counselor/tasks") path
    || starts_with (codes "/counselor/submissions") path

unfoldable pub in_support : Text → Bool
unfolding starts_with
in_support path = starts_with (codes "/counselor/support") path

unfoldable pub in_tasks : Text → Bool
unfolding text_eq starts_with
in_tasks path = text_eq path (codes "/learner") || starts_with (codes "/learner/tasks") path

unfoldable pub in_records : Text → Bool
unfolding text_eq
in_records path = text_eq path (codes "/learner/records")

unfoldable pub in_notifications : Text → Bool
unfolding text_eq
in_notifications path =
    text_eq path (codes "/notifications") || text_eq path (codes "/counselor/notifications")

abbrev pub for_counselor : Bool → Text → List Destination
for_counselor tab path =
    record {
      href = codes "/counselor";
      label = codes "工作台";
      icon = home;
      active = in_workbench tab path;
    }
    ∷ record {
      href = codes "/counselor?tab=cases";
      label = codes "个案管理";
      icon = users;
      active = in_cases tab path;
    }
    ∷ record {
      href = codes "/counselor/support";
      label = codes "辅导与求助";
      icon = chat;
      active = in_support path;
    }
    ∷ []

abbrev pub for_learner : Text → List Destination
for_learner path =
    record { href = codes "/learner"; label = codes "我的任务"; icon = tasks; active = in_tasks path }
    ∷ record {
      href = codes "/learner/records";
      label = codes "训练记录";
      icon = records;
      active = in_records path;
    }
    ∷ []

abbrev pub for_all : Text → List Destination
for_all path =
    record {
      href = codes "/notifications";
      label = codes "通知中心";
      icon = bell;
      active = in_notifications path;
    }
    ∷ []

-- `destinations`.
unfoldable pub destinations : Option User → Params → Text → List Destination
unfolding holds is_cases_tab
destinations u ps path =
    (if holds Role.counselor u then for_counselor (is_cases_tab ps) path else [])
    ++ (if holds Role.learner u then for_learner path else [])
    ++ for_all path

unfoldable pub settings_active : Text → Bool
unfolding text_eq
settings_active path =
    text_eq (codes "/settings") path
    || text_eq (codes "/profile") path
    || text_eq (codes "/preferences") path

label_of : Text → Option Destination → Text
unfolding starts_with
label_of path (some d) = d.label
label_of path none =
    if starts_with (codes "/learner/support") path then codes "联系辅导员" else codes "工作区"

-- `current`: the last part of the breadcrumb.
unfoldable pub current : Option User → Params → Text → Text
unfolding settings_active label_of
current u ps path =
    if settings_active path
    then codes "设置"
    else label_of path (find (λ d. d.active) (destinations u ps path))

unfoldable pub role_label : Option User → Text
unfolding holds
role_label u =
    if holds Role.counselor u && holds Role.learner u
    then codes "学员与辅导员"
    else if holds Role.counselor u
    then codes "辅导员工作区"
    else codes "学员工作区"

-- `session.data?.display_name || '我的账户'`.
unfoldable pub name : Option User → Text
name none = codes "我的账户"
name (some u) = if is_empty u.display_name then codes "我的账户" else u.display_name

-- Where the mark of the brand leads.
unfoldable pub brand_link : Option User → Text
unfolding holds
brand_link u = if holds Role.counselor u then codes "/counselor" else codes "/learner"

-- All links of the shell: the brand, the navigation, the settings, the profile and the bell.
unfoldable pub links : Option User → Params → Text → List Text
unfolding brand_link destinations
links u ps path =
    brand_link u ∷ map (λ d. d.href) (destinations u ps path)
    ++ codes "/settings" ∷ codes "/settings?tab=profile" ∷ codes "/notifications" ∷ []
