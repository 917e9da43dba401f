-- ===== src/Shell/Tests.antt =====
-- The navigation on concrete inputs.
use job_lens.Common.{
  ℕ, ◌+◌, ◌-◌, ◌≡◌, ◌≤◌, refl, ap, true, false, codes, none, some, [], ◌∷◌, All, keep, length,
  arith,
}
use job_lens.Schema.{User, Role}
use job_lens.Auth.{has_role}
use job_lens.Query.Cache.{QueryState, QueryStatus, FetchStatus, Cached}
use job_lens.Shell.{destinations, links, current, in_workbench, in_cases}
use job_lens.Shell.Links.{Admits, links-Admits}
use job_lens.Shell.Current.{destinations-one_active}
use job_lens.Shell.Drawer.{
  control, elsewhere, Browser, Shell, opened, is_modal, run, menu_pressed, tabbed,
}
use job_lens.Shell.Drawer.Keyboard.{IsOrdered, Inside, run-Inside, tabs, tabs-reach, At}

abbrev counselor : User
counselor = record { id = "u-1"; display_name = codes "林老师"; roles = Role.counselor ∷ [] }

abbrev session_of : User → QueryState
session_of u = record {
  content = some (Cached.session u);
  failure = none;
  status = QueryStatus.success;
  fetch_status = FetchStatus.idle;
  stale = false;
}

links-Admits_example :
    All
      (Admits (session_of counselor) (codes "/counselor"))
      (links (some counselor) [] (codes "/counselor"))
unfolding has_role
links-Admits_example =
    links-Admits counselor (session_of counselor) (codes "/counselor") [] (codes "/counselor") refl
      (record { success = refl; held = refl })

destinations-one_active_example :
    length (
      keep
        (λ d. d.active)
        (destinations (some counselor) (("tab", codes "cases") ∷ []) (codes "/counselor")))
    ≤ 1
destinations-one_active_example =
    destinations-one_active (some counselor) (("tab", codes "cases") ∷ []) (codes "/counselor")

heading : current (some counselor) [] (codes "/counselor/sop/7") ≡ codes "个案管理"
unfolding current destinations has_role in_workbench in_cases
heading = refl

-- A browser with four controls.
abbrev browser : Browser
browser false (control i) = control (i + 1)
browser true (control i) = control (i - 1)
browser back f = elsewhere

order : IsOrdered browser 4
order = record { next = λ i h. refl; previous = λ i h. ap control (omega arith) }

abbrev width : ℕ
width = 600

is_open :
    is_modal
      (run browser 4 (menu_pressed ∷ tabbed true ∷ tabbed true ∷ []) (opened width elsewhere))
    ≡ true
unfolding run opened
is_open = refl

run-Inside_example :
    Inside 4
      (run browser 4 (menu_pressed ∷ tabbed true ∷ tabbed true ∷ []) (opened width elsewhere)).focus
run-Inside_example =
    run-Inside browser 4 order (omega arith) (menu_pressed ∷ tabbed true ∷ tabbed true ∷ []) width
      elsewhere is_open

abbrev shown : Shell
shown = record { collapsed = false; narrow = true; drawer_open = true; focus = control 3 }

tabs-reach_example : (k : ℕ) × (k ≤ 4) × At 1 (run browser 4 (tabs k) shown)
tabs-reach_example =
    tabs-reach browser 4 order (omega arith) 3 1 shown (omega arith) (omega arith) (refl, refl)
