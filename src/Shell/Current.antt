-- ===== src/Shell/Current.antt =====
-- The entry of the navigation that is marked as the current page, and the heading of
-- WorkspaceShell.tsx.
use job_lens.Common.{
  ℕ, ◌≤◌, ◌≡◌, refl, ap, map, map-append, Bool, true, false, ◌&&◌, ◌||◌, not, Text, text_eq, codes,
  Option, List, [], ◌∷◌, ◌++◌, if◌then◌else◌, starts_with, any, keep, length, all, arith,
}
use job_lens.Schema.{User, Role}
use job_lens.Cases.{Params}
use job_lens.Shell.{
  Destination, holds, destinations, is_cases_tab, in_workbench, in_cases, in_support, in_tasks,
  in_records, in_notifications,
}
use job_lens.Shell.Active.{Pattern, exact, under, hits, apart, apart-any}

home : List Pattern
home = exact (codes "/counselor") ∷ []

cases : List Pattern
cases =
    under (codes "/counselor/cases")
    ∷ under (codes "/counselor/sop")
    ∷ under (codes "/counselor/tasks")
    ∷ under (codes "/counselor/submissions")
    ∷ []

support : List Pattern
support = under (codes "/counselor/support") ∷ []

tasks : List Pattern
tasks = exact (codes "/learner") ∷ under (codes "/learner/tasks") ∷ []

records : List Pattern
records = exact (codes "/learner/records") ∷ []

notifications : List Pattern
notifications = exact (codes "/notifications") ∷ exact (codes "/counselor/notifications") ∷ []

count : List Bool → ℕ
count bs = length (keep (λ b. b) bs)

-- The tests of the entries, by their patterns.
hit : List Pattern → Text → Bool
hit ps t = any (hits t) ps

regroup :
    (a tab b c d e : Bool)
    → (a && tab || b || c || d || e) ≡ ((a || false) && tab || (b || (c || (d || (e || false)))))
regroup a tab b c d e = ground arith

or_false : (a : Bool) → a ≡ (a || false)
or_false a = ground arith

module _ (t : Text) where
  in_workbench-hit : (tab : Bool) → in_workbench tab t ≡ (hit home t && not tab)
  unfolding in_workbench hit home
  in_workbench-hit tab = ap (λ b. b && not tab) (or_false _)

  in_cases-hit : (tab : Bool) → in_cases tab t ≡ (hit home t && tab || hit cases t)
  unfolding in_cases hit home cases
  in_cases-hit tab =
      regroup (text_eq t (codes "/counselor")) tab (starts_with (codes "/counselor/cases") t)
        (starts_with (codes "/counselor/sop") t) (starts_with (codes "/counselor/tasks") t)
        (starts_with (codes "/counselor/submissions") t)

  in_support-hit : in_support t ≡ hit support t
  unfolding in_support hit support
  in_support-hit = or_false _

  in_tasks-hit : in_tasks t ≡ hit tasks t
  unfolding in_tasks hit tasks
  in_tasks-hit = ap (λ b. text_eq t (codes "/learner") || b) (or_false _)

  in_records-hit : in_records t ≡ hit records t
  unfolding in_records hit records
  in_records-hit = or_false _

  in_notifications-hit : in_notifications t ≡ hit notifications t
  unfolding in_notifications hit notifications
  in_notifications-hit = ap (λ b. text_eq t (codes "/notifications") || b) (or_false _)

  -- A path that the patterns of one entry hit is not hit by those of another.
  alone :
      (ps qs : List Pattern)
      → all (λ a. all (apart a) qs) ps ≡ true
      → hit ps t ≡ true
      → hit qs t ≡ false
  unfolding hit
  alone ps qs h = apart-any ps qs t h

  home_alone :
      hit home t ≡ true
      → (hit cases t || hit support t || hit tasks t || hit records t || hit notifications t)
        ≡ false
  unfolding home cases support tasks records notifications text_eq starts_with
  home_alone h =
      rw
        (
          alone home cases refl h,
          alone home support refl h,
          alone home tasks refl h,
          alone home records refl h,
          alone home notifications refl h,
        )
        refl

  cases_alone :
      hit cases t ≡ true
      → (hit support t || hit tasks t || hit records t || hit notifications t) ≡ false
  unfolding cases support tasks records notifications text_eq starts_with
  cases_alone h =
      rw
        (
          alone cases support refl h,
          alone cases tasks refl h,
          alone cases records refl h,
          alone cases notifications refl h,
        )
        refl

  support_alone :
      hit support t ≡ true → (hit tasks t || hit records t || hit notifications t) ≡ false
  unfolding support tasks records notifications text_eq starts_with
  support_alone h =
      rw
        (
          alone support tasks refl h,
          alone support records refl h,
          alone support notifications refl h,
        )
        refl

  tasks_alone : hit tasks t ≡ true → (hit records t || hit notifications t) ≡ false
  unfolding tasks records notifications text_eq starts_with
  tasks_alone h = rw (alone tasks records refl h, alone tasks notifications refl h) refl

  records_alone : hit records t ≡ true → hit notifications t ≡ false
  unfolding records notifications text_eq starts_with
  records_alone h = alone records notifications refl h

-- The entries of one path: at most one is marked, whatever the roles.
one_active :
    (b l tab w c s k r n : Bool)
    → (w ≡ true → (c || s || k || r || n) ≡ false)
    → (c ≡ true → (s || k || r || n) ≡ false)
    → (s ≡ true → (k || r || n) ≡ false)
    → (k ≡ true → (r || n) ≡ false)
    → (r ≡ true → n ≡ false)
    → count (
        (if b then (w && not tab) ∷ (w && tab || c) ∷ s ∷ [] else [])
        ++ (if l then k ∷ r ∷ [] else [])
        ++ n ∷ [])
      ≤ 1
unfolding count
one_active b l tab w c s k r n h1 h2 h3 h4 h5 = ground arith

flag : Destination → Bool
flag d = d.active

count-flag : (ds : List Destination) → length (keep (λ d. d.active) ds) ≡ count (map flag ds)
unfolding count flag
count-flag [] = refl
count-flag (d ∷ ds) = ground (arith, count-flag ds)

map-if :
    (b : Bool) (ds : List Destination)
    → map flag (if b then ds else []) ≡ (if b then map flag ds else [])
map-if true ds = refl
map-if false ds = refl

module _ (u : Option User) (ps : Params) (path : Text) where
  flags : map flag (destinations u ps path) ≡ (
      (if holds Role.counselor u
        then (hit home path && not (is_cases_tab ps))
          ∷ (hit home path && is_cases_tab ps || hit cases path)
          ∷ hit support path
          ∷ []
        else [])
      ++ (if holds Role.learner u then hit tasks path ∷ hit records path ∷ [] else [])
      ++ hit notifications path ∷ [])
  unfolding destinations flag
  flags =
      rw
        (
          map-append,
          map-append,
          map-if (holds Role.counselor u),
          map-if (holds Role.learner u),
          in_workbench-hit path (is_cases_tab ps),
          in_cases-hit path (is_cases_tab ps),
          in_support-hit path,
          in_tasks-hit path,
          in_records-hit path,
          in_notifications-hit path,
        )
        refl

  -- At most one entry of the navigation is marked as the current page, for every user and address.
  pub destinations-one_active : length (keep (λ d. d.active) (destinations u ps path)) ≤ 1
  destinations-one_active =
      rw (count-flag (destinations u ps path), flags)
        (one_active (holds Role.counselor u) (holds Role.learner u) (is_cases_tab ps)
          (hit home path) (hit cases path) (hit support path) (hit tasks path) (hit records path)
          (hit notifications path) (home_alone path) (cases_alone path) (support_alone path)
          (tasks_alone path) (records_alone path))
