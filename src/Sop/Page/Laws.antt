-- ===== src/Sop/Page/Laws.antt =====
-- Which plan and revision the SOP page works on.
use job_lens.Common.{
  ◌≡◌, refl, ◌⊎◌, inl, inr, Bool, true, false, String, Option, none, some, List, [], ◌∷◌, or_else,
  or_try, find, arith, Option-cases, Bool-cases,
}
use job_lens.Schema.{SopPlan}
use job_lens.Sop.Page.{editor, is_selected, current, revision_id, show_plan, workspace}

-- The plan stands in the list.
abbrev pub Has : SopPlan → List SopPlan → Type 0
Has p [] = ⊥
Has p (x ∷ xs) = (p ≡ x) ⊎ Has p xs

find-Has :
    (test : SopPlan → Bool) (xs : List SopPlan) (p : SopPlan)
    → find test xs ≡ some p
    → Has p xs × (test p ≡ true)
find-Has test [] p h = absurd (cc)
find-Has test (x ∷ xs) p h = elim (Bool-cases (test x)) [
  | inl hit ↦ (inl (first hit h), ground arith)
  | inr miss ↦ let (has, t) = find-Has test xs p (later miss h) in (inr has, t)
]
  where
    first : test x ≡ true → find test (x ∷ xs) ≡ some p → p ≡ x
    first a b = ground arith

    later : test x ≡ false → find test (x ∷ xs) ≡ some p → find test xs ≡ some p
    later a b = ground arith

-- What is shown belongs to a plan of the list: its draft where it has one, else what it published.
pub record Shows (selected : Option String) (plans : List SopPlan) (plan revision : String)
    : Type 0 where
  pub shown : SopPlan
  pub there : Has shown plans
  pub plan_of : shown.id ≡ plan
  pub revision_of : or_try shown.draft_revision_id shown.published_revision_id ≡ some revision

found-Has :
    (test : SopPlan → Bool) (first : SopPlan) (rest : List SopPlan) (o : Option SopPlan)
    → find test (first ∷ rest) ≡ o
    → Has (or_else o first) (first ∷ rest)
found-Has test first rest none h = inl refl
found-Has test first rest (some p) h = (find-Has test (first ∷ rest) p h).0

current-Has :
    (selected : Option String) (first : SopPlan) (rest : List SopPlan)
    → Has (current selected first rest) (first ∷ rest)
unfolding current
current-Has selected first rest = found-Has (is_selected selected) first rest _ refl

show_plan-editor :
    (p : SopPlan) (plan revision : String)
    → show_plan p ≡ editor plan revision
    → (p.id ≡ plan) × (revision_id p ≡ some revision)
unfolding show_plan
show_plan-editor p plan revision h = elim (Option-cases (revision_id p)) [
  | inl missing ↦ absurd (nothing missing)
  | inr (r, found) ↦ both r found
]
  where
    nothing : revision_id p ≡ none → ⊥
    nothing e = ground arith

    both : (r : String) → revision_id p ≡ some r → (p.id ≡ plan) × (revision_id p ≡ some revision)
    both r e = ground arith

-- Whatever revision the page opens in its editor is the draft of a plan that was read, or what that plan
-- published if it has no draft.
pub workspace-Shows :
    (selected : Option String) (plans : List SopPlan) (plan revision : String)
    → workspace selected plans ≡ editor plan revision
    → Shows selected plans plan revision
unfolding workspace
workspace-Shows selected [] plan revision h = absurd (cc)
workspace-Shows selected (first ∷ rest) plan revision h =
    let (a, b) = show_plan-editor (current selected first rest) plan revision h in
    record {
      shown = current selected first rest;
      there = current-Has selected first rest;
      plan_of = a;
      revision_of = unfold revision_id in b;
    }
