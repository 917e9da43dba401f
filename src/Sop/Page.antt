-- ===== src/Sop/Page.antt =====
-- apps/web/src/features/sop/SopPage.tsx and RevisionEditor.tsx: the choice of a plan and of its
-- revision, and what is shown of it.
pub mod Laws
pub mod Tests
use job_lens.Common.{
  ℕ, Bool, true, false, ◌||◌, not, String, Text, Option, none, some, List, [], ◌∷◌, if◌then◌else◌,
  same, or_else, or_try, find, filled, trim,
}
use job_lens.Schema.{SopPlan, SopRevision, RevisionState}

-- What the workspace shows once the plans were read.
pub data Workspace : Type 0 where
  create_first : Workspace
  editor : (plan_id revision_id : String) → Workspace
  no_revision : (plan_id : String) → Workspace

abbrev pub is_selected : Option String → SopPlan → Bool
is_selected none p = false
is_selected (some id) p = same p.id id

-- `items.find(p => p.id === selectedId) ?? items[0]`, of the items `first ∷ rest`.
unfoldable pub current : Option String → SopPlan → List SopPlan → SopPlan
current selected first rest = or_else (find (is_selected selected) (first ∷ rest)) first

-- `current.draft_revision_id ?? current.published_revision_id`.
unfoldable pub revision_id : SopPlan → Option String
revision_id p = or_try p.draft_revision_id p.published_revision_id

show_plan : SopPlan → Workspace
unfolding revision_id
show_plan p = elim (revision_id p) [ none ↦ no_revision p.id | some r ↦ editor p.id r ]

unfoldable pub workspace : Option String → List SopPlan → Workspace
unfolding show_plan current
workspace selected [] = create_first
workspace selected (first ∷ rest) = show_plan (current selected first rest)

-- The title that the button "创建计划" sends; `none` where it is not there or disabled.
unfoldable pub create_title : Bool → List SopPlan → Text → Option Text
create_title pending [] title = if pending || not (filled title) then none else some (trim title)
create_title pending (_ ∷ _) title = none

-- What the editor shows of a revision: the form of a draft, or a summary with the button that makes a
-- draft based on it.
pub data Editor : Type 0 where
  draft_form : SopRevision → Editor
  summary : SopRevision → Editor

unfoldable pub revision_editor : SopRevision → Editor
revision_editor r = elim r.state [ RevisionState.draft ↦ draft_form r | _ ↦ summary r ]

-- The base of the new draft that the button sends.
unfoldable pub create_draft : Bool → SopRevision → Option String
create_draft pending r = elim r.state [
  | RevisionState.draft ↦ none
  | _ ↦ if pending then none else some r.id
]
