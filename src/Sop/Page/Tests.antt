-- ===== src/Sop/Page/Tests.antt =====
-- Two plans, one of them with a draft.
use job_lens.Common.{◌≡◌, refl, none, some, [], ◌∷◌, codes, Option, String}
use job_lens.Schema.{SopPlan}
use job_lens.Sop.Page.{workspace, current, revision_id, editor}

abbrev plan_of : String → Option String → SopPlan
plan_of id draft = record {
  id = id;
  case_id = "c";
  title = codes "收银";
  published_revision_id = some "old";
  draft_revision_id = draft;
  version = 1;
}

opens_draft :
    workspace (some "b") (plan_of "a" none ∷ plan_of "b" (some "new") ∷ []) ≡ editor "b" "new"
unfolding workspace current revision_id
opens_draft = refl

opens_first : workspace none (plan_of "a" none ∷ plan_of "b" (some "new") ∷ []) ≡ editor "a" "old"
unfolding workspace current revision_id
opens_first = refl
