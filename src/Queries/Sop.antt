-- ===== src/Queries/Sop.antt =====
-- apps/web/src/features/sop/queries.ts.
use job_lens.Common.{String, [], ◌∷◌}
use job_lens.Queries.{Read, get_path, Write, invalidate, creates, updates, confirms}

unfoldable pub use_plans : String → Read
use_plans case_id = record {
  key = "sop-plans" ∷ case_id ∷ [];
  request = get_path ("cases" ∷ case_id ∷ "sop-plans" ∷ []);
}

unfoldable pub use_revision : String → Read
use_revision id = record {
  key = "sop-revision" ∷ id ∷ [];
  request = get_path ("sop-revisions" ∷ id ∷ []);
}

unfoldable pub use_create_plan : String → Write
use_create_plan case_id = record {
  method = "POST";
  path = "cases" ∷ case_id ∷ "sop-plans" ∷ [];
  kind = creates;
  effects = invalidate ("sop-plans" ∷ case_id ∷ []) ∷ [];
}

unfoldable pub use_create_revision : String → String → Write
use_create_revision plan_id case_id = record {
  method = "POST";
  path = "sop-plans" ∷ plan_id ∷ "revisions" ∷ [];
  kind = creates;
  effects = invalidate ("sop-plans" ∷ case_id ∷ []) ∷ [];
}

unfoldable pub use_save_revision : String → Write
use_save_revision id = record {
  method = "PUT";
  path = "sop-revisions" ∷ id ∷ [];
  kind = updates;
  effects = invalidate ("sop-revision" ∷ id ∷ []) ∷ [];
}

unfoldable pub use_publish_revision : String → String → Write
use_publish_revision id case_id = record {
  method = "POST";
  path = "sop-revisions" ∷ id ∷ "publish" ∷ [];
  kind = confirms;
  effects = invalidate ("sop-revision" ∷ id ∷ []) ∷ invalidate ("sop-plans" ∷ case_id ∷ []) ∷ [];
}
