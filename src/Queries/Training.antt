-- ===== src/Queries/Training.antt =====
-- apps/web/src/features/training/queries.ts.
use job_lens.Common.{String, [], ◌∷◌}
use job_lens.Queries.{Read, get_path, Write, invalidate, write, creates, updates, confirms}

unfoldable pub use_submission : String → Read
use_submission id = record {
  key = "submission" ∷ id ∷ [];
  request = get_path ("submissions" ∷ id ∷ []);
}

unfoldable pub use_snapshot_revision : String → Read
use_snapshot_revision id = record {
  key = "training-revision" ∷ id ∷ [];
  request = get_path ("sop-revisions" ∷ id ∷ []);
}

unfoldable pub use_feedback : String → Write
use_feedback id = record {
  method = "POST";
  path = "submissions" ∷ id ∷ "feedback" ∷ [];
  kind = confirms;
  effects =
      invalidate ("submission" ∷ id ∷ [])
      ∷ invalidate ("task" ∷ [])
      ∷ invalidate ("tasks" ∷ [])
      ∷ invalidate ("cases" ∷ [])
      ∷ invalidate ("dashboard" ∷ [])
      ∷ [];
}

unfoldable pub use_task : String → Read
use_task id = record { key = "task" ∷ id ∷ []; request = get_path ("tasks" ∷ id ∷ []) }

unfoldable pub use_prompt_override : String → Write
use_prompt_override id = record {
  method = "PUT";
  path = "tasks" ∷ id ∷ "prompt-override" ∷ [];
  kind = updates;
  effects = invalidate ("task" ∷ id ∷ []) ∷ [];
}

unfoldable pub use_cancel_task : String → Write
use_cancel_task id = record {
  method = "POST";
  path = "tasks" ∷ id ∷ "actions" ∷ [];
  kind = confirms;
  effects =
      invalidate ("task" ∷ id ∷ [])
      ∷ invalidate ("cases" ∷ [])
      ∷ invalidate ("dashboard" ∷ [])
      ∷ [];
}

unfoldable pub use_create_annotation : String → Write
use_create_annotation id = record {
  method = "POST";
  path = "tasks" ∷ id ∷ "annotations" ∷ [];
  kind = creates;
  effects = [];
}

unfoldable pub use_task_action : String → Write
use_task_action id = record {
  method = "POST";
  path = "tasks" ∷ id ∷ "actions" ∷ [];
  kind = confirms;
  effects =
      write ("task" ∷ id ∷ []) ∷ invalidate ("tasks" ∷ []) ∷ invalidate ("dashboard" ∷ []) ∷ [];
}

unfoldable pub use_save_progress : String → String → Write
use_save_progress id step = record {
  method = "PUT";
  path = "tasks" ∷ id ∷ "steps" ∷ step ∷ [];
  kind = updates;
  effects = write ("task" ∷ id ∷ []) ∷ [];
}

unfoldable pub use_submit_task : String → Write
use_submit_task id = record {
  method = "POST";
  path = "tasks" ∷ id ∷ "submissions" ∷ [];
  kind = confirms;
  effects =
      invalidate ("task" ∷ id ∷ [])
      ∷ invalidate ("submissions" ∷ id ∷ [])
      ∷ invalidate ("tasks" ∷ [])
      ∷ invalidate ("dashboard" ∷ [])
      ∷ [];
}

unfoldable pub use_submissions : String → Read
use_submissions id = record {
  key = "submissions" ∷ id ∷ [];
  request = record { path = "tasks" ∷ id ∷ "submissions" ∷ []; query = ("limit", "20") ∷ [] };
}
