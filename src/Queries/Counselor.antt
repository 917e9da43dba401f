-- ===== src/Queries/Counselor.antt =====
-- apps/web/src/features/counselor/queries.ts.
use job_lens.Common.{String, [], ◌∷◌}
use job_lens.Queries.{Read, get_path, Write, invalidate, updates, confirms}

unfoldable pub use_cases : Read
use_cases = record {
  key = "cases" ∷ "list" ∷ [];
  request = record { path = "cases" ∷ []; query = ("limit", "20") ∷ [] };
}

unfoldable pub use_counselor_dashboard : Read
use_counselor_dashboard = record {
  key = "dashboard" ∷ "counselor" ∷ [];
  request = record { path = "dashboard" ∷ []; query = ("view", "counselor") ∷ [] };
}

unfoldable pub use_case : String → Read
use_case id = record { key = "case" ∷ id ∷ []; request = get_path ("cases" ∷ id ∷ []) }

unfoldable pub use_case_profile : String → Read
use_case_profile id = record {
  key = "case-profile" ∷ id ∷ [];
  request = get_path ("cases" ∷ id ∷ "profile" ∷ []);
}

unfoldable pub use_match : String → Read
use_match id = record { key = "match" ∷ id ∷ []; request = get_path ("cases" ∷ id ∷ "match" ∷ []) }

unfoldable pub use_save_match : String → Write
use_save_match id = record {
  method = "PUT";
  path = "cases" ∷ id ∷ "match" ∷ [];
  kind = updates;
  effects = invalidate ("match" ∷ id ∷ []) ∷ [];
}

unfoldable pub use_confirm_match : String → Write
use_confirm_match id = record {
  method = "POST";
  path = "cases" ∷ id ∷ "match" ∷ "confirm" ∷ [];
  kind = confirms;
  effects = invalidate ("match" ∷ id ∷ []) ∷ invalidate ("cases" ∷ []) ∷ [];
}

unfoldable pub use_records : String → Read
use_records id = record {
  key = "case-records" ∷ id ∷ [];
  request = get_path ("cases" ∷ id ∷ "records" ∷ []);
}
