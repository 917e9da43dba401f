-- ===== src/Queries/Support.antt =====
-- apps/web/src/features/support/queries.ts and apps/web/src/features/notifications/queries.ts.
use job_lens.Common.{String, Option, none, some, List, [], ◌∷◌, ◌++◌, or_else}
use job_lens.Queries.{Read, get_path, Write, invalidate, creates, confirms}

-- A query parameter that is left out where it is `undefined`.
unfoldable pub param : String → Option String → List (String × String)
param name none = []
param name (some v) = (name, v) ∷ []

-- The states by which a list is filtered, and their words.
pub data Filter : Type 0 where
  queued accepted resolved cancelled : Filter

unfoldable pub filter_word : Filter → String
filter_word queued = "queued"
filter_word accepted = "accepted"
filter_word resolved = "resolved"
filter_word cancelled = "cancelled"

abbrev state_word : Option Filter → Option String
state_word none = none
state_word (some f) = some (filter_word f)

unfoldable pub use_assistance_requests : Option Filter → Option String → Read
unfolding param filter_word
use_assistance_requests state case_id = record {
  key = "assistance-requests" ∷ or_else (state_word state) "all" ∷ or_else case_id "all" ∷ [];
  request = record {
    path = "assistance-requests" ∷ [];
    query = param "state" (state_word state) ++ (param "case_id" case_id ++ ("limit", "100") ∷ []);
  };
}

unfoldable pub use_assistance : String → Read
use_assistance id = record {
  key = "assistance" ∷ id ∷ [];
  request = get_path ("assistance-requests" ∷ id ∷ []);
}

unfoldable pub use_assistance_messages : String → Read
use_assistance_messages id = record {
  key = "assistance-messages" ∷ id ∷ [];
  request = get_path ("assistance-requests" ∷ id ∷ "messages" ∷ []);
}

unfoldable pub use_assistance_action : String → Write
use_assistance_action id = record {
  method = "POST";
  path = "assistance-requests" ∷ id ∷ "actions" ∷ [];
  kind = confirms;
  effects = invalidate ("assistance" ∷ id ∷ []) ∷ invalidate ("assistance-requests" ∷ []) ∷ [];
}

unfoldable pub use_send_message : String → Write
use_send_message id = record {
  method = "POST";
  path = "assistance-requests" ∷ id ∷ "messages" ∷ [];
  kind = creates;
  effects = invalidate ("assistance-messages" ∷ id ∷ []) ∷ [];
}

unfoldable pub use_create_assistance : Write
use_create_assistance = record {
  method = "POST";
  path = "assistance-requests" ∷ [];
  kind = creates;
  effects = invalidate ("assistance-requests" ∷ []) ∷ invalidate ("dashboard" ∷ []) ∷ [];
}

unfoldable pub use_notifications : Read
use_notifications = record {
  key = "notifications" ∷ [];
  request = record { path = "notifications" ∷ []; query = ("limit", "50") ∷ [] };
}

unfoldable pub use_mark_read : String → Write
use_mark_read id = record {
  method = "POST";
  path = "notifications" ∷ id ∷ "read" ∷ [];
  kind = creates;
  effects = invalidate ("notifications" ∷ []) ∷ [];
}
