-- ===== src/Training/Rules.antt =====
-- apps/api/app/modules/training: the table of task transitions (public.py) and the checks of a
-- feedback (rules.py), and the limits of its body (apps/api/app/web/business_schemas.py), as the server
-- applies them to what the pages send.
use job_lens.Common.{
  ℕ, Bool, true, false, ◌&&◌, ◌||◌, not, String, Text, Option, none, some, List, [], ◌∷◌, length,
  leb, ◌==◌, includes, all, is_empty,
}
use job_lens.Schema.{TaskStatus, Outcome, FeedbackCreate}

pub data TaskCommand : Type 0 where
  start pause resume submit request_changes pass cancel : TaskCommand

-- `TRANSITIONS.get((status, command))`.
unfoldable pub transition : TaskStatus → TaskCommand → Option TaskStatus
transition TaskStatus.not_started start = some TaskStatus.in_progress
transition TaskStatus.in_progress pause = some TaskStatus.paused
transition TaskStatus.paused resume = some TaskStatus.in_progress
transition TaskStatus.in_progress submit = some TaskStatus.submitted
transition TaskStatus.submitted request_changes = some TaskStatus.changes_requested
transition TaskStatus.changes_requested resume = some TaskStatus.in_progress
transition TaskStatus.submitted pass = some TaskStatus.completed
transition TaskStatus.completed cancel = none
transition TaskStatus.cancelled cancel = none
transition _ cancel = some TaskStatus.cancelled
transition _ _ = none

-- The commands that `transition` in rules.py lets a learner give.
abbrev pub by_learner : TaskCommand → Bool
by_learner pass = false
by_learner request_changes = false
by_learner cancel = false
by_learner _ = true

-- The characters that Python's `str.strip` removes.
unfoldable pub is_stripped : ℕ → Bool
is_stripped c =
    (leb 9 c && leb c 13)
    || (leb 28 c && leb c 32)
    || c == 0x85
    || c == 160
    || c == 0x1680
    || (leb 0x2000 c && leb c 0x200a)
    || c == 0x2028
    || c == 0x2029
    || c == 0x202f
    || c == 0x205f
    || c == 0x3000

-- The truth value of `message.strip()`.
abbrev pub py_filled : Text → Bool
py_filled s = not (all is_stripped s)

-- `len(set(ids)) == len(ids)`.
unfoldable pub all_distinct : List String → Bool
all_distinct [] = true
all_distinct (x ∷ xs) = not (includes xs x) && all_distinct xs

abbrev wants_redo : Outcome → Bool
wants_redo Outcome.passed = false
wants_redo Outcome.changes_requested = true

abbrev same_bool : Bool → Bool → Bool
same_bool true b = b
same_bool false b = not b

-- The limits of `FeedbackCreate` in business_schemas.py, which the API checks before. A text in Python
-- is no longer than in UTF-16.
unfoldable pub within_limits : FeedbackCreate → Bool
within_limits b =
    leb 1 (length b.message)
    && leb (length b.message) 500
    && leb (length b.tags) 5
    && leb (length b.redo_step_ids) 100
    && leb (length b.annotation_ids) 20

-- `validate_feedback` raises nothing.
unfoldable pub validate_feedback : FeedbackCreate → List String → Bool
unfolding all_distinct is_stripped
validate_feedback b step_ids =
    py_filled b.message
    && leb (length b.message) 500
    && all_distinct b.redo_step_ids
    && all (includes step_ids) b.redo_step_ids
    && same_bool (wants_redo b.outcome) (not (is_empty b.redo_step_ids))
