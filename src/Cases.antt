-- ===== src/Cases.antt =====
-- apps/web/src/features/counselor/CaseList.tsx with status.ts: the loaded cases, filtered by the
-- parameters of the page's address. `toLowerCase` is a parameter.
pub mod Laws
pub mod Shown
pub mod Tests
use job_lens.Common.{
  ℕ, Bool, true, false, ◌&&◌, ◌||◌, String, Text, text_eq, codes, Option, none, some, List, [], ◌∷◌,
  if◌then◌else◌, same, is_empty, keep, trim, contains, or_else, ◌==◌,
}
use job_lens.Schema.{Case, DisplayStatus}

pub data CaseFilter : Type 0 where
  every pending_match sop_pending training awaiting_feedback : CaseFilter

-- The word of a filter in the address.
unfoldable pub filter_word : CaseFilter → Text
filter_word every = codes "all"
filter_word pending_match = codes "pending_match"
filter_word sop_pending = codes "sop_pending"
filter_word training = codes "training"
filter_word awaiting_feedback = codes "awaiting_feedback"

-- `CASE_FILTERS.some(item => item.value === rawFilter) ? rawFilter : 'all'`.
unfoldable pub filter_of : Option Text → CaseFilter
unfolding filter_word text_eq
filter_of none = every
filter_of (some raw) =
    if text_eq raw (filter_word pending_match)
    then pending_match
    else if text_eq raw (filter_word sop_pending)
    then sop_pending
    else if text_eq raw (filter_word training)
    then training
    else if text_eq raw (filter_word awaiting_feedback)
    then awaiting_feedback
    else every

-- `URLSearchParams` as a list of its pairs: `get`, `delete` and `set`.
abbrev pub Params : Type 0
Params = List (String × Text)

unfoldable pub get : String → Params → Option Text
get key [] = none
get key ((k, v) ∷ ps) = if same k key then some v else get key ps

unfoldable pub delete : String → Params → Params
delete key [] = []
delete key ((k, v) ∷ ps) = let rest = delete key ps in if same k key then rest else (k, v) ∷ rest

unfoldable pub set : String → Text → Params → Params
unfolding delete
set key value [] = (key, value) ∷ []
set key value ((k, v) ∷ ps) =
    let rest = set key value ps in
    if same k key then (key, value) ∷ delete key ps else (k, v) ∷ rest

unfoldable pub selected_filter : Params → CaseFilter
unfolding filter_of get
selected_filter ps = filter_of (get "status" ps)

-- `params.get('q') || ''`.
unfoldable pub query : Params → Text
unfolding get
query ps = or_else (get "q" ps) []

unfoldable pub update : String → Text → Params → Params
unfolding set delete
update key value ps =
    let next = set "tab" (codes "cases") ps in
    if is_empty value then delete key next else set key value next

-- The buttons of the filters, and the search field.
unfoldable pub choose : CaseFilter → Params → Params
unfolding update filter_word
choose every ps = update "status" [] ps
choose f ps = update "status" (filter_word f) ps

unfoldable pub search : Text → Params → Params
unfolding update
search text ps = update "q" text ps

-- The button "清除筛选".
unfoldable pub clear : Params
clear = ("tab", codes "cases") ∷ []

abbrev status_rank : DisplayStatus → ℕ
status_rank DisplayStatus.pending_match = 0
status_rank DisplayStatus.sop_pending = 1
status_rank DisplayStatus.training = 2
status_rank DisplayStatus.awaiting_feedback = 3
status_rank DisplayStatus.feedback_available = 4
status_rank DisplayStatus.stage_complete = 5
status_rank DisplayStatus.closed = 6

-- `filter === 'all' || kase.display_status === filter`.
unfoldable pub fits : CaseFilter → DisplayStatus → Bool
fits every s = true
fits pending_match s = status_rank s == 0
fits sop_pending s = status_rank s == 1
fits training s = status_rank s == 2
fits awaiting_feedback s = status_rank s == 3

abbrev pub found : (Text → Text) → Text → Case → Bool
found lower q c = contains (lower (trim q)) (lower c.id)

-- `visible`.
unfoldable pub visible : (Text → Text) → Params → List Case → List Case
unfolding selected_filter query fits contains
visible lower ps items =
    keep (λ c. fits (selected_filter ps) c.display_status && found lower (query ps) c) items
