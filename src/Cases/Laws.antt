-- ===== src/Cases/Laws.antt =====
-- What the filters of CaseList.tsx show.
use job_lens.Common.{
  ◌≡◌, refl, false, ◌&&◌, String, Text, text_eq, codes, none, some, List, [], ◌∷◌, if◌then◌else◌,
  same, same_iff, is_empty, keep, arith,
}
use job_lens.Schema.{Case}
use job_lens.Cases.{
  CaseFilter, every, pending_match, sop_pending, training, awaiting_feedback, filter_word,
  filter_of, Params, get, delete, set, selected_filter, query, update, choose, search, fits, found,
  visible,
}

get-delete :
    (key : String) (ps : Params) (other : String)
    → get other (delete key ps) ≡ (if same key other then none else get other ps)
unfolding get delete
get-delete key [] other = ground arith
get-delete key ((k, v) ∷ ps) other =
    ground (arith, get-delete key ps other, same_iff k key, same_iff k other, same_iff key other)

get-set :
    (key : String) (value : Text) (ps : Params) (other : String)
    → get other (set key value ps) ≡ (if same key other then some value else get other ps)
unfolding get set
get-set key value [] other = refl
get-set key value ((k, v) ∷ ps) other = ground (
  arith,
  get-set key value ps other,
  get-delete key ps other,
  same_iff k key,
  same_iff k other,
  same_iff key other,
)

get-update :
    (key : String) (value : Text) (ps : Params) (other : String)
    → same "tab" other ≡ false
    → get other (update key value ps)
      ≡ (if same key other then (if is_empty value then none else some value) else get other ps)
unfolding update
get-update key value ps other h = ground (
  arith,
  get-set key value (set "tab" (codes "cases") ps) other,
  get-delete key (set "tab" (codes "cases") ps) other,
  get-set "tab" (codes "cases") ps other,
)

chosen : (f : CaseFilter) (ps : Params) → selected_filter (choose f ps) ≡ f
unfolding selected_filter choose filter_of filter_word text_eq
chosen every ps = rw (get-update "status" [] ps "status" refl) refl
chosen pending_match ps = rw (get-update "status" (codes "pending_match") ps "status" refl) refl
chosen sop_pending ps = rw (get-update "status" (codes "sop_pending") ps "status" refl) refl
chosen training ps = rw (get-update "status" (codes "training") ps "status" refl) refl
chosen awaiting_feedback ps =
    rw (get-update "status" (codes "awaiting_feedback") ps "status" refl) refl

same_query : (f : CaseFilter) (ps : Params) → query (choose f ps) ≡ query ps
unfolding query choose
same_query every ps = rw (get-update "status" [] ps "q" refl) refl
same_query pending_match ps = rw (get-update "status" (filter_word pending_match) ps "q" refl) refl
same_query sop_pending ps = rw (get-update "status" (filter_word sop_pending) ps "q" refl) refl
same_query training ps = rw (get-update "status" (filter_word training) ps "q" refl) refl
same_query awaiting_feedback ps =
    rw (get-update "status" (filter_word awaiting_feedback) ps "q" refl) refl

searched : (t : Text) (ps : Params) → query (search t ps) ≡ t
unfolding query search
searched [] ps = rw (get-update "q" [] ps "q" refl) refl
searched (c ∷ t) ps = rw (get-update "q" (c ∷ t) ps "q" refl) refl

same_filter : (t : Text) (ps : Params) → selected_filter (search t ps) ≡ selected_filter ps
unfolding selected_filter search
same_filter t ps = rw (get-update "q" t ps "status" refl) refl

-- Choosing a filter and searching, in either order and from any address, shows exactly the loaded
-- cases whose status fits that filter and whose id in lower case holds the trimmed text in lower
-- case.
pub visible-choose-search :
    (lower : Text → Text) (f : CaseFilter) (t : Text) (ps : Params) (items : List Case)
    → (visible lower (choose f (search t ps)) items
        ≡ keep (λ c. fits f c.display_status && found lower t c) items)
      × (visible lower (search t (choose f ps)) items
          ≡ keep (λ c. fits f c.display_status && found lower t c) items)
unfolding visible
visible-choose-search lower f t ps items = (
  rw (chosen f (search t ps), same_query f (search t ps), searched t ps) refl,
  rw (same_filter t (choose f ps), chosen f ps, searched t (choose f ps)) refl,
)
