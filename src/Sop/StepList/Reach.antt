-- ===== src/Sop/StepList/Reach.antt =====
-- Every list of steps that the buttons and fields of StepList.tsx can lead to.
use job_lens.Common.{
  ◌≤◌, ◌≡◌, false, not, String, none, some, List, length, length-map, includes, Distinct,
  Distinct-append_one, Distinct-without, arith, same, length-keep, keep,
}
use job_lens.Schema.{SopStep}
use job_lens.Sop.StepList.{add, update, remove, move, Delta, Patch, add_disabled}
use job_lens.Sop.StepList.Numbering.{
  IsNumbered, ids, ids-add, ids-remove, ids-update, add-IsNumbered, remove-IsNumbered,
  update-IsNumbered, length-add, length-renumber,
}
use job_lens.Sop.StepList.Undo.{move-keeps}

-- One edit. The id of a new step is fresh, and the fields patch neither the id nor the position.
pub data Edit : List SopStep → List SopStep → Type 0 where
  added :
      (id : String) (steps : List SopStep)
      → add_disabled false steps ≡ false
      → includes (ids steps) id ≡ false
      → Edit steps (add id steps)
  updated :
      (id : String) (p : Patch) (steps : List SopStep)
      → p.id ≡ none
      → p.position ≡ none
      → Edit steps (update id p steps)
  removed : (id : String) (steps : List SopStep) → Edit steps (remove id steps)
  moved :
      (id : String) (d : Delta) (steps steps' : List SopStep)
      → move id d steps ≡ some steps'
      → Edit steps steps'

pub data Edits (steps : List SopStep) : List SopStep → Type 0 where
  here : Edits steps steps
  next : {xs ys : List SopStep} → Edits steps xs → Edit xs ys → Edits steps ys

pub record IsSound (steps : List SopStep) : Type 0 where
  pub numbered : IsNumbered steps
  pub distinct : Distinct (ids steps)
  pub bounded : length steps ≤ 100

length-update :
    (id : String) (p : Patch) (steps : List SopStep) → length (update id p steps) ≡ length steps
unfolding update
length-update id p steps = length-map _ steps

length-remove : (id : String) (steps : List SopStep) → length (remove id steps) ≤ length steps
unfolding remove
length-remove id steps = omega (
  arith,
  length-renumber (keep (λ s. not (same s.id id)) steps),
  length-keep (λ s. not (same s.id id)) steps,
)

pub Edit-IsSound : {xs ys : List SopStep} → Edit xs ys → IsSound xs → IsSound ys
Edit-IsSound (added id steps room fresh) s = record {
  numbered = add-IsNumbered id steps;
  distinct = rw (ids-add id steps) (Distinct-append_one (ids steps) id s.distinct fresh);
  bounded = ground (arith, length-add id steps);
}
Edit-IsSound (updated id p steps no_id no_position) s = record {
  numbered = update-IsNumbered id p steps no_position s.numbered;
  distinct = rw (ids-update id p steps no_id) s.distinct;
  bounded = omega (arith, length-update id p steps, s.bounded);
}
Edit-IsSound (removed id steps) s = record {
  numbered = remove-IsNumbered id steps;
  distinct = rw (ids-remove id steps) (Distinct-without id (ids steps) s.distinct);
  bounded = omega (arith, length-remove id steps, s.bounded);
}
Edit-IsSound (moved id d steps steps' h) s =
    let (numbered, distinct, same_length, _) = move-keeps id d steps steps' "" h s.distinct in
    record {
      numbered = numbered;
      distinct = distinct;
      bounded = omega (arith, same_length, s.bounded);
    }

-- However a list is edited by the buttons and fields, if its positions were 1, 2, 3, ... in order,
-- its ids distinct and its steps at most 100, they are so again. New ids are assumed fresh, and
-- the fields to change neither ids nor positions.
pub Edits-IsSound : {xs ys : List SopStep} → IsSound xs → Edits xs ys → IsSound ys
Edits-IsSound s here = s
Edits-IsSound s (next es e) = Edit-IsSound e (Edits-IsSound s es)
