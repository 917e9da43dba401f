-- ===== src/Sop/StepList/Numbering.antt =====
-- Positions and ids of the steps under the operations of StepList.tsx.
use job_lens.Common.{
  ℕ, suc, ◌+◌, ◌≡◌, refl, ap, sym, ◌∙◌, not, String, none, List, [], ◌∷◌, ◌++◌, map, map-append,
  same, length, keep, without, arith, length-append, length-map,
}
use job_lens.Schema.{SopStep}
use job_lens.Sop.StepList.{
  numbered, renumber_from, renumber, add, Patch, update_one, update, remove,
}

-- The steps from index `i` on have the positions `i + 1`, `i + 2`, ...
abbrev pub NumberedFrom : ℕ → List SopStep → Type 0
NumberedFrom i [] = Unit
NumberedFrom i (s ∷ steps) = (s.position ≡ i + 1) × NumberedFrom (suc i) steps

abbrev pub IsNumbered : List SopStep → Type 0
IsNumbered = NumberedFrom 0

abbrev pub id_of : SopStep → String
id_of s = s.id

abbrev pub ids : List SopStep → List String
ids = map id_of

numbered-id : (i : ℕ) (s : SopStep) → (numbered i s).id ≡ s.id
unfolding numbered
numbered-id i s = ground arith

numbered-position : (i : ℕ) (s : SopStep) → (numbered i s).position ≡ i + 1
unfolding numbered
numbered-position i s = ground arith

numbered_same : (i : ℕ) (s : SopStep) → s.position ≡ i + 1 → numbered i s ≡ s
unfolding numbered
numbered_same i s h = ground arith

renumber_from-Numbered : (i : ℕ) (steps : List SopStep) → NumberedFrom i (renumber_from i steps)
unfolding renumber_from
renumber_from-Numbered i [] = tt
renumber_from-Numbered i (s ∷ steps) = (numbered-position i s, renumber_from-Numbered (suc i) steps)

pub renumber-IsNumbered : (steps : List SopStep) → IsNumbered (renumber steps)
unfolding renumber
renumber-IsNumbered = renumber_from-Numbered 0

renumber_from_of_Numbered :
    (i : ℕ) (steps : List SopStep) → NumberedFrom i steps → renumber_from i steps ≡ steps
unfolding renumber_from
renumber_from_of_Numbered i [] h = refl
renumber_from_of_Numbered i (s ∷ steps) (p, h) =
    cc (numbered_same i s p, renumber_from_of_Numbered (suc i) steps h)

-- Steps that are numbered already are left alone.
pub renumber_of_IsNumbered : (steps : List SopStep) → IsNumbered steps → renumber steps ≡ steps
unfolding renumber
renumber_of_IsNumbered = renumber_from_of_Numbered 0

ids-renumber_from : (i : ℕ) (steps : List SopStep) → ids (renumber_from i steps) ≡ ids steps
unfolding renumber_from
ids-renumber_from i [] = refl
ids-renumber_from i (s ∷ steps) = cc (numbered-id i s, ids-renumber_from (suc i) steps)

pub ids-renumber : (steps : List SopStep) → ids (renumber steps) ≡ ids steps
unfolding renumber
ids-renumber = ids-renumber_from 0

pub length-renumber : (steps : List SopStep) → length (renumber steps) ≡ length steps
length-renumber steps =
    sym (length-map id_of (renumber steps))
    ∙ (ap length (ids-renumber steps) ∙ length-map id_of steps)

-- `add` appends the new id.
pub ids-add : (id : String) (steps : List SopStep) → ids (add id steps) ≡ ids steps ++ id ∷ []
unfolding add
ids-add id steps = ids-renumber _ ∙ map-append id_of steps _

pub add-IsNumbered : (id : String) (steps : List SopStep) → IsNumbered (add id steps)
unfolding add
add-IsNumbered id steps = renumber-IsNumbered _

pub length-add : (id : String) (steps : List SopStep) → length (add id steps) ≡ length steps + 1
unfolding add
length-add id steps = length-renumber _ ∙ length-append steps _

ids-keep :
    (id : String) (steps : List SopStep)
    → ids (keep (λ s. not (same s.id id)) steps) ≡ without id (ids steps)
unfolding without
ids-keep id [] = refl
ids-keep id (s ∷ steps) = ground (arith, ids-keep id steps)

-- `remove` takes exactly the given id away.
pub ids-remove :
    (id : String) (steps : List SopStep) → ids (remove id steps) ≡ without id (ids steps)
unfolding remove
ids-remove id steps = ids-renumber _ ∙ ids-keep id steps

pub remove-IsNumbered : (id : String) (steps : List SopStep) → IsNumbered (remove id steps)
unfolding remove
remove-IsNumbered id steps = renumber-IsNumbered _

update_one-id :
    (id : String) (p : Patch) (s : SopStep) → p.id ≡ none → (update_one id p s).id ≡ s.id
unfolding update_one
update_one-id id p s h = ground arith

pub ids-update :
    (id : String) (p : Patch) (steps : List SopStep)
    → p.id ≡ none
    → ids (update id p steps) ≡ ids steps
unfolding update
ids-update id p [] h = refl
ids-update id p (s ∷ steps) h = cc (update_one-id id p s h, ids-update id p steps h)

update_one-position :
    (id : String) (p : Patch) (s : SopStep)
    → p.position ≡ none
    → (update_one id p s).position ≡ s.position
unfolding update_one
update_one-position id p s h = ground arith

update-Numbered :
    (i : ℕ) (id : String) (p : Patch) (steps : List SopStep)
    → p.position ≡ none
    → NumberedFrom i steps
    → NumberedFrom i (update id p steps)
unfolding update
update-Numbered i id p [] h n = tt
update-Numbered i id p (s ∷ steps) h (q, n) =
    (update_one-position id p s h ∙ q, update-Numbered (suc i) id p steps h n)

pub update-IsNumbered :
    (id : String) (p : Patch) (steps : List SopStep)
    → p.position ≡ none
    → IsNumbered steps
    → IsNumbered (update id p steps)
update-IsNumbered = update-Numbered 0
