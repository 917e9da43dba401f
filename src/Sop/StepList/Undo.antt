-- ===== src/Sop/StepList/Undo.antt =====
-- Which moves StepList.tsx makes, and that moving back restores the list.
use job_lens.Common.{
  ℕ, zero, suc, ◌<◌, ◌≡◌, ap, sym, ◌∙◌, String, none, some, List, length, includes, Distinct, arith,
  length-map, Option-cases, ◌↔◌, inl, inr,
}
use native.Mathlib.Numerals.{add-one}
use job_lens.Schema.{SopStep}
use job_lens.Sop.StepList.{renumber, Delta, up, down, find_index, target, move_to, move_at, move}
use job_lens.Sop.StepList.Numbering.{
  IsNumbered, ids, id_of, renumber_of_IsNumbered, ids-renumber, length-renumber,
  renumber-IsNumbered,
}
use job_lens.Sop.StepList.Moving.{
  swap_next, swap_next_twice, length-swap_next, map-swap_next, swap_down, swap_up,
  renumber-swap_next,
}
use job_lens.Sop.StepList.Index.{
  Distinct-swap_next, find_index-ids, includes-swap_next, index_of, index_of-lt, index_of-swap_down,
  index_of-swap_up,
}

-- A move that is made: it exchanges two neighbours, of which the lower index is `n`.
pub record IsMove (id : String) (d : Delta) (steps steps' : List SopStep) : Type 0 where
  pub at : ℕ
  pub within : suc at < length steps
  pub found : find_index id steps ≡ (elim d [ up ↦ some (suc at) | down ↦ some at ])
  pub result : steps' ≡ renumber (swap_next at steps)

move_at-IsMove :
    (id : String) (d : Delta) (steps steps' : List SopStep) (i : ℕ)
    → find_index id steps ≡ some i
    → i < length steps
    → move_at (some i) d steps ≡ some steps'
    → IsMove id d steps steps'
unfolding move_at move_to target
move_at-IsMove id up steps steps' zero f l h = absurd (ground arith)
move_at-IsMove id up steps steps' (suc i) f l h = record {
  at = i;
  within = l;
  found = f;
  result = moved_up;
}
  where
    moved_up : steps' ≡ renumber (swap_next i steps)
    moved_up = ground (arith, swap_up i steps)
move_at-IsMove id down steps steps' i f l h = record {
  at = i;
  within = ground arith;
  found = f;
  result = moved_down;
}
  where
    moved_down : steps' ≡ renumber (swap_next i steps)
    moved_down = ground (arith, swap_down i steps, add-one i)

find_index-lt :
    (id : String) (steps : List SopStep) (n : ℕ) → find_index id steps ≡ some n → n < length steps
find_index-lt id steps n h = omega (
  arith,
  index_of-lt id (ids steps) n (sym (find_index-ids id steps) ∙ h),
  length-map id_of steps,
)

move-IsMove :
    (id : String) (d : Delta) (steps steps' : List SopStep)
    → move id d steps ≡ some steps'
    → IsMove id d steps steps'
unfolding move
move-IsMove id d steps steps' h = elim (Option-cases (find_index id steps)) [
  | inl missing ↦ absurd (nothing (rw missing at h))
  | inr (i, found) ↦
      move_at-IsMove id d steps steps' i found (find_index-lt id steps i found) (rw found at h)
]
  where
    nothing : move_at none d steps ≡ some steps' → ⊥
    nothing e = unfold move_at in cc

IsMove-move :
    (id : String) (d : Delta) (steps steps' : List SopStep)
    → IsMove id d steps steps'
    → move id d steps ≡ some steps'
unfolding move move_at move_to target
IsMove-move id up steps steps' m = ground (arith, swap_up m.at steps)
IsMove-move id down steps steps' m = ground (arith, swap_down m.at steps, add-one m.at)

-- `move` hands a list to `onChange` exactly when the id stands in the list and has a neighbour on
-- that side; it is the list with the first step of that id and the neighbour exchanged, and renumbered.
pub move_iff :
    (id : String) (d : Delta) (steps steps' : List SopStep)
    → (move id d steps ≡ some steps') ↔ IsMove id d steps steps'
move_iff id d steps steps' = (move-IsMove id d steps steps', IsMove-move id d steps steps')

-- A move keeps the ids, each as often, and numbers the steps.
pub move-keeps :
    (id : String) (d : Delta) (steps steps' : List SopStep) (j : String)
    → move id d steps ≡ some steps'
    → Distinct (ids steps)
    → IsNumbered steps'
      × Distinct (ids steps')
      × (length steps' ≡ length steps)
      × (includes (ids steps') j ≡ includes (ids steps) j)
move-keeps id d steps steps' j h u =
    let m = move-IsMove id d steps steps' h in
    let same_ids : ids steps' ≡ swap_next m.at (ids steps) =
      ap ids m.result ∙ (ids-renumber _ ∙ map-swap_next id_of m.at steps) in
    (
      rw m.result (renumber-IsNumbered _),
      rw same_ids (Distinct-swap_next m.at (ids steps) u),
      ap length m.result ∙ (length-renumber _ ∙ length-swap_next m.at steps),
      rw same_ids (includes-swap_next m.at (ids steps) j),
    )

abbrev pub opposite : Delta → Delta
opposite up = down
opposite down = up

ids-moved :
    (n : ℕ) (steps : List SopStep) → ids (renumber (swap_next n steps)) ≡ swap_next n (ids steps)
ids-moved n steps = ids-renumber _ ∙ map-swap_next id_of n steps

found_again :
    (id : String) (d : Delta) (steps : List SopStep) (n : ℕ)
    → Distinct (ids steps)
    → suc n < length steps
    → find_index id steps ≡ (elim d [ up ↦ some (suc n) | down ↦ some n ])
    → find_index id (renumber (swap_next n steps))
      ≡ (elim (opposite d) [ up ↦ some (suc n) | down ↦ some n ])
found_again id up steps n u l f =
    find_index-ids id _
    ∙ (ap (index_of id) (ids-moved n steps)
        ∙ index_of-swap_up id (ids steps) n (sym (find_index-ids id steps) ∙ f))
found_again id down steps n u l f =
    find_index-ids id _
    ∙ (ap (index_of id) (ids-moved n steps)
        ∙ index_of-swap_down id (ids steps) n u (omega (arith, length-map id_of steps))
            (sym (find_index-ids id steps) ∙ f))

restored :
    (n : ℕ) (steps : List SopStep)
    → IsNumbered steps
    → steps ≡ renumber (swap_next n (renumber (swap_next n steps)))
restored n steps h = sym (
    renumber-swap_next n (swap_next n steps)
    ∙ (ap renumber (swap_next_twice n steps) ∙ renumber_of_IsNumbered steps h))

-- Moving a step and moving it back gives the list as it was, where the ids are distinct and the
-- steps numbered.
pub move_back :
    (id : String) (d : Delta) (steps steps' : List SopStep)
    → IsNumbered steps
    → Distinct (ids steps)
    → move id d steps ≡ some steps'
    → move id (opposite d) steps' ≡ some steps
move_back id d steps steps' n u h =
    let m = move-IsMove id d steps steps' h in
    rw m.result (
      IsMove-move id (opposite d) (renumber (swap_next m.at steps)) steps (record {
        at = m.at;
        within =
            omega (
              arith,
              m.within,
              length-renumber (swap_next m.at steps),
              length-swap_next m.at steps,
            );
        found = found_again id d steps m.at u m.within m.found;
        result = restored m.at steps n;
      }))
