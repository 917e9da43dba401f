-- ===== src/Sop/StepList.antt =====
-- apps/web/src/features/sop/StepList.tsx: the controlled editor of the steps. Each operation gives
-- the list that it hands to `onChange`; `none` means that `onChange` is not called. A fresh id of
-- `crypto.randomUUID` is an argument.
pub mod Numbering
pub mod Moving
pub mod Index
pub mod Undo
pub mod Reach
pub mod Tests
use job_lens.Common.{
  ℕ, zero, suc, ◌+◌, ◌-◌, Bool, true, false, ◌||◌, not, String, Text, Option, none, some, List, [],
  ◌∷◌, ◌++◌, map, same, ◌==◌, leb, if◌then◌else◌, or_else, length, keep, set, get_elem?,
}
use job_lens.Schema.{SopStep}

new_step : String → ℕ → SopStep
new_step id position = record {
  id = id;
  position = position;
  instruction = [];
  media_ids = [];
  estimated_seconds = 720;
  evidence_required = false;
}

-- One round of the `map` in `renumber`, at index `i`.
numbered : ℕ → SopStep → SopStep
numbered i s = if s.position == i + 1 then s else record s { position = i + 1 }

renumber_from : ℕ → List SopStep → List SopStep
unfolding numbered
renumber_from i [] = []
renumber_from i (s ∷ steps) = numbered i s ∷ renumber_from (suc i) steps

unfoldable pub renumber : List SopStep → List SopStep
unfolding renumber_from
renumber = renumber_from 0

unfoldable pub add : String → List SopStep → List SopStep
unfolding new_step
add id steps = renumber (steps ++ new_step id (length steps + 1) ∷ [])

-- `Partial<SopStep>`.
pub record Patch : Type 0 where
  pub id : Option String
  pub position : Option ℕ
  pub instruction : Option Text
  pub media_ids : Option (List String)
  pub estimated_seconds : Option ℕ
  pub evidence_required : Option Bool

pub apply : Patch → SopStep → SopStep
apply p s = record {
  id = or_else p.id s.id;
  position = or_else p.position s.position;
  instruction = or_else p.instruction s.instruction;
  media_ids = or_else p.media_ids s.media_ids;
  estimated_seconds = or_else p.estimated_seconds s.estimated_seconds;
  evidence_required = or_else p.evidence_required s.evidence_required;
}

update_one : String → Patch → SopStep → SopStep
unfolding apply
update_one id patch s = if same s.id id then apply patch s else s

unfoldable pub update : String → Patch → List SopStep → List SopStep
unfolding update_one
update id patch = map (update_one id patch)

unfoldable pub remove : String → List SopStep → List SopStep
remove id steps = renumber (keep (λ s. not (same s.id id)) steps)

pub data Delta : Type 0 where
  up down : Delta

-- `findIndex`; `none` stands for -1.
pub find_index : String → List SopStep → Option ℕ
find_index id [] = none
find_index id (s ∷ steps) =
    let later = find_index id steps in
    if same s.id id then some 0 else (elim later [ none ↦ none | some i ↦ some (suc i) ])

-- `i + delta` for an index of `n` steps; `none` where it is below 0 or not below `n`.
target : Delta → ℕ → ℕ → Option ℕ
target up zero n = none
target up (suc i) n = some i
target down i n = if leb n (i + 1) then none else some (i + 1)

swap_values : ℕ → ℕ → Option SopStep → Option SopStep → List SopStep → List SopStep
swap_values i j (some a) (some b) next = set (set next i b) j a
swap_values i j _ _ next = next

-- `[next[i], next[j]] = [next[j], next[i]]`.
pub swap : ℕ → ℕ → List SopStep → List SopStep
unfolding swap_values
swap i j next = swap_values i j (get_elem? next i) (get_elem? next j) next

move_to : ℕ → Option ℕ → List SopStep → Option (List SopStep)
move_to i none steps = none
move_to i (some j) steps = some (renumber (swap i j steps))

move_at : Option ℕ → Delta → List SopStep → Option (List SopStep)
unfolding move_to target swap
move_at none delta steps = none
move_at (some i) delta steps = move_to i (target delta i (length steps)) steps

unfoldable pub move : String → Delta → List SopStep → Option (List SopStep)
unfolding move_at
move id delta steps = move_at (find_index id steps) delta steps

-- The tests of the buttons: "move up", "move down" and "remove" at index `i`, and "add".
abbrev pub up_disabled : Bool → ℕ → Bool
up_disabled disabled i = disabled || i == 0

abbrev pub down_disabled : Bool → ℕ → List SopStep → Bool
down_disabled disabled i steps = disabled || i == length steps - 1

abbrev pub add_disabled : Bool → List SopStep → Bool
add_disabled disabled steps = disabled || leb 100 (length steps)
