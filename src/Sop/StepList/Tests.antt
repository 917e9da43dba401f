-- ===== src/Sop/StepList/Tests.antt =====
-- Steps added, moved and removed.
use job_lens.Common.{
  ◌≡◌, refl, some, List, [], ◌∷◌, false, String, includes, codes, arith, length, ℕ,
}
use job_lens.Schema.{SopStep}
use job_lens.Sop.StepList.{add, remove, move, up, down, renumber, find_index}
use job_lens.Sop.StepList.Undo.{move_back}
use job_lens.Sop.StepList.Reach.{IsSound, Edits-IsSound, added, moved, removed, here, next}

abbrev step_at : String → ℕ → SopStep
step_at id n = record {
  id = id;
  position = n;
  instruction = codes "扫码";
  media_ids = [];
  estimated_seconds = 720;
  evidence_required = false;
}

abbrev two : List SopStep
two = step_at "a" 1 ∷ step_at "b" 2 ∷ []

abbrev turned : List SopStep
turned = step_at "b" 1 ∷ step_at "a" 2 ∷ []

moves_up : move "b" up two ≡ some turned
unfolding move renumber find_index
moves_up = refl

move_back_example : move "b" down turned ≡ some two
unfolding includes
move_back_example = move_back "b" up two turned (omega arith) (refl, (refl, tt)) moves_up

two-IsSound : IsSound two
unfolding includes
two-IsSound = record {
  numbered = omega arith;
  distinct = (refl, (refl, tt));
  bounded = omega arith;
}

Edits-IsSound_example : IsSound (remove "b" (add "c" turned))
unfolding includes
Edits-IsSound_example = Edits-IsSound two-IsSound (
    next (next (next here (moved "b" up two turned moves_up)) (added "c" turned refl refl))
      (removed "b" (add "c" turned)))

grown : length (remove "b" (add "c" turned)) ≡ 2
unfolding remove add renumber
grown = refl
