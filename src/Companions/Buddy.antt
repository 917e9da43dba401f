-- ===== src/Companions/Buddy.antt =====
-- apps/web/src/shared/ui/Buddy.tsx: the mood of the companion. A click makes it smile, and a timer ends
-- the smile.
use job_lens.Common.{
  ℕ, ◌+◌, ◌-◌, ◌≤◌, ◌<◌, ◌≡◌, refl, Bool, ◌||◌, ◌&&◌, Text, codes, Option, none, some, List, [],
  ◌∷◌, if◌then◌else◌, leb, is_some, arith,
}
use job_lens.Companions.{Motion, active}

-- The milliseconds that `setTimeout` has left, while the companion is happy.
abbrev pub Happy : Type 0
Happy = Option ℕ

-- `onClick`. Where it is happy already, nothing is rendered and the timer goes on.
unfoldable pub click : Happy → Happy
click none = some 1600
click (some left) = some left

unfoldable pub wait : ℕ → Happy → Happy
wait ms none = none
wait ms (some left) = if leb left ms then none else some (left - ms)

pub data Event : Type 0 where
  clicked : Event
  waited : (ms : ℕ) → Event

unfoldable pub run : List Event → Happy → Happy
unfolding click wait
run [] h = h
run (clicked ∷ es) h = run es (click h)
run (waited ms ∷ es) h = run es (wait ms h)

-- `data-mood`, and `data-playing` with the property `playing`.
unfoldable pub mood : Happy → Bool → Text
mood h closed = if is_some h || closed then codes "happy" else codes "idle"

unfoldable pub playing : Bool → Motion → Bool
unfolding active
playing wanted m = wanted && active m

-- The timer never has more than its delay left.
abbrev Timed : Happy → Type 0
Timed none = Unit
Timed (some left) = (0 < left) × (left ≤ 1600)

wait-Timed : (ms : ℕ) (h : Happy) → Timed h → Timed (wait ms h)
unfolding wait
wait-Timed ms none k = tt
wait-Timed ms (some left) k = ground arith

run-Timed : (es : List Event) (h : Happy) → Timed h → Timed (run es h)
unfolding run click
run-Timed [] h k = k
run-Timed (clicked ∷ es) none k = run-Timed es (some 1600) (omega arith, omega arith)
run-Timed (clicked ∷ es) (some left) k = run-Timed es (some left) k
run-Timed (waited ms ∷ es) h k = run-Timed es (wait ms h) (wait-Timed ms h k)

abbrev pub total : List ℕ → ℕ
total [] = 0
total (d ∷ ds) = d + total ds

abbrev pub waits : List ℕ → List Event
waits [] = []
waits (d ∷ ds) = waited d ∷ waits ds

waits-none : (ds : List ℕ) → run (waits ds) none ≡ none
unfolding run wait
waits-none [] = refl
waits-none (d ∷ ds) = waits-none ds

waits-some :
    (ds : List ℕ) (left : ℕ) → left ≤ total ds → 0 < left → run (waits ds) (some left) ≡ none
unfolding run wait
waits-some [] left h p = absurd (omega arith)
waits-some (d ∷ ds) left h p = ground (arith, waits-none ds, waits-some ds (left - d))

waits_end : (ds : List ℕ) (h : Happy) → Timed h → 1600 ≤ total ds → run (waits ds) h ≡ none
waits_end ds none k e = waits-none ds
waits_end ds (some left) (p, k) e = waits-some ds left (omega arith) p

-- Whatever was clicked before, once 1600 milliseconds have passed without a click the companion's
-- mood is idle again, or happy where its eyes are closed for a password.
pub run-idle :
    (es : List Event) (ds : List ℕ) (closed : Bool)
    → 1600 ≤ total ds
    → mood (run (waits ds) (run es none)) closed ≡ (if closed then codes "happy" else codes "idle")
unfolding mood
run-idle es ds closed e = rw (waits_end ds (run es none) (run-Timed es none tt) e) refl
