-- ===== src/Support/Closing.antt =====
-- How an open request is brought to its end by the buttons of AssistancePage.tsx, with the transitions
-- of rules.py.
use job_lens.Common.{ℕ, suc, ◌+◌, ◌≤◌, ◌≡◌, refl, Bool, true, false, some, arith}
use job_lens.Schema.{AssistanceState}
use job_lens.Support.{Action, accept, resolve, cancel, shows, closed, transition}

-- One user presses the buttons that the page shows, each of which the API takes; the number counts
-- the presses.
pub data Presses (learner : Bool) : AssistanceState → ℕ → AssistanceState → Type 0 where
  stop : {s : AssistanceState} → Presses learner s 0 s
  press :
      {s t u : AssistanceState} {n : ℕ} (a : Action)
      → shows learner s a ≡ true
      → transition learner s a ≡ some t
      → Presses learner t n u
      → Presses learner s (suc n) u

-- How many presses are left.
abbrev pub left : AssistanceState → ℕ
left AssistanceState.queued = 2
left AssistanceState.accepted = 1
left AssistanceState.resolved = 0
left AssistanceState.cancelled = 0

-- Every press takes a request nearer to its end, so no more than two are possible.
pub Presses-le :
    (learner : Bool) {s t : AssistanceState} {n : ℕ} → Presses learner s n t → n + left t ≤ left s
unfolding shows transition
Presses-le learner Presses.stop = omega arith
Presses-le learner (Presses.press a h e p) = ground (arith, Presses-le learner p)

-- From every open request the counselor's buttons lead to a resolved one, and the learner's to a
-- cancelled one, by presses that the page shows and the API takes.
pub open-closes :
    (s : AssistanceState)
    → closed s ≡ false
    → ((n : ℕ) × Presses false s n AssistanceState.resolved)
      × Presses true s 1 AssistanceState.cancelled
unfolding closed shows transition
open-closes AssistanceState.queued h = (
  (2, Presses.press accept refl refl (Presses.press resolve refl refl Presses.stop)),
  Presses.press cancel refl refl Presses.stop,
)
open-closes AssistanceState.accepted h =
    ((1, Presses.press resolve refl refl Presses.stop), Presses.press cancel refl refl Presses.stop)
open-closes AssistanceState.resolved h = absurd (ground arith)
open-closes AssistanceState.cancelled h = absurd (ground arith)
