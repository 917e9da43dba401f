-- ===== src/Landing/Preview.antt =====
-- `TrainingPreview` of apps/web/src/app/LandingPage.tsx.
use job_lens.Common.{
  ℕ, zero, suc, ◌+◌, ◌<◌, ◌≡◌, refl, Bool, true, Option, List, [], ◌∷◌, ◌++◌, if◌then◌else◌,
  get_elem?, is_some, length, ltb, ◌==◌, arith,
}
use job_lens.Landing.{DemoStep, demo_steps}

-- The mark of a step's button: a tick, or its number.
pub data Mark : Type 0 where
  tick : Mark
  number : ℕ → Mark

unfoldable pub mark : ℕ → ℕ → Mark
mark step index = if ltb index step then tick else number (index + 1)

unfoldable pub is_pressed : ℕ → ℕ → Bool
is_pressed step index = index == step

-- `demoSteps[step]`.
unfoldable pub current : ℕ → Option DemoStep
unfolding demo_steps
current step = get_elem? demo_steps step

unfoldable pub next_disabled : ℕ → Bool
next_disabled step = step == 2

pub data Event : Type 0 where
  next : Event
  chosen : (index : ℕ) → Event

-- The buttons: one for each step, and one for the next step, which is disabled at the last.
unfoldable pub press : Event → ℕ → ℕ
unfolding next_disabled demo_steps
press next step = if next_disabled step then step else step + 1
press (chosen index) step = if ltb index (length demo_steps) then index else step

unfoldable pub run : List Event → ℕ → ℕ
unfolding press
run [] step = step
run (e ∷ es) step = run es (press e step)

press-lt : (e : Event) (step : ℕ) → step < 3 → press e step < 3
unfolding press next_disabled demo_steps
press-lt next step h = ground arith
press-lt (chosen index) step h = ground arith

run-lt : (es : List Event) (step : ℕ) → step < 3 → run es step < 3
unfolding run
run-lt [] step h = h
run-lt (e ∷ es) step h = run-lt es (press e step) (press-lt e step h)

abbrev pub nexts : ℕ → List Event
nexts zero = []
nexts (suc k) = next ∷ nexts k

current-lt : (step : ℕ) → step < 3 → is_some (current step) ≡ true
unfolding current demo_steps
current-lt zero h = refl
current-lt (suc zero) h = refl
current-lt (suc (suc zero)) h = refl
current-lt (suc (suc (suc k))) h = absurd (omega arith)

nexts-end : (step : ℕ) → step < 3 → run (nexts 2) step ≡ 2
unfolding run press next_disabled
nexts-end step h = ground arith

run-append : (es fs : List Event) (step : ℕ) → run (es ++ fs) step ≡ run fs (run es step)
unfolding run
run-append [] fs step = refl
run-append (e ∷ es) fs step = run-append es fs (press e step)

-- Whatever is pressed in the preview, there is a step to show, and two presses of "下一步" from there
-- reach the end, where the button is disabled.
pub run-shows :
    (es : List Event)
    → (is_some (current (run es 0)) ≡ true) × (next_disabled (run (es ++ nexts 2) 0) ≡ true)
unfolding next_disabled
run-shows es =
    let low = run-lt es 0 (omega arith) in
    (current-lt (run es 0) low, rw (run-append es (nexts 2) 0, nexts-end (run es 0) low) refl)
