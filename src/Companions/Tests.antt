-- ===== src/Companions/Tests.antt =====
-- The companions on concrete inputs.
use job_lens.Common.{ℕ, ◌≡◌, ◌+◌, ◌*◌, ◌/◌, ◌-◌, refl, true, false, none, leb, ltb, arith}
use job_lens.Common.Percent.{le_self, le_total}
use job_lens.Companions.{Motion, active, toggle, press, press-active}
use job_lens.Companions.Gaze.{Numbers}

-- Storage that answers reads and refuses writes.
abbrev full : Motion
full = record { fallback = true; readable = true; writable = false; stored = none; reduce = false }

press-active_example : active (press full) ≡ active full
press-active_example = press-active full

paused_in_memory : active (press (record full { readable = false })) ≡ false
unfolding active press toggle
paused_in_memory = refl

-- Hundredths, where 100 stands for 0.
blend_above :
    (lo a b : ℕ) → leb lo a ≡ true → leb lo b ≡ true → leb lo ((94 * a + 6 * b) / 100) ≡ true
blend_above lo a b h k = ground arith

blend_below :
    (hi a b : ℕ) → leb a hi ≡ true → leb b hi ≡ true → leb ((94 * a + 6 * b) / 100) hi ≡ true
blend_below hi a b h k = ground arith

abbrev hundredths : Numbers
hundredths = record {
  Num = ℕ;
  minus_one = 0;
  one = 200;
  start = 120;
  level = 100;
  aside = 125;
  leb = leb;
  blend = λ a b. (94 * a + 6 * b) / 100;
  Time = ℕ;
  origin = 0;
  rested = λ now last. ltb 4000 (now - last);
  sway_turn = λ t. 160;
  sway_nod = λ t. 100;
  leb_refl = le_self;
  leb_total = le_total;
  blend-above = blend_above;
  blend-below = blend_below;
  ends = refl;
  start_above = refl;
  start_below = refl;
  level_above = refl;
  level_below = refl;
  aside_above = refl;
  aside_below = refl;
  turn_above = λ t. refl;
  turn_below = λ t. refl;
  nod_above = λ t. refl;
  nod_below = λ t. refl;
}
