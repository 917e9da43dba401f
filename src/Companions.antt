-- ===== src/Companions.antt =====
-- apps/web/src/shared/ui/companionMotion.ts and Companions.tsx: whether the companions move, which the
-- reader turns on and off, kept in the browser's storage or, where that fails, in memory.
pub mod Buddy
pub mod Gaze
mod Tests
use job_lens.Common.{
  ◌≡◌, refl, ◌↔◌, Bool, true, false, not, ◌&&◌, ◌||◌, Text, text_eq, codes, Option, none, some,
  if◌then◌else◌, arith, Bool-cases, inl, inr,
}

-- The module's `fallback` and the browser: whether `localStorage.getItem` and `setItem` work or
-- throw, what is stored under the key, and `(prefers-reduced-motion: reduce)`.
pub record Motion : Type 0 where
  pub fallback : Bool
  pub readable : Bool
  pub writable : Bool
  pub stored : Option Text
  pub reduce : Bool

-- `localStorage.getItem(key) !== 'off'`.
unfoldable pub is_on : Option Text → Bool
unfolding text_eq
is_on none = true
is_on (some t) = not (text_eq t (codes "off"))

unfoldable pub saved : Motion → Bool
unfolding is_on
saved m = if m.readable then is_on m.stored else m.fallback

unfoldable pub reduced : Motion → Bool
reduced m = m.reduce

unfoldable pub active : Motion → Bool
unfolding saved reduced
active m = saved m && not (reduced m)

-- `localStorage.setItem(key, ...)`, whose failure is caught.
store : Text → Motion → Motion
store t m = if m.writable then record m { stored = some t } else m

-- `toggle`; the event that it dispatches makes the components read the state again.
unfoldable pub toggle : Motion → Motion
unfolding saved store
toggle m =
    let on = not (saved m) in
    store (if on then codes "on" else codes "off") (record m { fallback = on })

-- The button of the companions.
pub record Control : Type 0 where
  pub label : Text
  pub disabled : Bool
  pub pauses : Bool

unfoldable pub control : Motion → Control
unfolding active reduced
control m = record {
  label =
      if reduced m then codes "已按系统设置关闭动效" else if active m then codes "暂停伙伴动效" else codes "开启伙伴动效";
  disabled = reduced m;
  pauses = active m;
}

-- A click on the button, which a disabled one ignores.
unfoldable pub press : Motion → Motion
unfolding control reduced toggle
press m = if (control m).disabled then m else toggle m

is_on-word : (b : Bool) → is_on (some (if b then codes "on" else codes "off")) ≡ b
unfolding is_on text_eq
is_on-word true = refl
is_on-word false = refl

saved-toggle :
    (m : Motion)
    → saved (toggle m) ≡ (if m.readable && not m.writable then saved m else not (saved m))
unfolding toggle saved store
saved-toggle m = ground (arith, is_on-word (not (saved m)))

-- A press of the button turns the motion of the companions round, except where the system asks for
-- less motion, and where the storage can be read and not written: there whether they move stays as
-- it was.
pub press-active :
    (m : Motion)
    → active (press m)
      ≡ (if m.reduce || (m.readable && not m.writable) then active m else not (active m))
unfolding press active control reduced toggle store
press-active m = ground (arith, saved-toggle m)
