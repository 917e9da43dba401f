-- ===== src/Common/Numbers.antt =====
-- JavaScript's finite numbers where the program divides or takes fractions: a parameter, with the
-- order and the constants that the program relies on. NaN is not among them.
use mathlib.Core.Path.{◌≡◌}
use mathlib.Core.Bool.{Bool, true, false}
use native.Mathlib.Omega.{arith}
use job_lens.Common.Tests.{if◌then◌else◌}

pub record Numbers : Type 1 where
  pub Num : Type 0
  pub zero : Num
  pub half : Num
  pub one : Num
  pub leb : Num → Num → Bool
  pub sub : Num → Num → Num
  pub div : Num → Num → Num
  pub leb_refl : (a : Num) → leb a a ≡ true
  pub leb_total : (a b : Num) → leb a b ≡ false → leb b a ≡ true
  pub zero-leb-half : leb zero half ≡ true
  pub half-leb-one : leb half one ≡ true
  pub zero-leb-one : leb zero one ≡ true

module _ (N : Numbers) where
  open N use {Num, zero, one, leb}

  -- `Math.min` and `Math.max`.
  abbrev pub min : Num → Num → Num
  min a b = if leb a b then a else b

  abbrev pub max : Num → Num → Num
  max a b = if leb a b then b else a

  -- `Math.min(1, Math.max(0, v))`.
  unfoldable pub clamp : Num → Num
  clamp v = min one (max zero v)

  -- From 0 to 1.
  abbrev pub InUnit : Num → Type 0
  InUnit v = (leb zero v ≡ true) × (leb v one ≡ true)

  pub clamp-InUnit : (v : Num) → InUnit (clamp v)
  unfolding clamp
  clamp-InUnit v = ground (
    arith,
    N.leb_total zero v,
    N.leb_total one v,
    N.leb_total one zero,
    N.zero-leb-one,
    N.leb_refl one,
    N.leb_refl zero,
  )
