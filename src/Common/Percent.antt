-- ===== src/Common/Percent.antt =====
-- Numbers from 0 up in whole percent, where 100 stands for 1: the interface of `Numbers` can be met.
use Prim.Native.Nat.{ℕ, ◌-◌, ◌*◌, ◌/◌}
use mathlib.Core.Path.{◌≡◌, refl}
use mathlib.Core.Bool.{true, false}
use native.Mathlib.Omega.{arith}
use job_lens.Common.Tests.{leb}
use job_lens.Common.Numbers.{Numbers}

pub le_self : (a : ℕ) → leb a a ≡ true
le_self a = ground arith

pub le_total : (a b : ℕ) → leb a b ≡ false → leb b a ≡ true
le_total a b h = ground arith

abbrev pub percent : Numbers
percent = record {
  Num = ℕ;
  zero = 0;
  half = 50;
  one = 100;
  leb = leb;
  sub = λ a b. a - b;
  div = λ a b. a * 100 / b;
  leb_refl = le_self;
  leb_total = le_total;
  zero-leb-half = refl;
  half-leb-one = refl;
  zero-leb-one = refl;
}
