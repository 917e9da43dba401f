-- ===== src/Common/Texts.antt =====
-- Text that the program walks, as a list of UTF-16 code units, with `trim` and equality.
use Prim.Native.Char.{code}
use Prim.Native.Nat.{ℕ, ◌≤◌}
use Prim.Native.String.{String}
use mathlib.Core.Path.{◌≡◌, refl}
use mathlib.Core.Logic.{◌↔◌}
use mathlib.Core.Bool.{Bool, true, false, not, ◌&&◌, ◌||◌}
use mathlib.Core.List.{List, [], ◌∷◌}
use native.Mathlib.Omega.{arith}
use job_lens.Common.Tests.{leb, ◌==◌, if◌then◌else◌}
use job_lens.Common.Lists.{all, any, is_empty, length}

abbrev pub Text : Type 0
Text = List ℕ

-- A literal of the source. Its characters lie in the basic plane, one code unit each.
abbrev pub codes : String → Text
codes String.[] = []
codes (String.◌∷◌ c s) = code c ∷ codes s

-- The white space and line terminators that ECMAScript's `trim` removes.
unfoldable pub is_space : ℕ → Bool
is_space c =
    (leb 9 c && leb c 13)
    || c == 32
    || c == 160
    || c == 0x1680
    || (leb 0x2000 c && leb c 0x200a)
    || c == 0x2028
    || c == 0x2029
    || c == 0x202f
    || c == 0x205f
    || c == 0x3000
    || c == 0xfeff

trim_start : Text → Text
trim_start [] = []
trim_start (c ∷ s) = let rest = trim_start s in if is_space c then rest else c ∷ s

trim_end : Text → Text
trim_end [] = []
trim_end (c ∷ s) = let rest = trim_end s in if is_empty rest && is_space c then [] else c ∷ rest

unfoldable pub trim : Text → Text
unfolding trim_start trim_end is_space
trim s = trim_end (trim_start s)

-- `s.trim() !== ''`, and the truth value of `s.trim()`.
abbrev pub filled : Text → Bool
filled s = not (is_empty (trim s))

trim_end_empty : (s : Text) → is_empty (trim_end s) ≡ all is_space s
unfolding trim_end
trim_end_empty [] = refl
trim_end_empty (c ∷ s) = ground (arith, trim_end_empty s)

trim_end_idem : (s : Text) → trim_end (trim_end s) ≡ trim_end s
unfolding trim_end
trim_end_idem [] = refl
trim_end_idem (c ∷ s) = ground (arith, trim_end_idem s)

trim_end-trim_start : (s : Text) → trim_start (trim_end (trim_start s)) ≡ trim_end (trim_start s)
unfolding trim_start trim_end
trim_end-trim_start [] = refl
trim_end-trim_start (c ∷ s) = ground (arith, trim_end-trim_start s)

-- Trimming a second time changes nothing.
pub trim_idem : (s : Text) → trim (trim s) ≡ trim s
unfolding trim
trim_idem s = rw (trim_end-trim_start s) (trim_end_idem (trim_start s))

trim_start_blank : (s : Text) → all is_space (trim_start s) ≡ all is_space s
unfolding trim_start
trim_start_blank [] = refl
trim_start_blank (c ∷ s) = ground (arith, trim_start_blank s)

-- A text is filled exactly when it holds something other than white space.
pub filled-not_blank : (s : Text) → filled s ≡ not (all is_space s)
unfolding trim
filled-not_blank s = rw (trim_end_empty (trim_start s), trim_start_blank s)

pub filled-trim : (s : Text) → filled (trim s) ≡ filled s
filled-trim s = rw (trim_idem s)

length-trim_start : (s : Text) → length (trim_start s) ≤ length s
unfolding trim_start
length-trim_start [] = omega arith
length-trim_start (c ∷ s) = ground (arith, length-trim_start s)

length-trim_end : (s : Text) → length (trim_end s) ≤ length s
unfolding trim_end
length-trim_end [] = omega arith
length-trim_end (c ∷ s) = ground (arith, length-trim_end s)

-- Trimming keeps a text within its limit.
pub length-trim : (s : Text) → length (trim s) ≤ length s
unfolding trim
length-trim s = omega (arith, length-trim_end (trim_start s), length-trim_start s)

-- Equality of texts, as `===` on strings.
unfoldable pub text_eq : Text → Text → Bool
text_eq [] [] = true
text_eq (c ∷ s) (d ∷ t) = c == d && text_eq s t
text_eq _ _ = false

pub text_eq_iff : (s t : Text) → (text_eq s t ≡ true) ↔ (s ≡ t)
unfolding text_eq
text_eq_iff [] [] = ground arith
text_eq_iff [] (d ∷ t) = ground arith
text_eq_iff (c ∷ s) [] = ground arith
text_eq_iff (c ∷ s) (d ∷ t) = ground (arith, text_eq_iff s t)

trim_start-any : (p : ℕ → Bool) (s : Text) → any p s ≡ false → any p (trim_start s) ≡ false
unfolding trim_start
trim_start-any p [] h = refl
trim_start-any p (c ∷ s) h = ground (arith, trim_start-any p s)

trim_end-any : (p : ℕ → Bool) (s : Text) → any p s ≡ false → any p (trim_end s) ≡ false
unfolding trim_end
trim_end-any p [] h = refl
trim_end-any p (c ∷ s) h = ground (arith, trim_end-any p s)

-- Trimming brings no character in.
pub trim-any : (p : ℕ → Bool) (s : Text) → any p s ≡ false → any p (trim s) ≡ false
unfolding trim
trim-any p s h = trim_end-any p (trim_start s) (trim_start-any p s h)

-- `s.startsWith(prefix)`.
unfoldable pub starts_with : Text → Text → Bool
starts_with [] t = true
starts_with (_ ∷ _) [] = false
starts_with (p ∷ ps) (c ∷ t) = p == c && starts_with ps t

-- `s.includes(part)`.
unfoldable pub contains : Text → Text → Bool
unfolding starts_with
contains part [] = is_empty part
contains part (c ∷ t) = starts_with part (c ∷ t) || contains part t

pub contains_empty : (t : Text) → contains [] t ≡ true
unfolding contains starts_with
contains_empty [] = refl
contains_empty (c ∷ t) = refl
