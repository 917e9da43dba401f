-- ===== src/Common/Ids.antt =====
-- Identifiers (UUIDs and enumeration words), which the program only compares: native texts.
use Prim.Native.String.{String}
use mathlib.Core.Path.{◌≡◌, refl, ◌∙◌}
use mathlib.Core.Logic.{◌↔◌}
use mathlib.Core.Bool.{Bool, true, false, not, ◌&&◌, ◌||◌}
use mathlib.Core.List.{List, [], ◌∷◌, ◌++◌}
use native.Mathlib.Omega.{arith}
use text.Mathlib.Text.{◌==◌ as str_eq}
use text.Mathlib.TextEquality.{eq_iff}
use text.Mathlib.TextPositions.{eq_refl}
use job_lens.Common.Tests.{if◌then◌else◌}
use Prim.Native.Nat.{◌≤◌, ◌<◌}
use job_lens.Common.Lists.{keep, length, length-keep}

abbrev pub same : String → String → Bool
same = str_eq

pub same_iff : (s t : String) → (same s t ≡ true) ↔ (s ≡ t)
same_iff = eq_iff

pub same_refl : (s : String) → same s s ≡ true
same_refl = eq_refl

-- `ids.includes(id)`, and `has` of a `Set`.
unfoldable pub includes : List String → String → Bool
includes [] i = false
includes (x ∷ xs) i = same x i || includes xs i

-- `ids.filter(item => item !== id)`, and `delete` on a `Set`.
unfoldable pub without : String → List String → List String
without i = keep (λ x. not (same x i))

-- A `Set` of ids is the list of its members in insertion order: `add` of a member changes nothing.
unfoldable pub add : String → List String → List String
unfolding includes
add i xs = if includes xs i then xs else xs ++ i ∷ []

unfoldable pub union_from : List String → List String → List String
union_from seen [] = seen
union_from seen (x ∷ xs) = union_from (add x seen) xs

-- `[...new Set(ids)]`.
unfoldable pub unique : List String → List String
unfolding union_from add
unique = union_from []

-- No id stands twice.
abbrev pub Distinct : List String → Type 0
Distinct [] = Unit
Distinct (x ∷ xs) = (includes xs x ≡ false) × Distinct xs

pub includes-append :
    (xs ys : List String) (j : String) → includes (xs ++ ys) j ≡ (includes xs j || includes ys j)
unfolding includes
includes-append [] ys j = refl
includes-append (x ∷ xs) ys j = ground (arith, includes-append xs ys j)

-- After `add`, the members are the old ones and the new one.
pub includes-add :
    (i : String) (xs : List String) (j : String)
    → includes (add i xs) j ≡ (includes xs j || same i j)
unfolding add
includes-add i xs j = ground (arith, includes-append xs (i ∷ []) j, eq_iff i j)

pub includes-without :
    (i : String) (xs : List String) (j : String)
    → includes (without i xs) j ≡ (includes xs j && not (same i j))
unfolding includes without
includes-without i [] j = refl
includes-without i (x ∷ xs) j =
    ground (arith, includes-without i xs j, eq_iff i j, eq_iff x i, eq_iff x j)

pub Distinct-append_one :
    (xs : List String) (i : String) → Distinct xs → includes xs i ≡ false → Distinct (xs ++ i ∷ [])
unfolding includes
Distinct-append_one [] i _ _ = (refl, tt)
Distinct-append_one (x ∷ xs) i (new, d) h = (
  ground (arith, includes-append xs (i ∷ []) x, eq_iff i x, eq_iff x i),
  Distinct-append_one xs i d (ground arith),
)

pub Distinct-add : (i : String) (xs : List String) → Distinct xs → Distinct (add i xs)
unfolding add
Distinct-add i xs d = ground (arith, Distinct-append_one xs i d)

pub Distinct-without : (i : String) (xs : List String) → Distinct xs → Distinct (without i xs)
unfolding without
Distinct-without i [] d = tt
Distinct-without i (x ∷ xs) (new, d) =
    ground (arith, Distinct-without i xs d, includes-without i xs x)

Distinct-union_from : (seen xs : List String) → Distinct seen → Distinct (union_from seen xs)
unfolding union_from
Distinct-union_from seen [] d = d
Distinct-union_from seen (x ∷ xs) d = Distinct-union_from (add x seen) xs (Distinct-add x seen d)

includes-union_from :
    (seen xs : List String) (j : String)
    → includes (union_from seen xs) j ≡ (includes seen j || includes xs j)
unfolding union_from includes
includes-union_from [] [] j = refl
includes-union_from (s ∷ seen) [] j = ground arith
includes-union_from seen (x ∷ xs) j =
    ground (arith, includes-union_from (add x seen) xs j, includes-add x seen j)

-- `unique` gives distinct ids.
pub unique-Distinct : (xs : List String) → Distinct (unique xs)
unfolding unique
unique-Distinct xs = Distinct-union_from [] xs tt

-- `unique` keeps the members.
pub includes-unique : (xs : List String) (j : String) → includes (unique xs) j ≡ includes xs j
unfolding unique
includes-unique xs j = includes-union_from [] xs j ∙ (unfold includes in refl)

-- Taking a member out shortens a list.
length-without :
    (i : String) (xs : List String) → includes xs i ≡ true → length (without i xs) < length xs
unfolding includes without
length-without i [] h = absurd (ground arith)
length-without i (x ∷ xs) h =
    ground (arith, length-without i xs, length-keep (λ y. not (same y i)) xs)

-- Distinct ids that all stand in another list are no more than that list is long.
pub Distinct-length :
    (xs ys : List String)
    → Distinct xs
    → ((j : String) → includes xs j ≡ true → includes ys j ≡ true)
    → length xs ≤ length ys
unfolding includes
Distinct-length [] ys d h = omega arith
Distinct-length (x ∷ xs) ys (new, d) h = omega (
  arith,
  Distinct-length xs (without x ys) d
      λ j k. ground (arith, h j, includes-without x ys j, eq_iff x j),
  length-without x ys (h x (ground (arith, eq_iff x x))),
)
