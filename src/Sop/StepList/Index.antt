-- ===== src/Sop/StepList/Index.antt =====
-- Where an id first stands among the steps of StepList.tsx, and after two neighbours change places.
use job_lens.Common.{
  ℕ, zero, suc, ◌<◌, ◌≡◌, refl, ◌∙◌, true, String, Option, none, some, List, [], ◌∷◌, same,
  same_iff, if◌then◌else◌, length, includes, Distinct, arith,
}
use job_lens.Schema.{SopStep}
use job_lens.Sop.StepList.{find_index}
use job_lens.Sop.StepList.Numbering.{ids}
use job_lens.Sop.StepList.Moving.{swap_next}

-- The first index of an id.
pub index_of : String → List String → Option ℕ
index_of id [] = none
index_of id (x ∷ xs) =
    let later = index_of id xs in
    if same x id then some 0 else (elim later [ none ↦ none | some i ↦ some (suc i) ])

pub find_index-ids :
    (id : String) (steps : List SopStep) → find_index id steps ≡ index_of id (ids steps)
unfolding find_index index_of
find_index-ids id [] = refl
find_index-ids id (s ∷ steps) = ground (arith, find_index-ids id steps)

pub index_of-lt : (id : String) (xs : List String) (n : ℕ) → index_of id xs ≡ some n → n < length xs
unfolding index_of
index_of-lt id [] n h = cc
index_of-lt id (x ∷ xs) zero h = omega arith
index_of-lt id (x ∷ xs) (suc n) h = ground (arith, index_of-lt id xs n)

-- The id at `n + 1` comes to `n`.
pub index_of-swap_up :
    (id : String) (xs : List String) (n : ℕ)
    → index_of id xs ≡ some (suc n)
    → index_of id (swap_next n xs) ≡ some n
unfolding index_of swap_next
index_of-swap_up id [] n h = cc
index_of-swap_up id (x ∷ []) n h = ground arith
index_of-swap_up id (x ∷ y ∷ rest) zero h = ground arith
index_of-swap_up id (x ∷ y ∷ rest) (suc n) h = ground (arith, index_of-swap_up id (y ∷ rest) n)

pub index_of-not_includes :
    (id : String) (xs : List String) (n : ℕ) → index_of id xs ≡ some n → includes xs id ≡ true
unfolding index_of includes
index_of-not_includes id [] n h = cc
index_of-not_includes id (x ∷ xs) zero h = ground arith
index_of-not_includes id (x ∷ xs) (suc n) h = ground (arith, index_of-not_includes id xs n)

-- The id at `n` comes to `n + 1`, where ids are distinct.
pub index_of-swap_down :
    (id : String) (xs : List String) (n : ℕ)
    → Distinct xs
    → suc n < length xs
    → index_of id xs ≡ some n
    → index_of id (swap_next n xs) ≡ some (suc n)
unfolding index_of swap_next includes
index_of-swap_down id [] n d l h = cc
index_of-swap_down id (x ∷ []) n d l h = ground arith
index_of-swap_down id (x ∷ y ∷ rest) zero d l h =
    ground (arith, same_iff x id, same_iff y id, same_iff y x)
index_of-swap_down id (x ∷ y ∷ rest) (suc n) d l h =
    ground (arith, index_of-swap_down id (y ∷ rest) n d.1)

same_sym : (x y : String) → same x y ≡ same y x
same_sym x y = ground (arith, same_iff x y, same_iff y x)

pub includes-swap_next :
    (n : ℕ) (xs : List String) (j : String) → includes (swap_next n xs) j ≡ includes xs j
unfolding includes swap_next
includes-swap_next zero [] j = refl
includes-swap_next (suc n) [] j = refl
includes-swap_next zero (x ∷ []) j = refl
includes-swap_next zero (x ∷ y ∷ rest) j = ground arith
includes-swap_next (suc n) (x ∷ rest) j = ground (arith, includes-swap_next n rest j)

pub Distinct-swap_next : (n : ℕ) (xs : List String) → Distinct xs → Distinct (swap_next n xs)
unfolding includes swap_next
Distinct-swap_next zero [] d = d
Distinct-swap_next (suc n) [] d = d
Distinct-swap_next zero (x ∷ []) d = d
Distinct-swap_next zero (x ∷ y ∷ rest) d = ground (arith, same_sym x y)
Distinct-swap_next (suc n) (x ∷ rest) (new, d) =
    (includes-swap_next n rest x ∙ new, Distinct-swap_next n rest d)
