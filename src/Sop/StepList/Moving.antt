-- ===== src/Sop/StepList/Moving.antt =====
-- Moving a step up or down (StepList.tsx): the exchange of two neighbours.
use job_lens.Common.{
  ℕ, zero, suc, ◌≡◌, refl, ap, sym, ◌∙◌, Option, none, some, List, [], ◌∷◌, map, length, get_elem?,
  arith,
}
use job_lens.Schema.{SopStep}
use job_lens.Sop.StepList.{numbered, renumber_from, renumber, swap_values, swap}

-- The list with the elements at `n` and `n + 1` exchanged, where both are there.
unfoldable pub swap_next {ℓ} : {A : Type ℓ} → ℕ → List A → List A
swap_next n [] = []
swap_next zero (x ∷ []) = x ∷ []
swap_next zero (x ∷ y ∷ rest) = y ∷ x ∷ rest
swap_next (suc n) (x ∷ rest) = x ∷ swap_next n rest

pub swap_next_twice {ℓ} : {A : Type ℓ} (n : ℕ) (xs : List A) → swap_next n (swap_next n xs) ≡ xs
unfolding swap_next
swap_next_twice zero [] = refl
swap_next_twice (suc n) [] = refl
swap_next_twice zero (x ∷ []) = refl
swap_next_twice zero (x ∷ y ∷ rest) = refl
swap_next_twice (suc n) (x ∷ rest) = ap (λ t. x ∷ t) (swap_next_twice n rest)

pub length-swap_next {ℓ} : {A : Type ℓ} (n : ℕ) (xs : List A) → length (swap_next n xs) ≡ length xs
unfolding swap_next
length-swap_next zero [] = refl
length-swap_next (suc n) [] = refl
length-swap_next zero (x ∷ []) = refl
length-swap_next zero (x ∷ y ∷ rest) = refl
length-swap_next (suc n) (x ∷ rest) = ap suc (length-swap_next n rest)

pub map-swap_next {ℓ κ} :
    {A : Type ℓ} {B : Type κ} (f : A → B) (n : ℕ) (xs : List A)
    → map f (swap_next n xs) ≡ swap_next n (map f xs)
unfolding swap_next
map-swap_next f zero [] = refl
map-swap_next f (suc n) [] = refl
map-swap_next f zero (x ∷ []) = refl
map-swap_next f zero (x ∷ y ∷ rest) = refl
map-swap_next f (suc n) (x ∷ rest) = ap (λ t. f x ∷ t) (map-swap_next f n rest)

swap_values-suc :
    (i j : ℕ) (a b : Option SopStep) (x : SopStep) (xs : List SopStep)
    → swap_values (suc i) (suc j) a b (x ∷ xs) ≡ x ∷ swap_values i j a b xs
unfolding swap_values
swap_values-suc i j (some a) (some b) x xs = refl
swap_values-suc i j (some a) none x xs = refl
swap_values-suc i j none b x xs = refl

pub swap_down : (n : ℕ) (xs : List SopStep) → swap n (suc n) xs ≡ swap_next n xs
unfolding swap swap_next
swap_down zero [] = refl
swap_down (suc n) [] = refl
swap_down zero (x ∷ []) = refl
swap_down zero (x ∷ y ∷ rest) = refl
swap_down (suc n) (x ∷ rest) =
    swap_values-suc n (suc n) (get_elem? rest n) (get_elem? rest (suc n)) x rest
    ∙ ap (λ t. x ∷ t) (swap_down n rest)

pub swap_up : (n : ℕ) (xs : List SopStep) → swap (suc n) n xs ≡ swap_next n xs
unfolding swap swap_next
swap_up zero [] = refl
swap_up (suc n) [] = refl
swap_up zero (x ∷ []) = refl
swap_up zero (x ∷ y ∷ rest) = refl
swap_up (suc n) (x ∷ rest) =
    swap_values-suc (suc n) n (get_elem? rest (suc n)) (get_elem? rest n) x rest
    ∙ ap (λ t. x ∷ t) (swap_up n rest)

-- All of a step but its position.
abbrev erase : SopStep → SopStep
erase s = record s { position = 0 }

numbered-erase : (i : ℕ) (s : SopStep) → numbered i (erase s) ≡ numbered i s
unfolding numbered
numbered-erase i s = ground arith

erase-numbered : (i : ℕ) (s : SopStep) → erase (numbered i s) ≡ erase s
unfolding numbered
erase-numbered i s = ground arith

renumber_from-erase :
    (i : ℕ) (xs : List SopStep) → renumber_from i (map erase xs) ≡ renumber_from i xs
unfolding renumber_from
renumber_from-erase i [] = refl
renumber_from-erase i (s ∷ xs) = cc (numbered-erase i s, renumber_from-erase (suc i) xs)

erase-renumber_from : (i : ℕ) (xs : List SopStep) → map erase (renumber_from i xs) ≡ map erase xs
unfolding renumber_from
erase-renumber_from i [] = refl
erase-renumber_from i (s ∷ xs) = cc (erase-numbered i s, erase-renumber_from (suc i) xs)

-- Numbering before an exchange does not show after the next numbering.
pub renumber-swap_next :
    (n : ℕ) (xs : List SopStep) → renumber (swap_next n (renumber xs)) ≡ renumber (swap_next n xs)
unfolding renumber
renumber-swap_next n xs =
    sym (renumber_from-erase 0 (swap_next n (renumber_from 0 xs)))
    ∙ (ap (renumber_from 0) (
          map-swap_next erase n (renumber_from 0 xs)
          ∙ (ap (swap_next n) (erase-renumber_from 0 xs) ∙ sym (map-swap_next erase n xs)))
        ∙ renumber_from-erase 0 (swap_next n xs))
