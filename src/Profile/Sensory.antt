-- ===== src/Profile/Sensory.antt =====
-- The list of sensory preferences in one text field.
use job_lens.Common.{
  ℕ, ◌≡◌, refl, ap, ◌∙◌, false, Text, List, [], ◌∷◌, ◌++◌, map, is_empty, keep, trim, trim_idem,
  trim-any, any, All, Bool-cases, inl, inr, arith,
}
use job_lens.Profile.{is_separator, put_in_front, split, join, is_given, items}

-- An item of the list: trimmed, not empty, and with no separator in it.
abbrev pub IsItem : Text → Type 0
IsItem t = (trim t ≡ t) × (is_empty t ≡ false) × (any is_separator t ≡ false)

-- A piece of a split text.
abbrev IsPiece : Text → Type 0
IsPiece t = any is_separator t ≡ false

put_in_front-All :
    (c : ℕ) (ps : List Text)
    → is_separator c ≡ false
    → All IsPiece ps
    → All IsPiece (put_in_front c ps)
unfolding put_in_front
put_in_front-All c [] h ps = (ground arith, tt)
put_in_front-All c (p ∷ rest) h (k, ps) = (ground arith, ps)

split-All : (t : Text) → All IsPiece (split t)
unfolding split
split-All [] = (refl, tt)
split-All (c ∷ t) = elim (Bool-cases (is_separator c)) [
  | inl cut ↦ rw cut (refl, split-All t)
  | inr inside ↦ rw inside (put_in_front-All c (split t) inside (split-All t))
]

kept-IsItem : (ps : List Text) → All IsPiece ps → All IsItem (keep is_given (map trim ps))
kept-IsItem [] h = tt
kept-IsItem (p ∷ ps) (k, h) = elim (Bool-cases (is_empty (trim p))) [
  | inl blank ↦ rw blank (kept-IsItem ps h)
  | inr given ↦ rw given ((trim_idem p, given, trim-any is_separator p k), kept-IsItem ps h)
]

split_plain : (x : Text) → any is_separator x ≡ false → split x ≡ x ∷ []
unfolding split put_in_front
split_plain [] h = refl
split_plain (c ∷ x) h = ground (arith, split_plain x)

split-append : (x t : Text) → any is_separator x ≡ false → split (x ++ 0x3001 ∷ t) ≡ x ∷ split t
unfolding split put_in_front
split-append [] t h = refl
split-append (c ∷ x) t h = ground (arith, split-append x t)

items_one : (x : Text) → IsItem x → keep is_given (map trim (x ∷ [])) ≡ x ∷ []
items_one x (t, e, s) = rw (t, e) refl

items_more :
    (x : Text) (ps : List Text)
    → IsItem x
    → keep is_given (map trim (x ∷ ps)) ≡ x ∷ keep is_given (map trim ps)
items_more x ps (t, e, s) = rw (t, e) refl

join_items : (xs : List Text) → All IsItem xs → items (join xs) ≡ xs
unfolding items join split trim
join_items [] h = refl
join_items (x ∷ []) (i, _) =
    ap (λ ps. keep is_given (map trim ps)) (split_plain x i.2) ∙ items_one x i
join_items (x ∷ y ∷ ys) (i, h) =
    ap (λ ps. keep is_given (map trim ps)) (split-append x (join (y ∷ ys)) i.2)
    ∙ (items_more x (split (join (y ∷ ys))) i ∙ ap (λ l. x ∷ l) (join_items (y ∷ ys) h))

-- A list of items (trimmed, not empty, without separators) that the field shows is read back as
-- that list; and whatever is typed is read as a list of such items.
pub items-join :
    (xs : List Text) (typed : Text)
    → All IsItem xs
    → (items (join xs) ≡ xs) × All IsItem (items typed)
items-join xs typed h =
    (join_items xs h, unfold items in kept-IsItem (split typed) (split-All typed))
