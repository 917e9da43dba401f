-- ===== src/Boundaries/Patterns.antt =====
-- The regular expressions of check-boundaries.mjs against the segments of a path.
use job_lens.Common.{
  ◌≡◌, refl, ap, sym, ◌∙◌, ◌↔◌, Bool, true, false, not, ◌&&◌, Text, text_eq, text_eq_iff, codes,
  none, some, List, [], ◌∷◌, ◌++◌, if◌then◌else◌, is_empty, Bool-cases, Option-cases, inl, inr,
  arith,
}
use job_lens.Boundaries.{segment, strip, own_of, other_of, is_public, features_dir}
use job_lens.Boundaries.Paths.{split, join}
use job_lens.Boundaries.Segments.{
  is_plain, in_dir, in_dir-none, strip-split, split_cons, split-segment, segment-plain, split-plain,
  join-split,
}
use job_lens.Boundaries.Layers.{own_feature, named_feature, same_path}

own_none : (ts : List Text) → in_dir (codes "features") ts ≡ false → own_feature ts ≡ none
own_none [] h = refl
own_none (s ∷ []) h = refl
own_none (s ∷ x ∷ []) h = refl
own_none (s ∷ x ∷ y ∷ ys) h = ground arith

named_none : (ts : List Text) → in_dir (codes "features") ts ≡ false → named_feature ts ≡ none
named_none [] h = refl
named_none (s ∷ []) h = refl
named_none (s ∷ x ∷ xs) h = ground arith

own_cons :
    (r : Text)
    → own_feature (codes "features" ∷ split r)
      ≡ (if not (is_empty (segment r).0) && (segment r).1 then some (segment r).0 else none)
unfolding text_eq
own_cons r = elim (Bool-cases (segment r).1) [
  | inl more ↦
      let (t, e) = (split-segment r).0 more in
      let (s, ss, c) = split_cons t in rw (e, c, more) (ground arith)
  | inr last ↦ rw ((split-segment r).1 last, last) (ground arith)
]

named_cons :
    (r : Text)
    → named_feature (codes "features" ∷ split r)
      ≡ (if not (is_empty (segment r).0) then some (segment r).0 else none)
unfolding text_eq
named_cons r = elim (Bool-cases (segment r).1) [
  | inl more ↦ let (t, e) = (split-segment r).0 more in rw e refl
  | inr last ↦ rw ((split-segment r).1 last) refl
]

pub own_of-split : (file : Text) → own_of file ≡ own_feature (split file)
unfolding own_of
own_of-split file = elim (Option-cases (strip features_dir file)) [
  | inl e ↦ rw e (sym (own_none (split file) (in_dir-none (codes "features") file e)))
  | inr (r, e) ↦ rw (e, strip-split (codes "features") file r refl e) (sym (own_cons r))
]

pub other_of-split : (target : Text) → other_of target ≡ named_feature (split target)
unfolding other_of
other_of-split target = elim (Option-cases (strip features_dir target)) [
  | inl e ↦ rw e (sym (named_none (split target) (in_dir-none (codes "features") target e)))
  | inr (r, e) ↦ rw (e, strip-split (codes "features") target r refl e) (sym (named_cons r))
]

pub other_of-plain : (target g : Text) → other_of target ≡ some g → is_plain g ≡ true
unfolding other_of
other_of-plain target g h = elim (Option-cases (strip features_dir target)) [
  | inl e ↦ absurd (ground (arith, e, h))
  | inr (r, e) ↦ ground (arith, e, h, segment-plain r)
]

same_path_iff : (ss ts : List Text) → (same_path ss ts ≡ true) ↔ (ss ≡ ts)
unfolding same_path
same_path_iff [] [] = ground arith
same_path_iff [] (t ∷ ts) = ground arith
same_path_iff (s ∷ ss) [] = ground arith
same_path_iff (s ∷ ss) (t ∷ ts) = ground (arith, text_eq_iff s t, same_path_iff ss ts)

by_iff : (a b : Bool) → (a ≡ true → b ≡ true) → (b ≡ true → a ≡ true) → a ≡ b
by_iff a b f g = ground (arith, f, g)

public_path : Text → Text
public_path g = codes "features/" ++ g ++ codes "/public"

split-public_path :
    (g : Text)
    → is_plain g ≡ true
    → split (public_path g) ≡ codes "features" ∷ g ∷ codes "public" ∷ []
unfolding public_path split
split-public_path g h =
    split-plain (codes "features") (g ++ codes "/public") refl
    ∙ ap (λ ss. codes "features" ∷ ss) (split-plain g (codes "public") h)

pub is_public-split :
    (g target : Text)
    → is_plain g ≡ true
    → is_public g target ≡ same_path (split target) (codes "features" ∷ g ∷ codes "public" ∷ [])
unfolding is_public public_path
is_public-split g target h =
    by_iff _ _
      (λ e.
        (same_path_iff _ _).1
          (ap split ((text_eq_iff target (public_path g)).0 e) ∙ split-public_path g h))
      (λ e. (text_eq_iff target (public_path g)).1 (
        sym (join-split target)
        ∙ ap join ((same_path_iff _ _).0 e ∙ sym (split-public_path g h))
        ∙ join-split (public_path g)))
