-- ===== src/Boundaries/Segments.antt =====
-- Texts against their segments: what the prefixes and patterns of check-boundaries.mjs say of the
-- segments between the slashes.
use job_lens.Common.{
  ℕ, ◌≡◌, refl, ap, ap, sym, ◌∙◌, Bool, true, false, not, Text, text_eq, text_eq_iff, none, some,
  List, [], ◌∷◌, ◌++◌, is_some, all, starts_with, ◌==◌, Bool-cases, Option-cases, inl, inr, arith,
}
use job_lens.Boundaries.{segment, strip}
use job_lens.Boundaries.Paths.{split, join, cons_head}

-- No slash.
abbrev pub is_plain : Text → Bool
is_plain = all (λ c. not (c == b'/'))

pub split-plain : (w t : Text) → is_plain w ≡ true → split (w ++ b'/' ∷ t) ≡ w ∷ split t
unfolding split
split-plain [] t h = refl
split-plain (c ∷ w) t h = ground (arith, split-plain w t)

split-one : (w : Text) → is_plain w ≡ true → split w ≡ w ∷ []
unfolding split
split-one [] h = refl
split-one (c ∷ w) h = ground (arith, split-one w)

-- The first segment, and whether another follows it.
pub split-segment :
    (t : Text)
    → ((segment t).1 ≡ true → (r : Text) × (split t ≡ (segment t).0 ∷ split r))
      × ((segment t).1 ≡ false → split t ≡ (segment t).0 ∷ [])
unfolding split segment
split-segment [] = (λ h. absurd (ground arith), λ h. refl)
split-segment (c ∷ t) = elim (Bool-cases (c == b'/')) [
  | inl slash ↦ rw slash (λ h. (t, refl), λ h. absurd (ground arith))
  | inr other ↦ rw other (
    λ h. let (r, e) = (split-segment t).0 h in (r, ap (cons_head c) e),
    λ h. ap (cons_head c) ((split-segment t).1 h),
  )
]

pub segment-plain : (t : Text) → is_plain (segment t).0 ≡ true
unfolding segment
segment-plain [] = refl
segment-plain (c ∷ t) = ground (arith, segment-plain t)

strip-some : (w t r : Text) → strip w t ≡ some r → t ≡ w ++ r
unfolding strip
strip-some [] t r h = ground arith
strip-some (p ∷ w) [] r h = absurd (ground arith)
strip-some (p ∷ w) (c ∷ t) r h = ground (arith, strip-some w t r)

starts_with-strip : (w t : Text) → starts_with w t ≡ is_some (strip w t)
unfolding starts_with strip
starts_with-strip [] t = refl
starts_with-strip (p ∷ w) [] = refl
starts_with-strip (p ∷ w) (c ∷ t) = ground (arith, starts_with-strip w t)

join-cons_head : (c : ℕ) (ss : List Text) → join (cons_head c ss) ≡ c ∷ join ss
unfolding join
join-cons_head c [] = refl
join-cons_head c (s ∷ []) = refl
join-cons_head c (s ∷ r ∷ rs) = refl

pub split_cons : (t : Text) → (s : Text) × (ss : List Text) × (split t ≡ s ∷ ss)
split_cons t = elim (Bool-cases (segment t).1) [
  | inl more ↦ let (r, e) = (split-segment t).0 more in ((segment t).0, split r, e)
  | inr last ↦ ((segment t).0, [], (split-segment t).1 last)
]

join-nil : (t : Text) → join ([] ∷ split t) ≡ b'/' ∷ join (split t)
unfolding join
join-nil t = let (s, ss, e) = split_cons t in rw e refl

pub join-split : (t : Text) → join (split t) ≡ t
unfolding join split
join-split [] = refl
join-split (c ∷ t) = elim (Bool-cases (c == b'/')) [
  | inl slash ↦ rw slash (join-nil t ∙ ground (arith, join-split t))
  | inr other ↦ rw other (join-cons_head c (split t) ∙ ap (λ u. c ∷ u) (join-split t))
]

-- The first of several segments.
abbrev pub in_dir : Text → List Text → Bool
in_dir w [] = false
in_dir w (s ∷ []) = false
in_dir w (s ∷ _ ∷ _) = text_eq s w

strip-append : (w t : Text) → strip (w ++ b'/' ∷ []) (w ++ b'/' ∷ t) ≡ some t
unfolding strip
strip-append [] t = refl
strip-append (c ∷ w) t = ground (arith, strip-append w t)

slashed : (w r : Text) → (w ++ b'/' ∷ []) ++ r ≡ w ++ b'/' ∷ r
slashed [] r = refl
slashed (c ∷ w) r = ap (λ u. c ∷ u) (slashed w r)

pub strip-split :
    (w t r : Text) → is_plain w ≡ true → strip (w ++ b'/' ∷ []) t ≡ some r → split t ≡ w ∷ split r
strip-split w t r h e =
    let cut : t ≡ w ++ b'/' ∷ r = strip-some (w ++ b'/' ∷ []) t r e ∙ slashed w r in
    rw cut (split-plain w r h)

in_dir-strip :
    (w t s : Text) (ss : List Text)
    → split t ≡ s ∷ ss
    → in_dir w (split t) ≡ true
    → is_some (strip (w ++ b'/' ∷ []) t) ≡ true
unfolding join
in_dir-strip w t s [] e h = absurd (ground arith)
in_dir-strip w t s (x ∷ xs) e h =
    let first : s ≡ w = (text_eq_iff s w).0 (ground arith) in
    let whole : t ≡ w ++ b'/' ∷ join (x ∷ xs) =
      sym (join-split t) ∙ ap join e ∙ ap (λ u. u ++ b'/' ∷ join (x ∷ xs)) first in
    rw (whole, strip-append w (join (x ∷ xs))) refl

pub in_dir-none : (w t : Text) → strip (w ++ b'/' ∷ []) t ≡ none → in_dir w (split t) ≡ false
in_dir-none w t e = elim (Bool-cases (in_dir w (split t))) [
  | inl inside ↦
      let (s, ss, c) = split_cons t in absurd (ground (arith, in_dir-strip w t s ss c inside, e))
  | inr outside ↦ outside
]

in_dir-some :
    (w t r : Text)
    → is_plain w ≡ true
    → strip (w ++ b'/' ∷ []) t ≡ some r
    → in_dir w (split t) ≡ true
in_dir-some w t r h e =
    let (s, ss, c) = split_cons r in rw (strip-split w t r h e, c) ((text_eq_iff w w).1 refl)

-- `startsWith` of a directory is a test of the first segment.
pub starts_with-in_dir :
    (w t : Text) → is_plain w ≡ true → starts_with (w ++ b'/' ∷ []) t ≡ in_dir w (split t)
starts_with-in_dir w t h = elim (Option-cases (strip (w ++ b'/' ∷ []) t)) [
  | inl e ↦ starts_with-strip (w ++ b'/' ∷ []) t ∙ ap is_some e ∙ sym (in_dir-none w t e)
  | inr (r, e) ↦ starts_with-strip (w ++ b'/' ∷ []) t ∙ ap is_some e ∙ sym (in_dir-some w t r h e)
]
