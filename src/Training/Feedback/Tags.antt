-- ===== src/Training/Feedback/Tags.antt =====
-- The tags that are chosen in FeedbackForm.tsx.
use job_lens.Common.{
  ℕ, ◌+◌, ◌≤◌, ◌≡◌, refl, Bool, true, false, not, List, [], ◌∷◌, ◌++◌, if◌then◌else◌, length, keep,
  Bool-cases, inl, inr, arith,
}
use job_lens.Schema.{FeedbackTag}
use job_lens.Training.Feedback.{same_tag, has_tag, Form, toggle_tag}

abbrev is_tag : FeedbackTag → FeedbackTag → Bool
is_tag t s = same_tag s t

-- How often a tag is chosen.
abbrev count_tag : FeedbackTag → List FeedbackTag → ℕ
count_tag t tags = length (keep (is_tag t) tags)

count_tag-append_one :
    (t s : FeedbackTag) (tags : List FeedbackTag)
    → count_tag t (tags ++ s ∷ [])
      ≡ (if same_tag s t then count_tag t tags + 1 else count_tag t tags)
count_tag-append_one t s [] = ground arith
count_tag-append_one t s (x ∷ tags) = ground (arith, count_tag-append_one t s tags)

count_tag-keep :
    (t s : FeedbackTag) (tags : List FeedbackTag)
    → count_tag t (keep (λ x. not (same_tag x s)) tags) ≤ count_tag t tags
count_tag-keep t s [] = omega arith
count_tag-keep t s (x ∷ tags) = ground (arith, count_tag-keep t s tags)

unchosen :
    (t : FeedbackTag) (tags : List FeedbackTag) → has_tag t tags ≡ false → count_tag t tags ≡ 0
unchosen t [] h = refl
unchosen t (x ∷ tags) h = ground (arith, unchosen t tags)

same_tag_eq : (s t : FeedbackTag) → same_tag s t ≡ true → s ≡ t
same_tag_eq FeedbackTag.title_correct t h = ground arith
same_tag_eq FeedbackTag.naming_adjustment t h = ground arith
same_tag_eq FeedbackTag.retake_required t h = ground arith
same_tag_eq FeedbackTag.other t h = ground arith

-- No tag is chosen twice.
abbrev pub Once : List FeedbackTag → Type 0
Once tags = (t : FeedbackTag) → count_tag t tags ≤ 1

append-Once :
    (t s : FeedbackTag) (tags : List FeedbackTag)
    → has_tag t tags ≡ false
    → count_tag s tags ≤ 1
    → count_tag s (tags ++ t ∷ []) ≤ 1
append-Once t s tags new few = elim (Bool-cases (same_tag t s)) [
  | inl same_one ↦
      let absent : count_tag s tags ≡ 0 = rw (← same_tag_eq t s same_one) (unchosen t tags new) in
      rw (count_tag-append_one s t tags, same_one, absent) (omega arith)
  | inr distinct_one ↦ rw (count_tag-append_one s t tags, distinct_one) few
]

pub Once-toggle_tag : (t : FeedbackTag) (f : Form) → Once f.tags → Once (toggle_tag t f).tags
unfolding toggle_tag
Once-toggle_tag t f once s = elim (Bool-cases (has_tag t f.tags)) [
  | inl chosen_before ↦ rw chosen_before (omega (arith, count_tag-keep s t f.tags, once s))
  | inr new ↦ rw new (append-Once t s f.tags new (once s))
]

length-tags :
    (tags : List FeedbackTag)
    → length tags
      ≡ count_tag FeedbackTag.title_correct tags
        + count_tag FeedbackTag.naming_adjustment tags
        + count_tag FeedbackTag.retake_required tags
        + count_tag FeedbackTag.other tags
length-tags [] = refl
length-tags (FeedbackTag.title_correct ∷ tags) = omega (arith, length-tags tags)
length-tags (FeedbackTag.naming_adjustment ∷ tags) = omega (arith, length-tags tags)
length-tags (FeedbackTag.retake_required ∷ tags) = omega (arith, length-tags tags)
length-tags (FeedbackTag.other ∷ tags) = omega (arith, length-tags tags)

pub tags-le : (f : Form) → Once f.tags → length f.tags ≤ 4
tags-le f once = omega (
  arith,
  length-tags f.tags,
  once FeedbackTag.title_correct,
  once FeedbackTag.naming_adjustment,
  once FeedbackTag.retake_required,
  once FeedbackTag.other,
)
