-- ===== src/Training/Annotation/Sent.antt =====
-- The markers that AnnotationEditor.tsx sends.
use job_lens.Common.{
  ℕ, suc, ◌≤◌, ◌≡◌, refl, ap, ◌∙◌, Bool, true, String, Option, some, [], ◌∷◌, length, trim,
  trim_idem, filled, filled-trim, length-trim, keep, length-keep, keep-All, All-keep, All, arith,
}
use job_lens.Common.Numbers.{Numbers, InUnit}
use job_lens.Training.Annotation.{
  Kind, PointMarker, AnnotationCreate, is_filled, ready, to_points, save,
}
use job_lens.Training.Annotation.Laws.{Markers, IsMarked, IsSound, Edits, Edits-IsSound}

module _ (N : Numbers) where
  -- What the contract asks of a point marker, and that its text is trimmed.
  abbrev pub IsPoint : PointMarker N → Type 0
  IsPoint p =
      InUnit N p.x
      × InUnit N p.y
      × (filled p.text ≡ true)
      × (trim p.text ≡ p.text)
      × (length p.text ≤ 200)

  pub record IsSent (a : AnnotationCreate N) : Type 0 where
    pub some_marker : 1 ≤ length a.markers
    pub few : length a.markers ≤ 50
    pub points : All IsPoint a.markers

  to_points-IsPoint :
      (fresh : ℕ → String) (n : ℕ) (ms : Markers N)
      → All (IsMarked N) ms
      → All (λ m. is_filled N m ≡ true) ms
      → All IsPoint (to_points N fresh n ms)
  unfolding to_points
  to_points-IsPoint fresh n [] h k = tt
  to_points-IsPoint fresh n (m ∷ ms) ((x, y, l), h) (f, k) = (
    (x, y, filled-trim m.text ∙ f, trim_idem m.text, omega (arith, length-trim m.text)),
    to_points-IsPoint fresh (suc n) ms h k,
  )

  length-to_points :
      (fresh : ℕ → String) (n : ℕ) (ms : Markers N) → length (to_points N fresh n ms) ≡ length ms
  unfolding to_points
  length-to_points fresh n [] = refl
  length-to_points fresh n (m ∷ ms) = omega (arith, length-to_points fresh (suc n) ms)

  ready-keep : (ms : Markers N) → ready N ms ≡ true → 1 ≤ length (keep (is_filled N) ms)
  unfolding ready
  ready-keep [] h = absurd (ground arith)
  ready-keep (m ∷ ms) h = ground (arith, ready-keep ms)

  pub sent_markers :
      (pending : Bool) (fresh : ℕ → String) (asset : String) (submission : Option String) (k : Kind)
      (ms : Markers N) (a : AnnotationCreate N)
      → save N pending fresh asset submission k ms ≡ some a
      → (ready N ms ≡ true) × (a.markers ≡ to_points N fresh 0 (keep (is_filled N) ms))
  unfolding save
  sent_markers pending fresh asset submission k ms a h = ground arith

  points-IsSent :
      (fresh : ℕ → String) (ms : Markers N) (a : AnnotationCreate N)
      → IsSound N ms
      → ready N ms ≡ true
      → a.markers ≡ to_points N fresh 0 (keep (is_filled N) ms)
      → IsSent a
  points-IsSent fresh ms a s r e =
      let kept = keep (is_filled N) ms in
      let size : length a.markers ≡ length kept = ap length e ∙ length-to_points fresh 0 kept in
      record {
        some_marker = omega (arith, size, ready-keep ms r);
        few = omega (arith, size, length-keep (is_filled N) ms, s.few);
        points = rw e (
            to_points-IsPoint fresh 0 kept (All-keep (IsMarked N) (is_filled N) ms s.marked)
              (keep-All (is_filled N) ms));
      }

  -- However the markers were placed, named (with at most 200 characters each) and removed, from
  -- none on, what the editor sends holds from 1 to 50 markers; each lies within the image, from 0
  -- to 1 in both directions, and carries a trimmed text of 1 to 200 characters.
  pub save-IsSent :
      (pending : Bool) (fresh : ℕ → String) (asset : String) (submission : Option String) (k : Kind)
      (ms : Markers N) (a : AnnotationCreate N)
      → Edits N [] ms
      → save N pending fresh asset submission k ms ≡ some a
      → IsSent a
  save-IsSent pending fresh asset submission k ms a es h =
      let (r, e) = sent_markers pending fresh asset submission k ms a h in
      points-IsSent fresh ms a (Edits-IsSound N es (record { few = omega arith; marked = tt })) r e
