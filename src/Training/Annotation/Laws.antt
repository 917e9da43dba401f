-- ===== src/Training/Annotation/Laws.antt =====
-- The markers that AnnotationEditor.tsx can hold.
use job_lens.Common.{
  ℕ, zero, suc, ◌≤◌, ◌<◌, ◌≡◌, refl, Bool, ◌||◌, Text, Option, none, some, List, [], ◌∷◌, leb,
  length, length-append, All, All-append, arith, Bool-cases, inl, inr,
}
use job_lens.Common.Numbers.{Numbers, InUnit, clamp-InUnit}
use job_lens.Training.Annotation.{
  DraftMarker, Rect, placed, place, set_text, remove, add_center, is_flat,
}

module _ (N : Numbers) where
  open N use {Num}

  abbrev pub Markers : Type 0
  Markers = List (DraftMarker N)

  -- An edit. The text field holds at most 200 characters; `cleared` is what a saved draft leaves.
  pub data Edit : Markers → Markers → Type 0 where
    clicked :
        (pending : Bool) (cx cy : Num) (surface : Option (Rect N)) (ms : Markers)
        → Edit ms (place N pending cx cy surface ms)
    centred : (pending : Bool) (ms : Markers) → Edit ms (add_center N pending ms)
    texted : (i : ℕ) (t : Text) (ms : Markers) → length t ≤ 200 → Edit ms (set_text N i t ms)
    removed : (i : ℕ) (ms : Markers) → Edit ms (remove N i ms)
    cleared : (ms : Markers) → Edit ms []

  pub data Edits (ms : Markers) : Markers → Type 0 where
    here : Edits ms ms
    next : {ns os : Markers} → Edits ms ns → Edit ns os → Edits ms os

  abbrev pub IsMarked : DraftMarker N → Type 0
  IsMarked m = InUnit N m.x × InUnit N m.y × (length m.text ≤ 200)

  pub record IsSound (ms : Markers) : Type 0 where
    pub few : length ms ≤ 50
    pub marked : All IsMarked ms

  placed-IsSound :
      (cx cy : Num) (surface : Option (Rect N)) (ms : Markers)
      → length ms < 50
      → IsSound ms
      → IsSound (placed N cx cy surface ms)
  unfolding placed
  placed-IsSound cx cy none ms l s = s
  placed-IsSound cx cy (some r) ms l s = elim (Bool-cases (is_flat N r)) [
    | inl flat ↦ rw flat s
    | inr solid ↦ rw solid (record {
      few = omega (arith, length-append {0} ms);
      marked =
          All-append IsMarked ms _ s.marked ((clamp-InUnit N _, clamp-InUnit N _, omega arith), tt);
    })
  ]

  place-IsSound :
      (pending : Bool) (cx cy : Num) (surface : Option (Rect N)) (ms : Markers)
      → IsSound ms
      → IsSound (place N pending cx cy surface ms)
  unfolding place
  place-IsSound pending cx cy surface ms s = elim (Bool-cases (pending || leb 50 (length ms))) [
    | inl full ↦ rw full s
    | inr room ↦ rw room (placed-IsSound cx cy surface ms (ground arith) s)
  ]

  add_center-IsSound :
      (pending : Bool) (ms : Markers) → IsSound ms → IsSound (add_center N pending ms)
  unfolding add_center
  add_center-IsSound pending ms s = elim (Bool-cases (pending || leb 50 (length ms))) [
    | inl full ↦ rw full s
    | inr room ↦ rw room (record {
      few = ground (arith, length-append {0} ms (center ∷ []));
      marked = All-append IsMarked ms _ s.marked ((middle, middle, omega arith), tt);
    })
  ]
    where
      center : DraftMarker N
      center = record { x = N.half; y = N.half; text = [] }

      middle : InUnit N N.half
      middle = (N.zero-leb-half, N.half-leb-one)

  length-set_text : (i : ℕ) (t : Text) (ms : Markers) → length (set_text N i t ms) ≡ length ms
  unfolding set_text
  length-set_text i t [] = refl
  length-set_text zero t (m ∷ ms) = refl
  length-set_text (suc i) t (m ∷ ms) = omega (arith, length-set_text i t ms)

  set_text-All :
      (i : ℕ) (t : Text) (ms : Markers)
      → length t ≤ 200
      → All IsMarked ms
      → All IsMarked (set_text N i t ms)
  unfolding set_text
  set_text-All i t [] l h = tt
  set_text-All zero t (m ∷ ms) l ((x, y, _), h) = ((x, y, l), h)
  set_text-All (suc i) t (m ∷ ms) l (p, h) = (p, set_text-All i t ms l h)

  length-remove : (i : ℕ) (ms : Markers) → length (remove N i ms) ≤ length ms
  unfolding remove
  length-remove i [] = omega arith
  length-remove zero (m ∷ ms) = omega arith
  length-remove (suc i) (m ∷ ms) = omega (arith, length-remove i ms)

  remove-All : (i : ℕ) (ms : Markers) → All IsMarked ms → All IsMarked (remove N i ms)
  unfolding remove
  remove-All i [] h = tt
  remove-All zero (m ∷ ms) (p, h) = h
  remove-All (suc i) (m ∷ ms) (p, h) = (p, remove-All i ms h)

  Edit-IsSound : {ms ns : Markers} → Edit ms ns → IsSound ms → IsSound ns
  Edit-IsSound (clicked p cx cy surface ms) s = place-IsSound p cx cy surface ms s
  Edit-IsSound (centred p ms) s = add_center-IsSound p ms s
  Edit-IsSound (texted i t ms l) s = record {
    few = omega (arith, length-set_text i t ms, s.few);
    marked = set_text-All i t ms l s.marked;
  }
  Edit-IsSound (removed i ms) s = record {
    few = omega (arith, length-remove i ms, s.few);
    marked = remove-All i ms s.marked;
  }
  Edit-IsSound (cleared ms) s = record { few = omega arith; marked = tt }

  pub Edits-IsSound : {ms ns : Markers} → Edits ms ns → IsSound ms → IsSound ns
  Edits-IsSound here s = s
  Edits-IsSound (next es e) s = Edit-IsSound e (Edits-IsSound es s)
