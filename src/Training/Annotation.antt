-- ===== src/Training/Annotation.antt =====
-- apps/web/src/features/training/AnnotationEditor.tsx: marking points on the image of an evidence.
-- Coordinates are JavaScript's numbers, a parameter; fresh ids of `crypto.randomUUID` are an argument.
pub mod Laws
pub mod Sent
pub mod Shown
pub mod Tests
use job_lens.Common.{
  ℕ, zero, suc, ◌+◌, Bool, true, false, ◌&&◌, ◌||◌, not, String, Text, Option, none, some, List, [],
  ◌∷◌, ◌++◌, if◌then◌else◌, ◌==◌, leb, length, trim, filled, any, keep,
}
use job_lens.Common.Numbers.{Numbers, clamp}

pub data Kind : Type 0 where
  question guidance : Kind

module _ (N : Numbers) where
  open N use {Num, half, sub, div}

  pub record DraftMarker : Type 0 where
    pub x : Num
    pub y : Num
    pub text : Text

  -- `getBoundingClientRect` of the image.
  pub record Rect : Type 0 where
    pub left : Num
    pub top : Num
    pub width : Num
    pub height : Num

  -- The tests at the head of `place`; `surface` is missing where the image is not mounted.
  abbrev is_flat : Rect → Bool
  is_flat r = N.leb r.width N.zero || N.leb r.height N.zero

  placed : Num → Num → Option Rect → List DraftMarker → List DraftMarker
  placed cx cy none markers = markers
  placed cx cy (some r) markers =
      if is_flat r
      then markers
      else markers
        ++ record {
          x = clamp N (div (sub cx r.left) r.width);
          y = clamp N (div (sub cy r.top) r.height);
          text = [];
        }
          ∷ []

  -- A click at `(cx, cy)`.
  unfoldable pub place : Bool → Num → Num → Option Rect → List DraftMarker → List DraftMarker
  unfolding placed
  place pending cx cy surface markers =
      if pending || leb 50 (length markers) then markers else placed cx cy surface markers

  unfoldable pub set_text : ℕ → Text → List DraftMarker → List DraftMarker
  set_text i text [] = []
  set_text zero text (m ∷ markers) = record m { text = text } ∷ markers
  set_text (suc i) text (m ∷ markers) = m ∷ set_text i text markers

  -- `filter((_, index) => index !== i)`.
  unfoldable pub remove : ℕ → List DraftMarker → List DraftMarker
  remove i [] = []
  remove zero (m ∷ markers) = markers
  remove (suc i) (m ∷ markers) = m ∷ remove i markers

  -- The button that adds a marker in the middle, disabled in the same cases.
  unfoldable pub add_center : Bool → List DraftMarker → List DraftMarker
  add_center pending markers =
      if pending || leb 50 (length markers)
      then markers
      else markers ++ record { x = half; y = half; text = [] } ∷ []

  pub record PointMarker : Type 0 where
    pub id : String
    pub x : Num
    pub y : Num
    pub text : Text

  pub record AnnotationCreate : Type 0 where
    pub asset_id : String
    pub submission_id : Option String
    pub kind : Kind
    pub markers : List PointMarker

  abbrev pub is_filled : DraftMarker → Bool
  is_filled m = filled m.text

  unfoldable pub ready : List DraftMarker → Bool
  ready = any is_filled

  -- The `map` over the filled markers; the n-th of them gets the n-th fresh id.
  unfoldable pub to_points : (ℕ → String) → ℕ → List DraftMarker → List PointMarker
  to_points fresh n [] = []
  to_points fresh n (m ∷ ms) =
      record { id = fresh n; x = m.x; y = m.y; text = trim m.text } ∷ to_points fresh (suc n) ms

  -- What the button that saves sends; `none` where it is disabled.
  unfoldable pub save :
      Bool
      → (ℕ → String)
      → String
      → Option String
      → Kind
      → List DraftMarker
      → Option AnnotationCreate
  unfolding ready to_points
  save pending fresh asset_id submission_id kind markers =
      if pending || not (ready markers)
      then none
      else some (record {
        asset_id = asset_id;
        submission_id = submission_id;
        kind = kind;
        markers = to_points fresh 0 (keep is_filled markers);
      })
