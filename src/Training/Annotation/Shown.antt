-- ===== src/Training/Annotation/Shown.antt =====
-- What AnnotationEditor.tsx shows of the markers in hand, and apps/web/src/shared/ui/AnnotationView.tsx
-- of a stored annotation. `rounded` is `Math.round(… * 100)` of a coordinate.
use job_lens.Common.{
  ℕ, suc, ◌≡◌, refl, ap, Bool, true, ◌||◌, not, String, Text, codes, Option, none, some, List, [],
  ◌∷◌, ◌++◌, map, if◌then◌else◌, leb, length, trim, keep,
}
use job_lens.Common.Numbers.{Numbers}
use job_lens.Api.Decimal.{decimal}
use job_lens.Queries.Screen.{Result, is_pending, Screen, loading, failed, content}
use job_lens.Training.Annotation.{
  Kind, question, guidance, DraftMarker, PointMarker, AnnotationCreate, is_filled, ready, to_points,
  save,
}
use job_lens.Training.Annotation.Sent.{sent_markers}

-- `onSuccess` of `save`: the markers are gone, and the new annotation's id goes to the parent.
unfoldable pub created :
    {N : Numbers} → String → List (DraftMarker N) → List (DraftMarker N) × Option String
created id markers = ([], some id)

module _ (N : Numbers) (rounded : N.Num → ℕ) where
  pub record Line : Type 0 where
    pub heading : Text
    pub text : Text

  numbered : ℕ → List (DraftMarker N) → List Line
  unfolding decimal
  numbered n [] = []
  numbered n (m ∷ ms) =
      record {
        heading =
            codes "#"
            ++ decimal n
            ++ codes "（"
            ++ decimal (rounded m.x)
            ++ codes "%, "
            ++ decimal (rounded m.y)
            ++ codes "%）";
        text = m.text;
      }
      ∷ numbered (suc n) ms

  pub record Editor : Type 0 where
    pub image : Text
    pub lines : List Line
    pub remove_disabled : Bool
    pub add_disabled : Bool
    pub save_disabled : Bool
    pub error : Option Text

  unfoldable pub editor : (pending is_error : Bool) → String → List (DraftMarker N) → Editor
  unfolding numbered ready
  editor pending is_error asset_id markers = record {
    image = codes "/api/v1/files/" ++ codes asset_id ++ codes "/content";
    lines = numbered 1 markers;
    remove_disabled = pending;
    add_disabled = pending || leb 50 (length markers);
    save_disabled = pending || not (ready N markers);
    error = if is_error then some (codes "保存标注失败，请重试") else none;
  }

module _ (N : Numbers) where
  -- A marker of a stored annotation.
  pub data Marker : Type 0 where
    point : PointMarker N → Marker
    rect : (width height : N.Num) → PointMarker N → Marker

  abbrev corner : Marker → PointMarker N
  corner (point p) = p
  corner (rect w h p) = p

  abbrev size : Marker → Option (N.Num × N.Num)
  size (point p) = none
  size (rect w h p) = some (w, h)

  pub record Annotation : Type 0 where
    pub asset_id : String
    pub kind : Kind
    pub markers : List Marker

  pub record Mark : Type 0 where
    pub left : N.Num
    pub top : N.Num
    pub extent : Option (N.Num × N.Num)
    pub number : ℕ

  -- The marks on the image, numbered from `n` on.
  unfoldable pub marks : ℕ → List Marker → List Mark
  marks n [] = []
  marks n (m ∷ ms) =
      record { left = (corner m).x; top = (corner m).y; extent = size m; number = n }
      ∷ marks (suc n) ms

  pub record Figure : Type 0 where
    pub image : Text
    pub alt : Text
    pub drawn : List Mark
    pub captions : List Text

  unfoldable pub figure : Annotation → Figure
  unfolding marks
  figure a = record {
    image = codes "/api/v1/files/" ++ codes a.asset_id ++ codes "/content";
    alt = elim a.kind [ question ↦ codes "提出问题的图片" | guidance ↦ codes "辅导员指引图片" ];
    drawn = marks 1 a.markers;
    captions = map (λ m. (corner m).text) a.markers;
  }

  unfoldable pub annotation_view : Result Annotation → Screen Figure
  unfolding figure
  annotation_view r =
      if is_pending r
      then loading
      else elim r.content [ none ↦ failed (codes "标注未能加载") true | some a ↦ content (figure a) ]

  -- What the server keeps of an annotation that the editor sends.
  abbrev pub stored : AnnotationCreate N → Annotation
  stored a = record { asset_id = a.asset_id; kind = a.kind; markers = map point a.markers }

  captions-to_points :
      (fresh : ℕ → String) (n : ℕ) (ms : List (DraftMarker N))
      → map (λ m. (corner m).text) (map point (to_points N fresh n ms))
        ≡ map (λ (m : DraftMarker N). trim m.text) ms
  unfolding to_points
  captions-to_points fresh n [] = refl
  captions-to_points fresh n (m ∷ ms) =
      ap (λ ts. trim m.text ∷ ts) (captions-to_points fresh (suc n) ms)

  -- Of an annotation that the editor sends and the server stores as it was sent, the view lists the
  -- texts of the filled markers, trimmed and in their order.
  pub captions-save :
      (pending : Bool) (fresh : ℕ → String) (asset : String) (submission : Option String) (k : Kind)
      (ms : List (DraftMarker N)) (a : AnnotationCreate N)
      → save N pending fresh asset submission k ms ≡ some a
      → (figure (stored a)).captions
        ≡ map (λ (m : DraftMarker N). trim m.text) (keep (is_filled N) ms)
  unfolding figure
  captions-save pending fresh asset submission k ms a h =
      let (some_ready, e) = sent_markers N pending fresh asset submission k ms a h in
      rw e (captions-to_points fresh 0 (keep (is_filled N) ms))
