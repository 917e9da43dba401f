-- ===== src/Training/Annotation/Tests.antt =====
-- Markers on an image, with coordinates in whole percent of 1.
use Prim.Native.Nat.{ℕ}
use job_lens.Common.{◌≡◌, refl, false, String, none, some, List, [], ◌∷◌, codes, arith, trim}
use job_lens.Common.Percent.{percent}
use job_lens.Common.Numbers.{clamp}
use job_lens.Training.Annotation.{
  guidance, DraftMarker, Rect, place, set_text, AnnotationCreate, save,
}
use job_lens.Training.Annotation.Laws.{here, next, clicked, texted}
use job_lens.Training.Annotation.Sent.{IsSent, save-IsSent}

abbrev image : Rect percent
image = record { left = 10; top = 10; width = 400; height = 200 }

abbrev placed_once : List (DraftMarker percent)
placed_once = place percent false 110 900 (some image) []

abbrev named : List (DraftMarker percent)
named = set_text percent 0 (codes " 看这里 ") placed_once

abbrev fresh : ℕ → String
fresh n = "id"

at_the_edge : placed_once ≡ record { x = 25; y = 100; text = [] } ∷ []
unfolding place clamp
at_the_edge = refl

abbrev sent : AnnotationCreate percent
sent = record {
  asset_id = "file";
  submission_id = none;
  kind = guidance;
  markers = record { id = "id"; x = 25; y = 100; text = codes "看这里" } ∷ [];
}

saves : save percent false fresh "file" none guidance named ≡ some sent
unfolding save place set_text trim clamp
saves = refl

save-IsSent_example : IsSent percent sent
save-IsSent_example =
    save-IsSent percent false fresh "file" none guidance named sent
      (next (next here (clicked false 110 900 (some image) []))
        (texted 0 (codes " 看这里 ") placed_once (omega arith)))
      saves
