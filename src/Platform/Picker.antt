-- ===== src/Platform/Picker.antt =====
-- `pickImage` of apps/web/src/shared/platform/web.ts: the promise and the input element between the
-- events. `F` is the type of files.
use job_lens.Common.{
  ◌≡◌, refl, ap, ◌∙◌, Bool, true, false, not, Option, none, some, List, [], ◌∷◌, if◌then◌else◌,
  arith,
}
use job_lens.Platform.{PlatformResult, done, refused, PlatformFailure}

-- The input element and the timer are there until the promise settles; the abort listener too.
pub record Picker (F : Type 0) : Type 0 where
  pub settled : Bool
  pub resolved : Option (PlatformResult F)
  pub attached : Bool
  pub timing : Bool
  pub listening : Bool

-- The events: the input's cancel and change, the signal's abort, the timer, and a click that throws.
pub data Event (F : Type 0) : Type 0 where
  cancel abort timeout throw : Event F
  change : Option F → Event F

module _ {F : Type 0} where
  unfoldable pub opened : Picker F
  opened = record {
    settled = false;
    resolved = none;
    attached = true;
    timing = true;
    listening = true;
  }

  unfoldable pub finish : PlatformResult F → Picker F → Picker F
  finish r p = if p.settled then p else record p {
    settled = true;
    resolved = some r;
    attached = false;
    timing = false;
    listening = false;
  }

  abbrev picked : Option F → PlatformResult F
  picked (some file) = done file
  picked none = refused PlatformFailure.cancelled

  abbrev pub result_of : Event F → PlatformResult F
  result_of cancel = refused PlatformFailure.cancelled
  result_of abort = refused PlatformFailure.cancelled
  result_of timeout = refused PlatformFailure.cancelled
  result_of throw = refused PlatformFailure.failed
  result_of (change file) = picked file

  unfoldable pub handle : Event F → Picker F → Picker F
  unfolding finish
  handle e = finish (result_of e)

  unfoldable pub run : List (Event F) → Picker F → Picker F
  unfolding handle
  run [] p = p
  run (e ∷ es) p = run es (handle e p)

  -- The tests before the input is made: outside a browser, and on a signal that is aborted.
  unfoldable pub pick_image : Bool → Bool → List (Event F) → Option (PlatformResult F)
  unfolding run opened
  pick_image in_browser aborted es =
      if not in_browser
      then some (refused PlatformFailure.unsupported)
      else if aborted
      then some (refused PlatformFailure.cancelled)
      else (run es opened).resolved

  finish_settled : (r : PlatformResult F) (p : Picker F) → p.settled ≡ true → finish r p ≡ p
  unfolding finish
  finish_settled r p h = ground arith

  run_settled : (es : List (Event F)) (p : Picker F) → p.settled ≡ true → run es p ≡ p
  unfolding run handle
  run_settled [] p h = refl
  run_settled (e ∷ es) p h = ap (run es) (finish_settled (result_of e) p h) ∙ run_settled es p h

  -- The first event settles the promise: it removes the input, the timer and the abort listener, and
  -- whatever events follow, the result stays that of the first.
  pub run_first :
      (e : Event F) (es : List (Event F))
      → run (e ∷ es) opened ≡ record {
        settled = true;
        resolved = some (result_of e);
        attached = false;
        timing = false;
        listening = false;
      }
  unfolding run opened handle finish
  run_first e es = run_settled es _ refl
