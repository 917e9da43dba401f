-- ===== src/Files/Polling.antt =====
-- The reading of a file's row until the server has checked the file.
use job_lens.Common.{
  ℕ, suc, ◌≡◌, refl, ◌∙◌, Bool, true, false, ◌&&◌, ◌||◌, String, Option, none, some, List, [], ◌∷◌,
  ◌++◌, is_some, same, same_iff, includes, includes-append, length, All, arith,
}
use job_lens.Schema.{FileAsset, FileState}
use job_lens.Api.{Settled, ok, fail}
use job_lens.Files.{Input, ready, refetch_interval, viewable}
use job_lens.Files.Row.{Row, fetched, effect, polls, Polled, poll}

-- The server still checks the file.
abbrev pub in_check : FileState → Bool
in_check FileState.quarantined = true
in_check FileState.scanning = true
in_check _ = false

-- An answer that does not end the reading: the file is in check, or the call failed.
abbrev pub IsWaiting : Settled FileAsset → Type 0
IsWaiting (ok a) = in_check a.state ≡ true
IsWaiting (fail _) = Unit

-- The row shows the file as it was checked, the parent's files have gained the row's exactly where
-- the file is ready, and the server was asked `k` times.
pub record IsSettled (id : String) (last : FileAsset) (s : Input) (k : ℕ) (p : Polled)
    : Type 0 where
  pub shown : p.row.asset ≡ some last
  pub read : p.row.is_error ≡ false
  pub files :
      (j : String)
      → includes p.input.value j ≡ (includes s.value j || (viewable last.state && same id j))
  pub requests : p.requests ≡ k

check_cases : (st : FileState) → is_some (refetch_interval (some st)) ≡ in_check st
unfolding refetch_interval
check_cases FileState.quarantined = refl
check_cases FileState.scanning = refl
check_cases FileState.ready = refl
check_cases FileState.rejected = refl
check_cases FileState.deleted = refl

polls-ok : (a : FileAsset) (r : Row) → polls (fetched (ok a) r) ≡ in_check a.state
unfolding polls fetched
polls-ok a r = check_cases a.state

polls-waiting :
    (a : Settled FileAsset) (r : Row) → IsWaiting a → polls r ≡ true → polls (fetched a r) ≡ true
unfolding fetched
polls-waiting (ok a) r w h = polls-ok a r ∙ w
polls-waiting (fail e) r w h = unfold polls in h

effect_by_asset :
    (held : Option FileAsset) (id : String) (r : Row) (s : Input)
    → r.asset ≡ held
    → polls (record r { asset = held }) ≡ true
    → effect id (record r { asset = held }) s ≡ s
unfolding polls effect refetch_interval
effect_by_asset none id r s e h = refl
effect_by_asset (some a) id r s e h = by_state a.state h
  where
    by_state :
        (st : FileState)
        → is_some (refetch_interval (some st)) ≡ true
        → (elim st [ FileState.ready ↦ ready id s | _ ↦ s ]) ≡ s
    by_state FileState.quarantined h = refl
    by_state FileState.scanning h = refl
    by_state FileState.ready h = absurd (ground arith)
    by_state FileState.rejected h = refl
    by_state FileState.deleted h = refl

effect-polls : (id : String) (r : Row) (s : Input) → polls r ≡ true → effect id r s ≡ s
effect-polls id r s h = effect_by_asset r.asset id r s refl h

includes-ready :
    (id : String) (s : Input) (j : String)
    → includes (ready id s).value j ≡ (includes s.value j || same id j)
unfolding ready includes
includes-ready id s j = ground (arith, includes-append s.value (id ∷ []) j, same_iff id j)

includes-effect :
    (id : String) (a : FileAsset) (r : Row) (s : Input) (j : String)
    → includes (effect id (fetched (ok a) r) s).value j
      ≡ (includes s.value j || (viewable a.state && same id j))
unfolding effect fetched viewable
includes-effect id a r s j = by_state a.state
  where
    by_state :
        (st : FileState)
        → includes (elim st as (λ x. Input) [ FileState.ready ↦ ready id s | _ ↦ s ]).value j
          ≡ (includes s.value j || (viewable st && same id j))
    by_state FileState.ready = includes-ready id s j
    by_state FileState.quarantined = ground arith
    by_state FileState.scanning = ground arith
    by_state FileState.rejected = ground arith
    by_state FileState.deleted = ground arith

poll_stop :
    (id : String) (last : FileAsset) (later : List (Settled FileAsset)) (r : Row) (s : Input)
    → in_check last.state ≡ false
    → IsSettled id last s 1 (poll id (ok last ∷ later) r s)
unfolding poll
poll_stop id last later r s h =
    rw (polls-ok last r, h)
      (record {
        shown = unfold fetched in refl;
        read = unfold fetched in refl;
        files = λ j. includes-effect id last r s j;
        requests = refl;
      })

poll_more :
    (id : String) (a : Settled FileAsset) (rest : List (Settled FileAsset)) (last : FileAsset)
    (r : Row) (s : Input) (k : ℕ)
    → polls (fetched a r) ≡ true
    → IsSettled id last s k (poll id rest (fetched a r) s)
    → IsSettled id last s (suc k) (poll id (a ∷ rest) r s)
unfolding poll
poll_more id a rest last r s k h p =
    rw (h, effect-polls id (fetched a r) s h)
      (record {
        shown = p.shown;
        read = p.read;
        files = p.files;
        requests = rw p.requests (omega arith);
      })

poll_waiting :
    (id : String) (waiting : List (Settled FileAsset)) (last : FileAsset)
    (later : List (Settled FileAsset)) (r : Row) (s : Input)
    → polls r ≡ true
    → All IsWaiting waiting
    → in_check last.state ≡ false
    → IsSettled id last s (suc (length waiting)) (poll id (waiting ++ ok last ∷ later) r s)
poll_waiting id [] last later r s h w e = poll_stop id last later r s e
poll_waiting id (a ∷ rest) last later r s h (v, w) e =
    let going = polls-waiting a r v h in
    poll_more id a (rest ++ ok last ∷ later) last r s (suc (length rest)) going
      (poll_waiting id rest last later (fetched a r) s going w e)

-- A row whose file is in check at its first reading is read until the server has checked the file,
-- through answers that fail too, and no longer; then it shows the file, and the parent's files have
-- gained the row's exactly where the file is ready.
pub poll-IsSettled :
    (id : String) (first : FileAsset) (waiting : List (Settled FileAsset)) (last : FileAsset)
    (later : List (Settled FileAsset)) (r : Row) (s : Input)
    → in_check first.state ≡ true
    → All IsWaiting waiting
    → in_check last.state ≡ false
    → IsSettled id last s
        (suc (suc (length waiting)))
        (poll id (ok first ∷ waiting ++ ok last ∷ later) r s)
poll-IsSettled id first waiting last later r s checks w done =
    let going = polls-ok first r ∙ checks in
    poll_more id (ok first) (waiting ++ ok last ∷ later) last r s (suc (length waiting)) going
      (poll_waiting id waiting last later (fetched (ok first) r) s going w done)
