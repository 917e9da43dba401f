-- ===== src/Files/Bounds.antt =====
-- How many files AssetInput.tsx can hold.
use job_lens.Common.{
  ℕ, ◌+◌, ◌≤◌, ◌≡◌, Bool, true, false, ◌||◌, String, List, [], ◌∷◌, ◌++◌, includes, includes-append,
  includes-without, includes-unique, unique-Distinct, Distinct, Distinct-append_one,
  Distinct-without, Distinct-length, length, arith, same, same_iff, Bool-cases, inl, inr,
}
use job_lens.Schema.{FileAsset}
use job_lens.Api.{Settled, ok, fail}
use job_lens.Files.{Input, opened, ids, pick_disabled, pick, uploaded, ready, remove}

-- An event: a row stands for an id, so only an id that is shown becomes ready.
pub data Event : Input → Input → Type 0 where
  picked : (disabled : Bool) (s : Input) → Event s (pick disabled s)
  settled : (r : Settled FileAsset) (s : Input) → s.uploading ≡ true → Event s (uploaded r s)
  turned_ready : (id : String) (s : Input) → includes (ids s) id ≡ true → Event s (ready id s)
  removed : (id : String) (s : Input) → Event s (remove id s)

pub data Events (s : Input) : Input → Type 0 where
  here : Events s s
  next : {t u : Input} → Events s t → Event t u → Events s u

-- One more file may come while an upload is under way.
abbrev coming : Bool → ℕ
coming true = 1
coming false = 0

pub record IsBounded (s : Input) : Type 0 where
  pub distinct : Distinct s.value
  pub room : length (ids s) + coming s.uploading ≤ 5

includes-ids :
    (s : Input) (j : String) → includes (ids s) j ≡ (includes s.value j || includes s.pending j)
unfolding ids
includes-ids s j =
    ground (arith, includes-unique (s.value ++ s.pending) j, includes-append s.value s.pending j)

-- Rows that were all there before are no more than before.
fewer_rows :
    (s t : Input)
    → ((j : String) → includes (ids t) j ≡ true → includes (ids s) j ≡ true)
    → length (ids t) ≤ length (ids s)
fewer_rows s t h = Distinct-length (ids t) (ids s) (rows-Distinct t) h
  where
    rows-Distinct : (t : Input) → Distinct (ids t)
    rows-Distinct t = unfold ids in unique-Distinct (t.value ++ t.pending)

-- An upload that succeeds brings one row at most.
one_more_row :
    (s t : Input) (i : String)
    → ((j : String) → includes (ids t) j ≡ true → (includes (ids s) j || same i j) ≡ true)
    → length (ids t) ≤ length (ids s) + 1
one_more_row s t i h =
    omega (arith, Distinct-length (ids t) (i ∷ ids s) (rows t) (λ j k. member j (h j k)))
  where
    rows : (t : Input) → Distinct (ids t)
    rows t = unfold ids in unique-Distinct (t.value ++ t.pending)

    member : (j : String) → (includes (ids s) j || same i j) ≡ true → includes (i ∷ ids s) j ≡ true
    member j k = unfold includes in ground arith

pick-IsBounded : (disabled : Bool) (s : Input) → IsBounded s → IsBounded (pick disabled s)
unfolding pick pick_disabled ids
pick-IsBounded disabled s b = elim (Bool-cases (pick_disabled disabled s)) [
  | inl off ↦ rw off b
  | inr on ↦ rw on (record { distinct = b.distinct; room = ground arith })
]

uploaded-IsBounded :
    (r : Settled FileAsset) (s : Input)
    → s.uploading ≡ true
    → IsBounded s
    → IsBounded (uploaded r s)
unfolding uploaded includes
uploaded-IsBounded (fail e) s u b = record {
  distinct = b.distinct;
  room = unfold ids in ground (arith, b.room);
}
uploaded-IsBounded (ok a) s u b = record {
  distinct = b.distinct;
  room = ground (
    arith,
    b.room,
    one_more_row s (uploaded (ok a) s) a.id λ j k. ground (
      arith,
      includes-ids (uploaded (ok a) s) j,
      includes-ids s j,
      includes-append s.pending (a.id ∷ []) j,
    ),
  );
}

includes-ready :
    (id : String) (s : Input) (j : String)
    → includes (ids s) id ≡ true
    → includes (ids (record s { value = s.value ++ id ∷ [] })) j ≡ true
    → includes (ids s) j ≡ true
unfolding includes
includes-ready id s j shown k = ground (
  arith,
  includes-ids (record s { value = s.value ++ id ∷ [] }) j,
  includes-ids s j,
  includes-ids s id,
  includes-append s.value (id ∷ []) j,
  same_iff id j,
)

ready-IsBounded :
    (id : String) (s : Input) → includes (ids s) id ≡ true → IsBounded s → IsBounded (ready id s)
unfolding ready
ready-IsBounded id s shown b = elim (Bool-cases (includes s.value id)) [
  | inl there ↦ rw there b
  | inr new ↦ rw new (record {
    distinct = Distinct-append_one s.value id b.distinct new;
    room = omega (
      arith,
      b.room,
      fewer_rows s (record s { value = s.value ++ id ∷ [] }) (λ j. includes-ready id s j shown),
    );
  })
]

remove-IsBounded : (id : String) (s : Input) → IsBounded s → IsBounded (remove id s)
unfolding remove
remove-IsBounded id s b = record {
  distinct = Distinct-without id s.value b.distinct;
  room = ground (
    arith,
    b.room,
    fewer_rows s (remove id s) λ j k. ground (
      arith,
      includes-ids (remove id s) j,
      includes-ids s j,
      includes-without id s.value j,
      includes-without id s.pending j,
    ),
  );
}

Event-IsBounded : {s t : Input} → Event s t → IsBounded s → IsBounded t
Event-IsBounded (picked disabled s) b = pick-IsBounded disabled s b
Event-IsBounded (settled r s u) b = uploaded-IsBounded r s u b
Event-IsBounded (turned_ready id s h) b = ready-IsBounded id s h b
Event-IsBounded (removed id s) b = remove-IsBounded id s b

Events-IsBounded : {s t : Input} → Events s t → IsBounded s → IsBounded t
Events-IsBounded here b = b
Events-IsBounded (next es e) b = Event-IsBounded e (Events-IsBounded es b)

opened-IsBounded :
    (value : List String) → Distinct value → length value ≤ 5 → IsBounded (opened value)
unfolding opened ids includes
opened-IsBounded value d l = record {
  distinct = d;
  room = omega (
    arith,
    Distinct-length (ids (opened value)) value (unique-Distinct (value ++ []))
        (λ j k. ground (arith, includes-unique (value ++ []) j, includes-append value [] j)),
  );
}

-- Opened on at most five distinct ids, and however files are picked, uploaded, found ready and
-- removed after that, the form's value never names a file twice, and neither it nor the rows are
-- more than five. Only a shown row becomes ready, and an upload settles only while it is under
-- way.
pub opened-Events-IsBounded :
    (value : List String) {t : Input}
    → Distinct value
    → length value ≤ 5
    → Events (opened value) t
    → Distinct t.value × (length (ids t) ≤ 5) × (length t.value ≤ 5)
opened-Events-IsBounded value {t} d l es =
    let b = Events-IsBounded es (opened-IsBounded value d l) in
    let rows : length (ids t) ≤ 5 = omega (arith, b.room) in
    (
      b.distinct,
      rows,
      omega (
        arith,
        rows,
        Distinct-length t.value (ids t) b.distinct (λ j k. ground (arith, includes-ids t j)),
      ),
    )
