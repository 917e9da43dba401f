-- ===== src/Notices/Reading.antt =====
-- The buttons "标为已读" of CounselorNotificationsPage.tsx, with the mutation and the read after it.
use job_lens.Common.{
  ℕ, ◌≤◌, ◌<◌, ◌≡◌, refl, ap, Bool, true, false, ◌&&◌, String, Option, none, some, List, [], ◌∷◌,
  map, if◌then◌else◌, any, find, keep, length, same, same_refl, arith, Option-cases, Bool-cases,
  inl, inr, All, All-map,
}
use job_lens.Schema.{Notification}
use job_lens.Queries.Paging.{successes}
use job_lens.Notices.{is_unread, row, listing}

-- The server has noted the reading of a notification at this time.
abbrev pub noted : String → String → Notification → Notification
noted id now n = if same n.id id && is_unread n then record n { read_at = some now } else n

-- What the contract says of a mark.
abbrev pub Marks : (String → List Notification → List Notification) → Type 0
Marks mark =
    (id : String) (ns : List Notification) → (now : String) × (mark id ns ≡ map (noted id now) ns)

-- The page with the server's list, which the page reads again after a mark, and whether the last mark
-- failed.
pub record Inbox : Type 0 where
  pub notes : List Notification
  pub mark_failed : Bool

module _ (mark : String → List Notification → List Notification) where
  -- A click on the button of a notification; the attempt reaches the server or fails.
  unfoldable pub press : Bool → String → Inbox → Inbox
  press true id b = record { notes = mark id b.notes; mark_failed = false }
  press false id b = record b { mark_failed = true }

  press_of : Bool → Option Notification → Inbox → Inbox
  unfolding press
  press_of reached none b = b
  press_of reached (some n) b = press reached n.id b

  -- Attempts in order, each on the first notification that still has its button.
  unfoldable pub read_through : List Bool → Inbox → Inbox
  unfolding press_of
  read_through [] b = b
  read_through (r ∷ rs) b = read_through rs (press_of r (find is_unread b.notes) b)

-- How many notifications have a button.
abbrev pub unread : List Notification → ℕ
unread ns = length (keep is_unread ns)

noted-unread :
    (id now : String) (ns : List Notification) → unread (map (noted id now) ns) ≤ unread ns
noted-unread id now [] = omega arith
noted-unread id now (n ∷ ns) = ground (arith, noted-unread id now ns)

find-less :
    (now : String) (ns : List Notification) (n : Notification)
    → find is_unread ns ≡ some n
    → unread (map (noted n.id now) ns) < unread ns
find-less now [] n h = absurd (ground arith)
find-less now (m ∷ ns) n h = elim (Bool-cases (is_unread m)) [
  | inl fresh ↦ ground (arith, same_refl n.id, same_refl m.id, noted-unread n.id now ns)
  | inr old ↦ ground (arith, find-less now ns n)
]

unread_none : (ns : List Notification) → find is_unread ns ≡ none → any is_unread ns ≡ false
unread_none [] h = refl
unread_none (n ∷ ns) h = ground (arith, unread_none ns)

unread_zero : (ns : List Notification) → unread ns ≤ 0 → any is_unread ns ≡ false
unread_zero [] h = refl
unread_zero (n ∷ ns) h = ground (arith, unread_zero ns)

none_unread :
    (ns : List Notification) → any is_unread ns ≡ false → All (λ n. is_unread n ≡ false) ns
none_unread [] h = tt
none_unread (n ∷ ns) h = ground (arith, none_unread ns)

module _ (mark : String → List Notification → List Notification) (marks : Marks mark) where
  press-unread :
      (b : Inbox) (n : Notification)
      → find is_unread b.notes ≡ some n
      → unread (press mark true n.id b).notes < unread b.notes
  unfolding press
  press-unread b n h =
      let (now, noted_all) = marks n.id b.notes in rw noted_all (find-less now b.notes n h)

  step-none :
      (r : Bool) (rs : List Bool) (b : Inbox)
      → find is_unread b.notes ≡ none
      → read_through mark (r ∷ rs) b ≡ read_through mark rs b
  unfolding read_through press_of
  step-none r rs b h = ap (λ o. read_through mark rs (press_of mark r o b)) h

  step-some :
      (r : Bool) (rs : List Bool) (b : Inbox) (n : Notification)
      → find is_unread b.notes ≡ some n
      → read_through mark (r ∷ rs) b ≡ read_through mark rs (press mark r n.id b)
  unfolding read_through press_of
  step-some r rs b n h = ap (λ o. read_through mark rs (press_of mark r o b)) h

  read_through-done :
      (rs : List Bool) (b : Inbox)
      → find is_unread b.notes ≡ none
      → any is_unread (read_through mark rs b).notes ≡ false
  unfolding read_through
  read_through-done [] b h = unread_none b.notes h
  read_through-done (r ∷ rs) b h = rw (step-none r rs b h) (read_through-done rs b h)

  all_read :
      (rs : List Bool) (b : Inbox)
      → unread b.notes ≤ successes rs
      → any is_unread (read_through mark rs b).notes ≡ false
  unfolding read_through
  all_read [] b h = unread_zero b.notes h
  all_read (true ∷ rs) b h = elim (Option-cases (find is_unread b.notes)) [
    | inl done ↦ rw (step-none true rs b done) (read_through-done rs b done)
    | inr (n, first) ↦
        rw (step-some true rs b n first)
          (all_read rs (press mark true n.id b) (omega (arith, press-unread b n first)))
  ]
  all_read (false ∷ rs) b h = elim (Option-cases (find is_unread b.notes)) [
    | inl done ↦ rw (step-none false rs b done) (read_through-done rs b done)
    | inr (n, first) ↦ rw (step-some false rs b n first) (all_read rs (press mark false n.id b) h)
  ]

  -- Where a mark sets the time of reading as the contract says, pressing the first button that is
  -- left, with at least as many presses that reach the server as there are unread notifications
  -- and however many others fail, ends with no button and without the badge for unread ones.
  pub read_through-listing :
      (rs : List Bool) (b : Inbox)
      → unread b.notes ≤ successes rs
      → ((listing (read_through mark rs b).mark_failed (read_through mark rs b).notes).badge
          ≡ false)
        × All
            (λ r. r.button ≡ false)
            (listing (read_through mark rs b).mark_failed (read_through mark rs b).notes).rows
  unfolding listing row
  read_through-listing rs b h =
      let done = all_read rs b h in
      (
        done,
        All-map (λ r. r.button ≡ false) row _ (none_unread (read_through mark rs b).notes done),
      )
