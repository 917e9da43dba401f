-- ===== src/Notices/Tests.antt =====
-- Two unread notifications.
use job_lens.Common.{◌≡◌, refl, true, false, none, [], ◌∷◌, map, All, String, List, arith}
use job_lens.Schema.{Notification, ResourceType}
use job_lens.Notices.{listing, type_text}
use job_lens.Notices.Reading.{Inbox, Marks, noted, read_through, read_through-listing}

abbrev note_of : String → Notification
note_of id = record {
  id = id;
  seq = "1";
  type = "support.accept";
  resource_type = ResourceType.assistance;
  resource_id = "a-1";
  created_at = "2026-01-01";
  read_at = none;
}

abbrev inbox : Inbox
inbox = record { notes = note_of "n-1" ∷ note_of "n-2" ∷ []; mark_failed = false }

abbrev mark : String → List Notification → List Notification
mark id ns = map (noted id "2026-01-02") ns

mark-Marks : Marks mark
mark-Marks id ns = ("2026-01-02", refl)

read_through-listing_example :
    ((listing
        (read_through mark (true ∷ false ∷ true ∷ []) inbox).mark_failed
        (read_through mark (true ∷ false ∷ true ∷ []) inbox).notes).badge
      ≡ false)
    × All
        (λ r. r.button ≡ false)
        (listing
          (read_through mark (true ∷ false ∷ true ∷ []) inbox).mark_failed
          (read_through mark (true ∷ false ∷ true ∷ []) inbox).notes).rows
read_through-listing_example =
    read_through-listing mark mark-Marks (true ∷ false ∷ true ∷ []) inbox (omega arith)

unknown_type : type_text "files.removed" ≡ "files.removed"
unfolding type_text
unknown_type = refl
