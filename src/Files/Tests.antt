-- ===== src/Files/Tests.antt =====
-- A file that is uploaded, checked and removed.
use job_lens.Common.{
  ◌≡◌, refl, ◌≤◌, false, none, some, [], ◌∷◌, arith, includes, unique, add, Distinct, length,
  without, List, ◌++◌,
}
use job_lens.Schema.{FileAsset, FileState, Purpose}
use job_lens.Api.{Settled, ok, fail, error}
use job_lens.Files.{
  Input, opened, ids, pick, pick_disabled, uploaded, ready, remove, refetch_interval,
}
use job_lens.Files.Row.{poll, polls, fetched, unread}
use job_lens.Files.Polling.{IsSettled, poll-IsSettled}
use job_lens.Files.Bounds.{here, next, picked, settled, turned_ready, opened-Events-IsBounded}

abbrev asset : FileAsset
asset = record {
  id = "f";
  case_id = "c";
  task_id = some "t";
  purpose = Purpose.task_evidence;
  filename = "a.png";
  mime_type = "image/png";
  size_bytes = 2048;
  state = FileState.quarantined;
  reason = none;
  width = none;
  height = none;
  version = 1;
  created_at = "2026-01-01";
}

abbrev uploading : Input
uploading = pick false (opened ("e" ∷ []))

abbrev held : Input
held = ready "f" (uploaded (ok asset) uploading)

value_of_held : held.value ≡ "e" ∷ "f" ∷ []
unfolding ready uploaded pick pick_disabled ids opened unique add includes
value_of_held = refl

opened-Events-IsBounded_example :
    Distinct held.value × (length (ids held) ≤ 5) × (length held.value ≤ 5)
unfolding uploaded pick pick_disabled ids opened unique add includes
opened-Events-IsBounded_example =
    opened-Events-IsBounded ("e" ∷ []) (refl, tt) (omega arith)
      (next
        (next (next here (picked false (opened ("e" ∷ [])))) (settled (ok asset) uploading refl))
        (turned_ready "f" (uploaded (ok asset) uploading) refl))

emptied : (remove "e" (remove "f" held)).value ≡ []
unfolding remove without ready uploaded pick pick_disabled ids opened unique add includes
emptied = refl

abbrev in_scan : FileAsset
in_scan = record asset { state = FileState.scanning }

abbrev checked : FileAsset
checked = record asset { state = FileState.ready; version = 2 }

abbrev answers : List (Settled FileAsset)
answers = ok in_scan ∷ fail (error "offline") ∷ []

poll-IsSettled_example :
    IsSettled "f" checked held 4 (poll "f" (ok asset ∷ answers ++ ok checked ∷ []) unread held)
poll-IsSettled_example =
    poll-IsSettled "f" asset answers checked [] unread held refl (refl, (tt, tt)) refl

never_loaded : (poll "f" (fail (error "offline") ∷ ok checked ∷ []) unread held).requests ≡ 1
unfolding poll polls fetched refetch_interval
never_loaded = refl
