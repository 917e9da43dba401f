-- ===== src/Counselor/Board.antt =====
-- apps/web/src/features/counselor/Dashboard.tsx. The texts of the dates are left to the browser.
use job_lens.Common.{
  ℕ, zero, suc, ◌≡◌, refl, Bool, true, false, ◌&&◌, ◌||◌, String, Text, codes, Option, some, List,
  [], ◌∷◌, ◌++◌, map, if◌then◌else◌, is_empty, is_some, arith, Option-cases, Bool-cases, inl, inr,
}
use job_lens.Schema.{Dashboard, Case}
use job_lens.Queries.Paging.{Pages, items}
use job_lens.Queries.Screen.{
  Result, IsResult, is_pending, is_error, Screen, loading, failed, content,
}
use job_lens.Counselor.{display_status_text}

-- `slice(0, n)`.
unfoldable pub take {ℓ} : {A : Type ℓ} → ℕ → List A → List A
take zero xs = []
take (suc n) [] = []
take (suc n) (x ∷ xs) = x ∷ take n xs

-- The first eight characters of an id.
unfoldable pub short_id : Text → Text
unfolding take
short_id = take 8

pub record Follow : Type 0 where
  pub title : Text
  pub status : Text
  pub link : Text

unfoldable pub follow : Case → Follow
unfolding short_id display_status_text
follow c = record {
  title = codes "个案 #" ++ short_id c.id;
  status = display_status_text c.display_status;
  link = codes "/counselor/cases/" ++ c.id;
}

pub record Board : Type 0 where
  pub refresh_text : Text
  pub refresh_disabled : Bool
  pub stale_error : Bool
  pub pending_tasks : ℕ
  pub pending_feedback : ℕ
  pub pending_assistance : ℕ
  pub follows : List Follow
  pub empty : Bool
  pub as_of : String

unfoldable pub board : Result Dashboard → Result (Pages Case) → Dashboard → Pages Case → Board
unfolding follow items take
board d cases summary ps = record {
  refresh_text = if d.fetching || cases.fetching then codes "正在刷新…" else codes "刷新工作台";
  refresh_disabled = d.fetching || cases.fetching;
  stale_error = is_error d || is_error cases;
  pending_tasks = summary.pending_tasks;
  pending_feedback = summary.pending_feedback;
  pending_assistance = summary.pending_assistance;
  follows = map follow (take 5 (items ps));
  empty = is_empty (items ps);
  as_of = summary.as_of;
}

board_of :
    Result Dashboard → Result (Pages Case) → Option Dashboard → Option (Pages Case) → Screen Board
unfolding board
board_of d cases (some summary) (some ps) = content (board d cases summary ps)
board_of d cases _ _ = failed (codes "工作台暂不可用") true

-- `Dashboard`.
unfoldable pub dashboard : Result Dashboard → Result (Pages Case) → Screen Board
unfolding board_of
dashboard d cases =
    if is_pending d || is_pending cases then loading else board_of d cases d.content cases.content

-- What a screen tells of the two queries, by whether one failed and whether both have data.
abbrev pub Tells : Bool → Bool → Screen Board → Type 0
Tells failure read loading = read ≡ false
Tells failure read (failed message retry) = (failure ≡ true) × (read ≡ false) × (retry ≡ true)
Tells failure read (content b) = (b.stale_error ≡ failure) × (read ≡ true)
Tells failure read Screen.nothing = ⊥

board_of-Tells :
    (d : Result Dashboard) (cases : Result (Pages Case))
    → ((is_error d || is_error cases) ≡ false → (is_some d.content && is_some cases.content) ≡ true)
    → Tells
        (is_error d || is_error cases)
        (is_some d.content && is_some cases.content)
        (board_of d cases d.content cases.content)
unfolding board_of board
board_of-Tells d cases h = elim (Option-cases d.content) [
  | inl missing ↦ rw missing (ground arith)
  | inr (s, there) ↦ elim (Option-cases cases.content) [
    | inl missing ↦ rw (there, missing) (ground arith)
    | inr (ps, all_there) ↦ rw (there, all_there) (refl, refl)
  ]
]

-- The dashboard shows its content only where both of its queries have data, and then says exactly
-- whether one of them failed; it shows its error panel, with a retry, only where one failed and
-- data is missing, and that it loads only where data is missing. The results are as the library
-- documents them.
pub dashboard-Tells :
    (d : Result Dashboard) (cases : Result (Pages Case))
    → IsResult d
    → IsResult cases
    → Tells
        (is_error d || is_error cases)
        (is_some d.content && is_some cases.content)
        (dashboard d cases)
unfolding dashboard
dashboard-Tells d cases p q = elim (Bool-cases (is_pending d || is_pending cases)) [
  | inl waiting ↦ rw waiting (ground (arith, p.none_yet, q.none_yet))
  | inr settled ↦ rw settled (board_of-Tells d cases (λ k. ground (arith, p.read, q.read)))
]
