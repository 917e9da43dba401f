-- ===== src/Queries/Screen.antt =====
-- What a page reads of a query (`isPending`, `isError`, `data`, `isFetching`), and the three things
-- that it shows: that it loads, an error with a retry, or its content.
use job_lens.Common.{
  ◌≡◌, Bool, true, false, Text, Option, none, some, is_some, arith, ℕ, ◌==◌, inl, inr,
}
use job_lens.Api.{Failure, api, error, fail, Fetched, unwrap}
use job_lens.Api.Laws.{unwrap_cases}
use job_lens.Query.Cache.{QueryStatus}

pub record Result (A : Type 0) : Type 0 where
  pub status : QueryStatus
  pub content : Option A
  pub failure : Option Failure
  pub fetching : Bool

module _ {A : Type 0} where
  abbrev pub is_pending : Result A → Bool
  is_pending r = elim r.status [ QueryStatus.pending ↦ true | _ ↦ false ]

  abbrev pub is_error : Result A → Bool
  is_error r = elim r.status [ QueryStatus.error ↦ true | _ ↦ false ]

  -- What the library documents of a result: no data while it is pending, an error where it failed,
  -- data where it succeeded.
  pub record IsResult (r : Result A) : Type 0 where
    pub none_yet : is_pending r ≡ true → r.content ≡ none
    pub failed : is_error r ≡ true → is_some r.failure ≡ true
    pub read : is_pending r ≡ false → is_error r ≡ false → is_some r.content ≡ true

pub data Screen (A : Type 0) : Type 0 where
  loading : Screen A
  failed : (message : Text) (retry : Bool) → Screen A
  content : A → Screen A
  nothing : Screen A

-- `error instanceof ApiError && error.status === status`.
unfoldable pub has_status : ℕ → Option Failure → Bool
has_status status none = false
has_status status (some (error _)) = false
has_status status (some (api e)) = e.status == status

-- What `unwrap` throws of an answer has the answer's status.
pub has_status-unwrap :
    {A : Type 0} (status : ℕ) (answer : Fetched A) {f : Failure}
    → unwrap answer ≡ fail f
    → has_status status (some f) ≡ (answer.response.status == status)
unfolding has_status
has_status-unwrap status answer {f} e = elim (unwrap_cases answer) [
  | inl (t, good, full, u) ↦ absurd (ground arith)
  | inr (x, why, u, st) ↦ ground (arith, u, e, st)
]
