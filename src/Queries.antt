-- ===== src/Queries.antt =====
-- The hooks that read and write through the API (the `queries.ts` files of apps/web/src/features): a
-- read has the key of its query and its request; a write has its request and what its `onSuccess`
-- does to the cache.
pub mod Training
pub mod Sop
pub mod Support
pub mod Counselor
pub mod Learner
pub mod Effects
pub mod Stale
pub mod Keys
pub mod Paging
pub mod Screen
mod Tests
use job_lens.Common.{ℕ, Bool, String, Text, Option, none, some, List, [], ◌∷◌, ◌++◌}
use job_lens.Api.{Headers, Settled, ok}
use job_lens.Api.Headers.{JsNumber, create_headers, update_headers, confirm_headers}
use job_lens.Query.Cache.{Key}

-- A GET request: the parts of its path, and its query parameters without the cursor of the page.
pub record Get : Type 0 where
  pub path : List String
  pub query : List (String × String)

pub record Read : Type 0 where
  pub key : Key
  pub request : Get

abbrev pub get_path : List String → Get
get_path path = record { path = path; query = [] }

-- `qc.invalidateQueries`, and `qc.setQueryData` with the answer.
pub data Effect : Type 0 where
  invalidate : Key → Effect
  write : Key → Effect

-- Which of the three functions builds the headers.
pub data HeaderKind : Type 0 where
  creates updates confirms : HeaderKind

pub record Write : Type 0 where
  pub method : String
  pub path : List String
  pub kind : HeaderKind
  pub effects : List Effect

-- The headers, for the version (unused where the write has none) and a fresh key.
unfoldable pub headers_of : HeaderKind → ℕ → Text → Settled Headers
headers_of HeaderKind.creates version key = ok (create_headers key)
headers_of HeaderKind.updates version key = ok (update_headers version)
headers_of HeaderKind.confirms version key = confirm_headers (JsNumber.whole version) key

-- An answer with a page of a list: its items, the cursor of the next page, and whether there is one.
pub record Page {ℓ} (A : Type ℓ) : Type ℓ where
  pub items : List A
  pub next_cursor : Option String
  pub has_more : Bool

-- `data.pages.flatMap(page => page.items)`.
unfoldable pub flat_items {ℓ} : {A : Type ℓ} → List (Page A) → List A
flat_items [] = []
flat_items (p ∷ ps) = p.items ++ flat_items ps
