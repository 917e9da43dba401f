-- ===== src/Query/Cache.antt =====
-- The interface of @tanstack/react-query that the client uses: query keys, the state of a query, and
-- the operations of `QueryClient` with their documented effect.
use job_lens.Common.{
  ℕ, ◌≡◌, ◌≢◌, Bool, true, false, ◌&&◌, String, Option, none, some, List, [], ◌∷◌, same, same_iff,
  arith, ◌↔◌, if◌then◌else◌,
}
use job_lens.Schema.{User, Task, Profile}
use job_lens.Api.{Failure}

abbrev pub Key : Type 0
Key = List String

-- Partial matching of keys: the filter is a prefix.
abbrev pub matches : Key → Key → Bool
matches [] k = true
matches (_ ∷ _) [] = false
matches (x ∷ p) (y ∷ k) = same x y && matches p k

-- Equality of keys.
unfoldable pub eq_key : Key → Key → Bool
eq_key [] [] = true
eq_key (x ∷ j) (y ∷ k) = same x y && eq_key j k
eq_key _ _ = false

pub eq_key_iff : (j k : Key) → (eq_key j k ≡ true) ↔ (j ≡ k)
unfolding eq_key
eq_key_iff [] [] = ground arith
eq_key_iff [] (y ∷ k) = ground arith
eq_key_iff (x ∷ j) [] = ground arith
eq_key_iff (x ∷ j) (y ∷ k) = ground (arith, same_iff x y, eq_key_iff j k)

-- The data that the program writes into the cache itself; all else is opaque here.
pub data Cached : Type 0 where
  session : User → Cached
  task : Task → Cached
  profile : Profile → Cached
  fetched : ℕ → Cached

pub data QueryStatus : Type 0 where
  pending error success : QueryStatus

pub data FetchStatus : Type 0 where
  fetching halted idle : FetchStatus

pub record QueryState : Type 0 where
  pub content : Option Cached
  pub failure : Option Failure
  pub status : QueryStatus
  pub fetch_status : FetchStatus
  pub stale : Bool

-- `get` reads the state of the query with exactly that key. `remove` and `cancel` take a predicate
-- on keys, `invalidate` a prefix.
pub record QueryClient : Type 1 where
  pub Cache : Type 0
  pub get : Cache → Key → Option QueryState
  pub remove : (Key → Bool) → Cache → Cache
  pub cancel : (Key → Bool) → Cache → Cache
  pub clear : Cache → Cache
  pub set_state : Key → QueryState → Cache → Cache
  pub set_data : Key → Cached → Cache → Cache
  pub invalidate : Key → Cache → Cache
  pub get-remove :
      (p : Key → Bool) (c : Cache) (k : Key) → get (remove p c) k ≡ (if p k then none else get c k)
  pub get-cancel :
      (p : Key → Bool) (c : Cache) (k : Key) → p k ≡ false → get (cancel p c) k ≡ get c k
  pub get-clear : (c : Cache) (k : Key) → get (clear c) k ≡ none
  pub get-set_state : (k : Key) (s : QueryState) (c : Cache) → get (set_state k s c) k ≡ some s
  pub get-set_state_ne :
      (k : Key) (s : QueryState) (c : Cache) (j : Key) → k ≢ j → get (set_state k s c) j ≡ get c j
  pub get-set_data :
      (k : Key) (d : Cached) (c : Cache)
      → (s : QueryState) × (get (set_data k d c) k ≡ some s)
        × (s.content ≡ some d)
        × (s.status ≡ QueryStatus.success)
  pub get-set_data_ne :
      (k : Key) (d : Cached) (c : Cache) (j : Key) → k ≢ j → get (set_data k d c) j ≡ get c j
  pub get-invalidate :
      (p : Key) (c : Cache) (k : Key) (s : QueryState)
      → matches p k ≡ true
      → get c k ≡ some s
      → (s' : QueryState) × (get (invalidate p c) k ≡ some s')
        × (s'.content ≡ s.content)
        × (s'.stale ≡ true)
  pub get-invalidate_none :
      (p : Key) (c : Cache) (k : Key) → get c k ≡ none → get (invalidate p c) k ≡ none
  pub get-invalidate_other :
      (p : Key) (c : Cache) (k : Key) → matches p k ≡ false → get (invalidate p c) k ≡ get c k
