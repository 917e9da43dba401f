-- ===== src/Query/Model.antt =====
-- A cache as a function from keys: the interface of `Cache` can be met.
use mathlib.Core.Option
use job_lens.Common.{
  ◌≡◌, refl, ◌≢◌, true, false, Option, none, some, if◌then◌else◌, Bool-cases, inl, inr,
}
use job_lens.Query.Cache.{
  QueryClient, QueryState, Key, QueryStatus, FetchStatus, Cached, eq_key, eq_key_iff, matches,
}

abbrev Table : Type 0
Table = Key → Option QueryState

abbrev fresh : Cached → QueryState
fresh d = record {
  content = some d;
  failure = none;
  status = QueryStatus.success;
  fetch_status = FetchStatus.idle;
  stale = false;
}

abbrev mark : QueryState → QueryState
mark s = record s { stale = true }

abbrev put : Key → QueryState → Table → Table
put k s c j = if eq_key k j then some s else c j

pub put_self : (k : Key) (s : QueryState) (c : Table) → put k s c k ≡ some s
put_self k s c = rw ((eq_key_iff k k).1 refl)

pub put_ne : (k : Key) (s : QueryState) (c : Table) (j : Key) → k ≢ j → put k s c j ≡ c j
put_ne k s c j ne = elim (Bool-cases (eq_key k j)) [
  | inl e ↦ absurd (ne ((eq_key_iff k j).0 e))
  | inr e ↦ rw e
]

abbrev stamp : Key → Table → Table
stamp p c j = if matches p j then Option.map mark (c j) else c j

pub stamp_match :
    (p : Key) (c : Table) (k : Key) (s : QueryState)
    → matches p k ≡ true
    → c k ≡ some s
    → (s' : QueryState) × (stamp p c k ≡ some s') × (s'.content ≡ s.content) × (s'.stale ≡ true)
stamp_match p c k s m h = (mark s, rw (m, h), refl, refl)

pub stamp-none : (p : Key) (c : Table) (k : Key) → c k ≡ none → stamp p c k ≡ none
stamp-none p c k h = elim (Bool-cases (matches p k)) [ inl m ↦ rw (m, h) | inr m ↦ rw (m, h) ]

pub stamp_other : (p : Key) (c : Table) (k : Key) → matches p k ≡ false → stamp p c k ≡ c k
stamp_other p c k m = rw m

abbrev pub table_client : QueryClient
table_client = record {
  Cache = Table;
  get = λ c k. c k;
  remove = λ p c k. if p k then none else c k;
  cancel = λ p c. c;
  clear = λ c k. none;
  set_state = put;
  set_data = λ k d. put k (fresh d);
  invalidate = stamp;
  get-remove = λ p c k. refl;
  get-cancel = λ p c k h. refl;
  get-clear = λ c k. refl;
  get-set_state = put_self;
  get-set_state_ne = put_ne;
  get-set_data = λ k d c. (fresh d, put_self k (fresh d) c, refl, refl);
  get-set_data_ne = λ k d. put_ne k (fresh d);
  get-invalidate = stamp_match;
  get-invalidate_none = stamp-none;
  get-invalidate_other = stamp_other;
}
