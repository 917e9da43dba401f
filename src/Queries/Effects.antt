-- ===== src/Queries/Effects.antt =====
-- What a write does to the cache when its answer comes.
use job_lens.Common.{
  ℕ, ◌≡◌, refl, ◌⊎◌, inl, inr, Bool, true, false, Text, Option, none, some, List, [], ◌∷◌, any,
  Bool-cases, Option-cases, arith, ◌∙◌,
}
use job_lens.Api.{Settled, ok, fail, Headers, ◌>>=◌}
use job_lens.Query.Cache.{QueryClient, QueryState, Key, Cached, matches, eq_key, eq_key_iff}
use job_lens.Query.Expiry.{Store, expire}
use job_lens.Queries.{Effect, invalidate, write, Write, headers_of}

-- The effect reaches the query with the key `k`.
abbrev pub touches : Key → Effect → Bool
touches k (invalidate p) = matches p k
touches k (write j) = eq_key j k

abbrev pub covers : List Effect → Key → Bool
covers es k = any (touches k) es

-- A query that is not there, that will be fetched again before it is trusted, or that holds the
-- answer itself.
abbrev pub IsCurrent : Cached → Option QueryState → Type 0
IsCurrent r none = Unit
IsCurrent r (some s) = (s.stale ≡ true) ⊎ (s.content ≡ some r)

module _ (Q : QueryClient) where
  abbrev pub apply_effect : Cached → Effect → Q.Cache → Q.Cache
  apply_effect r (invalidate p) c = Q.invalidate p c
  apply_effect r (write k) c = Q.set_data k r c

  unfoldable pub apply : Cached → List Effect → Q.Cache → Q.Cache
  apply r [] c = c
  apply r (e ∷ es) c = apply r es (apply_effect r e c)

  -- `onSuccess`, or the `onError` of the mutation cache.
  unfoldable pub settle : Write → Settled Cached → Store Q → Store Q
  unfolding apply
  settle w (ok r) s = record s { cache = apply r w.effects s.cache }
  settle w (fail f) s = expire Q f s

  -- `mutateAsync`: headers that cannot be built fail before anything is sent.
  unfoldable pub mutate : (Headers → Settled Cached) → Write → ℕ → Text → Store Q → Store Q
  unfolding settle
  mutate send w version key s = settle w (headers_of w.kind version key >>= send) s

  invalidate-IsCurrent :
      (r : Cached) (p : Key) (c : Q.Cache) (k : Key)
      → matches p k ≡ true
      → IsCurrent r (Q.get (Q.invalidate p c) k)
  invalidate-IsCurrent r p c k m = elim (Option-cases (Q.get c k)) [
    | inl missing ↦ rw (Q.get-invalidate_none p c k missing) tt
    | inr (s, found) ↦
        let (s', at, same_content, stale) = Q.get-invalidate p c k s m found in rw at (inl stale)
  ]

  write-IsCurrent : (r : Cached) (k : Key) (c : Q.Cache) → IsCurrent r (Q.get (Q.set_data k r c) k)
  write-IsCurrent r k c = let (s, at, content, status) = Q.get-set_data k r c in rw at (inr content)

  touch :
      (r : Cached) (e : Effect) (c : Q.Cache) (k : Key)
      → touches k e ≡ true
      → IsCurrent r (Q.get (apply_effect r e c) k)
  touch r (invalidate p) c k h = invalidate-IsCurrent r p c k h
  touch r (write j) c k h = rw (← (eq_key_iff j k).0 h) (write-IsCurrent r j c)

  untouched :
      (r : Cached) (e : Effect) (c : Q.Cache) (k : Key)
      → touches k e ≡ false
      → Q.get (apply_effect r e c) k ≡ Q.get c k
  untouched r (invalidate p) c k h = Q.get-invalidate_other p c k h
  untouched r (write j) c k h =
      Q.get-set_data_ne j r c k (λ at. ground (arith, (eq_key_iff j k).1 at))

  apply-keeps :
      (r : Cached) (es : List Effect) (c : Q.Cache) (k : Key)
      → IsCurrent r (Q.get c k)
      → IsCurrent r (Q.get (apply r es c) k)
  unfolding apply
  apply-keeps r [] c k h = h
  apply-keeps r (e ∷ es) c k h = apply-keeps r es _ k (elim (Bool-cases (touches k e)) [
    | inl hit ↦ touch r e c k hit
    | inr miss ↦ rw (untouched r e c k miss) h
  ])

  pub apply-IsCurrent :
      (r : Cached) (es : List Effect) (c : Q.Cache) (k : Key)
      → covers es k ≡ true
      → IsCurrent r (Q.get (apply r es c) k)
  unfolding apply
  apply-IsCurrent r [] c k h = absurd (ground arith)
  apply-IsCurrent r (e ∷ es) c k h = elim (Bool-cases (touches k e)) [
    | inl hit ↦ apply-keeps r es _ k (touch r e c k hit)
    | inr miss ↦ apply-IsCurrent r es _ k (ground arith)
  ]

  pub apply_other :
      (r : Cached) (es : List Effect) (c : Q.Cache) (k : Key)
      → covers es k ≡ false
      → Q.get (apply r es c) k ≡ Q.get c k
  unfolding apply
  apply_other r [] c k h = refl
  apply_other r (e ∷ es) c k h =
      apply_other r es (apply_effect r e c) k (ground arith) ∙ untouched r e c k (ground arith)

  -- When a write succeeds, a query that its `onSuccess` reaches is absent, stale or holds the
  -- answer, whatever the order of the effects; where it does not reach a query, that query and the
  -- CSRF token are as before.
  pub settle-cases :
      (w : Write) (r : Cached) (s : Store Q) (k : Key)
      → ((covers w.effects k ≡ true) × IsCurrent r (Q.get (settle w (ok r) s).cache k))
        ⊎ ((covers w.effects k ≡ false)
            × (Q.get (settle w (ok r) s).cache k ≡ Q.get s.cache k)
            × ((settle w (ok r) s).csrf ≡ s.csrf))
  unfolding settle
  settle-cases w r s k = elim (Bool-cases (covers w.effects k)) [
    | inl hit ↦ inl (hit, apply-IsCurrent r w.effects s.cache k hit)
    | inr miss ↦ inr (miss, apply_other r w.effects s.cache k miss, refl)
  ]
