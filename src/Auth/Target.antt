-- ===== src/Auth/Target.antt =====
-- Where a sign-in leads.
use job_lens.Common.{
  starts_with, ◌≡◌, refl, inl, inr, true, false, ◌&&◌, not, Text, [], ◌∷◌, ◌==◌, any, Bool-cases,
  arith,
}
use job_lens.Schema.{User, Role}
use job_lens.Api.{Field, string, other}
use job_lens.Auth.{has_role, is_path, backslash, login_path, fallback, target}

-- A path of this origin: it starts with one slash, which no slash and no backslash follows.
abbrev pub IsLocal : Text → Type 0
IsLocal [] = ⊥
IsLocal (c ∷ []) = c ≡ b'/'
IsLocal (c ∷ d ∷ _) = (c ≡ b'/') × ((d == b'/') ≡ false) × ((d == backslash) ≡ false)

path-IsLocal : (t : Text) → is_path t ≡ true → any (λ c. c == backslash) t ≡ false → IsLocal t
unfolding is_path
path-IsLocal [] h k = absurd (ground arith)
path-IsLocal (c ∷ []) h k = ground arith
path-IsLocal (c ∷ d ∷ t) h k = (ground arith, ground arith, ground arith)

fallback-IsLocal : (u : User) → IsLocal (fallback u)
fallback-IsLocal u = elim (Bool-cases (has_role Role.counselor u)) [
  | inl yes_counselor ↦ rw yes_counselor (refl, refl, refl)
  | inr no_counselor ↦ rw no_counselor (refl, refl, refl)
]

-- Whatever the state of the navigation holds, signing in leads to a text that starts with one
-- slash, which no slash and no backslash follows.
pub target-IsLocal : (return_to : Field) (u : User) → IsLocal (target return_to u)
unfolding target
target-IsLocal other u = fallback-IsLocal u
target-IsLocal (string t) u =
    elim (Bool-cases
      (is_path t && not (any (λ c. c == backslash) t) && not (starts_with login_path t))) [
        | inl good ↦ rw good (path-IsLocal t (ground arith) (ground arith))
        | inr bad ↦ rw bad (fallback-IsLocal u)
      ]
