-- ===== src/Boundaries/Paths.antt =====
-- The paths of check-boundaries.mjs: `path.posix.dirname`, `join` and `normalize` of Node.js on the
-- relative paths that it is called with, and the target of an import.
use job_lens.Common.{
  ℕ, Bool, false, ◌&&◌, Text, text_eq, codes, Option, none, some, List, [], ◌∷◌, ◌++◌,
  if◌then◌else◌, is_empty, starts_with, ◌==◌,
}

abbrev pub cons_head : ℕ → List Text → List Text
cons_head c [] = (c ∷ []) ∷ []
cons_head c (s ∷ ss) = (c ∷ s) ∷ ss

-- The segments between the slashes.
unfoldable pub split : Text → List Text
split [] = [] ∷ []
split (c ∷ t) = let rest = split t in if c == b'/' then [] ∷ rest else cons_head c rest

unfoldable pub join : List Text → Text
join [] = []
join (s ∷ []) = s
join (s ∷ r ∷ rs) = s ++ b'/' ∷ join (r ∷ rs)

-- The segments of a path that were kept, the last one first; a `..` takes one away unless there is
-- none or it is a `..` too.
step : List Text → Text → List Text
unfolding text_eq
step kept [] = kept
step kept (c ∷ s) =
    if text_eq (c ∷ s) (codes ".")
    then kept
    else if text_eq (c ∷ s) (codes "..")
    then elim kept [
      | [] ↦ codes ".." ∷ []
      | k ∷ ks ↦ if text_eq k (codes "..") then codes ".." ∷ k ∷ ks else ks
    ]
    else (c ∷ s) ∷ kept

walk : List Text → List Text → List Text
unfolding step
walk kept [] = kept
walk kept (s ∷ ss) = walk (step kept s) ss

onto : List Text → List Text → List Text
onto [] acc = acc
onto (s ∷ ss) acc = onto ss (s ∷ acc)

ends_with_slash : Text → Bool
ends_with_slash [] = false
ends_with_slash (c ∷ []) = c == b'/'
ends_with_slash (c ∷ d ∷ t) = ends_with_slash (d ∷ t)

-- `normalize` of a relative path.
unfoldable pub normalize : Text → Text
unfolding split join walk onto ends_with_slash
normalize path =
    let body = join (onto (walk [] (split path)) []) in
    (if is_empty body then codes "." else body) ++ (if ends_with_slash path then b'/' ∷ [] else [])

init : List Text → List Text
init [] = []
init (s ∷ []) = []
init (s ∷ r ∷ rs) = s ∷ init (r ∷ rs)

-- `dirname` of a file below the root.
unfoldable pub dirname : Text → Text
unfolding split join init
dirname file = let dir = join (init (split file)) in if is_empty dir then codes "." else dir

-- The target of a specifier of the sources; none of a package.
unfoldable pub target_of : Text → Text → Option Text
unfolding normalize dirname starts_with
target_of file [] = none
target_of file (c ∷ []) =
    if c == b'.' then some (normalize (dirname file ++ b'/' ∷ c ∷ [])) else none
target_of file (c ∷ d ∷ rest) =
    if c == b'@' && d == b'/'
    then some rest
    else if c == b'.'
    then some (normalize (dirname file ++ b'/' ∷ c ∷ d ∷ rest))
    else none
