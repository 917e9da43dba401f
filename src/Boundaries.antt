-- ===== src/Boundaries.antt =====
-- apps/web/tools/check-boundaries.mjs: which modules a source file may import. The parser is
-- TypeScript's: a file is the list of its nodes in the order of the visit.
pub mod Paths
pub mod Segments
pub mod Layers
pub mod Patterns
pub mod Accepts
mod Tests
use job_lens.Common.{
  ℕ, Bool, true, false, not, ◌&&◌, ◌||◌, Text, text_eq, codes, Option, none, some, List, [], ◌∷◌,
  ◌++◌, if◌then◌else◌, is_empty, is_some, any, starts_with, ◌==◌,
}
use job_lens.Boundaries.Paths.{target_of}

-- `architecture.generated.json`: the features, and for each those that it depends on.
abbrev pub Rules : Type 0
Rules = List (Text × List Text)

-- `rules[own]`. The names are plain words, none of them a property of every object.
unfoldable pub rule_of : Text → Rules → Option (List Text)
unfolding text_eq
rule_of f [] = none
rule_of f ((g, ds) ∷ rs) = let rest = rule_of f rs in if text_eq g f then some ds else rest

-- The nodes that the visit looks at: an import or export with the text of its module, a call of
-- `require`, an `import()` with its literal argument, and all others.
pub data Node : Type 0 where
  module_of : (specifier : Text) → Node
  require_call : Node
  import_call : (literal : Option Text) → Node
  ignored : Node

pub data Problem : Type 0 where
  unregistered common_js nonliteral : Problem
  shared_boundary imports_app private_feature : (target : Text) → Problem

-- `/^([^/]+)\//` behind the prefix: the text before a slash, with whether a slash follows.
unfoldable pub segment : Text → Text × Bool
segment [] = ([], false)
segment (c ∷ t) = let rest = segment t in if c == b'/' then ([], true) else (c ∷ rest.0, rest.1)

-- What follows a prefix.
unfoldable pub strip : Text → Text → Option Text
strip [] t = some t
strip (p ∷ ps) [] = none
strip (p ∷ ps) (c ∷ t) = let rest = strip ps t in if p == c then rest else none

abbrev pub features_dir : Text
features_dir = codes "features/"

-- `file.match(/^features\/([^/]+)\//)?.[1]`.
unfoldable pub own_of : Text → Option Text
unfolding segment strip
own_of file = elim (strip features_dir file) [
  | none ↦ none
  | some t ↦ if not (is_empty (segment t).0) && (segment t).1 then some (segment t).0 else none
]

-- `target.match(/^features\/([^/]+)(?:\/|$)/)?.[1]`.
unfoldable pub other_of : Text → Option Text
unfolding segment strip
other_of target = elim (strip features_dir target) [
  | none ↦ none
  | some t ↦ if not (is_empty (segment t).0) then some (segment t).0 else none
]

-- `depends_on.includes(other)`; a missing rule has none.
unfoldable pub depends : Rules → Text → Text → Bool
unfolding rule_of text_eq
depends rules own other = elim (rule_of own rules) [
  | none ↦ false
  | some ds ↦ any (λ d. text_eq d other) ds
]

-- `new RegExp('^features/' + other + '/public$').test(target)`. It is asked of a name that the rules
-- hold, a plain word.
unfoldable pub is_public : Text → Text → Bool
unfolding text_eq
is_public other target = text_eq target (codes "features/" ++ other ++ codes "/public")

-- The third test of `inspect`.
unfoldable pub is_private : Rules → Option Text → Option Text → Text → Bool
unfolding text_eq depends is_public
is_private rules none other target = false
is_private rules (some own) none target = false
is_private rules (some own) (some other) target =
    not (text_eq other own) && (not (depends rules own other) || not (is_public other target))

-- The first test.
unfoldable pub leaves_shared : Text → Text → Bool
unfolding starts_with
leaves_shared file target =
    starts_with (codes "shared/") file
    && (starts_with (codes "app/") target || starts_with (codes "features/") target)

abbrev pub when : Bool → Problem → List Problem
when b p = if b then p ∷ [] else []

unfoldable pub inspect_target : Rules → Text → Text → List Problem
unfolding own_of other_of is_private leaves_shared starts_with
inspect_target rules file target =
    (when (leaves_shared file target) (shared_boundary target)
      ++ when (is_some (own_of file) && starts_with (codes "app/") target) (imports_app target))
    ++ when (is_private rules (own_of file) (other_of target) target) (private_feature target)

-- `inspect`: a specifier of a package has no target and is not looked at.
unfoldable pub inspect_of : Rules → Text → Option Text → List Problem
unfolding inspect_target
inspect_of rules file none = []
inspect_of rules file (some target) = inspect_target rules file target

unfoldable pub inspect : Rules → Text → Text → List Problem
unfolding inspect_of target_of
inspect rules file specifier = inspect_of rules file (target_of file specifier)

unfoldable pub visit : Rules → Text → Node → List Problem
unfolding inspect
visit rules file (module_of specifier) = inspect rules file specifier
visit rules file require_call = common_js ∷ []
visit rules file (import_call none) = nonliteral ∷ []
visit rules file (import_call (some specifier)) = inspect rules file specifier
visit rules file ignored = []

unfoldable pub visit_all : Rules → Text → List Node → List Problem
unfolding visit
visit_all rules file [] = []
visit_all rules file (n ∷ ns) = visit rules file n ++ visit_all rules file ns

unfoldable pub unregistered_of : Rules → Option Text → List Problem
unfolding rule_of
unregistered_of rules none = []
unregistered_of rules (some own) = when (not (is_some (rule_of own rules))) unregistered

-- `check`.
unfoldable pub check : Rules → Text → List Node → List Problem
unfolding own_of unregistered_of visit_all
check rules file ns = unregistered_of rules (own_of file) ++ visit_all rules file ns
