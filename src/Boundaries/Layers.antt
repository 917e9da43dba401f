-- ===== src/Boundaries/Layers.antt =====
-- The rules between the parts of apps/web/src, on the segments of the paths,
-- which check-boundaries.mjs is to enforce.
use job_lens.Common.{
  Bool, true, false, not, ◌&&◌, ◌||◌, Text, text_eq, codes, Option, none, some, List, [], ◌∷◌,
  if◌then◌else◌, is_empty, is_some,
}
use job_lens.Boundaries.{
  Rules, rule_of, Node, module_of, require_call, import_call, ignored, depends,
}
use job_lens.Boundaries.Paths.{split, target_of}
use job_lens.Boundaries.Segments.{in_dir}

-- The feature that a file stands in, and the feature that a target names.
abbrev pub own_feature : List Text → Option Text
own_feature (s ∷ x ∷ _ ∷ _) =
    if text_eq s (codes "features") && not (is_empty x) then some x else none
own_feature _ = none

abbrev pub named_feature : List Text → Option Text
named_feature (s ∷ x ∷ _) =
    if text_eq s (codes "features") && not (is_empty x) then some x else none
named_feature _ = none

unfoldable pub same_path : List Text → List Text → Bool
same_path [] [] = true
same_path (s ∷ ss) (t ∷ ts) = text_eq s t && same_path ss ts
same_path _ _ = false

-- A feature may import itself, what is no feature, and the public module of a feature that it
-- depends on.
unfoldable pub may_use : Rules → Text → Option Text → List Text → Bool
unfolding same_path
may_use rules own none target = true
may_use rules own (some g) target =
    text_eq g own
    || (depends rules own g && same_path target (codes "features" ∷ g ∷ codes "public" ∷ []))

unfoldable pub may_of : Rules → Option Text → List Text → Bool
unfolding may_use
may_of rules none target = true
may_of rules (some own) target =
    not (in_dir (codes "app") target) && may_use rules own (named_feature target) target

-- A file may import a target: the shared modules import neither the app nor a feature, and no feature
-- imports the app.
unfoldable pub may : Rules → List Text → List Text → Bool
unfolding may_of
may rules file target =
    not (
      in_dir (codes "shared") file
      && (in_dir (codes "app") target || in_dir (codes "features") target))
    && may_of rules (own_feature file) target

-- A package, which has no target, may be imported by all.
abbrev pub target_may : Rules → Text → Option Text → Bool
target_may rules file none = true
target_may rules file (some target) = may rules (split file) (split target)

-- A node that asks for nothing that its file may not import.
abbrev pub node_may : Rules → Text → Node → Bool
node_may rules file (module_of specifier) = target_may rules file (target_of file specifier)
node_may rules file require_call = false
node_may rules file (import_call none) = false
node_may rules file (import_call (some specifier)) =
    target_may rules file (target_of file specifier)
node_may rules file ignored = true

unfoldable pub is_registered : Rules → Option Text → Bool
is_registered rules none = true
is_registered rules (some own) = is_some (rule_of own rules)
