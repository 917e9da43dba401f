-- ===== src/Boundaries/Accepts.antt =====
-- What check-boundaries.mjs accepts.
use job_lens.Common.{
  ◌≡◌, refl, sym, ◌∙◌, Bool, true, false, not, ◌&&◌, ◌||◌, Text, codes, Option, none, some, List,
  [], ◌∷◌, ◌++◌, is_empty, is_some, all, starts_with, arith,
}
use job_lens.Boundaries.{
  inspect_of, when, Problem, shared_boundary, imports_app, private_feature, Rules, Node, module_of,
  require_call, import_call, ignored, own_of, other_of, is_private, leaves_shared, inspect_target,
  inspect, visit, visit_all, check, unregistered_of,
}
use job_lens.Boundaries.Paths.{split, target_of}
use job_lens.Boundaries.Segments.{in_dir, starts_with-in_dir}
use job_lens.Boundaries.Layers.{
  own_feature, may_use, may_of, may, target_may, node_may, is_registered,
}
use job_lens.Boundaries.Patterns.{own_of-split, other_of-split, other_of-plain, is_public-split}

private-may :
    (rules : Rules) (own : Text) (other : Option Text) (target : Text)
    → other ≡ other_of target
    → is_private rules (some own) other target ≡ not (may_use rules own other (split target))
unfolding is_private may_use
private-may rules own none target h = refl
private-may rules own (some g) target h =
    rw (is_public-split g target (other_of-plain target g (sym h))) (ground arith)

owned :
    (rules : Rules) (own : Option Text) (target : Text)
    → (not (is_some own && starts_with (codes "app/") target)
        && not (is_private rules own (other_of target) target))
      ≡ may_of rules own (split target)
unfolding may_of is_private
owned rules none target = refl
owned rules (some own) target =
    rw
      (
        private-may rules own (other_of target) target refl,
        starts_with-in_dir (codes "app") target refl,
        other_of-split target,
      )
      (ground arith)

leaves :
    (file target : Text)
    → leaves_shared file target ≡ (
        in_dir (codes "shared") (split file)
        && (in_dir (codes "app") (split target) || in_dir (codes "features") (split target)))
unfolding leaves_shared
leaves file target =
    rw
      (
        starts_with-in_dir (codes "shared") file refl,
        starts_with-in_dir (codes "app") target refl,
        starts_with-in_dir (codes "features") target refl,
      )
      refl

three :
    (a b c : Bool) (p q r : Problem)
    → is_empty ((when a p ++ when b q) ++ when c r) ≡ (not a && (not b && not c))
three true b c p q r = refl
three false true c p q r = refl
three false false true p q r = refl
three false false false p q r = refl

inspect_target-may :
    (rules : Rules) (file target : Text)
    → is_empty (inspect_target rules file target) ≡ may rules (split file) (split target)
unfolding inspect_target may
inspect_target-may rules file target =
    three _ _ _ (shared_boundary target) (imports_app target) (private_feature target)
    ∙ rw (leaves file target, owned rules (own_of file) target, own_of-split file) refl

inspect_of-may :
    (rules : Rules) (file : Text) (o : Option Text)
    → is_empty (inspect_of rules file o) ≡ target_may rules file o
unfolding inspect_of
inspect_of-may rules file none = refl
inspect_of-may rules file (some target) = inspect_target-may rules file target

inspect-may :
    (rules : Rules) (file specifier : Text)
    → is_empty (inspect rules file specifier) ≡ target_may rules file (target_of file specifier)
unfolding inspect
inspect-may rules file specifier = inspect_of-may rules file (target_of file specifier)

visit-may :
    (rules : Rules) (file : Text) (n : Node) → is_empty (visit rules file n) ≡ node_may rules file n
unfolding visit
visit-may rules file (module_of specifier) = inspect-may rules file specifier
visit-may rules file require_call = refl
visit-may rules file (import_call none) = refl
visit-may rules file (import_call (some specifier)) = inspect-may rules file specifier
visit-may rules file ignored = refl

is_empty-append : {A : Type 0} (xs ys : List A) → is_empty (xs ++ ys) ≡ (is_empty xs && is_empty ys)
is_empty-append [] ys = refl
is_empty-append (x ∷ xs) ys = refl

visit_all-may :
    (rules : Rules) (file : Text) (ns : List Node)
    → is_empty (visit_all rules file ns) ≡ all (node_may rules file) ns
unfolding visit_all
visit_all-may rules file [] = refl
visit_all-may rules file (n ∷ ns) =
    rw
      (
        is_empty-append (visit rules file n) (visit_all rules file ns),
        visit-may rules file n,
        visit_all-may rules file ns,
      )
      refl

registered :
    (rules : Rules) (own : Option Text)
    → is_empty (unregistered_of rules own) ≡ is_registered rules own
unfolding unregistered_of is_registered
registered rules none = refl
registered rules (some own) = ground arith

-- The tool accepts a file exactly when the feature it stands in, if any, is registered and every
-- node of it is allowed: it is no call of `require` and no `import()` of a computed text, and the
-- target of an import is one that the file may use, by the segments of both paths.
pub check-may :
    (rules : Rules) (file : Text) (ns : List Node)
    → is_empty (check rules file ns)
      ≡ (is_registered rules (own_feature (split file)) && all (node_may rules file) ns)
unfolding check
check-may rules file ns =
    rw
      (
        is_empty-append (unregistered_of rules (own_of file)) (visit_all rules file ns),
        registered rules (own_of file),
        visit_all-may rules file ns,
        own_of-split file,
      )
      refl
