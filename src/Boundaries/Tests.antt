-- ===== src/Boundaries/Tests.antt =====
-- The fixtures of check-boundaries.mjs.
use job_lens.Boundaries.Layers.{is_registered, own_feature, node_may}
use job_lens.Boundaries.Accepts.{check-may}
use job_lens.Common.{is_empty, all, ◌&&◌, ◌≡◌, refl, Text, codes, [], ◌∷◌}
use job_lens.Boundaries.{
  Rules, module_of, require_call, check, private_feature, imports_app, unregistered,
}
use job_lens.Boundaries.Paths.{split}

abbrev rules : Rules
rules = (codes "training", codes "sop" ∷ []) ∷ (codes "sop", []) ∷ []

abbrev page : Text
page = codes "features/training/page.tsx"

private_import :
    check rules page (module_of (codes "../sop/private") ∷ [])
    ≡ private_feature (codes "features/sop/private") ∷ []
unfolding check
private_import = refl

app_import :
    check rules page (module_of (codes "../../app/query") ∷ [])
    ≡ imports_app (codes "app/query") ∷ []
unfolding check
app_import = refl

public_import : check rules page (module_of (codes "@/features/sop/public") ∷ []) ≡ []
unfolding check
public_import = refl

unregistered_feature : check rules (codes "features/unregistered/page.tsx") [] ≡ unregistered ∷ []
unfolding check
unregistered_feature = refl

-- An alias is not normalised, so a detour hides where it leads.
hidden_app_import : check rules page (module_of (codes "@/shared/../app/query") ∷ []) ≡ []
unfolding check
hidden_app_import = refl

check-may_example :
    is_empty (check rules page (module_of (codes "../sop/public") ∷ require_call ∷ [])) ≡ (
      is_registered rules (own_feature (split page))
      && all (node_may rules page) (module_of (codes "../sop/public") ∷ require_call ∷ []))
check-may_example = check-may rules page (module_of (codes "../sop/public") ∷ require_call ∷ [])
