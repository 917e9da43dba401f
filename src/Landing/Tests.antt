-- ===== src/Landing/Tests.antt =====
-- The preview on the buttons of a visit.
use job_lens.Common.{◌≡◌, refl, length}
use job_lens.Landing.{paces, pace_icons}

-- Each pace has its icon.
icons : length pace_icons ≡ length paces
unfolding pace_icons paces
icons = refl
