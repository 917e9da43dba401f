-- ===== src/Sop.antt =====
-- apps/web/src/features/sop: the planning of a standard operating procedure.
pub mod StepList
pub mod DraftForm
pub mod Page
