-- ===== src/Training.antt =====
-- apps/web/src/features/training: the learner's training page, the counselor's review and the
-- counselor's task page; and the rules of the API that they meet (apps/api/app/modules/training).
pub mod Rules
pub mod Workspace
pub mod Counselor
pub mod Labels
pub mod Feedback
pub mod Annotation
