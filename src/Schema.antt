-- ===== src/Schema.antt =====
-- The data of the HTTP contract that the client reads and writes
-- (apps/web/src/shared/api/schema.d.ts). Identifiers, dates and file names are native texts; what a
-- user types is `Text`; `null` and missing fields are `none`.
mod Sop
mod Training
mod People
mod Support
mod Reports
pub use Sop.*
pub use Training.*
pub use People.*
pub use Support.*
pub use Reports.*
