-- ===== src/Query.antt =====
-- apps/web/src/app/query.ts: the cache of server data, what a 401 does to it, and the retry rule.
-- `Cache` states what the program relies on of @tanstack/react-query.
pub mod Cache
pub mod Expiry
pub mod Laws
pub mod Model
pub mod Tests
