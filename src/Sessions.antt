-- ===== src/Sessions.antt =====
-- Browser sessions: apps/api/src/modules/auth/session.repository.ts, session.cache.ts and
-- session.service.ts.
pub mod Rows
pub mod Cache
pub mod Repository
pub mod Service
