-- ===== src/Limits.antt =====
-- Rate limiting: apps/api/src/common/guards/sliding-window.ts, rate-limit.config.ts and
-- rate-limit.guard.ts.
pub mod Window
pub mod Classes
pub mod Guard
mod Tests
