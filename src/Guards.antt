-- ===== src/Guards.antt =====
-- The guards that stand before every handler: apps/api/src/common/guards, with require-mfa.ts of
-- apps/api/src/modules/auth and tenant-resolver.store.ts of apps/api/src/modules/roles.
pub mod Resolving
pub mod Pipeline
pub mod Authorized
pub mod Ended
pub mod Removed
mod Tests
