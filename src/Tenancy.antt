-- ===== src/Tenancy.antt =====
-- An organisation's members and invitations: apps/api/src/modules/memberships and
-- apps/api/src/modules/invitations, over the tables of packages/db/prisma/schema.prisma.
pub mod Rows
pub mod Database
pub mod Cascade
pub mod Memberships
pub mod Invitations
