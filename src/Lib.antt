-- ===== src/Lib.antt =====
-- Sentinel: the API's accounts, sessions, guards, memberships and invitations.
--
-- The program is a NestJS service over PostgreSQL (through Prisma) and Redis. A request carries a
-- session token, which `SessionService` resolves; the guards build a tenant context from the
-- session's organisation; `MembershipService` and `InvitationService` change an organisation's
-- members inside one tenant transaction per call, whose queries pass through `decideScope`; a removal
-- or a change of role revokes the invitations that the member issued and may no longer issue.
--
-- Files:
-- - Common: Boolean tests and lists, and the interface `Table` of one database table (Prisma and
--   PostgreSQL are not part of the repository; a table in memory meets it).
-- - Access/Catalog: packages/contracts/src/permissions.ts. Access/Faults: the errors raised.
--   Access/Grant: `TenantContext`, `knownPermissions`, `permissionDenied`, `assertActorMayGrant`
--   (apps/api/src/common/guards, apps/api/src/modules/memberships/membership.service.ts).
-- - Tenancy/Rows, Tenancy/Database: the rows, and `withTenantTransaction`
--   (packages/db/src/tenant-transaction.ts) over the state and error monad of Access/Runs; a thrown
--   error rolls back. Row locks order the transactions, so they run one after the other.
-- - Tenancy/Memberships: `updateRole`, `remove`
--   (apps/api/src/modules/memberships/membership.service.ts). Tenancy/Cascade:
--   apps/api/src/modules/invitations/invitation-revocation.cascade.ts. Tenancy/Invitations:
--   `create`, `revoke`, `accept` (apps/api/src/modules/invitations/invitation.service.ts).
-- - Sessions/Rows, Sessions/Repository, Sessions/Cache, Sessions/Service: session.repository.ts,
--   session.cache.ts and session.service.ts of apps/api/src/modules/auth. Sessions/Service/Calls has
--   the requests as steps of the state, beside the steps that Redis takes by itself.
-- - Scoping: packages/db/src/tenant-resources.ts and packages/db/src/tenant-scope.ts. Totp:
--   apps/api/src/modules/auth/totp.ts, with Node's HMAC as a parameter.
-- - Limits/Window, Limits/Classes, Limits/Guard: sliding-window.ts, rate-limit.config.ts and
--   rate-limit.guard.ts of apps/api/src/common/guards, with Redis' sorted sets as an interface.
-- - Identity/Lockout, Identity/Passwords, Identity/Tokens, Identity/Login, Identity/Recovery: lockout.ts,
--   password.service.ts, token.service.ts, login.service.ts and password-reset.service.ts of
--   apps/api/src/modules/auth over the account tables (Identity/Rows, Identity/Store), which hold the
--   sessions beside them. Identity/Login/Held and Identity/Login/LockedOut have sequences of attempts,
--   Identity/Recovery/Race a login and a reset of one account as steps.
-- - Mfa: `spendTotpCode` and `recordFailure` of mfa-verification.service.ts in apps/api/src/modules/auth,
--   over the same tables; Mfa/Replay has the attempts of several requests as a sequence, each with the
--   factor as it read it.
-- - Guards/Resolving, Guards/Pipeline: the global guards of apps/api/src/app.module.ts in their order
--   (apps/api/src/common/guards, require-mfa.ts of apps/api/src/modules/auth), over the tenant
--   database and the accounts (apps/api/src/modules/roles/tenant-resolver.store.ts).
--
-- Conventions: a date is its milliseconds; identifiers, addresses, tokens and hashes are only
-- compared, so they are numbers; what a call draws from outside (the clock, a new identifier, a
-- minted token and its hash) is an argument. No definition needs fuel: a loop of the source goes
-- through a list or a counted range. Inputs are those that the zod schemas have parsed; the parser of
-- an address is a parameter where it is called again.
--
-- Not modelled: the controllers, the web application, mail, logging, configuration, the other
-- authentication flows (registration, the promotion of a session after a second factor, recovery
-- codes, enrolment, password change), list pages, and interleavings inside one call, those of
-- Identity/Recovery/Race and Mfa/Replay excepted.
pub mod Common
pub mod Access
pub mod Tenancy
pub mod Sessions
pub mod Scoping
pub mod Totp
pub mod Limits
pub mod Identity
pub mod Mfa
pub mod Guards
