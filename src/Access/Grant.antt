-- ===== src/Access/Grant.antt =====
-- The tenant context of a request and the rule that nobody grants what they do not hold:
-- packages/contracts/src/principal.ts (`TenantContext`), `knownPermissions` of
-- common/guards/tenant-context.ts, `permissionDenied` of common/guards/authorization.guard.ts and
-- `assertActorMayGrant` of modules/memberships/membership.service.ts (all under apps/api/src).
pub mod Least
mod Tests
use sstsaas_pv.Common.{ℕ, suc, ◌==◌, leb, Bool, false, List, [], ◌∷◌, filter, if◌then◌else◌}
use sstsaas_pv.Access.Catalog.{
  Role, Permission, same_permission, includes, system_roles, role_permissions, permissions,
}
use sstsaas_pv.Access.Faults.{Fault, permission_denied, Result, ok, err}

-- A permission string: one of the catalogue's, or any other.
pub data Key : Type 0 where
  known : Permission → Key
  other : ℕ → Key

-- `a === b` on permission strings.
abbrev pub same_key : Key → Key → Bool
same_key (known p) (known q) = same_permission p q
same_key (other m) (other n) = m == n
same_key _ _ = false

pub record TenantContext : Type 0 where
  pub organization_id : ℕ
  pub membership_id : ℕ
  pub role_key : Role
  pub permissions : List Permission

-- `knownPermissions`
unfoldable pub known_permissions : List Key → List Permission
known_permissions [] = []
known_permissions (known p ∷ ks) = p ∷ known_permissions ks
known_permissions (other n ∷ ks) = known_permissions ks

-- `ROLES_WITH_PERMISSION.get`
pub roles_with_permission : Permission → List Role
roles_with_permission p = filter (λ r. includes (role_permissions r) p) system_roles

-- `permissionDenied`
pub denied : Permission → TenantContext → Fault
denied required tenant = permission_denied required tenant.role_key (roles_with_permission required)

-- The known permissions among the granted that the actor does not hold.
unfoldable pub missing : TenantContext → List Key → List Permission
missing ctx [] = []
missing ctx (known p ∷ ks) =
    if includes ctx.permissions p then missing ctx ks else p ∷ missing ctx ks
missing ctx (other n ∷ ks) = missing ctx ks

index_of : Permission → List Permission → ℕ
index_of p [] = 0
index_of p (q ∷ qs) = if same_permission q p then 0 else suc (index_of p qs)

-- `PERMISSIONS.indexOf`
pub rank : Permission → ℕ
unfolding index_of
rank p = index_of p permissions

pub insert_by_rank : Permission → List Permission → List Permission
insert_by_rank p [] = p ∷ []
insert_by_rank p (q ∷ qs) = if leb (rank p) (rank q) then p ∷ q ∷ qs else q ∷ insert_by_rank p qs

-- `[...missing].sort((a, b) => rank(a) - rank(b))`
unfoldable pub sort_by_rank : List Permission → List Permission
sort_by_rank [] = []
sort_by_rank (p ∷ ps) = insert_by_rank p (sort_by_rank ps)

-- The end of `assertActorMayGrant`: the refusal names the first of the sorted list.
unfoldable pub refuse_first : TenantContext → List Permission → Result (Unit {0})
refuse_first ctx [] = ok tt
refuse_first ctx (required ∷ _) = err (denied required ctx)

-- `assertActorMayGrant`
unfoldable pub assert_actor_may_grant : TenantContext → List Key → Result (Unit {0})
assert_actor_may_grant ctx granted = refuse_first ctx (sort_by_rank (missing ctx granted))
