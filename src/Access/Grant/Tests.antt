-- ===== src/Access/Grant/Tests.antt =====
-- The rule on granting, for an administrator of few permissions.
use sstsaas_pv.Common.{◌≡◌, ◌↔◌, refl, List, [], ◌∷◌}
use sstsaas_pv.Access.Catalog.{
  member, Permission, organization_read, organization_delete, organization_manage_members,
}
use sstsaas_pv.Access.Faults.{ok}
use sstsaas_pv.Access.Grant.{
  Key, known, other, TenantContext, denied, missing, sort_by_rank, insert_by_rank, rank, index_of,
  refuse_first, assert_actor_may_grant,
}
use sstsaas_pv.Access.Grant.Least.{
  Holds, Names, assert_actor_may_grant-ok_iff, assert_actor_may_grant-Names,
}

abbrev reader : TenantContext
reader = record {
  organization_id = 1;
  membership_id = 2;
  role_key = member;
  permissions = organization_read ∷ [];
}

abbrev wanted : List Key
wanted =
    known organization_manage_members
    ∷ other 5
    ∷ known organization_delete
    ∷ known organization_read
    ∷ []

assert_actor_may_grant-ok_iff_example :
    (assert_actor_may_grant reader (known organization_read ∷ other 5 ∷ []) ≡ ok tt)
    ↔ Holds reader (known organization_read ∷ other 5 ∷ [])
assert_actor_may_grant-ok_iff_example =
    assert_actor_may_grant-ok_iff reader (known organization_read ∷ other 5 ∷ [])

assert_actor_may_grant-Names_example :
    (required : Permission) × (denied organization_delete reader ≡ denied required reader)
    × Names reader wanted required
unfolding assert_actor_may_grant missing sort_by_rank refuse_first insert_by_rank rank index_of
assert_actor_may_grant-Names_example =
    assert_actor_may_grant-Names reader wanted (denied organization_delete reader) refl
