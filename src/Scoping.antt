-- ===== src/Scoping.antt =====
-- Tenant scoping of queries: packages/db/src/tenant-resources.ts and packages/db/src/tenant-scope.ts.
-- A field name and a value are numbers; a `where` object is a list of fields with conditions, of which
-- the code reads only equalities; an object of `data` is a list of fields with values.
pub mod Isolation
mod Tests
use sstsaas_pv.Common.{
  ℕ, ◌==◌, Bool, true, false, not, ◌&&◌, ◌||◌, Option, none, some, is_some, List, [], ◌∷◌, map,
  if◌then◌else◌,
}

-- The models: `TENANT_OWNED_MODELS`, `TENANT_ROOT_MODEL`, and any other, or none.
pub data Model : Type 0 where
  membership invitation audit_event organization unscoped : Model

-- `isTenantOwnedModel`
abbrev pub is_tenant_owned_model : Model → Bool
is_tenant_owned_model membership = true
is_tenant_owned_model invitation = true
is_tenant_owned_model audit_event = true
is_tenant_owned_model _ = false

-- `isTenantRootModel`
abbrev pub is_tenant_root_model : Model → Bool
is_tenant_root_model organization = true
is_tenant_root_model _ = false

-- The names of Prisma's operations that the code knows; any other name is refused.
pub data Operation : Type 0 where
  find_first find_first_or_throw find_many count aggregate group_by delete_many : Operation
  update_many update_many_and_return delete update : Operation
  create create_many create_many_and_return upsert find_unique find_unique_or_throw : Operation
  any_other : Operation

-- `SCOPED_WHERE_MANY_OPERATIONS`
abbrev pub scopes_where_many : Operation → Bool
scopes_where_many find_first = true
scopes_where_many find_first_or_throw = true
scopes_where_many find_many = true
scopes_where_many count = true
scopes_where_many aggregate = true
scopes_where_many group_by = true
scopes_where_many delete_many = true
scopes_where_many _ = false

-- `SCOPED_WHERE_AND_DATA_MANY_OPERATIONS`
abbrev pub scopes_where_and_data_many : Operation → Bool
scopes_where_and_data_many update_many = true
scopes_where_and_data_many update_many_and_return = true
scopes_where_and_data_many _ = false

-- `SCOPED_DATA_OPERATIONS`
abbrev pub scopes_data : Operation → Bool
scopes_data create = true
scopes_data create_many = true
scopes_data create_many_and_return = true
scopes_data _ = false

-- `ROOT_DISALLOWED_OPERATIONS`
abbrev pub is_root_disallowed : Operation → Bool
is_root_disallowed upsert = true
is_root_disallowed operation = scopes_data operation

abbrev pub is_delete : Operation → Bool
is_delete delete = true
is_delete _ = false

abbrev pub is_update : Operation → Bool
is_update update = true
is_update _ = false

abbrev pub is_upsert : Operation → Bool
is_upsert upsert = true
is_upsert _ = false

abbrev pub is_find_unique_or_throw : Operation → Bool
is_find_unique_or_throw find_unique_or_throw = true
is_find_unique_or_throw _ = false

abbrev pub is_find_unique : Operation → Bool
is_find_unique find_unique = true
is_find_unique operation = is_find_unique_or_throw operation

-- A stored row, by its fields.
abbrev pub Row : Type 0
Row = ℕ → ℕ

-- A condition on a field: that it equals a value, or any other condition, which is a test on the row.
pub data Condition : Type 0 where
  equals : ℕ → Condition
  holds : (Row → Bool) → Condition

abbrev pub Where : Type 0
Where = List (ℕ × Condition)

-- What Prisma's `where` selects: the rows that meet the conditions of all fields.
abbrev pub meets : Row → ℕ → Condition → Bool
meets row field (equals v) = row field == v
meets row field (holds test) = test row

abbrev pub matches : Where → Row → Bool
matches [] row = true
matches ((field, c) ∷ rest) row = meets row field c && matches rest row

-- `Object.hasOwn(base, key)`
abbrev pub has_own : ℕ → Where → Bool
has_own key [] = false
has_own key ((field, c) ∷ rest) = field == key || has_own key rest

-- `{ ...base, [key]: value }`
abbrev pub with_field : {A : Type 0} → ℕ → A → List (ℕ × A) → List (ℕ × A)
with_field key a [] = (key, a) ∷ []
with_field key a ((field, b) ∷ rest) =
    if field == key then (key, a) ∷ rest else (field, b) ∷ with_field key a rest

-- `base[key] !== value`, where the key is there.
abbrev pub differs : ℕ → ℕ → Where → Bool
differs key value [] = true
differs key value ((field, holds test) ∷ rest) =
    if field == key then true else differs key value rest
differs key value ((field, equals v) ∷ rest) =
    if field == key then not (v == value) else differs key value rest

abbrev pub or_empty : Option Where → Where
or_empty none = []
or_empty (some base) = base

-- The field name `AND`; its condition is that both objects of the array match.
abbrev pub and_field : ℕ
and_field = 0

-- `withScopedWhere`
pub with_scoped_where : Option Where → ℕ → ℕ → Where
with_scoped_where where' key value =
    let base = or_empty where' in
    if has_own key base
    then (and_field, holds (λ row. matches base row && matches ((key, equals value) ∷ []) row)) ∷ []
    else with_field key (equals value) base

-- `scopeUniqueWhere`; `none` is `{ ok: false }`.
pub scope_unique_where : Option Where → ℕ → ℕ → Option Where
scope_unique_where where' key value =
    let base = or_empty where' in
    if has_own key base && differs key value base
    then none
    else some (with_field key (equals value) base)

abbrev pub Fields : Type 0
Fields = List (ℕ × ℕ)

-- A `data` argument: absent, one object, or an array of objects.
pub data Data : Type 0 where
  absent : Data
  one : Fields → Data
  many : List Fields → Data

-- `withScopedData`
pub with_scoped_data : Data → ℕ → ℕ → Data
with_scoped_data absent key value = one ((key, value) ∷ [])
with_scoped_data (one row) key value = one (with_field key value row)
with_scoped_data (many rows) key value = many (map (with_field key value) rows)

pub record Args : Type 0 where
  pub where' : Option Where
  pub data' : Data
  pub create_data : Data
  pub update_data : Data
  pub select : Option (List (ℕ × Bool))
  pub omit : Option (List (ℕ × Bool))

-- `object[key]`, as a condition.
abbrev pub is_set : ℕ → List (ℕ × Bool) → Bool
is_set key [] = false
is_set key ((field, b) ∷ rest) = if field == key then b else is_set key rest

-- `delete object[key]`
abbrev pub without : ℕ → List (ℕ × Bool) → List (ℕ × Bool)
without key [] = []
without key ((field, b) ∷ rest) =
    if field == key then without key rest else (field, b) ∷ without key rest

-- The part of `adjustProjectionForCheck` that reads `omit`.
pub adjust_omit : Args → ℕ → Option (List (ℕ × Bool)) → Args × Bool
adjust_omit args key none = (args, false)
adjust_omit args key (some fields) =
    if is_set key fields
    then (record args { omit = some (without key fields) }, true)
    else (args, false)

-- The part that reads `select`.
pub adjust_select : Args → ℕ → Option (List (ℕ × Bool)) → Args × Bool
unfolding adjust_omit
adjust_select args key none = adjust_omit args key args.omit
adjust_select args key (some fields) =
    if is_set key fields
    then (args, false)
    else (record args { select = some (with_field key true fields) }, true)

-- `adjustProjectionForCheck`
pub adjust_projection_for_check : Args → ℕ → Args × Bool
unfolding adjust_select
adjust_projection_for_check args key = adjust_select args key args.select

-- `ScopePlan`
pub data ScopePlan : Type 0 where
  passthrough refuse : ScopePlan
  run : Args → ScopePlan
  -- args, checkField, expected, notFoundIsThrow, stripCheckField
  run_and_check : Args → ℕ → ℕ → Bool → Bool → ScopePlan

-- `id` and `organizationId`
abbrev pub id_field : ℕ
id_field = 1

abbrev pub organization_id_field : ℕ
organization_id_field = 2

-- `keyField`
abbrev pub key_field : Model → ℕ
key_field model = if is_tenant_root_model model then id_field else organization_id_field

-- The branches of `delete`, `update` and `upsert`, on what `scopeUniqueWhere` answers.
abbrev pub run_unique : (Where → Args) → Option Where → ScopePlan
run_unique with_where none = refuse
run_unique with_where (some scoped) = run (with_where scoped)

-- `decideScope` on a scoped model with a context, from the choice by operation on.
pub decide_operation : ℕ → Operation → Args → ℕ → ScopePlan
decide_operation key operation args org =
    let scoped = with_scoped_data args.data' key org in
    let unique = scope_unique_where args.where' key org in
    let (checked, strip) = adjust_projection_for_check args key in
    if is_find_unique operation
    then run_and_check checked key org (is_find_unique_or_throw operation) strip
    else (if scopes_where_many operation
        then run (record args { where' = some (with_scoped_where args.where' key org) })
        else (if scopes_where_and_data_many operation
            then run (record args {
              where' = some (with_scoped_where args.where' key org);
              data' = scoped;
            })
            else (if is_delete operation
                then run_unique (λ w. record args { where' = some w }) unique
                else (if is_update operation
                    then run_unique (λ w. record args { where' = some w; data' = scoped }) unique
                    else (if scopes_data operation
                        then run (record args { data' = scoped })
                        else (if is_upsert operation
                            then run_unique
                                (λ w. record args {
                                  where' = some w;
                                  create_data = with_scoped_data args.create_data key org;
                                  update_data = with_scoped_data args.update_data key org;
                                })
                                unique
                            else refuse))))))

-- `decideScope`; the organisation is `none` where the code has null, undefined or an empty string.
pub decide_scope : Model → Operation → Args → Option ℕ → ScopePlan
decide_scope model operation args none =
    if is_tenant_owned_model model || is_tenant_root_model model then refuse else passthrough
decide_scope model operation args (some org) =
    if is_tenant_owned_model model || is_tenant_root_model model
    then (if is_tenant_root_model model && is_root_disallowed operation
        then refuse
        else decide_operation (key_field model) operation args org)
    else passthrough
