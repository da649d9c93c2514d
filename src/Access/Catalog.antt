-- ===== src/Access/Catalog.antt =====
-- packages/contracts/src/permissions.ts: the system roles, the permission catalogue and the
-- canonical grants. A permission string of the catalogue is a constructor; `Key` is any string that
-- the database may hold, in the catalogue or not.
use sstsaas_pv.Common.{ℕ, ◌==◌, Bool, List, [], ◌∷◌, any}

pub data Role : Type 0 where
  owner admin security_lead member viewer auditor guest : Role

pub data Permission : Type 0 where
  organization_read organization_update organization_delete organization_manage_members : Permission
  organization_manage_roles project_read project_create project_update project_delete : Permission
  asset_read asset_create asset_update asset_delete asset_verify_ownership scope_read : Permission
  scope_update scan_read scan_create scan_cancel scan_create_aggressive finding_read : Permission
  finding_create finding_update finding_triage finding_accept_risk finding_delete : Permission
  evidence_read evidence_upload evidence_delete engagement_read engagement_create : Permission
  engagement_update engagement_delete report_read report_create report_download : Permission
  apikey_read apikey_create apikey_revoke webhook_read webhook_create webhook_update : Permission
  webhook_delete integration_read integration_manage notification_manage audit_read : Permission
  billing_read billing_manage : Permission

-- `SYSTEM_ROLES`
abbrev pub system_roles : List Role
system_roles = owner ∷ admin ∷ security_lead ∷ member ∷ viewer ∷ auditor ∷ guest ∷ []

-- `PERMISSIONS`
abbrev pub permissions : List Permission
permissions =
    organization_read ∷ organization_update ∷ organization_delete ∷ organization_manage_members
    ∷ organization_manage_roles ∷ project_read ∷ project_create ∷ project_update ∷ project_delete
    ∷ asset_read ∷ asset_create ∷ asset_update ∷ asset_delete ∷ asset_verify_ownership ∷ scope_read
    ∷ scope_update ∷ scan_read ∷ scan_create ∷ scan_cancel ∷ scan_create_aggressive ∷ finding_read
    ∷ finding_create ∷ finding_update ∷ finding_triage ∷ finding_accept_risk ∷ finding_delete
    ∷ evidence_read ∷ evidence_upload ∷ evidence_delete ∷ engagement_read ∷ engagement_create
    ∷ engagement_update ∷ engagement_delete ∷ report_read ∷ report_create ∷ report_download
    ∷ apikey_read ∷ apikey_create ∷ apikey_revoke ∷ webhook_read ∷ webhook_create ∷ webhook_update
    ∷ webhook_delete ∷ integration_read ∷ integration_manage ∷ notification_manage ∷ audit_read
    ∷ billing_read ∷ billing_manage ∷ []

-- The equality of two permission strings, by a number for each.
abbrev pub tag : Permission → ℕ
tag organization_read = 0
tag organization_update = 1
tag organization_delete = 2
tag organization_manage_members = 3
tag organization_manage_roles = 4
tag project_read = 5
tag project_create = 6
tag project_update = 7
tag project_delete = 8
tag asset_read = 9
tag asset_create = 10
tag asset_update = 11
tag asset_delete = 12
tag asset_verify_ownership = 13
tag scope_read = 14
tag scope_update = 15
tag scan_read = 16
tag scan_create = 17
tag scan_cancel = 18
tag scan_create_aggressive = 19
tag finding_read = 20
tag finding_create = 21
tag finding_update = 22
tag finding_triage = 23
tag finding_accept_risk = 24
tag finding_delete = 25
tag evidence_read = 26
tag evidence_upload = 27
tag evidence_delete = 28
tag engagement_read = 29
tag engagement_create = 30
tag engagement_update = 31
tag engagement_delete = 32
tag report_read = 33
tag report_create = 34
tag report_download = 35
tag apikey_read = 36
tag apikey_create = 37
tag apikey_revoke = 38
tag webhook_read = 39
tag webhook_create = 40
tag webhook_update = 41
tag webhook_delete = 42
tag integration_read = 43
tag integration_manage = 44
tag notification_manage = 45
tag audit_read = 46
tag billing_read = 47
tag billing_manage = 48

abbrev pub same_permission : Permission → Permission → Bool
same_permission p q = tag p == tag q

-- `permissions.has(p)`, `permissions.includes(p)`
abbrev pub includes : List Permission → Permission → Bool
includes ps p = any (λ q. same_permission q p) ps

abbrev pub role_tag : Role → ℕ
role_tag owner = 0
role_tag admin = 1
role_tag security_lead = 2
role_tag member = 3
role_tag viewer = 4
role_tag auditor = 5
role_tag guest = 6

-- `roleA === roleB`
abbrev pub same_role : Role → Role → Bool
same_role r s = role_tag r == role_tag s

-- `PROJECT_SCOPED_PERMISSIONS`
abbrev pub project_scoped_permissions : List Permission
project_scoped_permissions =
    project_read ∷ asset_read ∷ scope_read ∷ scan_read ∷ finding_read ∷ evidence_read
    ∷ engagement_read ∷ report_read ∷ report_download ∷ []

-- `ROLE_PERMISSIONS`
pub role_permissions : Role → List Permission
role_permissions owner = permissions
role_permissions admin =
    organization_read ∷ organization_update ∷ organization_manage_members
    ∷ organization_manage_roles ∷ project_read ∷ project_create ∷ project_update ∷ project_delete
    ∷ asset_read ∷ asset_create ∷ asset_update ∷ asset_delete ∷ asset_verify_ownership ∷ scope_read
    ∷ scope_update ∷ scan_read ∷ scan_create ∷ scan_cancel ∷ scan_create_aggressive ∷ finding_read
    ∷ finding_create ∷ finding_update ∷ finding_triage ∷ finding_accept_risk ∷ finding_delete
    ∷ evidence_read ∷ evidence_upload ∷ evidence_delete ∷ engagement_read ∷ engagement_create
    ∷ engagement_update ∷ engagement_delete ∷ report_read ∷ report_create ∷ report_download
    ∷ apikey_read ∷ apikey_create ∷ apikey_revoke ∷ webhook_read ∷ webhook_create ∷ webhook_update
    ∷ webhook_delete ∷ integration_read ∷ integration_manage ∷ notification_manage ∷ audit_read
    ∷ billing_read ∷ []
role_permissions security_lead =
    organization_read ∷ project_read ∷ project_create ∷ project_update ∷ asset_read ∷ asset_create
    ∷ asset_update ∷ asset_delete ∷ asset_verify_ownership ∷ scope_read ∷ scope_update ∷ scan_read
    ∷ scan_create ∷ scan_cancel ∷ scan_create_aggressive ∷ finding_read ∷ finding_create
    ∷ finding_update ∷ finding_triage ∷ finding_accept_risk ∷ evidence_read ∷ evidence_upload
    ∷ evidence_delete ∷ engagement_read ∷ engagement_create ∷ engagement_update ∷ report_read
    ∷ report_create ∷ report_download ∷ apikey_read ∷ webhook_read ∷ integration_read
    ∷ notification_manage ∷ []
role_permissions member =
    organization_read ∷ project_read ∷ project_create ∷ asset_read ∷ asset_create ∷ asset_update
    ∷ scope_read ∷ scan_read ∷ scan_create ∷ scan_cancel ∷ finding_read ∷ finding_create
    ∷ finding_update ∷ finding_triage ∷ evidence_read ∷ evidence_upload ∷ engagement_read
    ∷ engagement_update ∷ report_read ∷ report_create ∷ report_download ∷ integration_read
    ∷ notification_manage ∷ []
role_permissions viewer =
    organization_read ∷ project_read ∷ asset_read ∷ scope_read ∷ scan_read ∷ finding_read
    ∷ evidence_read ∷ engagement_read ∷ report_read ∷ report_download ∷ integration_read
    ∷ notification_manage ∷ []
role_permissions auditor =
    organization_read ∷ project_read ∷ asset_read ∷ scope_read ∷ scan_read ∷ finding_read
    ∷ engagement_read ∷ report_read ∷ report_download ∷ apikey_read ∷ webhook_read
    ∷ integration_read ∷ notification_manage ∷ audit_read ∷ billing_read ∷ []
role_permissions guest =
    organization_read ∷ project_read ∷ asset_read ∷ scope_read ∷ scan_read ∷ finding_read
    ∷ evidence_read ∷ engagement_read ∷ report_read ∷ report_download ∷ notification_manage ∷ []
