-- ===== src/Rbac/Permission.antt =====
-- packages/rbac/src/permissions/index.js: the constants of `Permission`, in the order of the object.
use hippo_build_x.Prelude.{String, List, [], ◌∷◌}

abbrev pub user_create : String
user_create = "user.create"

abbrev pub user_read : String
user_read = "user.read"

abbrev pub user_update : String
user_update = "user.update"

abbrev pub user_delete : String
user_delete = "user.delete"

abbrev pub role_create : String
role_create = "role.create"

abbrev pub role_read : String
role_read = "role.read"

abbrev pub role_update : String
role_update = "role.update"

abbrev pub role_delete : String
role_delete = "role.delete"

abbrev pub project_create : String
project_create = "project.create"

abbrev pub project_read : String
project_read = "project.read"

abbrev pub project_update : String
project_update = "project.update"

abbrev pub project_delete : String
project_delete = "project.delete"

abbrev pub unit_create : String
unit_create = "unit.create"

abbrev pub unit_read : String
unit_read = "unit.read"

abbrev pub unit_update : String
unit_update = "unit.update"

abbrev pub task_create : String
task_create = "task.create"

abbrev pub task_read : String
task_read = "task.read"

abbrev pub task_update : String
task_update = "task.update"

abbrev pub boq_manage : String
boq_manage = "boq.manage"

abbrev pub drawing_manage : String
drawing_manage = "drawing.manage"

abbrev pub rfi_manage : String
rfi_manage = "rfi.manage"

abbrev pub issue_manage : String
issue_manage = "issue.manage"

abbrev pub crm_lead_create : String
crm_lead_create = "crm.lead.create"

abbrev pub crm_lead_read : String
crm_lead_read = "crm.lead.read"

abbrev pub crm_lead_update : String
crm_lead_update = "crm.lead.update"

abbrev pub crm_lead_delete : String
crm_lead_delete = "crm.lead.delete"

abbrev pub crm_lead_assign : String
crm_lead_assign = "crm.lead.assign"

abbrev pub crm_pipeline_manage : String
crm_pipeline_manage = "crm.pipeline.manage"

abbrev pub progress_submit : String
progress_submit = "progress.submit"

abbrev pub progress_approve : String
progress_approve = "progress.approve"

abbrev pub progress_read : String
progress_read = "progress.read"

abbrev pub payment_create : String
payment_create = "payment.create"

abbrev pub payment_read : String
payment_read = "payment.read"

abbrev pub payment_approve : String
payment_approve = "payment.approve"

abbrev pub inventory_read : String
inventory_read = "inventory.read"

abbrev pub inventory_manage : String
inventory_manage = "inventory.manage"

abbrev pub grn_create : String
grn_create = "grn.create"

abbrev pub material_issue : String
material_issue = "material.issue"

abbrev pub kyc_view_full : String
kyc_view_full = "kyc.view.full"

abbrev pub kyc_view_masked : String
kyc_view_masked = "kyc.view.masked"

abbrev pub audit_read : String
audit_read = "audit.read"

abbrev pub tenant_manage : String
tenant_manage = "tenant.manage"

abbrev pub tenant_branding : String
tenant_branding = "tenant.branding"

abbrev pub feature_flag_manage : String
feature_flag_manage = "feature_flag.manage"

-- `Object.values(Permission)`
abbrev pub values : List String
values =
    user_create ∷ user_read ∷ user_update ∷ user_delete ∷ role_create ∷ role_read ∷ role_update
    ∷ role_delete ∷ project_create ∷ project_read ∷ project_update ∷ project_delete ∷ unit_create
    ∷ unit_read ∷ unit_update ∷ task_create ∷ task_read ∷ task_update ∷ boq_manage ∷ drawing_manage
    ∷ rfi_manage ∷ issue_manage ∷ crm_lead_create ∷ crm_lead_read ∷ crm_lead_update
    ∷ crm_lead_delete ∷ crm_lead_assign ∷ crm_pipeline_manage ∷ progress_submit ∷ progress_approve
    ∷ progress_read ∷ payment_create ∷ payment_read ∷ payment_approve ∷ inventory_read
    ∷ inventory_manage ∷ grn_create ∷ material_issue ∷ kyc_view_full ∷ kyc_view_masked ∷ audit_read
    ∷ tenant_manage ∷ tenant_branding ∷ feature_flag_manage ∷ []
