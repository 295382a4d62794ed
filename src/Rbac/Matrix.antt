-- ===== src/Rbac/Matrix.antt =====
-- packages/rbac/src/permissions/index.js: `DEFAULT_PERMISSION_MATRIX`, keyed by the role.
use hippo_build_x.Prelude.{String, List, [], ◌∷◌, Option, none, some, ◌==◌, if◌then◌else◌}
use hippo_build_x.Rbac.Permission

abbrev pub project_manager : List String
project_manager =
    Permission.user_read ∷ Permission.project_create ∷ Permission.project_read
    ∷ Permission.project_update ∷ Permission.unit_create ∷ Permission.unit_read
    ∷ Permission.unit_update ∷ Permission.task_create ∷ Permission.task_read
    ∷ Permission.task_update ∷ Permission.boq_manage ∷ Permission.drawing_manage
    ∷ Permission.rfi_manage ∷ Permission.issue_manage ∷ Permission.crm_lead_read
    ∷ Permission.progress_read ∷ Permission.progress_approve ∷ Permission.payment_read
    ∷ Permission.inventory_read ∷ Permission.audit_read ∷ []

abbrev pub sales_executive : List String
sales_executive =
    Permission.crm_lead_create ∷ Permission.crm_lead_read ∷ Permission.crm_lead_update
    ∷ Permission.crm_pipeline_manage ∷ Permission.project_read ∷ Permission.unit_read ∷ []

abbrev pub site_engineer : List String
site_engineer =
    Permission.project_read ∷ Permission.unit_read ∷ Permission.task_read
    ∷ Permission.drawing_manage ∷ Permission.rfi_manage ∷ Permission.issue_manage
    ∷ Permission.progress_submit ∷ Permission.progress_read ∷ Permission.inventory_read ∷ []

abbrev pub accountant : List String
accountant =
    Permission.payment_create ∷ Permission.payment_read ∷ Permission.project_read
    ∷ Permission.boq_manage ∷ Permission.audit_read ∷ []

abbrev pub auditor : List String
auditor =
    Permission.user_read ∷ Permission.project_read ∷ Permission.unit_read ∷ Permission.task_read
    ∷ Permission.crm_lead_read ∷ Permission.progress_read ∷ Permission.payment_read
    ∷ Permission.inventory_read ∷ Permission.audit_read ∷ []

abbrev pub default_permission_matrix : List (String × List String)
default_permission_matrix =
    ("admin", Permission.values)
    ∷ ("project-manager", project_manager)
    ∷ ("sales-executive", sales_executive)
    ∷ ("site-engineer", site_engineer)
    ∷ ("accountant", accountant)
    ∷ ("auditor", auditor)
    ∷ []

-- `matrix[role]`; `none` is `undefined`.
abbrev pub lookup_role : String → List (String × List String) → Option (List String)
lookup_role role [] = none
lookup_role role ((key, permissions) ∷ rest) =
    if key == role then some permissions else lookup_role role rest
