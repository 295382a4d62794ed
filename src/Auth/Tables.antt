-- ===== src/Auth/Tables.antt =====
-- The tables that session-service.js reads and writes. `createTenantSql` binds each statement to one
-- tenant (search path and row level security), so a statement sees and changes only the rows with
-- that tenant's id. `deleted` says whether `deleted_at` is set.
use hippo_build_x.Prelude.{ℕ, String, Bool, true, false, Option, none, some, List}

-- A row of the control plane's `tenants`.
pub record TenantRow : Type 0 where
  pub id : String
  pub slug : String
  pub schema_name : String
  pub status : String
  pub isolation_mode : String
  pub database_secret_ref : Option String
  pub deleted : Bool

pub record UserRow : Type 0 where
  pub tenant_id : String
  pub id : String
  pub email : String
  pub name : String
  pub status : String
  pub password_hash : String
  pub deleted : Bool

pub record RoleRow : Type 0 where
  pub tenant_id : String
  pub id : String
  pub name : String
  pub permissions : List String
  pub deleted : Bool

pub record UserRole : Type 0 where
  pub tenant_id : String
  pub user_id : String
  pub role_id : String
  pub project_id : Option String
  pub location_id : Option String
  pub deleted : Bool

pub record SessionRow : Type 0 where
  pub tenant_id : String
  pub id : String
  pub user_id : String
  pub refresh_token_hash : String
  pub expires_at : ℕ
  pub revoked_at : Option ℕ
  pub user_agent : Option String
  pub ip_address : Option String
  pub deleted : Bool

pub record ResetRow : Type 0 where
  pub tenant_id : String
  pub id : String
  pub user_id : String
  pub token_hash : String
  pub expires_at : ℕ
  pub used_at : Option ℕ
  pub deleted : Bool

-- The tables of all tenant schemas, the clock, and the number of ids generated so far.
pub record Store : Type 0 where
  pub users : List UserRow
  pub roles : List RoleRow
  pub user_roles : List UserRole
  pub sessions : List SessionRow
  pub resets : List ResetRow
  pub now : ℕ
  pub serial : ℕ

abbrev pub is_set : Option ℕ → Bool
is_set none = false
is_set (some _) = true

-- The same store at another time.
abbrev pub at_time : ℕ → Store → Store
at_time now s = record s { now = now }
