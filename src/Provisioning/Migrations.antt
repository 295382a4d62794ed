-- ===== src/Provisioning/Migrations.antt =====
-- `runTenantMigrations` and `runTenantMigrationFleet` of packages/db/src/migrations/index.js. The files
-- are the SQL files of the directory `tenant`, sorted by name. Parameters are `checksumOf`, what the
-- SQL of a file does to the tenant's schema, and the statements of enforceTenantRls and
-- grantRuntimeAccess, `secure`; they act on the rest of the database, `R`.
pub mod Applied
pub mod Again
pub mod Drift
pub mod Fleet
use Prim.Native.String.{◌++◌ as join_text}
use hippo_build_x.Prelude.{
  ℕ, String, Bool, true, false, not, ◌&&◌, Option, none, some, List, [], ◌∷◌, ◌++◌, any, find,
  filter, update, includes, length, codes, or_null, if◌then◌else◌, ◌==◌,
}
use hippo_build_x.Prelude.Effect.{Result, ok, err, other, Thrown, bind_result, transaction}
use hippo_build_x.Db.Names.{is_safe_schema_name}
use hippo_build_x.Provisioning.ControlPlane.{message_of}

pub record File : Type 0 where
  pub name : String
  pub body : String

-- A row of `_tenant_migrations` in the schema `schema_name`.
pub record OwnRow : Type 0 where
  pub schema_name : String
  pub migration_name : String
  pub checksum : Option String

-- A row of `control_plane.tenant_migrations`.
pub record CentralRow : Type 0 where
  pub tenant_id : String
  pub migration_name : String
  pub checksum : Option String

-- A row of `control_plane.tenants`.
pub record Versioned : Type 0 where
  pub id : String
  pub slug : String
  pub schema_name : String
  pub isolation_mode : String
  pub status : String
  pub deleted : Bool
  pub migration_version : Option String

pub record Database (R : Type 0) : Type 0 where
  pub own : List OwnRow
  pub central : List CentralRow
  pub tenants : List Versioned
  pub rest : R

pub record Migrated : Type 0 where
  pub applied : List String
  pub total : ℕ
  pub migration_version : Option String

abbrev pub is_own : String → String → OwnRow → Bool
is_own schema name r = r.schema_name == schema && r.migration_name == name

abbrev pub is_central : String → String → CentralRow → Bool
is_central tenant name r = r.tenant_id == tenant && r.migration_name == name

abbrev pub own_row : String → String → Option String → OwnRow
own_row schema name sum = record { schema_name = schema; migration_name = name; checksum = sum }

-- `INSERT INTO _tenant_migrations ... ON CONFLICT DO NOTHING`
abbrev pub copy_row : String → CentralRow → List OwnRow → List OwnRow
copy_row schema c own =
    if any (is_own schema c.migration_name) own
    then own
    else own ++ own_row schema c.migration_name c.checksum ∷ []

-- The loop over the central rows of the tenant.
unfoldable pub copy_central : String → String → List CentralRow → List OwnRow → List OwnRow
copy_central schema tenant [] own = own
copy_central schema tenant (c ∷ cs) own =
    copy_central schema tenant cs (if c.tenant_id == tenant then copy_row schema c own else own)

abbrev pub set_own : String → OwnRow → OwnRow
set_own sum r = record r { checksum = some sum }

abbrev pub set_central : String → CentralRow → CentralRow
set_central sum r = record r { checksum = some sum }

-- `ON CONFLICT (tenant_id, migration_name) DO UPDATE SET checksum = EXCLUDED.checksum`
abbrev pub upsert_central : String → String → String → List CentralRow → List CentralRow
upsert_central tenant name sum rows =
    if any (is_central tenant name) rows
    then update (is_central tenant name) (set_central sum) rows
    else rows ++ record { tenant_id = tenant; migration_name = name; checksum = some sum } ∷ []

-- `files.at(-1) || null`
abbrev pub last_name : List File → Option String
last_name [] = none
last_name (f ∷ []) = some f.name
last_name (f ∷ g ∷ fs) = last_name (g ∷ fs)

-- The tenants that the query of the fleet gives.
abbrev pub in_fleet : List String → Versioned → Bool
in_fleet statuses t =
    not t.deleted && (t.isolation_mode == "shared_schema" && includes statuses t.status)

module _ {R : Type 0} (checksum : String → String)
    (run_script : String → String → R → Result (Unit {0}) × R)
    (secure : String → String → R → Result (Unit {0}) × R) where
  abbrev pub Step : Type 0 → Type 0
  Step A = Database R → Result A × Database R

  abbrev pub on_rest : (R → Result (Unit {0}) × R) → Step (Unit {0})
  on_rest m s = let (r, rest) = m s.rest in (r, record s { rest = rest })

  -- The two INSERTs after the SQL of a file; `_tenant_migrations` has the name as its primary key.
  unfoldable pub record_migration : String → String → File → Step Bool
  record_migration schema tenant f s =
      if any (is_own schema f.name) s.own
      then (err (other "duplicate key value violates unique constraint"), s)
      else (
        ok true,
        record s {
          own = s.own ++ own_row schema f.name (some (checksum f.body)) ∷ [];
          central = upsert_central tenant f.name (checksum f.body) s.central;
        },
      )

  -- A file that is known, by the checksum of its row.
  unfoldable pub check_known : Option String → String → String → File → Step Bool
  check_known none schema tenant f s = (
    ok false,
    record s {
      own = update (is_own schema f.name) (set_own (checksum f.body)) s.own;
      central = update (is_central tenant f.name) (set_central (checksum f.body)) s.central;
    },
  )
  check_known (some old) schema tenant f s = if old == checksum f.body then (ok false, s) else (
    err (
        other (
          join_text "Tenant migration checksum changed for "
            (join_text schema (join_text ": " f.name)))),
    s,
  )

  -- One turn of the loop; whether the file was applied.
  unfoldable pub migrate_one : Option OwnRow → String → String → File → Step Bool
  migrate_one none schema tenant f s =
      bind_result (on_rest (run_script schema f.body) s) (λ _. record_migration schema tenant f)
  migrate_one (some row) schema tenant f s = check_known (or_null row.checksum) schema tenant f s

  abbrev pub add_name : Bool → String → List String → List String
  add_name true name names = name ∷ names
  add_name false name names = names

  -- The loop over the files; `known` are the rows that were read before it.
  unfoldable pub migrate_files : List OwnRow → String → String → List File → Step (List String)
  migrate_files known schema tenant [] s = (ok [], s)
  migrate_files known schema tenant (f ∷ fs) s =
      bind_result (migrate_one (find (is_own schema f.name) known) schema tenant f s) (λ new s'.
        bind_result (migrate_files known schema tenant fs s')
          (λ names s''. (ok (add_name new f.name names), s'')))

  -- The statements after the loop.
  unfoldable pub finish_run : List File → String → String → List String → Step Migrated
  finish_run files schema tenant applied s = bind_result (on_rest (secure schema tenant) s) (λ _ s'.
      (
        ok (record {
          applied = applied;
          total = length files;
          migration_version = last_name files;
        }),
        record s' {
          tenants =
              update (λ t. t.id == tenant) (λ t. record t { migration_version = last_name files })
                s'.tenants;
        },
      ))

  -- The callback of `sql.begin`.
  unfoldable pub run_locked : List File → String → String → Step Migrated
  run_locked files schema tenant s =
      let own = copy_central schema tenant s.central s.own in
      bind_result (migrate_files own schema tenant files (record s { own = own }))
        (finish_run files schema tenant)

  -- `runTenantMigrations`
  unfoldable pub run_tenant_migrations : List File → String → String → Step Migrated
  run_tenant_migrations files schema tenant s =
      if not (is_safe_schema_name (codes schema))
      then (err (other (join_text "Unsafe schema name: " schema)), s)
      else if tenant == ""
      then (err (other "tenantId is required to run tenant migrations"), s)
      else transaction (run_locked files schema tenant) s

  -- A result of the fleet.
  pub data FleetResult : Type 0 where
    migrated : (tenant_id slug : String) → Migrated → FleetResult
    not_migrated : (tenant_id slug error : String) → FleetResult

  -- What the loop does with the outcome for a tenant before the others.
  unfoldable pub go_on :
      Bool
      → Versioned
      → Result Migrated × Database R
      → (Database R → Result (List FleetResult) × Database R)
      → Result (List FleetResult) × Database R
  go_on continue_on_error t (ok m, s) others =
      bind_result (others s) (λ rest s'. (ok (migrated t.id t.slug m ∷ rest), s'))
  go_on continue_on_error t (err e, s) others =
      if continue_on_error
      then bind_result (others s)
          (λ rest s'. (ok (not_migrated t.id t.slug (message_of e) ∷ rest), s'))
      else (err e, s)

  unfoldable pub migrate_all : Bool → List File → List Versioned → Step (List FleetResult)
  migrate_all continue_on_error files [] s = (ok [], s)
  migrate_all continue_on_error files (t ∷ ts) s =
      go_on continue_on_error t (run_tenant_migrations files t.schema_name t.id s)
        (migrate_all continue_on_error files ts)

  -- `runTenantMigrationFleet`
  unfoldable pub run_tenant_migration_fleet :
      List String → Bool → List File → Step (List FleetResult)
  run_tenant_migration_fleet statuses continue_on_error files s =
      migrate_all continue_on_error files (filter (in_fleet statuses) s.tenants) s
