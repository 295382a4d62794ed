-- ===== src/Tests/Provisioning/Migrations.antt =====
-- Migrations on a concrete database.
use mathlib.Core.Bool.{false≢true}
use Prim.Native.String.{◌++◌ as join_text}
use hippo_build_x.Prelude.{
  String, ◌≡◌, ◌≢◌, refl, true, false, codes, none, some, List, [], ◌∷◌, ◌++◌, All, eq_iff,
}
use text.Mathlib.TextLemmas.{append-eq-nil_iff}
use hippo_build_x.Prelude.Effect.{Result, ok, err, Thrown}
use hippo_build_x.Db.Names.{is_safe_schema_name}
use hippo_build_x.Provisioning.Migrations.{
  File, own_row, Versioned, Database, Migrated, copy_central, record_migration, check_known,
  migrate_one, migrate_files, finish_run, run_locked, run_tenant_migrations,
  run_tenant_migration_fleet,
}
use hippo_build_x.Provisioning.Migrations.Applied.{IsRecorded}
use hippo_build_x.Provisioning.Migrations.Again.{secured, run_tenant_migrations-again}
use hippo_build_x.Provisioning.Migrations.Drift.{run_tenant_migrations-drift}
use hippo_build_x.Provisioning.Migrations.Fleet.{Answers, run_tenant_migration_fleet-Answers}

-- The rest of the database is the list of the scripts that ran.
abbrev sum : String → String
sum body = join_text "sum:" body

abbrev script : String → String → List String → Result (Unit {0}) × List String
script schema body log = (ok tt, log ++ body ∷ [])

abbrev grants : String → String → List String → Result (Unit {0}) × List String
grants schema tenant log = (ok tt, log ++ "grants" ∷ [])

abbrev file : String → String → File
file name body = record { name = name; body = body }

abbrev files : List File
files = file "001.sql" "A" ∷ file "002.sql" "B" ∷ []

abbrev green : Versioned
green = record {
  id = "t1";
  slug = "green";
  schema_name = "tenant_1";
  isolation_mode = "shared_schema";
  status = "active";
  deleted = false;
  migration_version = none;
}

-- The first file was applied before checksums were kept.
abbrev database : Database (List String)
database = record {
  own = [];
  central = record { tenant_id = "t1"; migration_name = "001.sql"; checksum = none } ∷ [];
  tenants = green ∷ record green { id = "t2"; schema_name = "bad;"; slug = "bad" } ∷ [];
  rest = [];
}

abbrev migrated_once : Database (List String)
migrated_once = record {
  own =
      own_row "tenant_1" "001.sql" (some "sum:A")
      ∷ own_row "tenant_1" "002.sql" (some "sum:B")
      ∷ [];
  central =
      record { tenant_id = "t1"; migration_name = "001.sql"; checksum = some "sum:A" }
      ∷ record { tenant_id = "t1"; migration_name = "002.sql"; checksum = some "sum:B" }
      ∷ [];
  tenants =
      record green { migration_version = some "002.sql" }
      ∷ record green { id = "t2"; schema_name = "bad;"; slug = "bad" }
      ∷ [];
  rest = "B" ∷ "grants" ∷ [];
}

abbrev first_run : Migrated
first_run = record { applied = "002.sql" ∷ []; total = 2; migration_version = some "002.sql" }

runs_once :
    run_tenant_migrations sum script grants files "tenant_1" "t1" database
    ≡ (ok first_run, migrated_once)
unfolding run_tenant_migrations run_locked finish_run migrate_files migrate_one check_known
    record_migration copy_central is_safe_schema_name
runs_once = refl

differ : ◌≢◌ {A = String} "002.sql" "001.sql"
differ h = absurd (false≢true ((eq_iff "002.sql" "001.sql").1 h))

sum-given : (body : String) → sum body ≢ ""
sum-given body h = absurd (false≢true ((eq_iff "sum:" "").1 (append-eq-nil_iff.0 h).0))

run_tenant_migrations-again_example :
    All (λ f. IsRecorded sum script grants "tenant_1" "t1" f migrated_once.own) files
    × (run_tenant_migrations sum script grants files "tenant_1" "t1" migrated_once ≡ (
      ok (record { applied = []; total = 2; migration_version = some "002.sql" }),
      secured sum script grants "tenant_1" "t1" files migrated_once,
    ))
run_tenant_migrations-again_example =
    run_tenant_migrations-again sum script grants "tenant_1" "t1" files database migrated_once
      first_run ((differ, tt), (tt, tt)) sum-given runs_once refl

tenant_named : ◌≢◌ {A = String} "t1" ""
tenant_named h = absurd (false≢true ((eq_iff "t1" "").1 h))

safe : is_safe_schema_name (codes "tenant_1") ≡ true
unfolding is_safe_schema_name
safe = refl

sum_named : ◌≢◌ {A = String} "sum:B" ""
sum_named h = absurd (false≢true ((eq_iff "sum:B" "").1 h))

sums_differ : ◌≢◌ {A = String} "sum:B" "sum:C"
sums_differ h = absurd (false≢true ((eq_iff "sum:B" "sum:C").1 h))

run_tenant_migrations-drift_example :
    (e : Thrown) × (run_tenant_migrations sum script grants
        (file "001.sql" "A" ∷ file "002.sql" "C" ∷ [])
        "tenant_1"
        "t1"
        migrated_once
      ≡ (err e, migrated_once))
run_tenant_migrations-drift_example =
    run_tenant_migrations-drift sum script grants "tenant_1" "t1" (file "002.sql" "C")
      (file "001.sql" "A" ∷ []) [] migrated_once safe tenant_named
      (record {
        row = own_row "tenant_1" "002.sql" (some "sum:B");
        old = "sum:B";
        found = refl;
        sum = refl;
        not_blank = sum_named;
        differs = sums_differ;
      })

run_tenant_migration_fleet-Answers_example :
    Answers sum script grants
      (green ∷ record green { id = "t2"; schema_name = "bad;"; slug = "bad" } ∷ [])
      (run_tenant_migration_fleet sum script grants ("active" ∷ []) true files database)
run_tenant_migration_fleet-Answers_example =
    run_tenant_migration_fleet-Answers sum script grants ("active" ∷ []) files database
