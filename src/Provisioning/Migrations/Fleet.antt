-- ===== src/Provisioning/Migrations/Fleet.antt =====
-- A run of the migrations for all tenants.
use hippo_build_x.Prelude.{String, ◌≡◌, refl, true, List, [], ◌∷◌, map, filter}
use hippo_build_x.Prelude.Effect.{Result, ok, err, bind_result}
use hippo_build_x.Provisioning.ControlPlane.{message_of}
use hippo_build_x.Provisioning.Migrations.{
  File, Versioned, Database, Migrated, FleetResult, migrated, not_migrated, in_fleet, go_on,
  migrate_all, run_tenant_migrations, run_tenant_migration_fleet,
}

module _ {R : Type 0} (checksum : String → String)
    (run_script : String → String → R → Result (Unit {0}) × R)
    (secure : String → String → R → Result (Unit {0}) × R) where
  abbrev pub tenant_of : FleetResult checksum run_script secure → String
  tenant_of (migrated id slug m) = id
  tenant_of (not_migrated id slug e) = id

  -- A call that returns a result for each of the tenants, in their order.
  abbrev pub Answers :
      List Versioned → Result (List (FleetResult checksum run_script secure)) × Database R → Type 0
  Answers ts (ok rs, s) = map tenant_of rs ≡ map (λ t. t.id) ts
  Answers ts (err e, s) = ⊥

  answer_more :
      (t : Versioned) (ts : List Versioned) (r : FleetResult checksum run_script secure)
      (others : Result (List (FleetResult checksum run_script secure)) × Database R)
      → tenant_of r ≡ t.id
      → Answers ts others
      → Answers (t ∷ ts) (bind_result others (λ rest s. (ok (r ∷ rest), s)))
  answer_more t ts r (ok rs, s) same h = rw (same, h) refl
  answer_more t ts r (err e, s) same h = h

  go_on-Answers :
      (t : Versioned) (ts : List Versioned) (r : Result Migrated × Database R)
      (others : Database R → Result (List (FleetResult checksum run_script secure)) × Database R)
      → ((s : Database R) → Answers ts (others s))
      → Answers (t ∷ ts) (go_on checksum run_script secure true t r others)
  unfolding go_on
  go_on-Answers t ts (ok m, s) others h =
      answer_more t ts (migrated t.id t.slug m) (others s) refl (h s)
  go_on-Answers t ts (err e, s) others h =
      answer_more t ts (not_migrated t.id t.slug (message_of e)) (others s) refl (h s)

  migrate_all-Answers :
      (files : List File) (ts : List Versioned) (s : Database R)
      → Answers ts (migrate_all checksum run_script secure true files ts s)
  unfolding migrate_all
  migrate_all-Answers files [] s = refl
  migrate_all-Answers files (t ∷ ts) s =
      go_on-Answers t ts
        (run_tenant_migrations checksum run_script secure files t.schema_name t.id s)
        (migrate_all checksum run_script secure true files ts) (migrate_all-Answers files ts)

  -- A run for the fleet that goes on after errors returns, with one result for each tenant that has one
  -- of the statuses and a shared schema and is not deleted, in their order, whatever the scripts do.
  pub run_tenant_migration_fleet-Answers :
      (statuses : List String) (files : List File) (s : Database R)
      → Answers
          (filter (in_fleet statuses) s.tenants)
          (run_tenant_migration_fleet checksum run_script secure statuses true files s)
  unfolding run_tenant_migration_fleet
  run_tenant_migration_fleet-Answers statuses files s =
      migrate_all-Answers files (filter (in_fleet statuses) s.tenants) s
