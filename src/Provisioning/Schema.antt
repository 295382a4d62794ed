-- ===== src/Provisioning/Schema.antt =====
-- `provisionTenantSchema` of packages/db/src/migrations/index.js. Of the database work of the four
-- stages before the activation (the schema, its migrations, the defaults and the channel record) only
-- the effect on the control plane is a parameter, `stage`; `on_step` is the callback of the caller.
pub mod Ready
use Prim.Native.String.{◌++◌}
use hippo_build_x.Prelude.{String, Bool, not, codes, ◌==◌, if◌then◌else◌}
use hippo_build_x.Prelude.Effect.{Result, ok, err, other, ◌>>=◌, ◌>>◌, pure, throw_if}
use hippo_build_x.Db.Names.{is_safe_schema_name}
use hippo_build_x.Provisioning.ControlPlane.{Tenant, ControlPlane, Action, exec, update_tenant}

-- The stages of `provisionTenantSchema` before the activation of the tenant.
pub data Stage : Type 0 where
  create_schema run_migrations seed_defaults insert_channel : Stage

-- `UPDATE control_plane.tenants SET status = 'active', data_location_status = 'ready'`
abbrev pub activate : String → Action (Unit {0})
activate tenant_id s =
    exec
      (update_tenant (λ t. t.id == tenant_id)
        (λ t. record t { status = "active"; data_location_status = "ready"; updated_at = s.now }))
      s

-- `assertSafeSchemaName`
unfoldable pub assert_safe_schema_name : String → Action (Unit {0})
assert_safe_schema_name schema_name =
    throw_if (not (is_safe_schema_name (codes schema_name)))
      (other ("Unsafe schema name: " ++ schema_name))

module _ (stage : Stage → Action (Unit {0})) (on_step : String → Action (Unit {0})) where
  -- What the parameter `stage` does, and the report of the step that follows.
  abbrev pub staged : Stage → String → Action (Unit {0})
  staged which current_step = do stage which; on_step current_step

  unfoldable pub provision_tenant_schema : String → String → Action (Unit {0})
  provision_tenant_schema tenant_id schema_name = do
    assert_safe_schema_name schema_name
    staged create_schema "schema_created"
    staged run_migrations "migrations_applied"
    staged seed_defaults "defaults_seeded"
    staged insert_channel "channel_record_created"
    activate tenant_id
    on_step "active"
