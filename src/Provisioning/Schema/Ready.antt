-- ===== src/Provisioning/Schema/Ready.antt =====
-- What `provisionTenantSchema` leaves in the control plane.
use hippo_build_x.Prelude.{
  ℕ, String, ◌≡◌, ◌≢◌, refl, sym, ap, subst, ◌∙◌, ◌⊎◌, Option, none, some, List, [], ◌∷◌, All,
  All-update, ◌==◌,
}
use hippo_build_x.Prelude.Effect.{
  Result, ok, err, then_result, ◌>>◌, pure, Ensures, Ensures-self, Ensures->>, Ensures-of_ok,
}
use hippo_build_x.Provisioning.ControlPlane.{
  Tenant, Job, ControlPlane, Action, exec_on, update_tenant, update_job,
}
use hippo_build_x.Provisioning.Schema.{
  Stage, create_schema, run_migrations, seed_defaults, insert_channel, activate, staged,
  assert_safe_schema_name, provision_tenant_schema,
}

abbrev IsReadyRow : Tenant → Type 0
IsReadyRow t = (t.status ≡ "active") × (t.data_location_status ≡ "ready")

-- Every row of the tenant is active, with its data location ready.
abbrev pub IsReady : String → ControlPlane → Type 0
IsReady id s = All (λ t. (t.id ≢ id) ⊎ IsReadyRow t) s.tenants

activated : ℕ → Tenant → Tenant
activated now t = record t { status = "active"; data_location_status = "ready"; updated_at = now }

-- The call changes no row of `tenants`, however it ends.
abbrev pub KeepsTenants : {A : Type 0} → Action A → Type 0
KeepsTenants m = (s : ControlPlane) → (m s).1.tenants ≡ s.tenants

exec_on-activate :
    (faults : List (Option String)) (id : String) (s : ControlPlane)
    → Ensures (IsReady id) (
        exec_on faults
          (update_tenant
            (λ t. t.id == id)
            (λ t. record t {
              status = "active";
              data_location_status = "ready";
              updated_at = s.now;
            }))
          s)
unfolding activated
exec_on-activate [] id s =
    All-update (λ t. t.id) id (activated s.now) IsReadyRow s.tenants (λ t. (refl, refl))
exec_on-activate (none ∷ _) id s =
    All-update (λ t. t.id) id (activated s.now) IsReadyRow s.tenants (λ t. (refl, refl))
exec_on-activate (some _ ∷ _) id s = tt

-- A call that keeps the tenants keeps them ready.
pub keeps_ready :
    {A : Type 0} (id : String) (m : Action A) (s : ControlPlane)
    → KeepsTenants m
    → IsReady id s
    → Ensures (IsReady id) (m s)
keeps_ready id m s keeps h = Ensures-self (IsReady id) (m s) (λ a s' e.
    subst (λ ts. All (λ t. (t.id ≢ id) ⊎ IsReadyRow t) ts) (sym (keeps s) ∙ ap (λ r. r.1.tenants) e)
      h)

pub exec_on-update_job :
    (faults : List (Option String)) (id : String) (f : Job → Job) (s : ControlPlane)
    → (exec_on faults (update_job id f) s).1.tenants ≡ s.tenants
exec_on-update_job [] id f s = refl
exec_on-update_job (none ∷ _) id f s = refl
exec_on-update_job (some _ ∷ _) id f s = refl

-- The result of a call is dropped.
pub then_pure-KeepsTenants :
    {A : Type 0} (m : Action A) → KeepsTenants m → KeepsTenants (m >> pure tt)
then_pure-KeepsTenants m keeps s = same_state (m s) ∙ keeps s
  where
    same_state :
        {A : Type 0} (r : Result A × ControlPlane)
        → (then_result r (pure {S = ControlPlane} tt)).1.tenants ≡ r.1.tenants
    same_state (ok a, s) = refl
    same_state (err e, s) = refl

module _ (stage : Stage → Action (Unit {0})) (on_step : String → Action (Unit {0}))
    (on_step_keeps : (step : String) → KeepsTenants (on_step step)) where
  -- When the provisioning returns, the tenant is active and its data location ready.
  pub provision_tenant_schema-IsReady :
      (tenant_id schema_name : String) (s : ControlPlane)
      → Ensures (IsReady tenant_id) (provision_tenant_schema stage on_step tenant_id schema_name s)
  unfolding provision_tenant_schema
  provision_tenant_schema-IsReady tenant_id schema_name s =
      Ensures->> P (assert_safe_schema_name schema_name) _ s (λ _ s0 _.
        Ensures->> P (staged stage on_step create_schema "schema_created") _ s0 (λ _ s1 _.
          Ensures->> P (staged stage on_step run_migrations "migrations_applied") _ s1 (λ _ s2 _.
            Ensures->> P (staged stage on_step seed_defaults "defaults_seeded") _ s2 (λ _ s3 _.
              Ensures->> P (staged stage on_step insert_channel "channel_record_created") _ s3
                (λ _ s4 _. Ensures->> P (activate tenant_id) _ s4 (λ a s5 e.
                  keeps_ready tenant_id (on_step "active") s5 (on_step_keeps "active")
                    (Ensures-of_ok P _ a s5 (exec_on-activate s4.faults tenant_id s4) e)))))))
    where
      P : ControlPlane → Type 0
      P = IsReady tenant_id
