-- ===== src/Crm/Leads/Missing.antt =====
-- The reads of leads in the schema of a tenant that has no table of leads.
use hippo_build_x.Prelude.{String, ◌≡◌, refl, inl, inr, Bool, true, Option, List, []}
use hippo_build_x.Prelude.Effect.{Result-cases}
use hippo_build_x.Api.Context.{Ctx, require_tenant_context}
use hippo_build_x.Admin.Channels.Json.{Fields}
use hippo_build_x.Crm.Leads.{
  Lead, without, leads, is_missing, or_no_leads, get_leads, or_none, get_lead,
}

module _ (missing : String) (sorted : List Lead → List Lead) (admits : Fields → Bool)
    (store : Option Ctx) where
  -- When the database says of the missing table that it does not exist, and sorting no rows gives no
  -- rows, the list of leads and the read of one lead answer in a schema without the table as they do
  -- with an empty table, also when the context has no tenant.
  pub reads-missing :
      (id : String)
      → is_missing missing ≡ true
      → sorted [] ≡ []
      → ((get_leads missing sorted admits store without).0
          ≡ (get_leads missing sorted admits store (leads [])).0)
        × ((get_lead missing sorted admits store id without).0
            ≡ (get_lead missing sorted admits store id (leads [])).0)
  unfolding get_leads or_no_leads get_lead or_none
  reads-missing id absent empty = elim (Result-cases (require_tenant_context store)) [
    | inr (_, refused) ↦ rw refused (refl, refl)
    | inl (_, granted) ↦ rw (granted, absent, empty) (refl, refl)
  ]
