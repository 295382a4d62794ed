-- ===== src/Tests/Crm.antt =====
-- The routes of leads, with and without their table.
use hippo_build_x.Prelude.{String, ◌≡◌, refl, true, false, none, some, [], ◌∷◌}
use hippo_build_x.Prelude.Effect.{ok, err}
use hippo_build_x.Api.Context.{Ctx, require_tenant_context, get_request_context, tenant_of}
use hippo_build_x.Admin.Channels.Json.{
  text, Fields, end, field, get, merge, put, has_keys, given_fields,
}
use hippo_build_x.Crm.Leads.{
  Lead, without, leads, contains, is_missing, or_no_leads, get_leads, or_none, get_lead, not_found,
  update_lead, patch_lead,
}

abbrev ctx : Ctx
ctx = record {
  request_id = "r1";
  is_platform = false;
  tenant = some (record {
    tenant_id = "t1";
    schema_name = "tenant_acme";
    isolation_mode = "shared_schema";
    slug = "acme";
    session_id = none;
    authz = none;
  });
  platform_user = none;
}

abbrev lead : String → String → Fields → Lead
lead id tenant_id columns = record {
  id = id;
  tenant_id = tenant_id;
  columns = columns;
  deleted = false;
}

abbrev message : String
message = "relation leads does not exist"

leads_absent :
    (is_missing message ≡ true)
    × ((get_leads message (λ rows. rows) (λ _. true) (some ctx) without).0 ≡ ok [])
    × ((get_lead message (λ rows. rows) (λ _. true) (some ctx) "l1" without).0 ≡ err not_found)
unfolding contains get_leads or_no_leads get_lead or_none require_tenant_context get_request_context
    tenant_of
leads_absent = (refl, refl, refl)

leads_of_others :
    patch_lead message
      (λ rows. rows)
      (λ _. true)
      (some ctx)
      "l2"
      (field "name" (text "B") end)
      (leads (lead "l1" "t1" end ∷ lead "l2" "t2" end ∷ []))
    ≡ (err not_found, leads (lead "l1" "t1" end ∷ lead "l2" "t2" end ∷ []))
unfolding patch_lead require_tenant_context get_request_context tenant_of
leads_of_others = refl

lead_patched :
    (patch_lead message
      (λ rows. rows)
      (λ _. true)
      (some ctx)
      "l1"
      (field "stage" (text "x") (field "name" (text "B") end))
      (leads (lead "l1" "t1" end ∷ lead "l2" "t2" end ∷ []))).1
    ≡ leads (lead "l1" "t1" (field "name" (text "B") end) ∷ lead "l2" "t2" end ∷ [])
unfolding patch_lead update_lead require_tenant_context get_request_context tenant_of get merge put
    has_keys given_fields
lead_patched = refl
