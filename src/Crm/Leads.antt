-- ===== src/Crm/Leads.antt =====
-- apps/web/src/app/api/v1/crm/leads/route.js and crm/leads/[id]/route.js. The schema of a tenant may
-- lack the table `leads`; `missing` is then the message of the database. `sorted` stands for the ORDER
-- BY of the list, `admits` for the types and constraints of the table. The name of the assignee, which
-- the JOIN adds, is left out.
pub mod Missing
use hippo_build_x.Prelude.{
  ℕ, String, Bool, true, false, not, ◌&&◌, ◌||◌, Option, none, some, List, [], ◌∷◌, any, filter,
  find, update, codes, eqb, if◌then◌else◌, ◌==◌,
}
use hippo_build_x.Prelude.Effect.{Thrown, Result, ok, err, app, other, bind_result}
use hippo_build_x.Shared.Errors.{validation}
use hippo_build_x.Shared.Errors.ErrorCode
use hippo_build_x.Api.Context.{Ctx, require_tenant_context}
use hippo_build_x.Admin.Channels.Json.{Fields, merge, has_keys, given_fields}

pub record Lead : Type 0 where
  pub id : String
  pub tenant_id : String
  pub columns : Fields
  pub deleted : Bool

-- A schema without the table, or its rows.
pub data Schema : Type 0 where
  without : Schema
  leads : List Lead → Schema

abbrev pub starts : List ℕ → List ℕ → Bool
starts [] cs = true
starts (p ∷ ps) [] = false
starts (p ∷ ps) (c ∷ cs) = eqb p c && starts ps cs

-- `message.includes(part)`, on code points.
unfoldable pub contains : List ℕ → List ℕ → Bool
contains part [] = starts part []
contains part (c ∷ cs) = starts part (c ∷ cs) || contains part cs

abbrev pub is_missing : String → Bool
is_missing message = contains (codes "does not exist") (codes message)

abbrev pub not_found : Thrown
not_found = app ErrorCode.not_found "Lead not found" 404

-- `l.tenant_id = $1 AND l.deleted_at IS NULL`
abbrev pub of_tenant : String → Lead → Bool
of_tenant tenant_id l = l.tenant_id == tenant_id && not l.deleted

-- `l.id = $1 AND l.tenant_id = $2 AND l.deleted_at IS NULL`
abbrev pub is_lead : String → String → Lead → Bool
is_lead id tenant_id l = l.id == id && of_tenant tenant_id l

module _ (missing : String) (sorted : List Lead → List Lead) (admits : Fields → Bool)
    (store : Option Ctx) where
  -- A query of the table.
  abbrev pub query : {A : Type 0} → (List Lead → A) → Schema → Result A
  query f without = err (other missing)
  query f (leads rows) = ok (f rows)

  -- `catch` in the list
  unfoldable pub or_no_leads : Result (List Lead) → Result (List Lead)
  unfolding contains
  or_no_leads (ok rows) = ok rows
  or_no_leads (err (app code message status)) =
      if is_missing message then ok [] else err (app code message status)
  or_no_leads (err (other message)) = if is_missing message then ok [] else err (other message)

  -- GET of the list
  unfoldable pub get_leads : Schema → Result (List Lead) × Schema
  unfolding or_no_leads
  get_leads s =
      bind_result (require_tenant_context store, s)
        (λ t s. (or_no_leads (query (λ rows. sorted (filter (of_tenant t.tenant_id) rows)) s), s))

  -- `if (!rows[0]) throw`
  abbrev pub or_not_found : Result (Option Lead) → Result Lead
  or_not_found (err e) = err e
  or_not_found (ok none) = err not_found
  or_not_found (ok (some l)) = ok l

  -- `catch` in GET of one lead
  unfoldable pub or_none : Result Lead → Result Lead
  unfolding contains
  or_none (ok l) = ok l
  or_none (err (app code message status)) = err (app code message status)
  or_none (err (other message)) = if is_missing message then err not_found else err (other message)

  -- GET of one lead
  unfoldable pub get_lead : String → Schema → Result Lead × Schema
  unfolding or_none
  get_lead id s =
      bind_result (require_tenant_context store, s)
        (λ t s. (or_none (or_not_found (query (find (is_lead id t.tenant_id)) s)), s))

  -- The names that PATCH reads from its body.
  abbrev pub settable : List String
  settable = "name" ∷ "email" ∷ "phone" ∷ "status" ∷ "pipeline_stage" ∷ "notes" ∷ "assigned_to" ∷ []

  -- `WHERE id = $n AND deleted_at IS NULL`
  abbrev pub has_id : String → Lead → Bool
  has_id id l = l.id == id && not l.deleted

  -- `UPDATE leads SET ... RETURNING *`, whose first row is undefined when it finds none.
  unfoldable pub update_lead : String → Fields → List Lead → Result (Option Lead) × Schema
  unfolding merge
  update_lead id given rows =
      if any (has_id id) rows && not (admits given)
      then (err (other "violates constraint"), leads rows)
      else let rows' =
          update (has_id id) (λ l. record l { columns = merge l.columns given }) rows in
        (ok (find (has_id id) rows'), leads rows')

  abbrev pub patch_found : String → Fields → Option Lead → List Lead → Result (Option Lead) × Schema
  patch_found id body none rows = (err not_found, leads rows)
  patch_found id body (some _) rows =
      let given = given_fields settable body in
      if has_keys given
      then update_lead id given rows
      else (err (validation "No fields to update"), leads rows)

  abbrev pub patch_in : String → String → Fields → Schema → Result (Option Lead) × Schema
  patch_in tenant_id id body without = (err (other missing), without)
  patch_in tenant_id id body (leads rows) =
      patch_found id body (find (is_lead id tenant_id) rows) rows

  -- PATCH
  unfoldable pub patch_lead : String → Fields → Schema → Result (Option Lead) × Schema
  unfolding update_lead given_fields has_keys
  patch_lead id body s =
      bind_result (require_tenant_context store, s) (λ t. patch_in t.tenant_id id body)

  -- POST: the file does not import the function `parseBody` that it calls next, so the call throws.
  unfoldable pub post_lead : Schema → Result Lead × Schema
  post_lead s =
      bind_result (require_tenant_context store, s)
        (λ _ s. (err (other "parseBody is not defined"), s))
