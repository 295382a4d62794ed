-- ===== src/Tenants/Registration.antt =====
-- apps/web/src/app/api/v1/platform/tenants/route.js, POST. The ids and the schema name, which
-- `toTenantSchemaName` makes of the tenant's id, are arguments; so are the database's faults, of which
-- the transaction meets one at most. The column `payload` is left out: only the stages of the
-- provisioning read it.
pub mod Once
pub mod Resumed
pub mod Touched
use Prim.Native.String.{◌++◌}
use hippo_build_x.Prelude.{◌++◌ as append}
use hippo_build_x.Prelude.{
  ℕ, String, Bool, true, false, not, ◌&&◌, ◌||◌, Option, none, some, List, [], ◌∷◌, any, find,
  length, codes, eqb, leb, is_space, or_null, if◌then◌else◌, ◌==◌,
}
use hippo_build_x.Prelude.Effect.{Result, ok, err, app, other, Thrown, bind_result}
use hippo_build_x.Shared.Errors.{validation}
use hippo_build_x.Shared.Errors.ErrorCode
use hippo_build_x.Db.Names.{is_digit, is_lower, all}
use hippo_build_x.Provisioning.ControlPlane.{Tenant, Job, ControlPlane, Action, exec}
use hippo_build_x.Provisioning.Schema.{Stage}
use hippo_build_x.Provisioning.Queue.{
  Payload, Enqueued, Queues, QueueAction, Switches, on_plane, enqueue_tenant_provision,
}

abbrev pub is_slug_code : ℕ → Bool
is_slug_code c = is_lower c || is_digit c

-- The rest of a slug after a letter or digit; after a hyphen one has to follow.
unfoldable pub slug_rest : Bool → List ℕ → Bool
slug_rest after_hyphen [] = not after_hyphen
slug_rest after_hyphen (c ∷ cs) =
    let letter = slug_rest false cs in
    let hyphen = slug_rest true cs in
    if is_slug_code c then letter else if eqb c b'-' && not after_hyphen then hyphen else false

-- `/^[a-z0-9]+(?:-[a-z0-9]+)*$/.test(slug) && slug.length <= 80`
unfoldable pub validate_slug : String → Bool
unfolding slug_rest
validate_slug slug = slug_rest true (codes slug) && leb (length (codes slug)) 80

abbrev pub some_left : List ℕ → Bool
some_left [] = false
some_left (_ ∷ _) = true

-- A dot that has a character after it, past the first character.
unfoldable pub dot_later : List ℕ → Bool
dot_later [] = false
dot_later (c ∷ cs) = (eqb c b'.' && some_left cs) || dot_later cs

abbrev pub dot_after_first : List ℕ → Bool
dot_after_first [] = false
dot_after_first (_ ∷ cs) = dot_later cs

unfoldable pub at_later : List ℕ → Bool
unfolding dot_later
at_later [] = false
at_later (c ∷ cs) = (eqb c b'@' && dot_after_first cs) || at_later cs

abbrev pub at_after_first : List ℕ → Bool
at_after_first [] = false
at_after_first (_ ∷ cs) = at_later cs

-- `/^\S+@\S+\.\S+$/.test(adminEmail)`
unfoldable pub is_email : String → Bool
unfolding at_later
is_email email = all (λ c. not (is_space c)) (codes email) && at_after_first (codes email)

-- The JSON body of the request; a field that is given is a text.
pub record Creation : Type 0 where
  pub name : Option String
  pub slug : Option String
  pub admin_email : Option String
  pub isolation_mode : Option String

-- The values after validation.
pub record Valid : Type 0 where
  pub name : String
  pub slug : String

unfoldable pub checked : String → String → String → String → Result Valid
checked name slug email isolation_mode =
    if not (validate_slug slug)
    then err
        (validation "Slug must be lowercase alphanumeric with optional hyphens (e.g. green-valley)")
    else if not (is_email email)
    then err (validation "A valid admin email is required")
    else if not (isolation_mode == "shared_schema")
    then err (validation "Dedicated database provisioning is reserved for P2")
    else ok (record { name = name; slug = slug })

abbrev pub isolation_or_shared : Option String → String
isolation_or_shared none = "shared_schema"
isolation_or_shared (some m) = if m == "" then "shared_schema" else m

unfoldable pub given : Option String → Option String → Option String → String → Result Valid
unfolding checked
given (some name) (some slug) (some email) mode = checked name slug email mode
given _ _ _ mode = err (validation "Name, slug and admin email are required")

unfoldable pub validate_creation : Creation → Result Valid
unfolding given
validate_creation b =
    given (or_null b.name) (or_null b.slug) (or_null b.admin_email)
      (isolation_or_shared b.isolation_mode)

-- `request.headers.get('idempotency-key') || ...`; a slug that passed has no upper case.
abbrev pub creation_key : Option String → String → String
creation_key none slug = "tenant-create:" ++ slug
creation_key (some key) slug = if key == "" then "tenant-create:" ++ slug else key

abbrev pub is_live : String → Tenant → Bool
is_live id t = t.id == id && not t.deleted

abbrev pub with_tenant : Job → Option Tenant → Option (Tenant × Job) → Option (Tenant × Job)
with_tenant j none rest = rest
with_tenant j (some t) rest = some (t, j)

-- `idempotentTenantQuery`: the tenant and its job with the key.
unfoldable pub find_replay : String → List Tenant → List Job → Option (Tenant × Job)
find_replay key ts [] = none
find_replay key ts (j ∷ js) =
    let rest = find_replay key ts js in
    if j.idempotency_key == key then with_tenant j (find (is_live j.tenant_id) ts) rest else rest

pub data Registered : Type 0 where
  replay : Tenant → Job → Registered
  created : Tenant → Job → Registered

-- The ids that the request draws, and the platform user.
pub record Fresh : Type 0 where
  pub tenant_id : String
  pub schema_name : String
  pub job_id : String
  pub requested_by : Option String

abbrev pub new_tenant : Fresh → Valid → ℕ → Tenant
new_tenant f v now = record {
  id = f.tenant_id;
  name = v.name;
  slug = v.slug;
  schema_name = f.schema_name;
  status = "provisioning";
  data_location_status = "provisioning";
  updated_at = now;
  deleted = false;
}

-- A row that an INSERT with the status 'queued' and the step 'registered' makes.
abbrev pub registered_job : String → Option String → String → String → ℕ → Job
registered_job id requested_by tenant_id key now = record {
  id = id;
  tenant_id = tenant_id;
  idempotency_key = key;
  requested_by = requested_by;
  status = "queued";
  current_step = "registered";
  bullmq_job_id = none;
  error_code = none;
  error_message = none;
  started_at = none;
  finished_at = none;
  attempt_count = 0;
  updated_at = now;
}

abbrev pub new_job : Fresh → String → String → ℕ → Job
new_job f tenant_id key now = registered_job f.job_id f.requested_by tenant_id key now

-- The unique columns `slug`, `schema_name` and `idempotency_key`.
abbrev pub violates : Fresh → Valid → String → ControlPlane → Bool
violates f v key s =
    any (λ t. t.slug == v.slug || t.schema_name == f.schema_name) s.tenants
    || any (λ j. j.idempotency_key == key) s.jobs

abbrev pub insert_both : Fresh → Valid → String → ControlPlane → ControlPlane
insert_both f v key s = record s {
  tenants = append s.tenants (new_tenant f v s.now ∷ []);
  jobs = append s.jobs (new_job f f.tenant_id key s.now ∷ []);
}

unfoldable pub insert_registration : Fresh → Valid → String → Action Registered
insert_registration f v key s =
    if violates f v key s
    then (err (other "duplicate key value violates unique constraint"), s)
    else bind_result (exec (insert_both f v key) s)
        (λ _ s'. (ok (created (new_tenant f v s.now) (new_job f f.tenant_id key s.now)), s'))

-- The transaction, after its lock, from what the query for a replay finds.
unfoldable pub create_locked : Option (Tenant × Job) → Fresh → Valid → String → Action Registered
create_locked (some (t, j)) f v key s = (ok (replay t j), s)
create_locked none f v key s =
    if any (λ t. t.slug == v.slug && not t.deleted) s.tenants
    then (err (app ErrorCode.already_exists ("Tenant slug already exists: " ++ v.slug) 409), s)
    else insert_registration f v key s

unfoldable pub create_in_transaction : Fresh → Valid → String → Action Registered
create_in_transaction f v key s = create_locked (find_replay key s.tenants s.jobs) f v key s

-- The query before the transaction, and the transaction.
unfoldable pub register_from : Option (Tenant × Job) → Fresh → Valid → String → Action Registered
register_from (some (t, j)) f v key s = (ok (replay t j), s)
register_from none f v key s = create_in_transaction f v key s

unfoldable pub register : Fresh → Valid → String → Action Registered
register f v key s = register_from (find_replay key s.tenants s.jobs) f v key s

-- `provisionMode`
pub data Mode : Type 0 where
  existing : Mode
  enqueued : Enqueued → Mode

pub record Reply : Type 0 where
  pub status : ℕ
  pub tenant : Option Tenant
  pub mode : Mode
  pub idempotent_replay : Bool

abbrev pub payload_of : Tenant → Job → Payload
payload_of t j = record {
  tenant_id = t.id;
  schema_name = t.schema_name;
  provisioning_job_id = some j.id;
}

module _ (env : Switches) (add : String → Result (Unit {0}))
    (stage : Payload → Stage → Action (Unit {0})) where
  abbrev pub enqueue_job : Tenant → Job → QueueAction Mode
  enqueue_job t j q =
      bind_result (enqueue_tenant_provision env add stage (payload_of t j) q)
        (λ e q'. (ok (enqueued e), q'))

  -- `enqueueRegisteredCreation`, and `enqueueRegisteredJob` of the retry.
  unfoldable pub enqueue_registered : Tenant → Job → QueueAction Mode
  enqueue_registered t j q =
      if not (j.status == "queued") || not (j.current_step == "registered")
      then (ok existing, q)
      else enqueue_job t j q

  unfoldable pub respond_registered : Registered → QueueAction Reply
  respond_registered (replay t j) q = bind_result (enqueue_registered t j q) (λ mode q'.
      (ok (record { status = 200; tenant = some t; mode = mode; idempotent_replay = true }), q'))
  respond_registered (created t j) q = bind_result (enqueue_job t j q) (λ mode q'. (
    ok (record {
      status = 201;
      tenant = find (λ u. u.id == t.id) q'.plane.tenants;
      mode = mode;
      idempotent_replay = false;
    }),
    q',
  ))

  -- The handler, after `requirePlatformUser` and `parseBody`.
  unfoldable pub post_tenant : Creation → Option String → Fresh → QueueAction Reply
  post_tenant b key f q =
      bind_result (validate_creation b, q)
        (λ v q.
          bind_result (on_plane (register f v (creation_key key v.slug)) q) respond_registered)
