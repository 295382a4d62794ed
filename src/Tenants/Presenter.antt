-- ===== src/Tenants/Presenter.antt =====
-- apps/web/src/modules/platform/control-center-presenter.js and tenant-detail-selection.js: what the
-- control center shows of a tenant and of its provisioning. A text that is missing is `none`.
pub mod Percent
use Prim.Native.Char.{Char, code}
use hippo_build_x.Prelude.{
  ℕ, zero, suc, ◌+◌, ◌*◌, ◌/◌, max, String, Bool, true, false, not, ◌&&◌, ◌||◌, Option, none, some,
  List, [], ◌∷◌, length, includes, eqb, truthy, or_null, if◌then◌else◌, ◌==◌,
}

abbrev pub setup_steps : List String
setup_steps =
    "registered" ∷ "queued" ∷ "starting" ∷ "schema_created" ∷ "migrations_applied"
    ∷ "defaults_seeded" ∷ "channel_record_created" ∷ "active" ∷ []

abbrev pub Labels : Type 0
Labels = List (String × String)

-- `LABELS[key]`
unfoldable pub label : Labels → String → Option String
label [] key = none
label ((k, l) ∷ rest) key = if k == key then some l else label rest key

abbrev pub tenant_labels : Labels
tenant_labels =
    ("active", "Ready")
    ∷ ("provisioning", "Setting up")
    ∷ ("failed", "Needs attention")
    ∷ ("suspended", "Paused")
    ∷ []

abbrev pub tenant_colors : Labels
tenant_colors =
    ("active", "green")
    ∷ ("provisioning", "blue")
    ∷ ("failed", "red")
    ∷ ("suspended", "orange")
    ∷ []

abbrev pub job_labels : Labels
job_labels =
    ("queued", "Waiting")
    ∷ ("running", "In progress")
    ∷ ("retrying", "Trying again")
    ∷ ("completed", "Completed")
    ∷ ("failed", "Failed")
    ∷ []

abbrev pub step_labels : Labels
step_labels =
    ("registered", "Request received")
    ∷ ("queued", "Waiting to start")
    ∷ ("starting", "Setup started")
    ∷ ("schema_created", "Private workspace created")
    ∷ ("migrations_applied", "System prepared")
    ∷ ("defaults_seeded", "Admin account created")
    ∷ ("channel_record_created", "Communication settings prepared")
    ∷ ("active", "Ready to use")
    ∷ ("failed", "Setup failed")
    ∷ ("queue_failed", "Setup service unavailable")
    ∷ ("retrying", "Trying again")
    ∷ []

abbrev pub or_text : Option String → String → String
or_text none default = default
or_text (some s) default = if s == "" then default else s

abbrev pub label_of : Labels → Option String → Option String
label_of labels none = none
label_of labels (some key) = label labels key

-- `LABELS[key] || key || default`
abbrev pub label_or : Labels → Option String → String → String
label_or labels key default = or_text (label_of labels key) (or_text key default)

unfoldable pub tenant_status_label : Option String → String
unfolding label
tenant_status_label status = label_or tenant_labels status "Unknown"

unfoldable pub tenant_status_color : Option String → String
unfolding label
tenant_status_color status = or_text (label_of tenant_colors status) "default"

unfoldable pub job_status_label : Option String → String
unfolding label
job_status_label status = label_or job_labels status "Not started"

-- `text.replaceAll('_', ' ')`
unfoldable pub spaced : String → String
spaced String.[] = ""
spaced (String.◌∷◌ c s) = String.◌∷◌ (if eqb (code c) b'_' then " " else c) (spaced s)

unfoldable pub setup_step_label : Option String → String
unfolding label spaced
setup_step_label step = or_text (label_of step_labels step) (spaced (or_text step "Not started"))

-- `SETUP_STEPS.indexOf(step)`, where `none` is -1.
unfoldable pub index_from : ℕ → List String → String → Option ℕ
index_from i [] step = none
index_from i (s ∷ steps) step = if s == step then some i else index_from (suc i) steps step

-- `Math.max(8, Math.round(((index + 1) / SETUP_STEPS.length) * 100))`
abbrev pub percent_at : ℕ → ℕ
percent_at index = max 8 (((index + 1) * 200 + length setup_steps) / (2 * length setup_steps))

unfoldable pub percent_of : Option ℕ → String → ℕ
percent_of none status = if status == "failed" then 100 else 5
percent_of (some index) status = percent_at index

unfoldable pub setup_percent : String → String → ℕ
unfolding index_from percent_of
setup_percent step status =
    if status == "completed" || step == "active"
    then 100
    else percent_of (index_from 0 setup_steps step) status

-- What `isSetupInProgress` reads of a tenant: its status, the status of its job in a list, and that of
-- the first of its jobs.
pub record Shown : Type 0 where
  pub status : Option String
  pub provisioning_job_status : Option String
  pub first_job_status : Option String

abbrev pub is_one_of : List String → Option String → Bool
is_one_of names none = false
is_one_of names (some s) = includes names s

abbrev pub or_else : Option String → Option String → Option String
or_else none b = b
or_else (some s) b = if s == "" then b else some s

unfoldable pub is_setup_in_progress : Shown → Bool
is_setup_in_progress t =
    is_one_of ("provisioning" ∷ []) t.status
    || is_one_of ("registered" ∷ "queued" ∷ "running" ∷ "retrying" ∷ [])
        (or_else t.provisioning_job_status t.first_job_status)

pub record ShownChannel : Type 0 where
  pub verification_status : Option String
  pub enabled : Bool
  pub provider : Option String

unfoldable pub channel_status_label : ShownChannel → String
channel_status_label c =
    if is_one_of ("verified" ∷ []) c.verification_status
    then "Verified"
    else if c.enabled
    then "Enabled, not verified"
    else if truthy c.provider && not (is_one_of ("unconfigured" ∷ []) c.provider)
    then "Configured"
    else "Not configured"

abbrev pub same_text : Option String → Option String → Bool
same_text none none = true
same_text (some a) (some b) = a == b
same_text _ _ = false

unfoldable pub should_apply_tenant_detail_response : Option String → Option String → Bool → Bool
should_apply_tenant_detail_response current requested aborted =
    not aborted && (truthy requested && same_text current requested)
