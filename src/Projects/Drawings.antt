-- ===== src/Projects/Drawings.antt =====
-- property-service.js, `createDrawingVersion`: the versions of a project's drawings.
pub mod Versions
use hippo_build_x.Prelude.{
  ℕ, ◌+◌, String, Bool, true, false, not, ◌&&◌, Option, none, some, List, [], ◌∷◌, ◌++◌, filter,
  ltb, or_null, if◌then◌else◌, ◌==◌,
}

-- A row of `drawings`.
pub record Drawing : Type 0 where
  pub id : String
  pub tenant_id : String
  pub project_id : String
  pub title : String
  pub drawing_number : String
  pub version : ℕ
  pub file_url : Option String
  pub notes : Option String
  pub supersedes_id : Option String
  pub created_by : Option String
  pub deleted : Bool

pub record Upload : Type 0 where
  pub tenant_id : String
  pub project_id : String
  pub drawing_number : String
  pub title : String
  pub file_url : Option String
  pub notes : Option String
  pub user_id : Option String

-- `WHERE project_id = $1 AND drawing_number = $2 AND deleted_at IS NULL`
abbrev pub is_version_of : String → String → Drawing → Bool
is_version_of project_id drawing_number d =
    d.project_id == project_id && (d.drawing_number == drawing_number && not d.deleted)

abbrev pub newer : Drawing → Option Drawing → Option Drawing
newer d none = some d
newer d (some e) = if ltb d.version e.version then some e else some d

-- `ORDER BY version DESC LIMIT 1`
unfoldable pub newest : List Drawing → Option Drawing
newest [] = none
newest (d ∷ ds) = newer d (newest ds)

abbrev pub next_version : Option Drawing → ℕ
next_version none = 1
next_version (some d) = d.version + 1

-- `latest[0]?.id || null`
abbrev pub superseded : Option Drawing → Option String
superseded none = none
superseded (some d) = or_null (some d.id)

-- The row that the INSERT returns, after the latest one; `id` is its `gen_random_uuid()`.
abbrev pub new_row : String → Upload → Option Drawing → Drawing
new_row id u latest = record {
  id = id;
  tenant_id = u.tenant_id;
  project_id = u.project_id;
  title = u.title;
  drawing_number = u.drawing_number;
  version = next_version latest;
  file_url = or_null u.file_url;
  notes = or_null u.notes;
  supersedes_id = superseded latest;
  created_by = or_null u.user_id;
  deleted = false;
}

unfoldable pub create_drawing_version : String → Upload → List Drawing → Drawing × List Drawing
create_drawing_version id u rows =
    let latest = newest (filter (is_version_of u.project_id u.drawing_number) rows) in
    let row = new_row id u latest in (row, rows ++ row ∷ [])
