-- ===== src/Tests/Projects/Property.antt =====
-- Drawings and locations on concrete tables.
use hippo_build_x.Prelude.{
  ℕ, ◌<◌, String, ◌≡◌, refl, ◌⊎◌, inr, false, Option, none, some, List, [], ◌∷◌, All, arith,
}
use hippo_build_x.Prelude.Effect.{ok}
use hippo_build_x.Projects.Drawings.{Drawing, Upload, is_version_of, newest, create_drawing_version}
use hippo_build_x.Projects.Drawings.Versions.{IsVersioned, create_drawing_version-IsVersioned}
use hippo_build_x.Projects.Locations.{
  Location, Tower, insert_location, sync_found, sync_location_for_tower,
}

abbrev drawing : String → ℕ → Option String → Drawing
drawing id version supersedes_id = record {
  id = id;
  tenant_id = "t1";
  project_id = "p1";
  title = "Plan";
  drawing_number = "A-1";
  version = version;
  file_url = none;
  notes = none;
  supersedes_id = supersedes_id;
  created_by = none;
  deleted = false;
}

abbrev drawings : List Drawing
drawings = drawing "d2" 2 none ∷ drawing "d1" 1 none ∷ []

abbrev upload : Upload
upload = record {
  tenant_id = "t1";
  project_id = "p1";
  drawing_number = "A-1";
  title = "Plan";
  file_url = some "";
  notes = none;
  user_id = none;
}

drawing_runs :
    ((create_drawing_version "d3" upload drawings).0 ≡ drawing "d3" 3 (some "d2"))
    × ((create_drawing_version "d3" upload []).0 ≡ drawing "d3" 1 none)
unfolding create_drawing_version newest
drawing_runs = (refl, refl)

drawings-IsVersioned : IsVersioned drawings
drawings-IsVersioned = ((inr (inr (λ e. omega arith)), tt), (tt, tt))

create_drawing_version-IsVersioned_example :
    let (row, rows') = create_drawing_version "d3" upload drawings in
    All (λ d. (is_version_of "p1" "A-1" d ≡ false) ⊎ (d.version < row.version)) drawings
    × IsVersioned rows'
create_drawing_version-IsVersioned_example =
    create_drawing_version-IsVersioned "d3" upload drawings drawings-IsVersioned

abbrev tower : String → String → Tower
tower project_id name = record {
  tenant_id = "t1";
  project_id = project_id;
  name = name;
  code = "T1";
  user_id = some "u1";
}

abbrev location : Location
location = record {
  id = "l1";
  tenant_id = "t1";
  project_id = "p1";
  name = "East";
  code = "T1";
  status = "active";
  created_by = some "u1";
  updated_by = none;
  deleted = false;
}

location_made : sync_location_for_tower "l1" (tower "p1" "East") [] ≡ (ok "l1", location ∷ [])
unfolding sync_location_for_tower sync_found insert_location
location_made = refl
