-- ===== src/Projects/Drawings/Versions.antt =====
-- The versions of a drawing are numbered without repetition, each after the one it supersedes.
use hippo_build_x.Prelude.{
  ℕ, ◌≤◌, ◌<◌, String, ◌≡◌, ◌≢◌, ◌⊎◌, inl, inr, Bool, true, false, Option, none, some, List, [],
  ◌∷◌, ◌++◌, All, filter, ltb, Bool-cases, eq_iff, arith,
}
use hippo_build_x.Projects.Drawings.{
  Drawing, Upload, is_version_of, newer, newest, next_version, new_row, create_drawing_version,
}

-- The next number is above the row that was just looked at, and above what went before.
next-newer :
    (d : Drawing) (found : Option Drawing)
    → (d.version < next_version (newer d found))
      × (next_version found ≤ next_version (newer d found))
next-newer d none = (omega arith, omega arith)
next-newer d (some e) = elim (Bool-cases (ltb d.version e.version)) [
  | inl less ↦ rw less (ground arith, omega arith)
  | inr more ↦ rw more (omega arith, ground arith)
]

-- Of the rows that pass, none has a number as high as the next one.
Below : (Drawing → Bool) → ℕ → Drawing → Type 0
Below p n d = (p d ≡ false) ⊎ (d.version < n)

newest-Below :
    (p : Drawing → Bool) (rows : List Drawing) (n : ℕ)
    → next_version (newest (filter p rows)) ≤ n
    → All (Below p n) rows
unfolding newest Below
newest-Below p [] n h = tt
newest-Below p (d ∷ ds) n h = elim (Bool-cases (p d)) [
  | inl counts ↦
      let (above, more) = next-newer d (newest (filter p ds)) in
      let k = rw counts at h in (inr (omega arith), newest-Below p ds n (omega arith))
  | inr skipped ↦ (inl skipped, newest-Below p ds n (rw skipped at h))
]

-- Two rows that are not deleted and are versions of one drawing have different numbers.
abbrev Apart : Drawing → Drawing → Type 0
Apart d e =
    (d.deleted ≡ true)
    ⊎ ((is_version_of d.project_id d.drawing_number e ≡ false) ⊎ (d.version ≢ e.version))

-- The unique index of the table: each row is apart from every later one.
abbrev pub IsVersioned : List Drawing → Type 0
IsVersioned [] = Unit
IsVersioned (d ∷ ds) = All (Apart d) ds × IsVersioned ds

append-All :
    (P : Drawing → Type 0) (ds : List Drawing) (row : Drawing)
    → All P ds
    → P row
    → All P (ds ++ row ∷ [])
append-All P [] row h k = (k, tt)
append-All P (d ∷ ds) row (h, hs) k = (h, append-All P ds row hs k)

append-IsVersioned :
    (ds : List Drawing) (row : Drawing)
    → IsVersioned ds
    → All (λ d. Apart d row) ds
    → IsVersioned (ds ++ row ∷ [])
append-IsVersioned [] row h k = (tt, tt)
append-IsVersioned (d ∷ ds) row (h, hs) (k, ks) =
    (append-All (Apart d) ds row h k, append-IsVersioned ds row hs ks)

Below-Apart :
    (id : String) (u : Upload) (latest : Option Drawing) (d : Drawing)
    → Below (is_version_of u.project_id u.drawing_number) (next_version latest) d
    → Apart d (new_row id u latest)
unfolding Below
Below-Apart id u latest d (inr less) = inr (inr (λ e. omega arith))
Below-Apart id u latest d (inl other) = elim (Bool-cases d.deleted) [
  | inl gone ↦ inl gone
  | inr live ↦ inr (
      inl (
        ground (
          arith,
          other,
          live,
          eq_iff d.project_id u.project_id,
          eq_iff u.project_id d.project_id,
          eq_iff d.drawing_number u.drawing_number,
          eq_iff u.drawing_number d.drawing_number,
        )))
]

All-Apart :
    (id : String) (u : Upload) (latest : Option Drawing) (rows : List Drawing)
    → All (Below (is_version_of u.project_id u.drawing_number) (next_version latest)) rows
    → All (λ d. Apart d (new_row id u latest)) rows
All-Apart id u latest [] h = tt
All-Apart id u latest (d ∷ ds) (h, hs) = (Below-Apart id u latest d h, All-Apart id u latest ds hs)

-- The new row has a higher version number than every row of its drawing that is not deleted, and if
-- no two such rows of one drawing had the same number before, none have after: the unique index of
-- `drawings` does not refuse the INSERT.
pub create_drawing_version-IsVersioned :
    (id : String) (u : Upload) (rows : List Drawing)
    → IsVersioned rows
    → let (row, rows') = create_drawing_version id u rows in
      All
        (λ d. (is_version_of u.project_id u.drawing_number d ≡ false) ⊎ (d.version < row.version))
        rows
      × IsVersioned rows'
unfolding create_drawing_version Below
create_drawing_version-IsVersioned id u rows h =
    let p = is_version_of u.project_id u.drawing_number in
    let latest = newest (filter p rows) in
    let below = newest-Below p rows (next_version latest) (omega arith) in
    (below, append-IsVersioned rows (new_row id u latest) h (All-Apart id u latest rows below))
