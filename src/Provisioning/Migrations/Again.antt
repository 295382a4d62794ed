-- ===== src/Provisioning/Migrations/Again.antt =====
-- A second run of the migrations.
use hippo_build_x.Prelude.{
  String, ◌≡◌, ◌≢◌, refl, sym, ap, subst, inl, inr, Bool, false, some, List, [], ◌∷◌, All, any,
  find, find-append, update, length, codes, Bool-cases, if◌then◌else◌, ◌==◌, eq_iff, eq_refl,
}
use hippo_build_x.Prelude.Effect.{Result, ok, err, transaction, Ensures, Ensures-of_ok}
use hippo_build_x.Db.Names.{is_safe_schema_name}
use hippo_build_x.Provisioning.Migrations.{
  File, OwnRow, CentralRow, Database, Migrated, is_own, copy_row, copy_central, last_name, on_rest,
  check_known, migrate_one, migrate_files, finish_run, run_locked, run_tenant_migrations,
}
use hippo_build_x.Provisioning.Migrations.Applied.{
  Distinct, IsRecorded, AllRecorded, Ensures-bind, rest_only, migrate_files-AllRecorded,
  Agrees-refl,
}

Ensures-committed :
    {S A : Type 0} (P : S → Type 0) (r : Result A × S) (s : S)
    → Ensures P r
    → Ensures P (transaction (λ _. r) s)
Ensures-committed P (ok a, s') s h = h
Ensures-committed P (err e, s') s h = tt

pub copy_central-keeps :
    (schema tenant : String) (p : OwnRow → Bool) (cs : List CentralRow) (own : List OwnRow)
    (row : OwnRow)
    → find p own ≡ some row
    → find p (copy_central schema tenant cs own) ≡ some row
unfolding copy_central
copy_central-keeps schema tenant p [] own row e = e
copy_central-keeps schema tenant p (c ∷ cs) own row e =
    copy_central-keeps schema tenant p cs
      (if c.tenant_id == tenant then copy_row schema c own else own) row
      (elim (Bool-cases (c.tenant_id == tenant)) [
        | inr foreign ↦ rw foreign e
        | inl mine ↦ elim (Bool-cases (any (is_own schema c.migration_name) own)) [
          | inl there ↦ rw (mine, there) e
          | inr missing ↦ rw (mine, missing) (find-append p own _ row e)
        ]
      ])

module _ {R : Type 0} (checksum : String → String)
    (run_script : String → String → R → Result (Unit {0}) × R)
    (secure : String → String → R → Result (Unit {0}) × R) (schema tenant : String) where
  abbrev pub run : List File → Database R → Result Migrated × Database R
  run files = run_tenant_migrations checksum run_script secure files schema tenant

  -- A file that is on record with its checksum is left alone.
  migrate_one-recorded :
      (f : File) (known : List OwnRow) (s : Database R)
      → checksum f.body ≢ ""
      → IsRecorded checksum run_script secure schema tenant f known
      → migrate_one checksum run_script secure (find (is_own schema f.name) known) schema tenant f s
        ≡ (ok false, s)
  unfolding migrate_one check_known
  migrate_one-recorded f known s ne h = elim (Bool-cases (checksum f.body == "")) [
    | inl blank ↦ absurd (ne ((eq_iff (checksum f.body) "").0 blank))
    | inr given ↦ rw h.found (rw h.sum (rw given (rw (eq_refl (checksum f.body)) refl)))
  ]

  migrate_files-recorded :
      (known : List OwnRow) (files : List File) (s : Database R)
      → ((body : String) → checksum body ≢ "")
      → All (λ f. IsRecorded checksum run_script secure schema tenant f known) files
      → migrate_files checksum run_script secure known schema tenant files s ≡ (ok [], s)
  unfolding migrate_files
  migrate_files-recorded known [] s ne h = refl
  migrate_files-recorded known (f ∷ fs) s ne (h, hs) =
      rw (migrate_one-recorded f known s (ne f.body) h)
        (rw (migrate_files-recorded known fs s ne hs) refl)

  All-copied :
      (files : List File) (s : Database R)
      → All (λ f. IsRecorded checksum run_script secure schema tenant f s.own) files
      → All
          (λ f.
            IsRecorded checksum run_script secure schema tenant f
              (copy_central schema tenant s.central s.own))
          files
  All-copied [] s h = tt
  All-copied (f ∷ fs) s (h, hs) = (
    record {
      row = h.row;
      found = copy_central-keeps schema tenant (is_own schema f.name) s.central s.own h.row h.found;
      sum = h.sum;
    },
    All-copied fs s hs,
  )

  run-Recorded :
      (files : List File) (s : Database R)
      → Distinct files
      → Ensures
          (λ s'. All (λ f. IsRecorded checksum run_script secure schema tenant f s'.own) files)
          (run files s)
  unfolding run_tenant_migrations run_locked finish_run
  run-Recorded files s distinct = elim (Bool-cases (is_safe_schema_name (codes schema))) [
    | inr unsafe ↦ rw unsafe tt
    | inl safe ↦ elim (Bool-cases (tenant == "")) [
      | inl blank ↦ rw (safe, blank) tt
      | inr named ↦
          rw (safe, named)
            (Ensures-committed _ (run_locked checksum run_script secure files schema tenant s) s (
              Ensures-bind (AllRecorded checksum run_script secure schema tenant files copied) _
                (migrate_files checksum run_script secure copied schema tenant files
                  (record s { own = copied }))
                _
                (migrate_files-AllRecorded checksum run_script secure schema tenant copied files
                  (record s { own = copied }) distinct
                  (Agrees-refl checksum run_script secure schema tenant files copied))
                (λ applied s' k.
                  Ensures-bind (λ s''. s''.own ≡ s'.own) _
                    (on_rest checksum run_script secure (secure schema tenant) s') _
                    (rest_only checksum run_script secure schema tenant (secure schema tenant) s')
                    (λ _ s'' same.
                      subst
                        (λ own.
                          All (λ f. IsRecorded checksum run_script secure schema tenant f own)
                            files)
                        (sym same) k.0))))
    ]
  ]
    where
      copied : List OwnRow
      copied = copy_central schema tenant s.central s.own

  -- The tables after a run that applies nothing.
  abbrev pub secured : List File → Database R → Database R
  secured files s = record s {
    own = copy_central schema tenant s.central s.own;
    tenants =
        update (λ t. t.id == tenant) (λ t. record t { migration_version = last_name files })
          s.tenants;
    rest = (secure schema tenant s.rest).1;
  }

  again_locked :
      (files : List File) (s : Database R)
      → ((body : String) → checksum body ≢ "")
      → (secure schema tenant s.rest).0 ≡ ok tt
      → All (λ f. IsRecorded checksum run_script secure schema tenant f s.own) files
      → run_locked checksum run_script secure files schema tenant s ≡ (
        ok (record { applied = []; total = length files; migration_version = last_name files }),
        secured files s,
      )
  unfolding run_locked finish_run
  again_locked files s ne grants recorded =
      let copied = copy_central schema tenant s.central s.own in
      rw
        (migrate_files-recorded copied files (record s { own = copied }) ne
          (All-copied files s recorded))
        (rw grants refl)

  -- When a run of the migrations returns, every file is on record with its checksum, and the same run
  -- again applies no file and runs no SQL of a file: it copies the central rows that are missing, sets
  -- the version of the tenant and sets its policies and grants, which it is assumed not to fail at. The
  -- files have distinct names, and no checksum is empty.
  pub run_tenant_migrations-again :
      (files : List File) (s s' : Database R) (out : Migrated)
      → Distinct files
      → ((body : String) → checksum body ≢ "")
      → run files s ≡ (ok out, s')
      → (secure schema tenant s'.rest).0 ≡ ok tt
      → All (λ f. IsRecorded checksum run_script secure schema tenant f s'.own) files
        × (run files s' ≡ (
          ok (record { applied = []; total = length files; migration_version = last_name files }),
          secured files s',
        ))
  unfolding run_tenant_migrations run_locked finish_run
  run_tenant_migrations-again files s s' out distinct ne h grants =
      let recorded = Ensures-of_ok _ (run files s) out s' (run-Recorded files s distinct) h in
      (
        recorded,
        elim (Bool-cases (is_safe_schema_name (codes schema))) [
          | inr unsafe ↦ absurd (cc (rw unsafe at h))
          | inl safe ↦ elim (Bool-cases (tenant == "")) [
            | inl blank ↦ absurd (cc (rw (safe, blank) at h))
            | inr named ↦
                rw (safe, named)
                  (ap (λ r. transaction (λ _. r) s') (again_locked files s' ne grants recorded))
          ]
        ],
      )
