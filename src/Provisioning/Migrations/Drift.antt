-- ===== src/Provisioning/Migrations/Drift.antt =====
-- A file that was changed after it had been applied.
use hippo_build_x.Prelude.{
  String, ◌≡◌, ◌≢◌, refl, inl, inr, true, some, List, [], ◌∷◌, ◌++◌, find, codes, Bool-cases, ◌==◌,
  eq_iff,
}
use hippo_build_x.Prelude.Effect.{Result, ok, err, Thrown, bind_result, transaction}
use hippo_build_x.Db.Names.{is_safe_schema_name}
use hippo_build_x.Provisioning.Migrations.{
  File, OwnRow, Database, is_own, copy_central, check_known, migrate_one, migrate_files, run_locked,
  run_tenant_migrations,
}
use hippo_build_x.Provisioning.Migrations.Again.{copy_central-keeps}

-- It throws.
abbrev Fails : {S A : Type 0} → Result A × S → Type 0
Fails r = (e : Thrown) × (r.0 ≡ err e)

Fails-bind :
    {S A B : Type 0} (r : Result A × S) (k : A → S → Result B × S)
    → ((a : A) (s : S) → Fails (k a s))
    → Fails (bind_result r k)
Fails-bind (ok a, s) k h = h a s
Fails-bind (err e, s) k h = (e, refl)

Fails-first :
    {S A B : Type 0} (r : Result A × S) (k : A → S → Result B × S)
    → Fails r
    → Fails (bind_result r k)
Fails-first (ok a, s) k (e, h) = absurd (cc h)
Fails-first (err e, s) k h = (e, refl)

rolled_back :
    {S A : Type 0} (r : Result A × S) (s : S)
    → Fails r
    → (e : Thrown) × (transaction (λ _. r) s ≡ (err e, s))
rolled_back (ok a, s') s (e, h) = absurd (cc h)
rolled_back (err e, s') s h = (e, refl)

module _ {R : Type 0} (checksum : String → String)
    (run_script : String → String → R → Result (Unit {0}) × R)
    (secure : String → String → R → Result (Unit {0}) × R) (schema tenant : String) where
  -- The row of a file has the checksum of another body.
  pub record IsDrifted (f : File) (own : List OwnRow) : Type 0 where
    pub row : OwnRow
    pub old : String
    pub found : find (is_own schema f.name) own ≡ some row
    pub sum : row.checksum ≡ some old
    pub not_blank : old ≢ ""
    pub differs : old ≢ checksum f.body

  migrate_one-Fails :
      (f : File) (known : List OwnRow) (s : Database R)
      → IsDrifted f known
      → Fails (
          migrate_one checksum run_script secure
            (find (is_own schema f.name) known)
            schema
            tenant
            f
            s)
  unfolding migrate_one check_known
  migrate_one-Fails f known s h = elim (Bool-cases (h.old == "")) [
    | inl blank ↦ absurd (h.not_blank ((eq_iff h.old "").0 blank))
    | inr given ↦ elim (Bool-cases (h.old == checksum f.body)) [
      | inl same ↦ absurd (h.differs ((eq_iff h.old (checksum f.body)).0 same))
      | inr other ↦ rw h.found (rw h.sum (rw given (rw other (_, refl))))
    ]
  ]

  migrate_files-Fails :
      (f : File) (before after : List File) (known : List OwnRow) (s : Database R)
      → IsDrifted f known
      → Fails (migrate_files checksum run_script secure known schema tenant (before ++ f ∷ after) s)
  unfolding migrate_files
  migrate_files-Fails f [] after known s h = Fails-first _ _ (migrate_one-Fails f known s h)
  migrate_files-Fails f (g ∷ before) after known s h =
      Fails-bind _ _ (λ new s'. Fails-first _ _ (migrate_files-Fails f before after known s' h))

  -- When a file among the others has a checksum on record that is not the one of its body, a run of
  -- the migrations throws and leaves the database as it was, whatever the files before it do. The
  -- schema's name is safe and the tenant's id is given.
  pub run_tenant_migrations-drift :
      (f : File) (before after : List File) (s : Database R)
      → is_safe_schema_name (codes schema) ≡ true
      → tenant ≢ ""
      → IsDrifted f s.own
      → (e : Thrown) × (run_tenant_migrations checksum run_script secure
            (before ++ f ∷ after)
            schema
            tenant
            s
          ≡ (err e, s))
  unfolding run_tenant_migrations run_locked
  run_tenant_migrations-drift f before after s safe ne h = elim (Bool-cases (tenant == "")) [
    | inl blank ↦ absurd (ne ((eq_iff tenant "").0 blank))
    | inr named ↦
        rw (safe, named)
          (rolled_back (run_locked checksum run_script secure (before ++ f ∷ after) schema tenant s)
            s
            (Fails-first _ _ (
              migrate_files-Fails f before after (copy_central schema tenant s.central s.own)
                (record s { own = copy_central schema tenant s.central s.own })
                (record {
                  row = h.row;
                  old = h.old;
                  found =
                      copy_central-keeps schema tenant (is_own schema f.name) s.central s.own h.row
                        h.found;
                  sum = h.sum;
                  not_blank = h.not_blank;
                  differs = h.differs;
                }))))
  ]
