-- ===== src/Provisioning/Migrations/Applied.antt =====
-- What a run of the migrations records of each file.
use hippo_build_x.Prelude.{
  String, ◌≡◌, ◌≢◌, refl, sym, ap, subst, ◌∙◌, inl, inr, false, Option, none, some, List, [], ◌∷◌,
  All, any, find, find-update, find-append, find-append_new, find-holds, update, or_null,
  Bool-cases, ◌==◌, eq_iff, eq_refl, arith,
}
use hippo_build_x.Prelude.Effect.{Result, ok, err, bind_result, Ensures, Result-cases}
use hippo_build_x.Provisioning.Migrations.{
  File, OwnRow, Database, is_own, own_row, set_own, on_rest, record_migration, check_known,
  migrate_one, migrate_files,
}

-- No two files have one name.
abbrev pub Distinct : List File → Type 0
Distinct [] = Unit
Distinct (f ∷ fs) = All (λ g. g.name ≢ f.name) fs × Distinct fs

turned :
    (name : String) (fs : List File) → All (λ g. g.name ≢ name) fs → All (λ g. name ≢ g.name) fs
turned name [] h = tt
turned name (f ∷ fs) (a, h) = (λ e. a (sym e), turned name fs h)

or_null-given : (old : String) (o : Option String) → some old ≡ or_null o → o ≡ some old
or_null-given old none e = cc
or_null-given old (some v) e = elim (Bool-cases (v == "")) [
  | inl blank ↦ absurd (cc (rw blank at e))
  | inr given ↦ sym (rw given at e)
]

pub Ensures-bind :
    {S : Type 0} {A B : Type 0} (P Q : S → Type 0) (r : Result A × S) (k : A → S → Result B × S)
    → Ensures P r
    → ((a : A) (s : S) → P s → Ensures Q (k a s))
    → Ensures Q (bind_result r k)
Ensures-bind P Q (ok a, s) k h next = next a s h
Ensures-bind P Q (err e, s) k h next = tt

module _ {R : Type 0} (checksum : String → String)
    (run_script : String → String → R → Result (Unit {0}) × R)
    (secure : String → String → R → Result (Unit {0}) × R) (schema tenant : String) where
  -- The tenant's schema has the file on record, with the checksum of its body.
  pub record IsRecorded (f : File) (own : List OwnRow) : Type 0 where
    pub row : OwnRow
    pub found : find (is_own schema f.name) own ≡ some row
    pub sum : row.checksum ≡ some (checksum f.body)

  -- A row with another name is the same in both.
  abbrev pub KeepsOthers : String → List OwnRow → List OwnRow → Type 0
  KeepsOthers name own own' =
      (n : String) (row : OwnRow)
      → n ≢ name
      → find (is_own schema n) own ≡ some row
      → find (is_own schema n) own' ≡ some row

  update-Keeps :
      (name sum : String) (own : List OwnRow)
      → KeepsOthers name own (update (is_own schema name) (set_own sum) own)
  update-Keeps name sum own n row apart e =
      find-update (is_own schema n) (is_own schema name) (set_own sum) own row (λ r. refl) e
      ∙ rw other_row refl
    where
      other_row : is_own schema name row ≡ false
      other_row = ground (
        arith,
        find-holds (is_own schema n) own row e,
        apart,
        eq_iff row.migration_name n,
        eq_iff row.migration_name name,
      )

  -- What one turn of the loop ensures, when the row that it uses is the one of the table.
  abbrev Records : File → List OwnRow → Database R → Type 0
  Records f own s' = IsRecorded f s'.own × KeepsOthers f.name own s'.own

  record_migration-Records :
      (f : File) (s : Database R)
      → Ensures (Records f s.own) (record_migration checksum run_script secure schema tenant f s)
  unfolding record_migration
  record_migration-Records f s = elim (Bool-cases (any (is_own schema f.name) s.own)) [
    | inl taken ↦ rw taken tt
    | inr free ↦
        let new = own_row schema f.name (some (checksum f.body)) in
        rw free (
          record {
            row = new;
            found =
                find-append_new (is_own schema f.name) s.own new free
                  (rw (eq_refl schema) (rw (eq_refl f.name) refl));
            sum = refl;
          },
          λ n row apart e. find-append (is_own schema n) s.own (new ∷ []) row e,
        )
  ]

  check_known-Records :
      (old : Option String) (f : File) (row : OwnRow) (s : Database R)
      → old ≡ or_null row.checksum
      → find (is_own schema f.name) s.own ≡ some row
      → Ensures (Records f s.own) (check_known checksum run_script secure old schema tenant f s)
  unfolding check_known
  check_known-Records none f row s e found = (
    record {
      row = set_own (checksum f.body) row;
      found =
          find-update (is_own schema f.name) (is_own schema f.name) (set_own (checksum f.body))
            s.own row (λ r. refl) found
          ∙ rw (find-holds (is_own schema f.name) s.own row found) refl;
      sum = refl;
    },
    update-Keeps f.name (checksum f.body) s.own,
  )
  check_known-Records (some old) f row s e found = elim (Bool-cases (old == checksum f.body)) [
    | inr differs ↦ rw differs tt
    | inl same ↦ rw same (
      record {
        row = row;
        found = found;
        sum = or_null-given old row.checksum e ∙ ap some ((eq_iff old (checksum f.body)).0 same);
      },
      λ n row' apart h. h,
    )
  ]

  pub rest_only :
      (m : R → Result (Unit {0}) × R) (s : Database R)
      → Ensures (λ s'. s'.own ≡ s.own) (on_rest checksum run_script secure m s)
  rest_only m s = elim (Result-cases (m s.rest).0) [ inl (_, e) ↦ rw e refl | inr (_, e) ↦ rw e tt ]

  migrate_one-Records :
      (found : Option OwnRow) (f : File) (s : Database R)
      → ((row : OwnRow) → found ≡ some row → find (is_own schema f.name) s.own ≡ some row)
      → Ensures (Records f s.own) (migrate_one checksum run_script secure found schema tenant f s)
  unfolding migrate_one
  migrate_one-Records (some row) f s agrees =
      check_known-Records (or_null row.checksum) f row s refl (agrees row refl)
  migrate_one-Records none f s agrees =
      Ensures-bind (λ s'. s'.own ≡ s.own) (Records f s.own)
        (on_rest checksum run_script secure (run_script schema f.body) s)
        (λ _. record_migration checksum run_script secure schema tenant f)
        (rest_only (run_script schema f.body) s)
        (λ _ s' same.
          subst
            (λ own.
              Ensures (Records f own)
                (record_migration checksum run_script secure schema tenant f s'))
            same (record_migration-Records f s'))

  -- The rows that were read before the loop are those of the table, for the files to come.
  abbrev pub Agrees : List OwnRow → List File → List OwnRow → Type 0
  Agrees known files own =
      All
        (λ f.
          (row : OwnRow)
          → find (is_own schema f.name) known ≡ some row
          → find (is_own schema f.name) own ≡ some row)
        files

  pub Agrees-refl : (files : List File) (own : List OwnRow) → Agrees own files own
  Agrees-refl [] own = tt
  Agrees-refl (f ∷ fs) own = (λ row e. e, Agrees-refl fs own)

  Agrees-kept :
      (known : List OwnRow) (name : String) (own own' : List OwnRow) (files : List File)
      → All (λ g. g.name ≢ name) files
      → KeepsOthers name own own'
      → Agrees known files own
      → Agrees known files own'
  Agrees-kept known name own own' [] apart keeps h = tt
  Agrees-kept known name own own' (f ∷ fs) (a, apart) keeps (h, hs) =
      (λ row e. keeps f.name row a (h row e), Agrees-kept known name own own' fs apart keeps hs)

  -- What the loop leaves: each file on record, and the rows of other names as they were.
  abbrev pub AllRecorded : List File → List OwnRow → Database R → Type 0
  AllRecorded files own s' =
      All (λ f. IsRecorded f s'.own) files
      × ((n : String) (row : OwnRow)
          → All (λ f. n ≢ f.name) files
          → find (is_own schema n) own ≡ some row
          → find (is_own schema n) s'.own ≡ some row)

  pub migrate_files-AllRecorded :
      (known : List OwnRow) (files : List File) (s : Database R)
      → Distinct files
      → Agrees known files s.own
      → Ensures
          (AllRecorded files s.own)
          (migrate_files checksum run_script secure known schema tenant files s)
  unfolding migrate_files
  migrate_files-AllRecorded known [] s distinct agrees = (tt, λ n row apart e. e)
  migrate_files-AllRecorded known (f ∷ fs) s (apart, distinct) (here, agrees) =
      Ensures-bind (Records f s.own) (AllRecorded (f ∷ fs) s.own)
        (migrate_one checksum run_script secure (find (is_own schema f.name) known) schema tenant f
          s)
        _ (migrate_one-Records (find (is_own schema f.name) known) f s here)
        (λ new s' h.
          Ensures-bind (AllRecorded fs s'.own) (AllRecorded (f ∷ fs) s.own)
            (migrate_files checksum run_script secure known schema tenant fs s') _
            (migrate_files-AllRecorded known fs s' distinct
              (Agrees-kept known f.name s.own s'.own fs apart h.1 agrees))
            (λ names s'' k. (
              (
                record {
                  row = h.0.row;
                  found = k.1 f.name h.0.row (turned f.name fs apart) h.0.found;
                  sum = h.0.sum;
                },
                k.0,
              ),
              λ n row away e. k.1 n row away.1 (h.1 n row away.0 e),
            )))
