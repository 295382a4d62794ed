-- ===== src/Db/Names/Safe.antt =====
-- The schema names that the program makes are safe to quote, and fit PostgreSQL's 63 bytes.
use hippo_build_x.Prelude.{
  ℕ, ◌+◌, ◌≡◌, ◌≢◌, refl, subst, inl, inr, Bool, true, not, ◌&&◌, none, some, List, [], ◌∷◌, ◌++◌,
  map, filter, length, eqb, arith, Bool-cases,
}
use mathlib.Core.Option.{some-injective}
use hippo_build_x.Db.Names.{
  is_name_code, is_hex, all, lower_case, mask, collapse, drop_leading, drop_trailing, blank, prefix,
  with_prefix, to_schema_name, to_tenant_schema_name, is_safe_schema_name,
}

-- After the prefix, a text of name characters that is not empty makes a safe name.
safe_of_all :
    (c : ℕ) (cs : List ℕ)
    → all is_name_code (c ∷ cs) ≡ true
    → is_safe_schema_name (prefix ++ c ∷ cs) ≡ true
unfolding is_safe_schema_name
safe_of_all c cs h = h

&&-true : (a b : Bool) → (a && b) ≡ true → (a ≡ true) × (b ≡ true)
&&-true true true h = (refl, refl)
&&-true a b h = ground arith

&&-intro : (a b : Bool) → a ≡ true → b ≡ true → (a && b) ≡ true
&&-intro a b h k = ground arith

mask-is_name_code : (c : ℕ) → is_name_code (mask c) ≡ true
mask-is_name_code c = ground arith

all-map-mask : (cs : List ℕ) → all is_name_code (map mask cs) ≡ true
all-map-mask [] = refl
all-map-mask (c ∷ cs) = ground (arith, mask-is_name_code c, all-map-mask cs)

all-collapse : (cs : List ℕ) → all is_name_code cs ≡ true → all is_name_code (collapse cs) ≡ true
unfolding collapse
all-collapse [] h = refl
all-collapse (c ∷ []) h = h
all-collapse (c ∷ d ∷ cs) h = elim (Bool-cases (eqb c b'_' && eqb d b'_')) [
  | inl both ↦ rw both (all-collapse (d ∷ cs) ((&&-true _ _ h).1))
  | inr apart ↦
      rw apart (&&-intro _ _ ((&&-true _ _ h).0) (all-collapse (d ∷ cs) ((&&-true _ _ h).1)))
]

all-drop_leading :
    (cs : List ℕ) → all is_name_code cs ≡ true → all is_name_code (drop_leading cs) ≡ true
all-drop_leading [] h = refl
all-drop_leading (c ∷ cs) h = elim (Bool-cases (eqb c b'_')) [
  | inl line ↦ rw line (all-drop_leading cs ((&&-true _ _ h).1))
  | inr other ↦ rw other h
]

all-drop_trailing :
    (cs : List ℕ) → all is_name_code cs ≡ true → all is_name_code (drop_trailing cs) ≡ true
all-drop_trailing [] h = refl
all-drop_trailing (c ∷ cs) h = elim (Bool-cases (blank (c ∷ cs))) [
  | inl line ↦ rw line
  | inr other ↦
      rw other (&&-intro _ _ ((&&-true _ _ h).0) (all-drop_trailing cs ((&&-true _ _ h).1)))
]

with_prefix-safe :
    (cs name : List ℕ)
    → all is_name_code cs ≡ true
    → with_prefix cs ≡ some name
    → is_safe_schema_name name ≡ true
unfolding with_prefix
with_prefix-safe [] name a h = cc
with_prefix-safe (c ∷ cs) name a h =
    subst (λ n. is_safe_schema_name n ≡ true) (some-injective _ _ h) (safe_of_all c cs a)

-- Whatever the slug: a name that `toSchemaName` gives passes `assertSafeSchemaName`.
pub to_schema_name-safe :
    (slug name : List ℕ) → to_schema_name slug ≡ some name → is_safe_schema_name name ≡ true
unfolding to_schema_name
to_schema_name-safe slug name h =
    let masked = map mask (lower_case slug) in
    let a = all-collapse masked (all-map-mask (lower_case slug)) in
    let b = all-drop_leading (collapse masked) a in
    let c = all-drop_trailing (drop_leading (collapse masked)) b in
    with_prefix-safe (drop_trailing (drop_leading (collapse masked))) name c h

hex-is_name_code : (c : ℕ) → is_hex c ≡ true → is_name_code c ≡ true
hex-is_name_code c h = ground arith

all-hex : (cs : List ℕ) → all is_hex cs ≡ true → all is_name_code cs ≡ true
all-hex [] h = refl
all-hex (c ∷ cs) h =
    &&-intro _ _ (hex-is_name_code c ((&&-true _ _ h).0)) (all-hex cs ((&&-true _ _ h).1))

length-prefix : (cs : List ℕ) → length (prefix ++ cs) ≡ 7 + length cs
length-prefix cs = omega arith

hex_name :
    (cs : List ℕ)
    → all is_hex cs ≡ true
    → length cs ≡ 32
    → (is_safe_schema_name (prefix ++ cs) ≡ true) × (length (prefix ++ cs) ≡ 39)
hex_name [] a h = absurd (omega arith)
hex_name (c ∷ cs) a h = (safe_of_all c cs (all-hex (c ∷ cs) a), omega arith)

-- Whatever the tenant's id: a name that `toTenantSchemaName` gives passes `assertSafeSchemaName`,
-- and has 39 characters, so that PostgreSQL, which cuts a name after 63 bytes, keeps it whole.
pub to_tenant_schema_name-safe :
    (tenant_id name : List ℕ)
    → to_tenant_schema_name tenant_id ≡ some name
    → (is_safe_schema_name name ≡ true) × (length name ≡ 39)
unfolding to_tenant_schema_name
to_tenant_schema_name-safe tenant_id name h =
    let normalized = lower_case (filter (λ c. not (eqb c b'-')) tenant_id) in
    elim (Bool-cases (all is_hex normalized && eqb (length normalized) 32)) [
      | inl good ↦
          let (a, l) = &&-true _ _ good in
          subst (λ n. (is_safe_schema_name n ≡ true) × (length n ≡ 39))
            (some-injective _ _ (rw good at h)) (hex_name normalized a (ground arith))
      | inr bad ↦ absurd (none-ne-some (rw bad at h))
    ]
  where
    none-ne-some : none ≢ some name
    none-ne-some e = cc
