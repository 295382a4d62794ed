-- ===== src/Tests/Db.antt =====
-- packages/db's schema names on concrete texts.
use hippo_build_x.Prelude.{◌≡◌, refl, true, false, none, some, List, ℕ, codes}
use hippo_build_x.Db.Names.{
  to_schema_name, to_tenant_schema_name, is_safe_schema_name, is_tenant_id,
}

abbrev acme : List ℕ
acme = codes "tenant_acme_co"

abbrev tenant : List ℕ
tenant = codes "tenant_0f8fad5bd9cb469fa16570867728950e"

schema_name_runs :
    (to_schema_name (codes "--Acme & Co.") ≡ some acme)
    × (to_schema_name (codes "---") ≡ none)
    × (to_tenant_schema_name (codes "0F8FAD5B-d9cb-469f-a165-70867728950e") ≡ some tenant)
    × (to_tenant_schema_name (codes "0f8fad5b") ≡ none)
    × (is_safe_schema_name (codes "tenant_") ≡ false)
    × (is_safe_schema_name (codes "tenant_a; DROP") ≡ false)
    × (is_tenant_id (codes "0F8FAD5B-d9cb-469f-a165-70867728950e") ≡ true)
unfolding to_schema_name to_tenant_schema_name is_safe_schema_name is_tenant_id
schema_name_runs = (refl, refl, refl, refl, refl, refl, refl)

acme_name : to_schema_name (codes "--Acme & Co.") ≡ some acme
unfolding to_schema_name
acme_name = refl

tenant_name : to_tenant_schema_name (codes "0F8FAD5B-d9cb-469f-a165-70867728950e") ≡ some tenant
unfolding to_tenant_schema_name
tenant_name = refl
