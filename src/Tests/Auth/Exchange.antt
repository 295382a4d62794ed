-- ===== src/Tests/Auth/Exchange.antt =====
-- Interleaved exchanges of a token on a concrete store.
use hippo_build_x.Prelude.{String, ◌≡◌, refl, inl, some}
use hippo_build_x.Prelude.Effect.{ok}
use hippo_build_x.Db.Names.{is_safe_schema_name, is_tenant_id}
use hippo_build_x.Auth.Sessions.{tenant_sql}
use hippo_build_x.Auth.Sessions.Rotation.{IsSpent}
use hippo_build_x.Auth.Sessions.Exchange.{
  Shared, move_second, Follows, stop, by_second, later, wait_until,
}
use hippo_build_x.Auth.Sessions.Exchange.Late.{IsBarred, Follows-IsBarred}
use hippo_build_x.Auth.Sessions.Exchange.Race.{Succeeds, two, two-Succeed}
use hippo_build_x.Tests.Auth.{world, tenant, store, session, client, user, rotated}

abbrev hash : String
hash = "h:old"

-- The second exchange begins after the first one has ended.
abbrev ended_first : Shared world tenant hash
ended_first = two world tenant hash "new" "again" client client rotated

abbrev refused_second : Shared world tenant hash
refused_second = move_second world tenant hash (wait_until world tenant hash 60 ended_first)

spent : IsSpent world tenant.id hash rotated
spent = record { row = record session { revoked_at = some 50 }; found = refl; revoked = refl }

Follows-IsBarred_example :
    IsSpent world tenant.id hash refused_second.store × IsBarred refused_second.second.progress
Follows-IsBarred_example =
    Follows-IsBarred world tenant hash ended_first refused_second (later 60 (by_second stop)) spent
      (inl refl)

safe : tenant_sql tenant.schema_name tenant.id ≡ ok tt
unfolding tenant_sql is_safe_schema_name is_tenant_id
safe = refl

two-Succeed_example :
    (c : Shared world tenant hash) × Follows world tenant hash
      (two world tenant hash "new" "again" client client store)
      c
    × Succeeds c.first.progress
    × Succeeds c.second.progress
two-Succeed_example =
    two-Succeed world tenant hash "new" "again" client client store session user refl refl refl safe
      refl refl
