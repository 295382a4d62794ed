-- ===== src/Auth/RateLimit.antt =====
-- apps/web/src/modules/auth/rate-limit.js. Times are milliseconds; the `Map` is an association list.
pub mod Window
use hippo_build_x.Prelude.{
  ℕ, suc, ◌+◌, ◌-◌, ◌/◌, String, Bool, true, false, Option, none, some, List, [], ◌∷◌, ltb,
  if◌then◌else◌, ◌==◌,
}

pub record Entry : Type 0 where
  pub count : ℕ
  pub reset_at : ℕ

abbrev pub Hits : Type 0
Hits = List (String × Entry)

unfoldable pub lookup : String → Hits → Option Entry
lookup k [] = none
lookup k ((j, e) ∷ m) = if j == k then some e else lookup k m

-- `hits.set(key, entry)`
unfoldable pub put : String → Entry → Hits → Hits
put k e [] = (k, e) ∷ []
put k e ((j, d) ∷ m) = if j == k then (j, e) ∷ m else (j, d) ∷ put k e m

-- `hits.delete(key)`
unfoldable pub delete : String → Hits → Hits
delete k [] = []
delete k ((j, d) ∷ m) = let rest = delete k m in if j == k then rest else (j, d) ∷ rest

pub data Rate : Type 0 where
  allowed : (remaining : ℕ) → Rate
  refused : (retry_after_sec : ℕ) → Rate

pub record Options : Type 0 where
  pub limit : Option ℕ
  pub window_ms : Option ℕ

abbrev pub or_default : Option ℕ → ℕ → ℕ
or_default none d = d
or_default (some n) d = n

abbrev pub fresh : Option Entry → ℕ → ℕ → Entry
fresh none now window_ms = record { count = 0; reset_at = now + window_ms }
fresh (some e) now window_ms = e

-- The entry after a window that has ended is begun anew, and the attempt is counted.
unfoldable pub counted : Option Entry → ℕ → ℕ → Entry
counted found now window_ms =
    let entry = fresh found now window_ms in
    if ltb entry.reset_at now
    then record { count = 1; reset_at = now + window_ms }
    else record { count = entry.count + 1; reset_at = entry.reset_at }

unfoldable pub verdict : Entry → ℕ → ℕ → Rate
verdict entry limit now =
    if ltb limit entry.count
    then refused ((entry.reset_at - now + 999) / 1000)
    else allowed (limit - entry.count)

unfoldable pub check_rate_limit : String → Options → ℕ → Hits → Rate × Hits
unfolding lookup put counted verdict
check_rate_limit key opts now hits =
    let limit = or_default opts.limit 10 in
    let window_ms = or_default opts.window_ms 900000 in
    let entry = counted (lookup key hits) now window_ms in
    (verdict entry limit now, put key entry hits)

unfoldable pub reset_rate_limit : String → Hits → Hits
unfolding delete
reset_rate_limit key hits = delete key hits
