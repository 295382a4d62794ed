-- ===== src/Auth/RateLimit/Window.antt =====
-- How many attempts pass in a window, and what an attempt does to other keys.
use hippo_build_x.Prelude.{
  ℕ, suc, ◌+◌, ◌-◌, ◌≤◌, ◌<◌, min, String, ◌≡◌, ◌≢◌, refl, ap, ◌∙◌, false, Option, none, some, List,
  [], ◌∷◌, All, length, ltb, arith, if◌then◌else◌, ◌==◌, eq_iff, eq_refl,
}
use hippo_build_x.Auth.RateLimit.{
  Entry, Hits, lookup, put, delete, Rate, allowed, refused, Options, counted, verdict, or_default,
  check_rate_limit, reset_rate_limit,
}

lookup-put :
    (k j : String) (e : Entry) (m : Hits)
    → lookup j (put k e m) ≡ (if k == j then some e else lookup j m)
unfolding lookup put
lookup-put k j e [] = refl
lookup-put k j e ((i, d) ∷ m) =
    ground (arith, eq_iff k j, eq_iff i k, eq_iff i j, lookup-put k j e m)

lookup-delete :
    (k j : String) (m : Hits) → lookup j (delete k m) ≡ (if k == j then none else lookup j m)
unfolding lookup delete
lookup-delete k j [] = ground arith
lookup-delete k j ((i, d) ∷ m) =
    ground (arith, eq_iff k j, eq_iff i k, eq_iff i j, lookup-delete k j m)

abbrev pub passes : Rate → ℕ
passes (allowed _) = 1
passes (refused _) = 0

-- The attempts at the given times that are allowed, one after the other.
unfoldable pub allowed_attempts : String → ℕ → ℕ → List ℕ → Hits → ℕ
allowed_attempts key limit window_ms [] hits = 0
allowed_attempts key limit window_ms (now ∷ times) hits =
    let (rate, hits') =
      check_rate_limit key (record { limit = some limit; window_ms = some window_ms }) now hits in
    passes rate + allowed_attempts key limit window_ms times hits'

abbrev options : ℕ → ℕ → Options
options limit window_ms = record { limit = some limit; window_ms = some window_ms }

-- The entry after one more attempt in its window.
abbrev next : Entry → Entry
next e = record { count = e.count + 1; reset_at = e.reset_at }

check-within :
    (key : String) (limit window_ms now : ℕ) (hits : Hits) (entry : Entry)
    → lookup key hits ≡ some entry
    → now ≤ entry.reset_at
    → check_rate_limit key (options limit window_ms) now hits
      ≡ (verdict (next entry) limit now, put key (next entry) hits)
unfolding check_rate_limit counted
check-within key limit window_ms now hits entry e h = rw e (rw late)
  where
    late : ltb entry.reset_at now ≡ false
    late = ground arith

passes-verdict :
    (entry : Entry) (limit now : ℕ)
    → passes (verdict entry limit now) ≡ (if ltb limit entry.count then 0 else 1)
unfolding verdict
passes-verdict entry limit now = ground arith

allowed_within :
    (key : String) (limit window_ms : ℕ) (times : List ℕ) (hits : Hits) (entry : Entry)
    → lookup key hits ≡ some entry
    → All (λ now. now ≤ entry.reset_at) times
    → allowed_attempts key limit window_ms times hits ≡ min (length times) (limit - entry.count)
unfolding allowed_attempts
allowed_within key limit window_ms [] hits entry e h = omega arith
allowed_within key limit window_ms (now ∷ times) hits entry e (h, hs) =
    rw (check-within key limit window_ms now hits entry e h) (
      ground (
        arith,
        passes-verdict (next entry) limit now,
        allowed_within key limit window_ms times (put key (next entry) hits) (next entry) found hs,
      ))
  where
    found : lookup key (put key (next entry) hits) ≡ some (next entry)
    found = lookup-put key key (next entry) hits ∙ rw (eq_refl key)

abbrev pub listed : Option Entry → List Entry
listed none = []
listed (some e) = e ∷ []

abbrev opened : ℕ → ℕ → Entry
opened now window_ms = record { count = 1; reset_at = now + window_ms }

counted_anew :
    (found : Option Entry) (now window_ms : ℕ)
    → All (λ e. e.reset_at < now) (listed found)
    → counted found now window_ms ≡ record { count = 1; reset_at = now + window_ms }
unfolding counted
counted_anew none now window_ms h = ground arith
counted_anew (some e) now window_ms (h, _) = ground arith

check-anew :
    (key : String) (limit window_ms now : ℕ) (hits : Hits)
    → All (λ e. e.reset_at < now) (listed (lookup key hits))
    → check_rate_limit key (options limit window_ms) now hits
      ≡ (verdict (opened now window_ms) limit now, put key (opened now window_ms) hits)
unfolding check_rate_limit
check-anew key limit window_ms now hits over =
    ap (λ e. (verdict e limit now, put key e hits))
      (counted_anew (lookup key hits) now window_ms over)

-- For a key with no attempt in a window that still runs, the first attempt opens a window; of the
-- attempts up to its end exactly the first `limit` are allowed, in whatever order the clock shows
-- their times.
pub check_rate_limit-window :
    (key : String) (limit window_ms first : ℕ) (times : List ℕ) (hits : Hits)
    → All (λ e. e.reset_at < first) (listed (lookup key hits))
    → All (λ now. now ≤ first + window_ms) times
    → allowed_attempts key limit window_ms (first ∷ times) hits ≡ min (suc (length times)) limit
unfolding allowed_attempts
check_rate_limit-window key limit window_ms first times hits over within =
    rw (check-anew key limit window_ms first hits over) (
      ground (
        arith,
        passes-verdict (opened first window_ms) limit first,
        allowed_within key limit window_ms times (put key (opened first window_ms) hits)
            (opened first window_ms) found within,
      ))
  where
    found : lookup key (put key (opened first window_ms) hits) ≡ some (opened first window_ms)
    found = lookup-put key key (opened first window_ms) hits ∙ rw (eq_refl key)

-- An attempt changes no other key's entry, and after a reset the key has none while the others keep
-- theirs.
pub rate_limit-other_keys :
    (key j : String) (opts : Options) (now : ℕ) (hits : Hits)
    → key ≢ j
    → (lookup j (check_rate_limit key opts now hits).1 ≡ lookup j hits)
      × (lookup j (reset_rate_limit key hits) ≡ lookup j hits)
      × (lookup key (reset_rate_limit key hits) ≡ none)
unfolding check_rate_limit reset_rate_limit
rate_limit-other_keys key j opts now hits ne = (
  ground (
    arith,
    lookup-put key j (counted (lookup key hits) now (or_default opts.window_ms 900000)) hits,
    eq_iff key j,
  ),
  ground (arith, lookup-delete key j hits, eq_iff key j),
  ground (arith, lookup-delete key key hits, eq_refl key),
)
