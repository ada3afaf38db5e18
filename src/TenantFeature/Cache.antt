-- ===== src/TenantFeature/Cache.antt =====
-- src/tenant-feature/infrastructure/cache/in-memory-tenant-feature.cache.ts: the features of a tenant
-- for a short time. Each reading of the clock is an argument.
pub mod Fresh
use nestjs_hexagonal_templat.Prelude.{
  ℕ, zero, suc, ◌+◌, ◌-◌, ◌*◌, ◌/◌, ◌%◌, ◌^◌, ◌≤◌, ◌<◌, String, ◌≡◌, refl, sym, ap, ◌∙◌, ◌≢◌, ◌↔◌,
  ◌⊎◌, inl, inr, Bool, true, false, not, ◌&&◌, ◌||◌, Option, none, some, List, [], ◌∷◌, ◌++◌, map,
  arith, ◌==◌, eq_iff, eq_refl, ltb, leb, eqb, if◌then◌else◌, Bool-cases, Option-cases, str_cases,
  length, get_elem?, take, drop, any, all, keep, find, count_if, All, length-append, length-drop,
  length-keep-le, length-map, tests, ltb→lt, lt→ltb, leb→le, le→leb,
}
use nestjs_hexagonal_templat.Prelude.Int.{ℤ, pos, negsuc}
use nestjs_hexagonal_templat.Common.Text.{parse_int}
use nestjs_hexagonal_templat.Common.JsMap.{lookup, insert, erase}
use nestjs_hexagonal_templat.TenantFeature.{TenantFeature}

pub record CacheEntry : Type 0 where
  pub features : List TenantFeature
  pub expires_at : ℕ

abbrev pub Entries : Type 0
Entries = List (String × CacheEntry)

-- What the constructor reads from the configuration.
pub record CacheConfig : Type 0 where
  pub ttl_ms : ℕ
  pub max_tenants : ℕ

abbrev or_empty_text : Option String → String
or_empty_text none = ""
or_empty_text (some s) = s

abbrev non_negative : Option ℤ → ℕ → ℕ
non_negative (some (pos n)) fallback = n
non_negative _ fallback = fallback

unfoldable pub read_non_negative_int : Option String → ℕ → ℕ
unfolding parse_int
read_non_negative_int raw fallback = non_negative (parse_int (or_empty_text raw)) fallback

abbrev positive_or : Option ℤ → ℕ → ℕ
positive_or (some (pos (suc n))) fallback = suc n
positive_or _ fallback = fallback

unfoldable pub read_positive_int : Option String → ℕ → ℕ
unfolding parse_int
read_positive_int raw fallback = positive_or (parse_int (or_empty_text raw)) fallback

unfoldable pub configure : Option String → Option String → CacheConfig
unfolding read_non_negative_int read_positive_int
configure ttl max = record {
  ttl_ms = read_non_negative_int ttl 30000;
  max_tenants = read_positive_int max 1000;
}

abbrev get_entry : ℕ → String → Option CacheEntry → Entries → Option (List TenantFeature) × Entries
get_entry now tenant none m = (none, m)
get_entry now tenant (some e) m =
    if leb e.expires_at now then (none, erase tenant m) else (some e.features, m)

-- `get`; a hit is a copy of the list, which here is the same value.
unfoldable pub fetch : ℕ → String → Entries → Option (List TenantFeature) × Entries
unfolding lookup erase
fetch now tenant m = get_entry now tenant (lookup tenant m) m

abbrev pub survives : ℕ → String × CacheEntry → Bool
survives now e = not (leb e.1.expires_at now)

unfoldable pub prune : ℕ → Entries → Entries
prune now m = keep (survives now) m

-- The loop of `set` that makes room.
unfoldable pub evict : ℕ → Entries → Entries
evict max_tenants [] = []
evict max_tenants (e ∷ m) =
    let rest = evict max_tenants m in if leb max_tenants (suc (length m)) then rest else e ∷ m

-- `set`; `prune_now` and `now` are its two readings of the clock.
unfoldable pub store : CacheConfig → ℕ → ℕ → String → List TenantFeature → Entries → Entries
unfolding prune evict insert
store c prune_now now tenant features m =
    if eqb c.ttl_ms 0
    then m
    else insert tenant (record { features = features; expires_at = now + c.ttl_ms })
        (evict c.max_tenants (prune prune_now m))

unfoldable pub invalidate : String → Entries → Entries
unfolding erase
invalidate tenant m = erase tenant m
