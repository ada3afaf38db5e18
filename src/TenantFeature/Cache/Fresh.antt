-- ===== src/TenantFeature/Cache/Fresh.antt =====
-- A hit of the cache of src/tenant-feature is never older than its lifetime, and never older than an
-- invalidation; and the cache stays within its ceiling.
use nestjs_hexagonal_templat.Prelude.{
  ℕ, suc, ◌+◌, ◌≤◌, ◌<◌, String, ◌≡◌, sym, ◌∙◌, inl, inr, Option, none, some, List, [], ◌∷◌, arith,
  ◌==◌, eq_iff, leb, eqb, if◌then◌else◌, Bool-cases, Option-cases, str_cases, length, keep,
  length-keep-le,
}
use nestjs_hexagonal_templat.Common.JsMap.{
  lookup, erase, IsDistinct, lookup-insert, lookup-erase_ne, lookup-erase_self, lookup_absent,
  insert-IsDistinct, erase-IsDistinct, keep-IsDistinct, length-insert-le, length-erase-le,
}
use nestjs_hexagonal_templat.TenantFeature.{TenantFeature}
use nestjs_hexagonal_templat.TenantFeature.Cache.{
  CacheEntry, Entries, CacheConfig, fetch, survives, prune, evict, store, invalidate,
}

-- A call of the cache, with its readings of the clock.
pub data CacheCall : Type 0 where
  fetched : ℕ → String → CacheCall
  stored : ℕ → ℕ → String → List TenantFeature → CacheCall
  invalidated : String → CacheCall

abbrev pub call : CacheConfig → CacheCall → Entries → Entries
call c (fetched now tenant) m = (fetch now tenant m).1
call c (stored prune_now now tenant features) m = store c prune_now now tenant features m
call c (invalidated tenant) m = invalidate tenant m

-- The cache after calls, the last one first in the list.
abbrev pub after : CacheConfig → List CacheCall → Entries
after c [] = []
after c (x ∷ calls) = call c x (after c calls)

-- What a tenant's reader may still see: the last list stored for it, with its expiry, unless the
-- tenant was invalidated since.
abbrev pub current : CacheConfig → String → List CacheCall → Option CacheEntry
current c tenant [] = none
current c tenant (fetched now t ∷ calls) = current c tenant calls
current c tenant (stored prune_now now t features ∷ calls) =
    let before = current c tenant calls in
    if eqb c.ttl_ms 0
    then before
    else if t == tenant
    then some (record { features = features; expires_at = now + c.ttl_ms })
    else before
current c tenant (invalidated t ∷ calls) =
    let before = current c tenant calls in if t == tenant then none else before

-- Every entry of `m` is one of `n`.
abbrev Within : Entries → Entries → Type 0
Within m n = (k : String) (e : CacheEntry) → lookup k m ≡ some e → lookup k n ≡ some e

prune-Within : (now : ℕ) (m : Entries) → IsDistinct m → Within (prune now m) m
unfolding prune lookup
prune-Within now [] d k e h = h
prune-Within now ((j, w) ∷ m) d k e h =
    ground (arith, prune-Within now m d.1 k e, lookup_absent j m d.0, eq_iff j k)

evict-Within : (ceiling : ℕ) (m : Entries) → IsDistinct m → Within (evict ceiling m) m
unfolding evict lookup
evict-Within ceiling [] d k e h = h
evict-Within ceiling ((j, w) ∷ m) d k e h =
    ground (arith, evict-Within ceiling m d.1 k e, lookup_absent j m d.0, eq_iff j k)

evict-IsDistinct : (ceiling : ℕ) (m : Entries) → IsDistinct m → IsDistinct (evict ceiling m)
unfolding evict
evict-IsDistinct ceiling [] d = tt
evict-IsDistinct ceiling ((j, w) ∷ m) d = ground (arith, evict-IsDistinct ceiling m d.1)

length-evict : (ceiling : ℕ) (m : Entries) → 0 < ceiling → suc (length (evict ceiling m)) ≤ ceiling
unfolding evict
length-evict ceiling [] h = h
length-evict ceiling (e ∷ m) h = ground (arith, length-evict ceiling m h)

erase-Within : (tenant : String) (m : Entries) → IsDistinct m → Within (erase tenant m) m
erase-Within tenant m d k e h = elim (str_cases tenant k) [
  | inl same ↦
      let gone : lookup k (erase tenant m) ≡ none =
        rw (sym same.0) (lookup-erase_self tenant m d) in
      absurd (cc (h, gone))
  | inr other ↦ sym (lookup-erase_ne tenant k m other.0) ∙ h
]

fetch-IsDistinct :
    (now : ℕ) (tenant : String) (m : Entries) → IsDistinct m → IsDistinct (fetch now tenant m).1
unfolding fetch
fetch-IsDistinct now tenant m d = elim (Option-cases (lookup tenant m)) [
  | inl miss ↦ rw miss d
  | inr (e, hit) ↦ rw hit (ground (arith, erase-IsDistinct tenant m d))
]

fetch-Within :
    (now : ℕ) (tenant : String) (m : Entries) → IsDistinct m → Within (fetch now tenant m).1 m
unfolding fetch
fetch-Within now tenant m d k e h = elim (Option-cases (lookup tenant m)) [
  | inl miss ↦ rw miss at h
  | inr (x, hit) ↦ ground (arith, rw hit at h, erase-Within tenant m d k e)
]

-- The entries are of different tenants, and each is what a reader may still see.
abbrev IsSound : CacheConfig → List CacheCall → Type 0
IsSound c calls =
    IsDistinct (after c calls)
    × ((k : String) (e : CacheEntry)
        → lookup k (after c calls) ≡ some e
        → current c k calls ≡ some e)

room-IsDistinct :
    (c : CacheConfig) (now : ℕ) (m : Entries)
    → IsDistinct m
    → IsDistinct (evict c.max_tenants (prune now m))
unfolding prune
room-IsDistinct c now m d =
    evict-IsDistinct c.max_tenants (keep (survives now) m) (keep-IsDistinct (survives now) m d)

room-Within :
    (c : CacheConfig) (now : ℕ) (m : Entries)
    → IsDistinct m
    → Within (evict c.max_tenants (prune now m)) m
unfolding prune
room-Within c now m d k e h =
    prune-Within now m d k e
      (evict-Within c.max_tenants (prune now m) (keep-IsDistinct (survives now) m d) k e h)

store-IsDistinct :
    (c : CacheConfig) (prune_now now : ℕ) (tenant : String) (features : List TenantFeature)
    (m : Entries)
    → IsDistinct m
    → IsDistinct (store c prune_now now tenant features m)
unfolding store
store-IsDistinct c prune_now now tenant features m d = ground (
  arith,
  insert-IsDistinct tenant (record { features = features; expires_at = now + c.ttl_ms })
      (evict c.max_tenants (prune prune_now m)) (room-IsDistinct c prune_now m d),
)

-- An entry after a `set` is the new one, or was there.
store-lookup :
    (c : CacheConfig) (prune_now now : ℕ) (tenant : String) (features : List TenantFeature)
    (m : Entries) (k : String) (e : CacheEntry) (before : Option CacheEntry)
    → IsDistinct m
    → ((x : CacheEntry) → lookup k m ≡ some x → before ≡ some x)
    → lookup k (store c prune_now now tenant features m) ≡ some e
    → (if eqb c.ttl_ms 0
        then before
        else if tenant == k
        then some (record { features = features; expires_at = now + c.ttl_ms })
        else before)
      ≡ some e
unfolding store
store-lookup c prune_now now tenant features m k e before d sound h =
    let new : CacheEntry = record { features = features; expires_at = now + c.ttl_ms } in
    let room : Entries = evict c.max_tenants (prune prune_now m) in
    ground (arith, sound e, room-Within c prune_now m d k e, lookup-insert tenant k new room)

invalidate-lookup :
    (tenant k : String) (m : Entries) (e : CacheEntry) (before : Option CacheEntry)
    → IsDistinct m
    → (lookup k m ≡ some e → before ≡ some e)
    → lookup k (invalidate tenant m) ≡ some e
    → (if tenant == k then none else before) ≡ some e
unfolding invalidate
invalidate-lookup tenant k m e before d sound h = elim (str_cases tenant k) [
  | inl same ↦
      let gone : lookup k (erase tenant m) ≡ none =
        rw (sym same.0) (lookup-erase_self tenant m d) in
      absurd (cc (h, gone))
  | inr other ↦ rw other.1 (sound (erase-Within tenant m d k e h))
]

invalidate-IsDistinct :
    (tenant : String) (m : Entries) → IsDistinct m → IsDistinct (invalidate tenant m)
unfolding invalidate
invalidate-IsDistinct tenant m d = erase-IsDistinct tenant m d

after-IsSound : (c : CacheConfig) (calls : List CacheCall) → IsSound c calls
after-IsSound c [] = (tt, λ k e h. absurd (cc (h, lookup_absent k [] tt)))
after-IsSound c (fetched now t ∷ calls) =
    let (d, sound) = after-IsSound c calls in
    (
      fetch-IsDistinct now t (after c calls) d,
      λ k e h. sound k e (fetch-Within now t (after c calls) d k e h),
    )
after-IsSound c (invalidated t ∷ calls) =
    let (d, sound) = after-IsSound c calls in
    (
      invalidate-IsDistinct t (after c calls) d,
      λ k e h. invalidate-lookup t k (after c calls) e (current c k calls) d (sound k e) h,
    )
after-IsSound c (stored prune_now now t features ∷ calls) =
    let (d, sound) = after-IsSound c calls in
    (
      store-IsDistinct c prune_now now t features (after c calls) d,
      λ k e h.
          store-lookup c prune_now now t features (after c calls) k e (current c k calls) d
            (sound k) h,
    )

-- A hit is what was last stored for the tenant, after its last invalidation and before its expiry,
-- for any calls and any readings of the clock.
pub fetch-current :
    (c : CacheConfig) (calls : List CacheCall) (now : ℕ) (tenant : String)
    (features : List TenantFeature)
    → (fetch now tenant (after c calls)).0 ≡ some features
    → (e : CacheEntry) × (current c tenant calls ≡ some e)
      × (e.features ≡ features)
      × (now < e.expires_at)
unfolding fetch
fetch-current c calls now tenant features h = elim (Option-cases (lookup tenant (after c calls))) [
  | inl miss ↦ absurd (cc (rw miss at h))
  | inr (e, hit) ↦ elim (Bool-cases (leb e.expires_at now)) [
    | inl over ↦ absurd (cc (rw (hit, over) at h))
    | inr alive ↦ (
      e,
      (after-IsSound c calls).1 tenant e hit,
      ground (arith, rw (hit, alive) at h),
      ground arith,
    )
  ]
]

length-prune-le : (now : ℕ) (m : Entries) → length (prune now m) ≤ length m
unfolding prune
length-prune-le now m = length-keep-le (survives now) m

length-fetch : (now : ℕ) (tenant : String) (m : Entries) → length (fetch now tenant m).1 ≤ length m
unfolding fetch
length-fetch now tenant m = elim (Option-cases (lookup tenant m)) [
  | inl miss ↦ rw miss (omega arith)
  | inr (e, hit) ↦ rw hit (ground (arith, length-erase-le tenant m))
]

length-invalidate : (tenant : String) (m : Entries) → length (invalidate tenant m) ≤ length m
unfolding invalidate
length-invalidate tenant m = length-erase-le tenant m

length-store :
    (c : CacheConfig) (prune_now now : ℕ) (tenant : String) (features : List TenantFeature)
    (m : Entries)
    → 0 < c.max_tenants
    → length m ≤ c.max_tenants
    → length (store c prune_now now tenant features m) ≤ c.max_tenants
unfolding store
length-store c prune_now now tenant features m h fits =
    let new : CacheEntry = record { features = features; expires_at = now + c.ttl_ms } in
    let room : Entries = evict c.max_tenants (prune prune_now m) in
    ground
      (arith, length-insert-le tenant new room, length-evict c.max_tenants (prune prune_now m) h)

-- The cache never holds more tenants than its ceiling, if that is not 0.
pub length-after :
    (c : CacheConfig) (calls : List CacheCall)
    → 0 < c.max_tenants
    → length (after c calls) ≤ c.max_tenants
length-after c [] h = omega arith
length-after c (fetched now t ∷ calls) h =
    omega (arith, length-after c calls h, length-fetch now t (after c calls))
length-after c (invalidated t ∷ calls) h =
    omega (arith, length-after c calls h, length-invalidate t (after c calls))
length-after c (stored prune_now now t features ∷ calls) h =
    length-store c prune_now now t features (after c calls) h (length-after c calls h)
