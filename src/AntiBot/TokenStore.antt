-- ===== src/AntiBot/TokenStore.antt =====
-- src/anti-bot/infrastructure/persistence/in-memory-token-store.ts. Instants are in milliseconds,
-- and `Date.now()` is the argument `now`.
pub mod Bounds
pub mod SingleUse
use nestjs_hexagonal_templat.Prelude.{
  ℕ, suc, ◌+◌, ◌-◌, String, Bool, true, false, not, Option, none, some, List, [], ◌∷◌, ltb, leb,
  if◌then◌else◌, length, keep,
}
use nestjs_hexagonal_templat.Common.JsMap.{lookup, insert}

abbrev pub prune_interval_ms : ℕ
prune_interval_ms = 60000

abbrev pub max_entries : ℕ
max_entries = 100000

pub record Store : Type 0 where
  pub used : List (String × ℕ)
  pub last_prune_at : ℕ

abbrev pub initial : Store
initial = record { used = []; last_prune_at = 0 }

-- Whether the sweep at `now` leaves an entry.
abbrev pub survives : ℕ → String × ℕ → Bool
survives now e = not (leb e.1 now)

unfoldable pub prune : ℕ → Store → Store
prune now s =
    if ltb now (s.last_prune_at + prune_interval_ms)
    then s
    else record { used = keep (survives now) s.used; last_prune_at = now }

-- The loop of `enforceCap`, over the keys in the order of insertion.
unfoldable pub drop_oldest : ℕ → ℕ → List (String × ℕ) → List (String × ℕ)
drop_oldest excess removed [] = []
drop_oldest excess removed (e ∷ m) =
    let rest = drop_oldest excess (removed + 1) m in if leb excess removed then e ∷ m else rest

unfoldable pub enforce_cap : ℕ → Store → Store
enforce_cap ceiling s =
    if leb (length s.used) ceiling
    then s
    else record s { used = drop_oldest (length s.used - ceiling) 0 s.used }

-- `expiresAt !== undefined && expiresAt > now`
abbrev pub is_marked : ℕ → Option ℕ → Bool
is_marked now none = false
is_marked now (some expires_at) = ltb now expires_at

abbrev pub mark_pruned : ℕ → String → ℕ → ℕ → Store → Bool × Store
mark_pruned ceiling jti ttl_ms now s =
    if is_marked now (lookup jti s.used)
    then (false, s)
    else (true, enforce_cap ceiling (record s { used = insert jti (now + ttl_ms) s.used }))

-- `markUsed` for any ceiling of entries; the code's is `max_entries`.
unfoldable pub mark_used_below : ℕ → String → ℕ → ℕ → Store → Bool × Store
mark_used_below ceiling jti ttl_ms now s = mark_pruned ceiling jti ttl_ms now (prune now s)

unfoldable pub mark_used : String → ℕ → ℕ → Store → Bool × Store
unfolding mark_used_below
mark_used jti ttl_ms now s = mark_used_below max_entries jti ttl_ms now s
