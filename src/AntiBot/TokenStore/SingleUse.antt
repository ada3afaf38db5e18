-- ===== src/AntiBot/TokenStore/SingleUse.antt =====
-- A token is accepted once while its mark lasts.
use nestjs_hexagonal_templat.Prelude.{
  ℕ, ◌+◌, ◌≤◌, ◌<◌, String, ◌≡◌, refl, true, false, not, some, List, [], ◌∷◌, arith, eq_iff,
  eq_refl, length, keep, All, length-keep-le,
}
use nestjs_hexagonal_templat.Common.JsMap.{
  lookup, insert, IsDistinct, lookup-insert, length-insert-le, lookup-keep-some, lookup-keep-none,
  lookup_absent,
}
use nestjs_hexagonal_templat.AntiBot.TokenStore.{
  max_entries, Store, survives, prune, enforce_cap, is_marked, mark_used_below, mark_used,
}

-- A call of `markUsed`, at the instant `now`.
pub record Call : Type 0 where
  pub jti : String
  pub ttl_ms : ℕ
  pub now : ℕ

-- Calls one after the other; JavaScript runs each `markUsed` to its end before the next.
unfoldable pub run : ℕ → List Call → Store → Store
run ceiling [] s = s
run ceiling (c ∷ cs) s = run ceiling cs (mark_used_below ceiling c.jti c.ttl_ms c.now s).1

survives_of_lt : (now e : ℕ) → now < e → (j : String) → survives now (j, e) ≡ true
survives_of_lt now e h j = ground arith

lookup-prune :
    (now e : ℕ) (jti : String) (s : Store)
    → now < e
    → lookup jti s.used ≡ some e
    → lookup jti (prune now s).used ≡ some e
unfolding prune
lookup-prune now e jti s h found =
    ground
      (arith, lookup-keep-some (survives now) jti e s.used found (λ j _. survives_of_lt now e h j))

length-prune-le : (now : ℕ) (s : Store) → length (prune now s).used ≤ length s.used
unfolding prune
length-prune-le now s = ground (arith, length-keep-le (survives now) s.used)

-- With room left nothing is evicted.
enforce_cap_room : (ceiling : ℕ) (s : Store) → length s.used ≤ ceiling → enforce_cap ceiling s ≡ s
unfolding enforce_cap
enforce_cap_room ceiling s h = ground arith

module _ (ceiling : ℕ) (c : Call) (s : Store) where
  length-mark_used_below :
      length s.used + 1 ≤ ceiling
      → length (mark_used_below ceiling c.jti c.ttl_ms c.now s).1.used ≤ length s.used + 1
  unfolding mark_used_below
  length-mark_used_below room =
      let p : Store = prune c.now s in
      let m = insert c.jti (c.now + c.ttl_ms) p.used in
      ground (
        arith,
        length-prune-le c.now s,
        length-insert-le c.jti (c.now + c.ttl_ms) p.used,
        enforce_cap_room ceiling (record p { used = m }),
      )

  -- A live mark survives any call while there is room.
  mark_used_below-keeps :
      (jti : String) (e : ℕ)
      → length s.used + 1 ≤ ceiling
      → c.now < e
      → lookup jti s.used ≡ some e
      → lookup jti (mark_used_below ceiling c.jti c.ttl_ms c.now s).1.used ≡ some e
  unfolding mark_used_below
  mark_used_below-keeps jti e room h found =
      let p : Store = prune c.now s in
      let m = insert c.jti (c.now + c.ttl_ms) p.used in
      ground (
        arith,
        length-prune-le c.now s,
        length-insert-le c.jti (c.now + c.ttl_ms) p.used,
        enforce_cap_room ceiling (record p { used = m }),
        lookup-prune c.now e jti s h found,
        lookup-insert c.jti jti (c.now + c.ttl_ms) p.used,
        eq_iff c.jti jti,
      )

-- Every call of the list comes before the instant `e`.
abbrev pub AllBefore : ℕ → List Call → Type 0
AllBefore e cs = All (λ c. c.now < e) cs

run-keeps :
    (ceiling : ℕ) (jti : String) (e : ℕ) (cs : List Call) (s : Store)
    → length s.used + length cs ≤ ceiling
    → AllBefore e cs
    → lookup jti s.used ≡ some e
    → lookup jti (run ceiling cs s).used ≡ some e
unfolding run
run-keeps ceiling jti e [] s room early found = found
run-keeps ceiling jti e (c ∷ cs) s room (h, early) found =
    let s' : Store = (mark_used_below ceiling c.jti c.ttl_ms c.now s).1 in
    run-keeps ceiling jti e cs s' (omega (arith, length-mark_used_below ceiling c s (omega arith)))
      early (mark_used_below-keeps ceiling c s jti e (omega arith) h found)

is_marked-keep :
    (now : ℕ) (k : String) (m : List (String × ℕ))
    → IsDistinct m
    → is_marked now (lookup k (keep (survives now) m)) ≡ is_marked now (lookup k m)
unfolding lookup
is_marked-keep now k [] d = refl
is_marked-keep now k ((j, e) ∷ m) d = ground (
  arith,
  eq_iff j k,
  is_marked-keep now k m d.1,
  lookup_absent j m d.0,
  lookup-keep-none (survives now) j m d.1,
)

is_marked-prune :
    (now : ℕ) (k : String) (s : Store)
    → IsDistinct s.used
    → is_marked now (lookup k (prune now s).used) ≡ is_marked now (lookup k s.used)
unfolding prune
is_marked-prune now k s d = ground (arith, is_marked-keep now k s.used d)

accepts-eq :
    (ceiling : ℕ) (jti : String) (ttl_ms now : ℕ) (s : Store)
    → IsDistinct s.used
    → (mark_used_below ceiling jti ttl_ms now s).0 ≡ not (is_marked now (lookup jti s.used))
unfolding mark_used_below
accepts-eq ceiling jti ttl_ms now s d = ground (arith, is_marked-prune now jti s d)

-- What the accepted call leaves of its token.
marked :
    (ceiling : ℕ) (c : Call) (s : Store)
    → length s.used + 1 ≤ ceiling
    → (mark_used_below ceiling c.jti c.ttl_ms c.now s).0 ≡ true
    → lookup c.jti (mark_used_below ceiling c.jti c.ttl_ms c.now s).1.used ≡ some (c.now + c.ttl_ms)
unfolding mark_used_below
marked ceiling c s room first =
    let p : Store = prune c.now s in
    let m = insert c.jti (c.now + c.ttl_ms) p.used in
    ground (
      arith,
      length-prune-le c.now s,
      length-insert-le c.jti (c.now + c.ttl_ms) p.used,
      enforce_cap_room ceiling (record p { used = m }),
      lookup-insert c.jti c.jti (c.now + c.ttl_ms) p.used,
      eq_refl c.jti,
    )

refused :
    (ceiling : ℕ) (c : Call) (e : ℕ) (s : Store)
    → c.now < e
    → lookup c.jti s.used ≡ some e
    → (mark_used_below ceiling c.jti c.ttl_ms c.now s).0 ≡ false
unfolding mark_used_below
refused ceiling c e s h found = ground (arith, lookup-prune c.now e c.jti s h found)

replay_below :
    (ceiling : ℕ) (first again : Call) (between : List Call) (s : Store)
    → length s.used + length between + 1 ≤ ceiling
    → (mark_used_below ceiling first.jti first.ttl_ms first.now s).0 ≡ true
    → AllBefore (first.now + first.ttl_ms) between
    → again.jti ≡ first.jti
    → again.now < first.now + first.ttl_ms
    → (mark_used_below ceiling again.jti again.ttl_ms again.now
        (run ceiling between (mark_used_below ceiling first.jti first.ttl_ms first.now s).1)).0
      ≡ false
replay_below ceiling first again between s room accepted early same h =
    let e : ℕ = first.now + first.ttl_ms in
    let s' : Store = (mark_used_below ceiling first.jti first.ttl_ms first.now s).1 in
    let kept =
      run-keeps ceiling first.jti e between s'
        (omega (arith, length-mark_used_below ceiling first s (omega arith))) early
        (marked ceiling first s (omega arith) accepted) in
    refused ceiling again e (run ceiling between s') h (rw same kept)

-- `markUsed` answers `true` exactly when the store holds no mark of the token that lasts beyond
-- the call's instant, for a store that holds each token once; the sweep does not change the answer.
pub mark_used-eq :
    (jti : String) (ttl_ms now : ℕ) (s : Store)
    → IsDistinct s.used
    → (mark_used jti ttl_ms now s).0 ≡ not (is_marked now (lookup jti s.used))
unfolding mark_used
mark_used-eq jti ttl_ms now s d = accepts-eq max_entries jti ttl_ms now s d

-- Single use: once a call has marked a token, any later call for that token is refused while the
-- mark lasts, whatever other calls come between before that instant, if all of them fit the store.
pub mark_used-replay :
    (first again : Call) (between : List Call) (s : Store)
    → length s.used + length between + 1 ≤ max_entries
    → (mark_used first.jti first.ttl_ms first.now s).0 ≡ true
    → AllBefore (first.now + first.ttl_ms) between
    → again.jti ≡ first.jti
    → again.now < first.now + first.ttl_ms
    → (mark_used again.jti again.ttl_ms again.now
        (run max_entries between (mark_used first.jti first.ttl_ms first.now s).1)).0
      ≡ false
unfolding mark_used
mark_used-replay first again between s room accepted early same h =
    replay_below max_entries first again between s room accepted early same h
