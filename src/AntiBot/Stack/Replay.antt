-- ===== src/AntiBot/Stack/Replay.antt =====
-- A form token opens the stack once.
use nestjs_hexagonal_templat.Prelude.{
  ℕ, ◌+◌, ◌-◌, ◌≤◌, ◌<◌, ◌≡◌, ap, ◌∙◌, ◌≢◌, true, some, List, [], ◌∷◌, arith, length,
}
use nestjs_hexagonal_templat.Common.Exec.{ok}
use nestjs_hexagonal_templat.AntiBot.TokenStore.{max_entries, mark_used}
use nestjs_hexagonal_templat.AntiBot.TokenStore.SingleUse.{Call, run, AllBefore, mark_used-replay}
use nestjs_hexagonal_templat.AntiBot.FormToken.{FormTokenPayload, verify}
use nestjs_hexagonal_templat.AntiBot.Exchange.{Exchange, or_empty}
use nestjs_hexagonal_templat.AntiBot.FormGuards.{remaining_ms}
use nestjs_hexagonal_templat.AntiBot.Stack.{GuardsConsumer, Layers, anti_bot}
use nestjs_hexagonal_templat.AntiBot.Stack.Accepts.{Accepted, anti_bot-Accepted}

-- The instant at which a token expires.
abbrev pub expiry_ms : FormTokenPayload → ℕ
expiry_ms p = remaining_ms p 0

remaining_lem : (p : FormTokenPayload) (now : ℕ) → remaining_ms p now ≡ expiry_ms p - now
unfolding remaining_ms
remaining_lem p now = ground arith

AllBefore-le : (d e : ℕ) (cs : List Call) → d ≤ e → AllBefore d cs → AllBefore e cs
AllBefore-le d e [] h k = tt
AllBefore-le d e (c ∷ cs) h (k, ks) = (omega arith, AllBefore-le d e cs h ks)

module _ (nest : GuardsConsumer) (l l' : Layers) (x x' y y' : Exchange) where
  twice-Accepted :
      (between : List Call) (a : Accepted l x x') (b : Accepted l' y y')
      → b.payload ≡ a.payload
      → l.consume_now ≤ l.mark_now
      → length x.store.used + length between + 1 ≤ max_entries
      → AllBefore (expiry_ms a.payload) between
      → y.store ≡ run max_entries between x'.store
      → l'.mark_now < expiry_ms a.payload
      → ⊥
  twice-Accepted between a b same clock room early later h =
      let p = a.payload in
      let e : ℕ = l.mark_now + remaining_ms p l.consume_now in
      let bound : expiry_ms p ≤ e = omega (arith, remaining_lem p l.consume_now) in
      let first : Call = record {
        jti = p.jti;
        ttl_ms = remaining_ms p l.consume_now;
        now = l.mark_now;
      } in
      let again : Call = record {
        jti = b.payload.jti;
        ttl_ms = remaining_ms b.payload l'.consume_now;
        now = l'.mark_now;
      } in
      let refused =
        mark_used-replay first again between x.store room a.first_use
          (AllBefore-le (expiry_ms p) e between bound early)
          (ap (λ (q : FormTokenPayload). q.jti) same) (omega arith) in
      cc (
        b.first_use,
        refused,
        later,
        a.spent,
        ap (λ s. (mark_used again.jti again.ttl_ms again.now s).0)
            (later ∙ ap (run max_entries between) a.spent),
      )

  -- Once a protected route has let a request through, no request with the same token is let
  -- through before the token expires, whatever other tokens are marked in between before that
  -- instant, if all of them fit the store and the clock does not go back within the first request.
  pub anti_bot-single_use :
      (p : FormTokenPayload) (between : List Call)
      → anti_bot nest l x ≡ (ok true, x')
      → verify l.codec l.secret (or_empty x.request.form_token_header) ≡ some p
      → verify l'.codec l'.secret (or_empty y.request.form_token_header) ≡ some p
      → l.consume_now ≤ l.mark_now
      → length x.store.used + length between + 1 ≤ max_entries
      → AllBefore (expiry_ms p) between
      → y.store ≡ run max_entries between x'.store
      → l'.mark_now < expiry_ms p
      → anti_bot nest l' y ≢ (ok true, y')
  anti_bot-single_use p between passed read read' clock room early later h again =
      let a = anti_bot-Accepted nest l x x' passed in
      let b = anti_bot-Accepted nest l' y y' again in
      let same : a.payload ≡ p = cc (a.genuine, read) in
      let same' : b.payload ≡ p = cc (b.genuine, read') in
      twice-Accepted between a b (cc) clock room (rw same early) later (rw same h)
