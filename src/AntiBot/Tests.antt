-- ===== src/AntiBot/Tests.antt =====
-- A protected route run on requests, with the guards of src/anti-bot/infrastructure/guards, a codec
-- that keeps no secret, and Nest's rule for guards as a fold.
use nestjs_hexagonal_templat.Prelude.{
  ℕ, Option, ◌==◌, ◌≡◌, ◌≢◌, refl, String, List, [], ◌∷◌, none, some, true, false, not, arith,
  apart, if◌then◌else◌,
}
use nestjs_hexagonal_templat.Prelude.Int.{pos}
use nestjs_hexagonal_templat.Common.Exec.{ok, pure, Ensures, ◌>>=◌}
use nestjs_hexagonal_templat.Common.Json.{Json, null, get, obj, end, field, str}
use nestjs_hexagonal_templat.Common.Text.{split, trim}
use nestjs_hexagonal_templat.Common.JsMap.{lookup}
use nestjs_hexagonal_templat.AntiBot.TokenStore.{
  prune, Store, initial, is_marked, mark_used, max_entries,
}
use nestjs_hexagonal_templat.AntiBot.TokenStore.Bounds.{IsValid, mark_used-IsValid}
use nestjs_hexagonal_templat.AntiBot.TokenStore.SingleUse.{
  Call, run, mark_used-eq, mark_used-replay,
}
use nestjs_hexagonal_templat.AntiBot.FormToken.{
  FormTokenPayload, issue, verify, issued_payload, read_payload, join_dot, read_decoded,
}
use nestjs_hexagonal_templat.AntiBot.FormToken.PlainCodec.{plain_codec}
use nestjs_hexagonal_templat.AntiBot.FormToken.RoundTrip.{verify_sound}
use nestjs_hexagonal_templat.AntiBot.Exchange.{body_field, or_empty, Exchange, Guard, Engine}
use nestjs_hexagonal_templat.AntiBot.Sanitizer.{strip, is_control_field, body_field-strip}
use nestjs_hexagonal_templat.AntiBot.Controller.{get_form_token, verify-get_form_token}
use nestjs_hexagonal_templat.AntiBot.FormTokenQuery.{form_token_query_schema, context_or, IsLabel}
use nestjs_hexagonal_templat.AntiBot.Config.{anti_bot_config}
use nestjs_hexagonal_templat.AntiBot.FormGuards.{
  honeypot_guard, form_token_guard, remaining_ms, timing_guard, form_token_consume_guard,
}
use nestjs_hexagonal_templat.AntiBot.ChallengeGuards.{turnstile_guard, challenge_guard}
use nestjs_hexagonal_templat.AntiBot.Stack.{GuardsConsumer, Layers, checks, anti_bot}
use nestjs_hexagonal_templat.AntiBot.Stack.Accepts.{Accepted, anti_bot-Accepted}
use nestjs_hexagonal_templat.AntiBot.Stack.Retry.{anti_bot-retry}
use nestjs_hexagonal_templat.AntiBot.Stack.Replay.{expiry_ms, anti_bot-single_use}

abbrev activate : List Guard → Guard
activate [] x = (ok true, x)
activate (g ∷ gs) x = (g >>= λ b. if b then activate gs else pure false) x

abbrev consumer : GuardsConsumer
consumer = record {
  try_activate = activate;
  try_activate_nil = λ x. refl;
  try_activate_cons = λ g gs x. refl;
}

abbrev engine : Engine
engine = record { to_number = λ v. none; to_lower = λ s. s; number_text = λ n. "" }

-- The form is shown for at least 2 and at most 9 seconds; the clock reads `now` throughout.
abbrev layers : ℕ → Layers
layers now = record {
  codec = plain_codec;
  secret = "k";
  engine = engine;
  min_time_ms = 2000;
  max_time_ms = 9000;
  turnstile_enabled = false;
  turnstile = λ t ip. false;
  resolver = none;
  challenge_param = none;
  verify_now = now;
  timing_now = now;
  consume_now = now;
  mark_now = now;
}

abbrev payload : FormTokenPayload
payload = record { jti = "j.1"; context = "c"; iat = pos 1; exp = pos 10 }

-- The token that is issued at 1 second.
abbrev token : String
token = (issue plain_codec "k" 9 1000 "j.1" "c").token

abbrev exchange : String → Store → Exchange
exchange website store = record {
  request = record {
    form_token_header = some token;
    body = some (obj (field "website" (str website) end));
    params = [];
    tenant_id = "";
    ip = none;
    verified_form_token = none;
  };
  response = none;
  discarded = [];
  store = store;
}

abbrev first : Exchange
first = exchange "" initial

abbrev after_first : Exchange
after_first = (anti_bot consumer (layers 4000) first).1

accepted_run : anti_bot consumer (layers 4000) first ≡ (ok true, after_first)
unfolding anti_bot issue verify split honeypot_guard get form_token_guard trim read_payload
    remaining_ms timing_guard turnstile_guard challenge_guard form_token_consume_guard mark_used
    lookup prune
accepted_run = refl

read_token : verify plain_codec "k" token ≡ some payload
unfolding anti_bot issue verify split honeypot_guard get form_token_guard trim read_payload
    remaining_ms timing_guard turnstile_guard challenge_guard form_token_consume_guard mark_used
    lookup prune
read_token = refl

anti_bot-Accepted_example : Accepted (layers 4000) first after_first
anti_bot-Accepted_example = anti_bot-Accepted consumer (layers 4000) first after_first accepted_run

abbrev bait : Exchange
bait = exchange "x" initial

bait_refused : (activate (checks (layers 4000) []) bait).0 ≡ ok false
unfolding anti_bot issue verify split honeypot_guard get form_token_guard trim read_payload
    remaining_ms timing_guard turnstile_guard challenge_guard form_token_consume_guard mark_used
    lookup prune
bait_refused = refl

bait_not_accepted : (activate (checks (layers 4000) []) bait).0 ≢ ok true
bait_not_accepted e = absurd (cc (bait_refused, e))

anti_bot-retry_example :
    (anti_bot consumer (layers 4000) bait ≡ activate (checks (layers 4000) []) bait)
    × ((anti_bot consumer (layers 4000) bait).1.store ≡ initial)
anti_bot-retry_example = anti_bot-retry consumer (layers 4000) bait bait_not_accepted

-- Another token is marked between the two requests.
abbrev between : List Call
between = record { jti = "other"; ttl_ms = 500; now = 4500 } ∷ []

abbrev again : Exchange
again = exchange "" (run max_entries between after_first.store)

header_trimmed : verify plain_codec "k" (or_empty (some token)) ≡ some payload
unfolding anti_bot issue verify split honeypot_guard get form_token_guard trim read_payload
    remaining_ms timing_guard turnstile_guard challenge_guard form_token_consume_guard mark_used
    lookup prune
header_trimmed = refl

payload_expiry : expiry_ms payload ≡ 10000
unfolding remaining_ms
payload_expiry = refl

abbrev after_again : Exchange
after_again = (anti_bot consumer (layers 5000) again).1

anti_bot-single_use_example : anti_bot consumer (layers 5000) again ≢ (ok true, after_again)
anti_bot-single_use_example =
    anti_bot-single_use consumer (layers 4000) (layers 5000) first after_first again after_again
      payload between accepted_run header_trimmed header_trimmed (omega arith) (omega arith)
      (rw payload_expiry (omega arith), tt) refl (rw payload_expiry (omega arith))

abbrev marks : Store
marks = record { used = ("a", 50) ∷ ("b", 90) ∷ []; last_prune_at = 0 }

marks-IsValid : IsValid max_entries marks
marks-IsValid = record { distinct = ((apart "b" "a" refl, tt), (tt, tt)); bounded = omega arith }

mark_used-eq_example : (mark_used "a" 10 60 marks).0 ≡ not (is_marked 60 (lookup "a" marks.used))
mark_used-eq_example = mark_used-eq "a" 10 60 marks marks-IsValid.distinct

mark_used-IsValid_example : IsValid max_entries (mark_used "c" 10 60 marks).1
mark_used-IsValid_example = mark_used-IsValid "c" 10 60 marks marks-IsValid

abbrev call : ℕ → Call
call now = record { jti = "c"; ttl_ms = 100; now = now }

abbrev other_marks : List Call
other_marks = record { jti = "d"; ttl_ms = 500; now = 70 } ∷ []

marked_c : (mark_used "c" 100 60 marks).0 ≡ true
unfolding anti_bot issue verify split honeypot_guard get form_token_guard trim read_payload
    remaining_ms timing_guard turnstile_guard challenge_guard form_token_consume_guard mark_used
    lookup prune
marked_c = refl

mark_used-replay_example :
    (mark_used "c" 100 80 (run max_entries other_marks (mark_used "c" 100 60 marks).1)).0 ≡ false
mark_used-replay_example =
    mark_used-replay (call 60) (call 80) other_marks marks (omega arith) marked_c (omega arith, tt)
      refl (omega arith)

abbrev query : Option Json
query = some (obj (field "context" (str "contact-form") end))

verify-get_form_token_example :
    Ensures
      (get_form_token plain_codec "k" (λ v. null) 9 1000 "j.1" query tt)
      (λ issued w'.
        (w' ≡ tt)
        × ((context : Option String) × (form_token_query_schema query ≡ some context)
            × IsLabel (context_or context)
            × (verify plain_codec "k" issued.token
                ≡ some (issued_payload 9 1000 "j.1" (context_or context)))))
      (λ w'. (w' ≡ tt) × (form_token_query_schema query ≡ none))
verify-get_form_token_example =
    verify-get_form_token plain_codec "k" (λ v. null) 9 1000 "j.1" query tt (apart "j.1" "" refl)

label_accepted : form_token_query_schema query ≡ some (some "contact-form")
unfolding form_token_query_schema
label_accepted = refl

verify_sound_example :
    (h : String) × (b : String) × (split b'.' token
      ≡ h ∷ b ∷ plain_codec.hmac "k" (join_dot h b) ∷ [])
    × (read_decoded (plain_codec.decode b) ≡ some payload)
verify_sound_example = verify_sound plain_codec "k" token payload read_token

body_field-strip_example :
    body_field "website" (strip (exchange "bait" initial))
    ≡ (if is_control_field "website" then none else body_field "website" (exchange "bait" initial))
body_field-strip_example = body_field-strip "website" (exchange "bait" initial)

abbrev environment : String → Option String
environment name = if name == "ANTI_BOT_MIN_TIME_MS" then some "abc" else none

no_number_falls_back : (anti_bot_config environment).min_time_ms ≡ 2000
unfolding anti_bot_config
no_number_falls_back = refl
