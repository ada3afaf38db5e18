-- ===== src/Auth/Tests.antt =====
-- A forgotten password at a provider that runs: one account, and one token for it.
use Prim.Native.String.{String}
use nestjs_hexagonal_templat.Prelude.{
  ◌≡◌, refl, ◌≢◌, Bool, true, false, Option, none, some, List, [], ◌==◌, eq_refl, eq_iff, arith,
  if◌then◌else◌,
}
use nestjs_hexagonal_templat.Common.Exec.{Result, ok, Ensures}
use nestjs_hexagonal_templat.User.{User}
use nestjs_hexagonal_templat.User.Port.{AuthProviderPort}
use nestjs_hexagonal_templat.Auth.Adapter.{
  Supertokens, updated, consume_password_reset_token, update_password, revoke_all_sessions,
}
use nestjs_hexagonal_templat.Auth.Provider.{IsSpent, SupertokensLaws, auth_provider}
use nestjs_hexagonal_templat.Auth.{ResetPasswordDto, reset_password}
use nestjs_hexagonal_templat.Common.Json.{Json, obj, field, end, str}
use nestjs_hexagonal_templat.Auth.Schema.{
  reset_password_schema, IsAgreed, reset_password_schema-IsAgreed,
}
use nestjs_hexagonal_templat.Prelude.{◌⊎◌}
use nestjs_hexagonal_templat.Common.Errors.{Exception, domain_error, forbidden, http_forbidden}
use nestjs_hexagonal_templat.Common.Json.{null}
use nestjs_hexagonal_templat.Common.Text.{trim}
use nestjs_hexagonal_templat.AntiBot.TokenStore.{initial}
use nestjs_hexagonal_templat.AntiBot.Exchange.{Exchange}
use nestjs_hexagonal_templat.Auth.Controller.{
  post_reset_password, IsGuarded, post_reset_password-IsGuarded,
}
use nestjs_hexagonal_templat.Auth.Reset.{Accounts, Kept, IsReset, IsHarmless}

record World : Type 0 where
  passwords : String → Option String
  sessions : String → Bool
  tokens : String → Option String

abbrev no_users : World → List User
no_users w = []

abbrev accounts : Accounts World
accounts = record {
  password_of = λ w. w.passwords;
  has_session = λ w. w.sessions;
  owner_of = λ w. w.tokens;
}

abbrev used : String → World → World
used token w = record w { tokens = λ t. if t == token then none else w.tokens t }

abbrev take_token : String → Option String → World → Result (Option (String × String)) × World
take_token token none w = (ok none, w)
take_token token (some id) w = (ok (some (id, "ana@example.com")), used token w)

abbrev sdk : Supertokens World
sdk = record {
  list_users_by_account_info = λ e w. (ok [], w);
  send_reset_password_email = λ i e w. (ok true, w);
  consume_password_reset_token = λ t w. take_token t (w.tokens t) w;
  update_email_or_password =
      λ i p w. (ok updated, record w { passwords = λ j. if j == i then some p else w.passwords j });
  revoke_all_sessions_for_user =
      λ i w. (ok tt, record w { sessions = λ j. if j == i then false else w.sessions j });
  delete_user = λ i w. (ok tt, w);
}

hit : {A : Type 0} (i : String) (a : A) (f : String → A) → (if i == i then a else f i) ≡ a
hit i a f = let same : (i == i) ≡ true = eq_refl i in rw same refl

miss :
    {A : Type 0} (i j : String) (a : A) (f : String → A) → j ≢ i → (if j == i then a else f j) ≡ f j
miss i j a f apart = ground (arith, eq_iff j i)

take_token-law :
    (token : String) (found : Option String) (w : World)
    → w.tokens token ≡ found
    → Ensures
        (take_token token found w)
        (λ r w'. Kept accounts w w' × IsSpent accounts token r w w')
        (λ w'. Kept accounts w w')
take_token-law token none w e = (λ i. refl, tt)
take_token-law token (some id) w e = (λ i. refl, (e, hit token none w.tokens))

laws : SupertokensLaws no_users accounts sdk
laws = record {
  consume_law = λ token w. take_token-law token (w.tokens token) w refl;
  update_law = λ i p w.
      ((hit i (some p) w.passwords, λ j apart. miss i j (some p) w.passwords apart), λ t. refl);
  revoke_law = λ i w. (λ j. refl, λ t. refl, hit i false w.sessions);
  update_frame = λ i p w. refl;
  revoke_frame = λ i w. refl;
  delete_frame = λ i w. refl;
}

abbrev provider : AuthProviderPort World no_users
provider = auth_provider accounts sdk laws

abbrev world : World
world = record {
  passwords = λ i. if i == "s1" then some "Antiga123" else none;
  sessions = λ i. i == "s1";
  tokens = λ t. if t == "token" then some "s1" else none;
}

abbrev reset : ResetPasswordDto
reset = record { token = "token"; new_password = "Senha123"; confirm_password = "Senha123" }

-- The password is the new one.
password_is_new : (reset_password provider reset world).1.passwords "s1" ≡ some "Senha123"
unfolding reset_password auth_provider consume_password_reset_token update_password
    revoke_all_sessions
password_is_new = refl

abbrev reset_body : Json
reset_body = obj (
    field "token" (str "token")
      (field "newPassword" (str "Senha123") (field "confirmPassword" (str "Senha123") end)))

body_passes : reset_password_schema (some reset_body) ≡ some reset
unfolding reset_password_schema
body_passes = refl

reset_password_schema-IsAgreed_example : IsAgreed reset
reset_password_schema-IsAgreed_example =
    reset_password_schema-IsAgreed (some reset_body) reset body_passes

-- The request as it reaches the route, with a captcha token.
abbrev exchange : Exchange
exchange = record {
  request = record {
    form_token_header = none;
    body = some (
        obj (
          field "cf-turnstile-response" (str "human") (
            field "token" (str "token") (
              field "newPassword" (str "Senha123")
                (field "confirmPassword" (str "Senha123") end)))));
    params = [];
    tenant_id = "";
    ip = none;
    verified_form_token = none;
  };
  response = none;
  discarded = [];
  store = initial;
}

abbrev verify : String → Option String → Bool
verify token ip = token == "human"

abbrev refused : Exception
refused = domain_error forbidden "Forbidden resource" http_forbidden

post_reset_password-IsGuarded_example :
    Ensures
      (post_reset_password provider refused true verify (λ s. true) (λ v. null) exchange world)
      (λ _ w'. IsGuarded true verify exchange (λ dto. IsReset accounts dto world w'))
      (λ w'.
        Kept accounts world w'
        ⊎ IsGuarded true verify exchange (λ dto. IsHarmless accounts dto world w'))
post_reset_password-IsGuarded_example =
    post_reset_password-IsGuarded accounts sdk laws refused true verify (λ v. null) (λ s. true)
      exchange world

abbrev password_after : Result String × World → Option String
password_after r = r.1.passwords "s1"

reset_by_route :
    password_after
      (post_reset_password provider refused true verify (λ s. true) (λ v. null) exchange world)
    ≡ some "Senha123"
unfolding post_reset_password trim auth_provider consume_password_reset_token update_password
    revoke_all_sessions
reset_by_route = refl

no_captcha_no_reset :
    password_after (
      post_reset_password provider refused true
        (λ t i. false)
        (λ s. true)
        (λ v. null)
        exchange
        world)
    ≡ some "Antiga123"
unfolding post_reset_password trim auth_provider consume_password_reset_token update_password
    revoke_all_sessions
no_captcha_no_reset = refl
