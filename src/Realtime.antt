-- ===== src/Realtime.antt =====
-- src/realtime: the handshake of realtime.gateway.ts behind the origins of
-- realtime-io.adapter.ts, and the events of realtime.service.ts. Socket.io's
-- `join` and SuperTokens' `getSession` are arguments.
pub mod Rooms
mod Tests
use Prim.Native.String.{◌++◌}
use nestjs_hexagonal_templat.Prelude.{
  String, ◌≡◌, ◌≢◌, refl, sym, ap, ◌∙◌, inl, inr, Bool, true, false, ◌&&◌, ◌||◌, Option, none, some,
  List, [], ◌∷◌, ◌==◌, eq_iff, arith, any, keep, if◌then◌else◌, Bool-cases,
}
use nestjs_hexagonal_templat.Common.Exec.{Result, ok, throw}
use nestjs_hexagonal_templat.User.{User}

abbrev pub tenant_room : String → String
tenant_room id = "tenant:" ++ id

pub record Socket : Type 0 where
  pub cookie : Option String
  pub tenant_id : Option String
  pub rooms : List String
  -- The event that tells the client that its session is not valid.
  pub unauthorized : Bool
  pub connected : Bool

-- What `getSession` throws: the types of SuperTokens' errors that the gateway names, and all others.
pub data SessionError : Type 0 where
  unauthorised try_refresh_token invalid_claims clear_duplicate_session_cookies : SessionError
  other_error : SessionError

pub data SessionAnswer : Type 0 where
  no_session : SessionAnswer
  session : String → SessionAnswer
  failed : SessionError → SessionAnswer

-- invalidSessionErrorType(error) !== null
abbrev pub is_invalid_session : SessionError → Bool
is_invalid_session other_error = false
is_invalid_session _ = true

-- An outcome of `resolveClientTenantId`: a tenant, null, or an error that goes on.
pub data Resolved : Type 0 where
  tenant : String → Resolved
  nobody broken : Resolved

abbrev pub resolve_user : Result (Option User) → Resolved
resolve_user (ok (some u)) = tenant u.tenant_id
resolve_user (ok none) = nobody
resolve_user (throw e) = broken

abbrev pub resolve_session : SessionAnswer → (String → Result (Option User)) → Resolved
resolve_session no_session find_active = nobody
resolve_session (session id) find_active =
    let found = resolve_user (find_active id) in if id == "" then nobody else found
resolve_session (failed e) find_active = if is_invalid_session e then nobody else broken

-- resolveClientTenantId, with resolveSupertokensUserId
unfoldable pub resolve_client_tenant_id :
    Option String → SessionAnswer → (String → Result (Option User)) → Resolved
resolve_client_tenant_id none answer find_active = nobody
resolve_client_tenant_id (some cookie) answer find_active =
    let found = resolve_session answer find_active in if cookie == "" then nobody else found

abbrev pub reject : Socket → Socket
reject s = record s { unauthorized = true; connected = false }

abbrev pub drop_socket : Socket → Socket
drop_socket s = record s { connected = false }

-- `joins` tells whether `client.join` resolves.
abbrev pub admit : Bool → String → Socket → Socket
admit joins t s =
    if joins
    then record s { tenant_id = some t; rooms = tenant_room t ∷ s.rooms }
    else record s { tenant_id = some t; connected = false }

abbrev pub settle : Bool → Socket → Resolved → Socket
settle joins s nobody = reject s
settle joins s broken = drop_socket s
settle joins s (tenant t) = if t == "" then reject s else admit joins t s

unfoldable pub handle_connection :
    SessionAnswer → (String → Result (Option User)) → Bool → Socket → Socket
unfolding resolve_client_tenant_id
handle_connection answer find_active joins s =
    settle joins s (resolve_client_tenant_id s.cookie answer find_active)

-- checkOrigin of realtime-io.adapter.ts: whether the callback lets a request through. `origin` is the header.
unfoldable pub check_origin : List String → Option String → Bool
check_origin allowed_origins none = true
check_origin allowed_origins (some origin) = any (λ o. o == origin) allowed_origins

-- A handshake, of which nothing is left where the upgrade is refused.
unfoldable pub handshake :
    List String
    → Option String
    → SessionAnswer
    → (String → Result (Option User))
    → Bool
    → Socket
    → Option Socket
unfolding check_origin handle_connection
handshake allowed_origins origin answer find_active joins s =
    let admitted = handle_connection answer find_active joins s in
    if check_origin allowed_origins origin then some admitted else none

-- Whether a socket gets an event that `emit` sends to a tenant.
abbrev pub receives : String → Socket → Bool
receives t s = s.connected && any (λ room. room == tenant_room t) s.rooms

-- The sockets that get an event of `emit`; before `afterInit` there is no server.
unfoldable pub emit : Bool → String → List Socket → List Socket
emit initialized t sockets = if initialized then keep (receives t) sockets else []
