-- ===== src/Realtime/Tests.antt =====
-- A handshake of the tenant t1 at src/realtime/realtime.gateway.ts.
use nestjs_hexagonal_templat.Prelude.{
  String, ◌≡◌, refl, true, false, none, some, Option, List, [], ◌∷◌,
}
use nestjs_hexagonal_templat.Common.Exec.{Result}
use nestjs_hexagonal_templat.Tenant.{Tenant}
use nestjs_hexagonal_templat.User.{User, admin}
use nestjs_hexagonal_templat.User.Active.{find_active, find_active_by_supertokens_user_id}
use nestjs_hexagonal_templat.User.Active.Memory.{Rows, memory_join}
use nestjs_hexagonal_templat.Realtime.{Socket, session, handle_connection, handshake, receives}
use nestjs_hexagonal_templat.Realtime.Rooms.{IsAllowed, IsMember, receives-handshake}

abbrev ana : User
ana = record {
  id = "u1";
  tenant_id = "t1";
  supertokens_user_id = "s1";
  name = "Ana";
  email = "ana@example.com";
  phone = none;
  role = admin;
  is_active = true;
  created_at = 0;
  updated_at = 0;
  deleted_at = none;
}

abbrev open_tenant : Tenant
open_tenant = record {
  id = "t1";
  name = "Loja";
  document = "1";
  email = "loja@example.com";
  phone = "1";
  is_active = true;
  created_at = 0;
  updated_at = 0;
  deleted_at = none;
}

abbrev rows : Rows
rows = record { users = ana ∷ []; tenants = open_tenant ∷ [] }

abbrev find_ana : String → Result (Option User)
find_ana = find_active memory_join rows

-- A socket as it comes to the gateway, in the room of its own id.
abbrev client : Socket
client = record {
  cookie = some "sAccessToken=x";
  tenant_id = none;
  rooms = "Xk2pQ9" ∷ [];
  unauthorized = false;
  connected = true;
}

gets_events : receives "t1" (handle_connection (session "s1") find_ana true client) ≡ true
unfolding handle_connection find_active_by_supertokens_user_id
gets_events = refl

gets_no_others : receives "t2" (handle_connection (session "s1") find_ana true client) ≡ false
unfolding handle_connection find_active_by_supertokens_user_id
gets_no_others = refl

abbrev origins : List String
origins = "https://app.example.com" ∷ []

abbrev admitted : Socket
unfolding handle_connection
admitted = handle_connection (session "s1") find_ana true client

let_in :
    handshake origins (some "https://app.example.com") (session "s1") find_ana true client
    ≡ some admitted
unfolding handshake admitted
let_in = refl

other_page_refused :
    handshake origins (some "https://evil.example.com") (session "s1") find_ana true client ≡ none
unfolding handshake
other_page_refused = refl

admitted_gets_events : receives "t1" admitted ≡ true
unfolding admitted find_active_by_supertokens_user_id
admitted_gets_events = refl

receives-handshake_example :
    IsAllowed origins (some "https://app.example.com")
    × IsMember memory_join rows (session "s1") "t1"
receives-handshake_example =
    receives-handshake memory_join rows origins (some "https://app.example.com") (session "s1") true
      client admitted "t1" refl let_in admitted_gets_events
