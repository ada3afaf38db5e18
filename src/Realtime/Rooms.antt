-- ===== src/Realtime/Rooms.antt =====
-- Who gets the events of a tenant: the sockets that src/realtime/realtime.gateway.ts lets in.
use text.Mathlib.TextLemmas.{append_cancel_left}
use nestjs_hexagonal_templat.Prelude.{
  String, ◌≡◌, refl, sym, ap, inl, inr, Bool, true, false, ◌&&◌, Option, none, some, List, [], ◌∷◌,
  ◌==◌, eq_iff, any, Bool-cases,
}
use nestjs_hexagonal_templat.Common.Exec.{Result, ok, throw}
use nestjs_hexagonal_templat.Database.{In}
use nestjs_hexagonal_templat.User.{User}
use nestjs_hexagonal_templat.User.Active.{JoinedUsers, find_active, IsActive, find_active-IsAnswer}
use nestjs_hexagonal_templat.Realtime.{
  tenant_room, Socket, other_error, unauthorised, try_refresh_token, invalid_claims,
  clear_duplicate_session_cookies, SessionAnswer, no_session, session, failed, Resolved, tenant,
  nobody, broken, resolve_user, resolve_session, resolve_client_tenant_id, admit, settle,
  handle_connection, check_origin, handshake, receives,
}

-- A valid session of a user that the search finds, of the tenant.
abbrev IsFound : SessionAnswer → (String → Result (Option User)) → String → Type 0
IsFound answer find_active t =
    (id : String) × (u : User) × (answer ≡ session id)
    × (find_active id ≡ ok (some u))
    × (u.tenant_id ≡ t)

resolve_user_lem :
    (r : Result (Option User)) (t : String)
    → resolve_user r ≡ tenant t
    → (u : User) × (r ≡ ok (some u)) × (u.tenant_id ≡ t)
resolve_user_lem (ok (some u)) t h = (u, refl, cc (h))
resolve_user_lem (ok none) t h = absurd (cc (h))
resolve_user_lem (throw e) t h = absurd (cc (h))

resolve_session-IsFound :
    (answer : SessionAnswer) (find_active : String → Result (Option User)) (t : String)
    → resolve_session answer find_active ≡ tenant t
    → IsFound answer find_active t
resolve_session-IsFound no_session find_active t h = absurd (cc (h))
resolve_session-IsFound (session id) find_active t h = elim (Bool-cases (id == "")) [
  | inl empty ↦ absurd (cc (rw empty at h))
  | inr named ↦
      let (u, e, mine) = resolve_user_lem (find_active id) t (rw named at h) in
      (id, u, refl, e, mine)
]
resolve_session-IsFound (failed unauthorised) find_active t h = absurd (cc (h))
resolve_session-IsFound (failed try_refresh_token) find_active t h = absurd (cc (h))
resolve_session-IsFound (failed invalid_claims) find_active t h = absurd (cc (h))
resolve_session-IsFound (failed clear_duplicate_session_cookies) find_active t h = absurd (cc (h))
resolve_session-IsFound (failed other_error) find_active t h = absurd (cc (h))

resolve_client_tenant_id-IsFound :
    (cookie : Option String) (answer : SessionAnswer) (find_active : String → Result (Option User))
    (t : String)
    → resolve_client_tenant_id cookie answer find_active ≡ tenant t
    → IsFound answer find_active t
unfolding resolve_client_tenant_id
resolve_client_tenant_id-IsFound none answer find_active t h = absurd (cc (h))
resolve_client_tenant_id-IsFound (some cookie) answer find_active t h =
    elim (Bool-cases (cookie == "")) [
      | inl empty ↦ absurd (cc (rw empty at h))
      | inr sent ↦ resolve_session-IsFound answer find_active t (rw sent at h)
    ]

same_room : (a b : String) → (tenant_room a == tenant_room b) ≡ true → a ≡ b
same_room a b h = append_cancel_left "tenant:" a b ((eq_iff (tenant_room a) (tenant_room b)).0 h)

not_both : (c b : Bool) → b ≡ false → (c && b) ≡ true → ⊥
not_both true b e k = absurd (cc (e, k))
not_both false b e k = absurd (cc (k))

-- The socket is in no room of the tenant.
abbrev pub IsOutside : String → Socket → Type 0
IsOutside t s = any (λ room. room == tenant_room t) s.rooms ≡ false

receives-admit :
    (joins : Bool) (a t : String) (s : Socket)
    → IsOutside t s
    → receives t (admit joins a s) ≡ true
    → a ≡ t
receives-admit false a t s h k = absurd (cc (k))
receives-admit true a t s h k = elim (Bool-cases (tenant_room a == tenant_room t)) [
  | inl same ↦ same_room a t same
  | inr other ↦
      let none_same : any (λ room. room == tenant_room t) (tenant_room a ∷ s.rooms) ≡ false =
        rw (other, h) refl in
      absurd (
        not_both s.connected (any (λ room. room == tenant_room t) (tenant_room a ∷ s.rooms))
          none_same k)
]

receives-settle :
    (joins : Bool) (s : Socket) (r : Resolved) (t : String)
    → IsOutside t s
    → receives t (settle joins s r) ≡ true
    → r ≡ tenant t
receives-settle joins s nobody t h k = absurd (cc (k))
receives-settle joins s broken t h k = absurd (cc (k))
receives-settle joins s (tenant a) t h k = elim (Bool-cases (a == "")) [
  | inl empty ↦ absurd (cc (rw empty at k))
  | inr named ↦ ap tenant (receives-admit joins a t s h (rw named at k))
]

-- Who gets the events of a tenant after the gateway's part of a handshake.
receives-handle_connection :
    (answer : SessionAnswer) (find_active : String → Result (Option User)) (joins : Bool)
    (s : Socket) (t : String)
    → IsOutside t s
    → receives t (handle_connection answer find_active joins s) ≡ true
    → IsFound answer find_active t
unfolding handle_connection
receives-handle_connection answer find_active joins s t h k =
    resolve_client_tenant_id-IsFound s.cookie answer find_active t
      (receives-settle joins s (resolve_client_tenant_id s.cookie answer find_active) t h k)

-- No `Origin`, or one of the list.
abbrev pub IsAllowed : List String → Option String → Type 0
IsAllowed allowed_origins none = Unit
IsAllowed allowed_origins (some origin) = In origin allowed_origins

any-In : (origin : String) (os : List String) → any (λ o. o == origin) os ≡ true → In origin os
any-In origin [] h = absurd (cc (h))
any-In origin (o ∷ os) h = elim (Bool-cases (o == origin)) [
  | inl same ↦ inl (sym ((eq_iff o origin).0 same))
  | inr other ↦ inr (any-In origin os (rw other at h))
]

check_origin-IsAllowed :
    (allowed_origins : List String) (origin : Option String)
    → check_origin allowed_origins origin ≡ true
    → IsAllowed allowed_origins origin
unfolding check_origin
check_origin-IsAllowed allowed_origins none h = tt
check_origin-IsAllowed allowed_origins (some origin) h = any-In origin allowed_origins h

module _ {W : Type 0} (join : JoinedUsers W) where
  -- A valid session of an active user of the tenant.
  abbrev pub IsMember : W → SessionAnswer → String → Type 0
  IsMember w answer t =
      (id : String) × (u : User) × (answer ≡ session id) × IsActive join w id u × (u.tenant_id ≡ t)

  -- Of the sockets that were in no room of the tenant, one gets the tenant's events after its handshake
  -- only if the request has no origin or one of those that are configured, and the session of the
  -- handshake is valid and has the id of a user of that tenant who is neither deactivated nor deleted, as
  -- the tenant is neither, whatever the identity provider and the join of the room answer, and also where
  -- the query for the user throws.
  pub receives-handshake :
      (w : W) (allowed_origins : List String) (origin : Option String) (answer : SessionAnswer)
      (joins : Bool) (s s' : Socket) (t : String)
      → IsOutside t s
      → handshake allowed_origins origin answer (find_active join w) joins s ≡ some s'
      → receives t s' ≡ true
      → IsAllowed allowed_origins origin × IsMember w answer t
  unfolding handshake
  receives-handshake w allowed_origins origin answer joins s s' t h admitted k =
      elim (Bool-cases (check_origin allowed_origins origin)) [
        | inl passed ↦
            let same : handle_connection answer (find_active join w) joins s ≡ s' =
              cc (rw passed at admitted) in
            let (id, u, e, found, mine) =
              receives-handle_connection answer (find_active join w) joins s t h (rw same k) in
            (
              check_origin-IsAllowed allowed_origins origin passed,
              (id, u, e, find_active-IsAnswer join w id (some u) found, mine),
            )
        | inr refused ↦ absurd (cc (rw refused at admitted))
      ]
