-- ===== src/Deps/Stream/Laws.antt =====
-- Events of the auth stream: fastapi_m8/_deps.py, `AuthDeps.handle_auth_event`.
use fastapi_m.Base.{
  ℕ, String, ◌≡◌, refl, Bool, true, false, Option, none, some, List, [], ◌∷◌, arith, nat_eq,
  if◌then◌else◌,
}
use fastapi_m.Revocation.Client.{RevocationClient}
use fastapi_m.Revocation.Events.{SessionRevokedEvent}
use fastapi_m.Revocation.Lifecycle.{apply_session_revoked_event}
use fastapi_m.Revocation.Lifecycle.Validity.{
  CacheIsValid, apply_session_revoked_event-Keeps, evict_user-Keeps,
}
use fastapi_m.Deps.Stream.{
  AuthStreamEvent, PayloadReader, replace_hyphens, on_client, evict_user, user_deleted,
  handle_auth_event,
}

abbrev pub ClientIsValid : Option RevocationClient → Type 0
ClientIsValid none = Unit {0}
ClientIsValid (some c) = CacheIsValid c.cache

abbrev Keeps : Option (Option RevocationClient) → Type 0
Keeps r = (client' : Option RevocationClient) × (r ≡ some client') × ClientIsValid client'

replace_hyphens-twice : (s : List ℕ) → replace_hyphens (replace_hyphens s) ≡ replace_hyphens s
unfolding replace_hyphens
replace_hyphens-twice [] = refl
replace_hyphens-twice (c ∷ s) = ground (arith, replace_hyphens-twice s)

-- The spelling of the event's type, with hyphens or with dots, is no matter.
handle_auth_event-spelling :
    {D : Type 0} (reader : PayloadReader D) (client : Option RevocationClient)
    (event : AuthStreamEvent D)
    → handle_auth_event reader client
        (record { event_type = replace_hyphens event.event_type; payload = event.payload })
      ≡ handle_auth_event reader client event
unfolding handle_auth_event
handle_auth_event-spelling reader client event = rw (replace_hyphens-twice event.event_type) refl

user_deleted-Keeps :
    (client : Option RevocationClient) (user_id : Option String)
    → ClientIsValid client
    → Keeps (user_deleted client user_id)
unfolding user_deleted evict_user
user_deleted-Keeps client none h = (client, refl, h)
user_deleted-Keeps none (some user_id) h = (none, refl, h)
user_deleted-Keeps (some c) (some user_id) h =
    let (c', evicted, valid) = evict_user-Keeps c user_id h in
    (some c', ground (arith, evicted), valid)

revoked-Keeps :
    (client : Option RevocationClient) (payload : Option SessionRevokedEvent)
    → ClientIsValid client
    → Keeps (on_client (λ c. apply_session_revoked_event c payload) client)
revoked-Keeps none payload h = (none, refl, h)
revoked-Keeps (some c) payload h =
    let (c', applied, valid) = apply_session_revoked_event-Keeps c payload h in
    (some c', ground (arith, applied), valid)

if-Keeps :
    (b : Bool) (x y : Option (Option RevocationClient))
    → Keeps x
    → Keeps y
    → Keeps (if b then x else y)
if-Keeps true x y h k = h
if-Keeps false x y h k = k

-- Whatever event arrives, of a known type or not, with a payload that parses or not: nothing is
-- raised into the stream client, and a valid cache stays valid.
pub handle_auth_event-Keeps :
    {D : Type 0} (reader : PayloadReader D) (client : Option RevocationClient)
    (event : AuthStreamEvent D)
    → ClientIsValid client
    → (client' : Option RevocationClient) × (handle_auth_event reader client event ≡ some client')
      × ClientIsValid client'
unfolding handle_auth_event
handle_auth_event-Keeps reader client event h =
    if-Keeps _ _ _ (revoked-Keeps client (reader.session_revoked event.payload) h) (
      if-Keeps _ _ _ (user_deleted-Keeps client (reader.user_id event.payload) h) (client, refl, h))
