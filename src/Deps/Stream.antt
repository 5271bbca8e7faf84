-- ===== src/Deps/Stream.antt =====
-- fastapi_m8/_deps.py, `AuthDeps`: what an event of the auth stream and the eviction methods do to
-- the revocation client. `none` is an exception that would reach the stream client.
pub mod Laws
use fastapi_m.Base.{
  ℕ, String, Bool, Option, none, some, List, [], ◌∷◌, ◌&&◌, is_some, if◌then◌else◌, ◌==◌, nat_eq,
  true, false,
}
use fastapi_m.Http.{codes}
use fastapi_m.Endpoints.{same}
use fastapi_m.Revocation.Client.{RevocationClient}
use fastapi_m.Revocation.Events.{SessionRevokedEvent}
use fastapi_m.Revocation.Lifecycle as Client

-- `event_type` is the code points of the text, and `D` the type of payloads.
pub record AuthStreamEvent (D : Type 0) : Type 0 where
  pub event_type : List ℕ
  pub payload : D

-- `session_revoked` is the SDK's `SessionRevokedEvent.model_validate`, `none` for its
-- `ValidationError`; `user_id` is `payload.get("user_id")` where that is a `str`.
pub record PayloadReader (D : Type 0) : Type 0 where
  pub session_revoked : D → Option SessionRevokedEvent
  pub user_id : D → Option String

abbrev session_revoked_type : List ℕ
session_revoked_type = codes "session.revoked"

abbrev user_deleted_type : List ℕ
user_deleted_type = codes "user.deleted"

-- `event_type.replace("-", ".")`
pub replace_hyphens : List ℕ → List ℕ
replace_hyphens [] = []
replace_hyphens (c ∷ s) = (if c == b'-' then b'.' else c) ∷ replace_hyphens s

abbrev pub on_client :
    (RevocationClient → Option RevocationClient)
    → Option RevocationClient
    → Option (Option RevocationClient)
on_client f none = some none
on_client f (some c) = elim (f c) [ none ↦ none | some c' ↦ some (some c') ]

unfoldable pub evict_jti : Option RevocationClient → String → Option (Option RevocationClient)
evict_jti client jti = on_client (λ c. Client.evict_jti c jti) client

unfoldable pub evict_user : Option RevocationClient → String → Option (Option RevocationClient)
evict_user client user_id = on_client (λ c. Client.evict_user c user_id) client

pub flush_cache : Option RevocationClient → Option (Option RevocationClient)
flush_cache client = on_client Client.flush_cache client

-- the branch for `user.deleted`
pub user_deleted : Option RevocationClient → Option String → Option (Option RevocationClient)
user_deleted client none = some client
user_deleted client (some user_id) = evict_user client user_id

pub handle_auth_event :
    {D : Type 0}
    → PayloadReader D
    → Option RevocationClient
    → AuthStreamEvent D
    → Option (Option RevocationClient)
handle_auth_event reader client event =
    let event_type = replace_hyphens event.event_type in
    if same event_type session_revoked_type && is_some client
    then on_client
        (λ c. Client.apply_session_revoked_event c (reader.session_revoked event.payload)) client
    else if same event_type user_deleted_type
    then user_deleted client (reader.user_id event.payload)
    else some client
