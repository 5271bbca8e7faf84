-- ===== src/Revocation/Events.antt =====
-- fastapi_m8/_revocation.py, `apply_session_revoked_event`, on a client whose cache is enabled. The
-- payload has been through the SDK's `SessionRevokedEvent.model_validate`: `none` is its
-- `ValidationError`. The result is `none` where a `KeyError` would leave the method.
pub mod Replay
pub mod Reachable
pub mod Masking
pub mod Refinement
pub mod Rid
pub mod History
use fastapi_m.Base.{ℕ, String, Option, none, some, if◌then◌else◌}
use fastapi_m.Revocation.Cache.{
  RevocationCache, note_revocation, evict_jti, evict_user, evict_user_below, flush_all,
}

-- the fields that the consumer reads; v1 events carry no generation
pub record SessionRevokedEvent : Type 0 where
  pub user_id : String
  pub jti : Option String
  pub auth_generation : Option ℕ
  pub event_id : Option String

-- the last `if` of the method
unfoldable pub evict_named : RevocationCache → String → ℕ → Option String → Option RevocationCache
evict_named c user_id auth_generation none = evict_user_below c user_id (some auth_generation)
evict_named c user_id auth_generation (some jti) = some (evict_jti c jti)

unfoldable pub apply_v2 : RevocationCache → SessionRevokedEvent → ℕ → Option RevocationCache
unfolding evict_named
apply_v2 c event auth_generation =
    let (act, noted) = note_revocation c event.user_id auth_generation event.event_id in
    if act then evict_named noted event.user_id auth_generation event.jti else some noted

unfoldable pub apply_event : RevocationCache → Option SessionRevokedEvent → Option RevocationCache
unfolding apply_v2
apply_event c none = some (flush_all c)
apply_event c (some event) = elim event.auth_generation [
  | none ↦ evict_user c event.user_id
  | some auth_generation ↦ apply_v2 c event auth_generation
]

abbrev pub user_wide : String → ℕ → Option String → SessionRevokedEvent
user_wide user_id auth_generation event_id = record {
  user_id = user_id;
  jti = none;
  auth_generation = some auth_generation;
  event_id = event_id;
}

abbrev pub one_session : String → String → ℕ → Option String → SessionRevokedEvent
one_session user_id jti auth_generation event_id = record {
  user_id = user_id;
  jti = some jti;
  auth_generation = some auth_generation;
  event_id = event_id;
}
