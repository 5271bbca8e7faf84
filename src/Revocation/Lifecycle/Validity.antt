-- ===== src/Revocation/Lifecycle/Validity.antt =====
-- The methods of `RemoteRevocationClient` that only touch the cache keep it valid, and raise nothing:
-- fastapi_m8/_revocation.py.
use fastapi_m.Base.{String, ◌≡◌, Option, none, some, arith, Option-cases, inl, inr}
use fastapi_m.Revocation.Cache.{RevocationCache}
use fastapi_m.Revocation.Cache.Validity.{IsValid}
use fastapi_m.Revocation.Client.{RevocationClient}
use fastapi_m.Revocation.Events.{SessionRevokedEvent}
use fastapi_m.Revocation.Events.Reachable.{Evicts, evict_user-Evicts, apply_event-Evicts}
use fastapi_m.Revocation.Lifecycle.{on_cache, apply_session_revoked_event, evict_user}

abbrev pub CacheIsValid : Option RevocationCache → Type 0
CacheIsValid none = Unit {0}
CacheIsValid (some k) = IsValid k

-- the operation raises nothing, and leaves a valid cache
abbrev pub Keeps : Option RevocationClient → Type 0
Keeps r = (c' : RevocationClient) × (r ≡ some c') × CacheIsValid c'.cache

on_cache-Keeps :
    (f : RevocationCache → Option RevocationCache) (c : RevocationClient)
    → CacheIsValid c.cache
    → ((k : RevocationCache) → IsValid k → Evicts (f k))
    → Keeps (on_cache f c)
on_cache-Keeps f c h keeps = elim (Option-cases c.cache) [
  | inl off ↦ (c, ground (arith, off), h)
  | inr (k, has) ↦
      let (k', evicted, valid) = keeps k (rw has at h) in
      (record c { cache = some k' }, ground (arith, has, evicted), valid)
]

pub apply_session_revoked_event-Keeps :
    (c : RevocationClient) (payload : Option SessionRevokedEvent)
    → CacheIsValid c.cache
    → Keeps (apply_session_revoked_event c payload)
unfolding apply_session_revoked_event
apply_session_revoked_event-Keeps c payload h =
    on_cache-Keeps _ c h (λ k v. apply_event-Evicts k payload v)

pub evict_user-Keeps :
    (c : RevocationClient) (user_id : String) → CacheIsValid c.cache → Keeps (evict_user c user_id)
unfolding evict_user
evict_user-Keeps c user_id h = on_cache-Keeps _ c h (λ k v. evict_user-Evicts k user_id v)
