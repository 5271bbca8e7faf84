-- ===== src/Revocation/Lifecycle.antt =====
-- fastapi_m8/_revocation.py, the methods of `RemoteRevocationClient` that only touch the cache. A
-- client without a cache ignores them; `none` is a `KeyError`.
pub mod Validity
use fastapi_m.Base.{String, Option, none, some}
use fastapi_m.Revocation.Cache.{RevocationCache}
use fastapi_m.Revocation.Cache as Cache
use fastapi_m.Revocation.Client.{RevocationClient}
use fastapi_m.Revocation.Events.{SessionRevokedEvent, apply_event}

abbrev stored : RevocationClient → Option RevocationCache → Option RevocationClient
stored c none = none
stored c (some cache) = some (record c { cache = some cache })

abbrev on_cache :
    (RevocationCache → Option RevocationCache) → RevocationClient → Option RevocationClient
on_cache f c = elim c.cache [ none ↦ some c | some cache ↦ stored c (f cache) ]

unfoldable pub apply_session_revoked_event :
    RevocationClient → Option SessionRevokedEvent → Option RevocationClient
apply_session_revoked_event c payload = on_cache (λ cache. apply_event cache payload) c

unfoldable pub evict_jti : RevocationClient → String → Option RevocationClient
evict_jti c jti = on_cache (λ cache. some (Cache.evict_jti cache jti)) c

unfoldable pub evict_user : RevocationClient → String → Option RevocationClient
evict_user c user_id = on_cache (λ cache. Cache.evict_user cache user_id) c

unfoldable pub flush_cache : RevocationClient → Option RevocationClient
flush_cache c = on_cache (λ cache. some (Cache.flush_all cache)) c
