-- ===== src/Revocation/Client/Bypass.antt =====
-- REV-CACHE-01: fastapi_m8/_revocation.py, `is_revoked` with `bypass_cache=True`.
use fastapi_m.Base.{String, ◌≡◌, refl, true, Option, some, arith}
use fastapi_m.Base.Exec.{Result, ok, raise}
use fastapi_m.Http.{JtiStatus, inactive, active, Network}
use fastapi_m.Revocation.Cache.{RevocationCache}
use fastapi_m.Revocation.Cache.Watermarks.{is_superseded_of_watermarks}
use fastapi_m.Revocation.Client.Frame.{with_cache, reply_with, query_status-frame}
use fastapi_m.Revocation.Client.{
  CacheMetrics, RevocationClient, QueryError, decision, failed, query_status, decide, recover,
  settle, check_issuer, is_revoked,
}

-- the answer and the world, without the client that is left
abbrev pub outcome : {E A W : Type 0} → Result E A × (RevocationClient × W) → Result E A × W
outcome r = (r.0, r.1.1)

module _ {W : Type 0} (net : Network W) (jti user_id : String) (k k' : RevocationCache)
    (m m' : Option CacheMetrics) (same : k.watermarks ≡ k'.watermarks) where
  settle_same :
      (r : Result QueryError JtiStatus × (RevocationClient × W))
      → outcome (settle net jti user_id (reply_with (some k) m r))
        ≡ outcome (settle net jti user_id (reply_with (some k') m' r))
  unfolding decide recover
  settle_same (ok inactive, s) = refl
  settle_same (ok (active subject g), s) =
      ground (arith, is_superseded_of_watermarks k k' user_id g same)
  settle_same (raise (decision reason), s) = refl
  settle_same (raise (failed e), s) = ground arith

  bypass_direct :
      (c : RevocationClient) (w : W)
      → is_revoked net jti user_id true (c, w)
        ≡ settle net jti user_id (query_status net jti user_id (c, w))
  unfolding is_revoked check_issuer
  bypass_direct c w = ground arith

  -- A call that bypasses the cache is never answered from it: of two clients whose caches differ in
  -- their entries, and agree in the watermarks, the call gives the same answer or error, and leaves
  -- the same world.
  pub bypass-outcome :
      (c : RevocationClient) (w : W)
      → outcome (is_revoked net jti user_id true (with_cache (some k) m c, w))
        ≡ outcome (is_revoked net jti user_id true (with_cache (some k') m' c, w))
  bypass-outcome c w =
      rw
        (
          bypass_direct (with_cache (some k) m c) w,
          bypass_direct (with_cache (some k') m' c) w,
          query_status-frame net (some k) m jti user_id c w,
          query_status-frame net (some k') m' jti user_id c w,
        )
        (settle_same (query_status net jti user_id (c, w)))
