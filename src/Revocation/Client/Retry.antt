-- ===== src/Revocation/Client/Retry.antt =====
-- How often the issuer is asked, and an event that arrives during the question:
-- fastapi_m8/_revocation.py, `_query_status` and the end of `is_revoked`.
use fastapi_m.Base.{ℕ, ◌<◌, String, ◌≡◌, true, Option, some, arith, nat_eq}
use fastapi_m.Base.Exec.{ok, raise}
use fastapi_m.Http.{http_status, active, Network}
use fastapi_m.InternalAuth.{InternalAuth, ServiceToken, service_auth}
use fastapi_m.InternalAuth.Count.{counting}
use fastapi_m.Revocation.Cache.{RevocationCache, note_revocation}
use fastapi_m.Revocation.Cache.Validity.{IsValid}
use fastapi_m.Revocation.Cache.Watermarks.{put-note_revocation}
use fastapi_m.Revocation.Client.{RevocationClient, post_status, decide}

module _ {W : Type 0} (net : Network W) (jti u : String) where
  -- A question that is asked twice has been refused with a `401`, and has credentials to drop.
  abbrev Retried : RevocationClient → ℕ → W → Type 0
  Retried c n w =
      ((t : ServiceToken) × (c.auth ≡ service_auth t))
      × ((post_status (counting net) jti u (c, (n, w))).0 ≡ raise (http_status 401))

  -- Whatever the cache of the moment holds: an active answer of a generation older than a revocation
  -- that has been seen, also one that arrived while the issuer was asked, denies the token, and
  -- changes nothing.
  decide-note_revocation :
      (c : RevocationClient) (w : W) (k : RevocationCache) (g old : ℕ) (event : Option String)
      → IsValid k
      → old < g
      → c.cache ≡ some (note_revocation k u g event).1
      → decide net jti u (active u old) (c, w) ≡ (ok true, (c, w))
  unfolding decide
  decide-note_revocation c w k g old event h lt has =
      ground (arith, put-note_revocation k u g event 0 jti old h lt)
