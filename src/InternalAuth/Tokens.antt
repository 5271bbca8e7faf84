-- ===== src/InternalAuth/Tokens.antt =====
-- The life of a service token: fastapi_m8/_internal_auth.py, `ServiceTokenInternalAuth`.
use fastapi_m.Base.{◌<◌, String, ◌≡◌, some, arith}
use fastapi_m.Base.Exec.{Result, ok, raise}
use fastapi_m.Http.{Failure, Network}
use fastapi_m.InternalAuth.{
  ServiceToken, InternalAuth, static_auth, service_auth, exchange_token, ensure_token,
  service_headers, headers,
}

-- A token that is returned is cached; a failure leaves the provider as it was.
abbrev Caches : {W : Type 0} → ServiceToken → Result Failure String × (ServiceToken × W) → Type 0
Caches s (ok token, (s', w')) = s'.token ≡ some token
Caches s (raise e, (s', w')) = s' ≡ s

module _ {W : Type 0} (net : Network W) where
  exchange_token-Caches : (s : ServiceToken) (w : W) → Caches s (exchange_token net (s, w))
  unfolding exchange_token
  exchange_token-Caches s w = ground arith

  ensure_token-Caches : (s : ServiceToken) (w : W) → Caches s (ensure_token net (s, w))
  unfolding ensure_token
  ensure_token-Caches s w =
      ground (arith, exchange_token-Caches s w, exchange_token-Caches s (net.monotonic w).1)

  ensure_token_live :
      (s : ServiceToken) (w : W) (token : String)
      → s.token ≡ some token
      → (net.monotonic w).0 < s.expires_at
      → ensure_token net (s, w) ≡ (ok token, (s, (net.monotonic w).1))
  unfolding ensure_token
  ensure_token_live s w token cached live = ground arith

  -- A token that was returned once, minted or cached, is returned again at every later moment before
  -- its expiry, with no request and no change of the provider.
  ensure_token-reuse :
      (s s' : ServiceToken) (w w' later : W) (token : String)
      → ensure_token net (s, w) ≡ (ok token, (s', w'))
      → (net.monotonic later).0 < s'.expires_at
      → ensure_token net (s', later) ≡ (ok token, (s', (net.monotonic later).1))
  ensure_token-reuse s s' w w' later token got live =
      ensure_token_live s' later token (rw got at (ensure_token-Caches s w)) live

  -- A provider that could not get headers is unchanged: no partial token is kept.
  headers_failed :
      (auth auth' : InternalAuth) (w w' : W) (e : Failure)
      → headers net (auth, w) ≡ (raise e, (auth', w'))
      → auth' ≡ auth
  unfolding headers service_headers
  headers_failed (static_auth fixed) auth' w w' e p = ground arith
  headers_failed (service_auth s) auth' w w' e p = ground (arith, ensure_token-Caches s w)
