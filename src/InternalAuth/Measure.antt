-- ===== src/InternalAuth/Measure.antt =====
-- What the credentials of a private call leave as it was in the world around them:
-- fastapi_m8/_internal_auth.py.
use fastapi_m.Base.{ℕ, ◌≡◌, refl, arith}
use fastapi_m.Http.{exchange, Request, Network}
use fastapi_m.InternalAuth.{
  ServiceToken, InternalAuth, static_auth, service_auth, exchange_token, ensure_token,
  service_headers, headers,
}

-- `m` is a number that neither the clock nor an exchange changes.
module _ {W : Type 0} (net : Network W) (m : W → ℕ) (clock : (w : W) → m (net.monotonic w).1 ≡ m w)
    (post : (request : Request) (w : W) → m (net.post request w).1 ≡ m w) where
  exchange_token-measure : (s : ServiceToken) (w : W) → m (exchange_token net (s, w)).1.1 ≡ m w
  unfolding exchange_token
  exchange_token-measure s w =
      let request : Request = record {
        url = s.url;
        headers = s.exchange_headers;
        body = exchange s.scopes;
      } in
      ground (arith, post request w, clock (net.post request w).1)

  ensure_token-measure : (s : ServiceToken) (w : W) → m (ensure_token net (s, w)).1.1 ≡ m w
  unfolding ensure_token
  ensure_token-measure s w =
      ground
        (arith, clock w, exchange_token-measure s w, exchange_token-measure s (net.monotonic w).1)

  pub headers-measure : (auth : InternalAuth) (w : W) → m (headers net (auth, w)).1.1 ≡ m w
  unfolding headers service_headers
  headers-measure (static_auth fixed) w = refl
  headers-measure (service_auth s) w = ground (arith, ensure_token-measure s w)
