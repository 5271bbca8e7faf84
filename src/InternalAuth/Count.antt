-- ===== src/InternalAuth/Count.antt =====
-- How many requests the credentials of a private call cost: fastapi_m8/_internal_auth.py.
use fastapi_m.Base.{ℕ, suc, ◌+◌, ◌≤◌, ◌≡◌, arith}
use fastapi_m.Http.{Headers, Network}
use fastapi_m.InternalAuth.{
  ServiceToken, InternalAuth, static_auth, service_auth, exchange_token, ensure_token,
  service_headers, headers,
}

-- a network that counts the requests that are posted through it
abbrev pub counting : {W : Type 0} → Network W → Network (ℕ × W)
counting net = record {
  monotonic = λ s. let (t, w) = net.monotonic s.1 in (t, (s.0, w));
  post = λ request s. let (r, w) = net.post request s.1 in (r, (suc s.0, w));
  is_success = net.is_success;
  read_token = net.read_token;
  read_status = net.read_status;
}

module _ {W : Type 0} (net : Network W) where
  exchange_token-count :
      (s : ServiceToken) (n : ℕ) (w : W) → (exchange_token (counting net) (s, (n, w))).1.1.0 ≡ n + 1
  unfolding exchange_token
  exchange_token-count s n w = ground arith

  ensure_token-count :
      (s : ServiceToken) (n : ℕ) (w : W) → (ensure_token (counting net) (s, (n, w))).1.1.0 ≤ n + 1
  unfolding ensure_token
  ensure_token-count s n w =
      ground (arith, exchange_token-count s n w, exchange_token-count s n (net.monotonic w).1)

  -- A private call costs at most one exchange.
  pub headers-count :
      (auth : InternalAuth) (n : ℕ) (w : W) → (headers (counting net) (auth, (n, w))).1.1.0 ≤ n + 1
  unfolding headers service_headers
  headers-count (static_auth fixed) n w = omega arith
  headers-count (service_auth s) n w = ground (arith, ensure_token-count s n w)

  headers_static-count :
      (fixed : Headers) (n : ℕ) (w : W)
      → (headers (counting net) (static_auth fixed, (n, w))).1.1.0 ≡ n
  unfolding headers
  headers_static-count fixed n w = omega arith
