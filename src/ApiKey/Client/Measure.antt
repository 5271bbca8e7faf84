-- ===== src/ApiKey/Client/Measure.antt =====
-- A number of the world that one introspection request adds to, and nothing else of a request
-- changes: fastapi_m8/_api_key.py, `_send` and `_interpret`.
use fastapi_m.Base.{
  ℕ, ◌+◌, ◌≤◌, String, ◌≡◌, ◌≢◌, refl, arith, nat_eq, string_eq, Option, none, some, Option-cases,
}
use fastapi_m.Base.Exec.{Result, ok, raise, handle, continue}
use fastapi_m.Http.{Headers, api_key, http_status, connect, transport, other, Request}
use fastapi_m.InternalAuth.Measure.{headers-measure}
use fastapi_m.ApiKey.Breaker.{record_success}
use fastapi_m.ApiKey.Client.{
  ApiKeyClient, ApiKeyReply, inactive, active, Issuer, ApiKeyError, TransmitError, too_large,
  failed, Received, open_stream, auth_headers, lift_failure, transmit, note_failure, give_up, retry,
  send, accept, read_reply, read_body, interpret, admit,
}

module _ {W P : Type 0} (issuer : Issuer W P) (m : W → ℕ) (k : ℕ)
    (clock : (w : W) → m (issuer.net.monotonic w).1 ≡ m w)
    (post : (request : Request) (w : W) → m (issuer.net.post request w).1 ≡ m w)
    (stream : (request : Request) (w : W) → m (issuer.stream request w).1 ≡ m w + k) where
  open_stream-measure :
      (request : Request) (c : ApiKeyClient) (w : W)
      → m (open_stream issuer request (c, w)).1.1 ≡ m w + k
  open_stream-measure request c w = ground (arith, stream request w)

  -- the rest of `_transmit`, on the result of the credentials
  sent-measure :
      (n : ℕ) (request : Headers → Request) (r : Result TransmitError Headers × (ApiKeyClient × W))
      → m r.1.1 ≡ n
      → (n ≤ m (continue (λ h. open_stream issuer (request h)) r).1.1)
        × (m (continue (λ h. open_stream issuer (request h)) r).1.1 ≤ n + k)
  sent-measure n request (ok h, (c, w)) p =
      let e = open_stream-measure (request h) c w in (omega arith, omega arith)
  sent-measure n request (raise e, s) p = (omega arith, omega arith)

  auth_headers-measure :
      (c : ApiKeyClient) (w : W) → m (lift_failure issuer (auth_headers issuer (c, w))).1.1 ≡ m w
  auth_headers-measure c w = ground (arith, headers-measure issuer.net m clock post c.auth w)

  transmit-measure :
      (key : String) (c : ApiKeyClient) (w : W)
      → (m w ≤ m (transmit issuer key (c, w)).1.1) × (m (transmit issuer key (c, w)).1.1 ≤ m w + k)
  unfolding transmit
  transmit-measure key c w =
      sent-measure (m w)
        (λ h. record { url = c.url; headers = h; body = api_key key c.schema_version })
        (lift_failure issuer (auth_headers issuer (c, w))) (auth_headers-measure c w)

  note_failure-measure : (c : ApiKeyClient) (w : W) → m (note_failure issuer (c, w)).1.1 ≡ m w
  unfolding note_failure
  note_failure-measure c w = ground (arith, clock w)

  give_up-measure :
      (e : TransmitError) (c : ApiKeyClient) (w : W) → m (give_up issuer e (c, w)).1.1 ≡ m w
  unfolding give_up
  give_up-measure too_large c w = refl
  give_up-measure (failed e) c w = ground (arith, note_failure-measure c w)

  handle-give_up-measure :
      (r : Result TransmitError Received × (ApiKeyClient × W))
      → m (handle (give_up issuer) r).1.1 ≡ m r.1.1
  handle-give_up-measure (ok received, s) = refl
  handle-give_up-measure (raise e, (c, w)) = give_up-measure e c w

  retry-measure :
      (key : String) (e : TransmitError) (c : ApiKeyClient) (w : W)
      → e ≢ failed connect
      → m (retry issuer key e (c, w)).1.1 ≡ m w
  unfolding retry give_up
  retry-measure key too_large c w h = refl
  retry-measure key (failed connect) c w h = absurd (h refl)
  retry-measure key (failed (http_status n)) c w h = give_up-measure (failed (http_status n)) c w
  retry-measure key (failed transport) c w h = give_up-measure (failed transport) c w
  retry-measure key (failed other) c w h = give_up-measure (failed other) c w

  handle-retry-measure :
      (key : String) (n : ℕ) (r : Result TransmitError Received × (ApiKeyClient × W))
      → (n ≤ m r.1.1) × (m r.1.1 ≤ n + k)
      → (n ≤ m (handle (retry issuer key) r).1.1)
        × (m (handle (retry issuer key) r).1.1 ≤ n + k + k)
        × (r.0 ≢ raise (failed connect) → m (handle (retry issuer key) r).1.1 ≤ n + k)
  unfolding retry
  handle-retry-measure key n (ok received, s) (h, h') = (h, omega arith, λ _. h')
  handle-retry-measure key n (raise (failed connect), (c, w)) (h, h') =
      let (more, most) = transmit-measure key c w in
      let same = handle-give_up-measure (transmit issuer key (c, w)) in
      (omega arith, omega arith, λ other. absurd (other refl))
  handle-retry-measure key n (raise too_large, (c, w)) (h, h') =
      let same = give_up-measure too_large c w in (omega arith, omega arith, λ _. omega arith)
  handle-retry-measure key n (raise (failed (http_status status)), (c, w)) (h, h') =
      let same = give_up-measure (failed (http_status status)) c w in
      (omega arith, omega arith, λ _. omega arith)
  handle-retry-measure key n (raise (failed transport), (c, w)) (h, h') =
      let same = give_up-measure (failed transport) c w in
      (omega arith, omega arith, λ _. omega arith)
  handle-retry-measure key n (raise (failed other), (c, w)) (h, h') =
      let same = give_up-measure (failed other) c w in (omega arith, omega arith, λ _. omega arith)

  -- A request is sent again only where no connection came about, and then once.
  pub send-measure :
      (key : String) (c : ApiKeyClient) (w : W)
      → (m w ≤ m (send issuer key (c, w)).1.1)
        × (m (send issuer key (c, w)).1.1 ≤ m w + k + k)
        × ((transmit issuer key (c, w)).0 ≢ raise (failed connect)
            → m (send issuer key (c, w)).1.1 ≤ m w + k)
  unfolding send
  send-measure key c w =
      handle-retry-measure key (m w) (transmit issuer key (c, w)) (transmit-measure key c w)

  accept-world :
      (reply : ApiKeyReply P) (c : ApiKeyClient) (w : W) → (accept issuer reply (c, w)).1.1 ≡ w
  unfolding accept
  accept-world inactive c w = refl
  accept-world (active audience principal) c w = ground arith

  read_reply-world :
      (reply : Option (ApiKeyReply P)) (c : ApiKeyClient) (w : W)
      → (read_reply issuer reply (c, w)).1.1 ≡ w
  unfolding read_reply
  read_reply-world none c w = refl
  read_reply-world (some reply) c w =
      accept-world reply (record c { breaker = record_success c.breaker }) w

  interpret-measure :
      (received : Received) (c : ApiKeyClient) (w : W)
      → m (interpret issuer received (c, w)).1.1 ≡ m w
  unfolding interpret read_body
  interpret-measure received c w =
      ground
        (arith, note_failure-measure c w, read_reply-world (issuer.read_reply received.payload) c w)

  pub continue-interpret-measure :
      (r : Result ApiKeyError Received × (ApiKeyClient × W))
      → m (continue (interpret issuer) r).1.1 ≡ m r.1.1
  continue-interpret-measure (ok received, (c, w)) = interpret-measure received c w
  continue-interpret-measure (raise e, s) = refl

  pub admit-measure : (c : ApiKeyClient) (w : W) → m (admit issuer (c, w)).1.1 ≡ m w
  unfolding admit
  admit-measure c w = ground (arith, clock w, Option-cases c.breaker.opened_at)
