-- ===== src/ApiKey/Client.antt =====
-- fastapi_m8/_api_key.py, `ApiKeyIntrospectionClient` and `_SemaphoreSlot`. The HTTP stream, the
-- semaphore with its bounded wait and the SDK's validation of a reply are parameters.
pub mod Chunks
pub mod Validated
pub mod Soundness
pub mod Measure
pub mod Effort
pub mod Slots
pub mod Uncaught
pub mod Construction
pub mod Recovery
use fastapi_m.Base.{
  ℕ, suc, String, Bool, true, false, ◌||◌, Option, none, some, List, [], ◌∷◌, ◌++◌, ltb, leb, ◌==◌,
  nat_eq, string_eq, if◌then◌else◌, length,
}
use fastapi_m.Base.Exec.{
  Result, ok, raise, Exec, pure, fail, gets, modify, handle, within, continue, ◌>>=◌, ◌>>◌,
}
use fastapi_m.Http.{
  Url, Headers, Failure, http_status, connect, transport, other, api_key, Request, Network,
}
use fastapi_m.InternalAuth.{InternalAuth, headers, invalidate}
use fastapi_m.ApiKey.Breaker.{CircuitBreaker, allows_call, record_success, record_failure}

pub record ApiKeyClient : Type 0 where
  pub url : Url
  pub auth : InternalAuth
  pub audience_id : String
  pub schema_version : String
  pub max_response_bytes : ℕ
  pub breaker : CircuitBreaker

-- what `client.stream` yields: the chunks that arrive, and the exception that ends them, if any
pub record Stream : Type 0 where
  pub status_code : ℕ
  pub chunks : List (List ℕ)
  pub broken : Option Failure
  pub retry_after : Option String

-- `ApiKeyIntrospectionResponse` of the SDK, over its type of principals
pub data ApiKeyReply (P : Type 0) : Type 0 where
  inactive : ApiKeyReply P
  active : (audience_id : String) (principal : P) → ApiKeyReply P

-- `is_request` is the SDK's validation of an `ApiKeyIntrospectionRequest`, `false` where it raises.
-- `acquire` waits for the semaphore at most the pool timeout, and is `false` where it gave up.
pub record Issuer (W P : Type 0) : Type 0 where
  pub net : Network W
  pub stream : Request → W → Result Failure Stream × W
  pub acquire : W → Bool × W
  pub release : W → W
  pub is_request : (key schema_version : String) → Bool
  pub read_reply : List ℕ → Option (ApiKeyReply P)

-- `ApiKeyIntrospectionError` with its reason, `ApiKeyQuotaExceededError`, or an exception of the
-- credentials, or of the request's validation, that is neither
pub data ApiKeyError : Type 0 where
  introspection : (reason : String) → ApiKeyError
  quota_exceeded : (retry_after : Option String) → ApiKeyError
  uncaught : Failure → ApiKeyError

-- what `_transmit` raises
pub data TransmitError : Type 0 where
  too_large : TransmitError
  failed : Failure → TransmitError

pub record Received : Type 0 where
  pub status_code : ℕ
  pub payload : List ℕ
  pub retry_after : Option String

-- the loop over the chunks; `none` where the body is abandoned
unfoldable pub read_chunks : (most : ℕ) → (payload : List ℕ) → List (List ℕ) → Option (List ℕ)
read_chunks most payload [] = some payload
read_chunks most payload (chunk ∷ rest) =
    let more = read_chunks most (payload ++ chunk) rest in
    if ltb most (length (payload ++ chunk)) then none else more

unfoldable pub receive : ℕ → Stream → Result TransmitError Received
receive most s = elim (read_chunks most [] s.chunks) [
  | none ↦ raise too_large
  | some payload ↦ elim s.broken [
    | some e ↦ raise (failed e)
    | none ↦
        ok (record { status_code = s.status_code; payload = payload; retry_after = s.retry_after })
  ]
]

-- `httpx.HTTPError`
abbrev is_http_error : Failure → Bool
is_http_error other = false
is_http_error _ = true

module _ {W P : Type 0} (issuer : Issuer W P) where
  abbrev pub Session : Type 0
  Session = ApiKeyClient × W

  abbrev update : {E : Type 0} → (ApiKeyClient → ApiKeyClient) → Exec E Session (Unit {0})
  update f = modify λ s. (f s.0, s.1)

  abbrev pub lift_failure :
      {A : Type 0} → Result Failure A × Session → Result TransmitError A × Session
  lift_failure = handle λ e. fail (failed e)

  abbrev pub auth_headers : Exec Failure Session Headers
  auth_headers =
      within (λ s. (s.0.auth, s.1)) (λ t s. (record s.0 { auth = t.0 }, t.1)) (headers issuer.net)

  abbrev pub open_stream : Request → Exec TransmitError Session Received
  open_stream request (c, w) =
      let (reply, w') = issuer.stream request w in
      elim reply [
        | ok s ↦ (receive c.max_response_bytes s, (c, w'))
        | raise e ↦ (raise (failed e), (c, w'))
      ]

  -- `_transmit`
  unfoldable pub transmit : String → Exec TransmitError Session Received
  transmit key = do
    c ← gets (λ s. s.0)
    h ← λ s. lift_failure (auth_headers s)
    open_stream (record { url = c.url; headers = h; body = api_key key c.schema_version })

  -- `self._breaker.record_failure()`; the clock is read where the circuit opens, and only there
  unfoldable pub note_failure : Exec ApiKeyError Session (Unit {0})
  note_failure (c, w) =
      let (t, w') = issuer.net.monotonic w in
      if leb c.breaker.threshold (suc c.breaker.failures)
      then (ok tt, (record c { breaker = record_failure t c.breaker }, w'))
      else (ok tt, (record c { breaker = record_failure 0 c.breaker }, w))

  -- an `except httpx.HTTPError` clause of `_send`; other exceptions pass
  unfoldable pub give_up : TransmitError → Exec ApiKeyError Session Received
  give_up too_large = fail (introspection "response_too_large")
  give_up (failed e) =
      if is_http_error e
      then (do note_failure; fail (introspection "transport"))
      else fail (uncaught e)

  -- the `except` clauses of the first attempt
  unfoldable pub retry : String → TransmitError → Exec ApiKeyError Session Received
  retry key (failed connect) s = handle give_up (transmit key s)
  retry key e s = give_up e s

  -- `_send`
  unfoldable pub send : String → Exec ApiKeyError Session Received
  send key s = handle (retry key) (transmit key s)

  abbrev refuse : String → Exec ApiKeyError Session (Option P)
  refuse reason = do note_failure; fail (introspection reason)

  -- the last lines of `_interpret`, on a parsed reply
  unfoldable pub accept : ApiKeyReply P → Exec ApiKeyError Session (Option P)
  accept inactive = pure none
  accept (active audience principal) = do
    c ← gets (λ s. s.0)
    if audience == c.audience_id
        then pure (some principal)
        else fail (introspection "audience_mismatch")

  unfoldable pub read_reply : Option (ApiKeyReply P) → Exec ApiKeyError Session (Option P)
  read_reply none = fail (introspection "malformed_response")
  read_reply (some reply) = do
    update (λ c. record c { breaker = record_success c.breaker })
    accept reply

  unfoldable pub read_body : List ℕ → Exec ApiKeyError Session (Option P)
  read_body payload = read_reply (issuer.read_reply payload)

  unfoldable pub interpret : Received → Exec ApiKeyError Session (Option P)
  interpret r =
      if r.status_code == 429
      then fail (quota_exceeded r.retry_after)
      else if r.status_code == 401 || r.status_code == 403
      then (do
        update (λ c. record c { auth = (invalidate c.auth).1 })
        fail (introspection "consumer_unauthorized"))
      else if leb 500 r.status_code
      then refuse "issuer_unavailable"
      else if r.status_code == 200
      then read_body r.payload
      else refuse "unexpected_status"

  -- the body of `async with self._acquire_slot()`: the slot is released on every way out
  unfoldable pub send_in_slot : String → Exec ApiKeyError Session Received
  send_in_slot key (c, w) =
      let (granted, w') = issuer.acquire w in
      let (result, (c', w'')) = send key (c, w') in
      if granted
      then (result, (c', issuer.release w''))
      else (raise (introspection "load_shed"), (c, w'))

  -- `self._breaker.allows_call()`; the clock is read only if the circuit is open
  unfoldable pub admit : Exec ApiKeyError Session Bool
  admit (c, w) = elim c.breaker.opened_at [
    | none ↦ (ok true, (c, w))
    | some _ ↦
        let (t, w') = issuer.net.monotonic w in
        let (answer, breaker) = allows_call t c.breaker in
        (ok answer, (record c { breaker = breaker }, w'))
  ]

  -- what follows the validation of the request
  unfoldable pub ask_issuer : String → Exec ApiKeyError Session (Option P)
  ask_issuer key = do
    admitted ← admit
    if admitted
        then (do received ← send_in_slot key; interpret received)
        else fail (introspection "circuit_open")

  unfoldable pub introspect : String → Exec ApiKeyError Session (Option P)
  introspect key (c, w) =
      if issuer.is_request key c.schema_version
      then ask_issuer key (c, w)
      else (raise (uncaught other), (c, w))
