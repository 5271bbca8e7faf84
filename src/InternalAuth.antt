-- ===== src/InternalAuth.antt =====
-- fastapi_m8/_internal_auth.py: the credentials of private calls. A provider is a value that each
-- call gives back changed; the lock makes `_ensure_token` and `invalidate` one step each, which a
-- call of the model is.
pub mod Modes
pub mod Tokens
pub mod Measure
pub mod Count
pub mod Tasks
use Prim.Native.String
use fastapi_m.Base.{
  ℕ, ◌+◌, ◌-◌, String, Bool, true, false, Option, none, some, List, [], ◌∷◌, ◌++◌, ltb,
  if◌then◌else◌,
}
use fastapi_m.Base.Exec.{
  Result, ok, raise, Exec, pure, fail, lift, gets, modify, within, ◌>>=◌, ◌>>◌,
}
use fastapi_m.Http.{Url, Headers, Failure, http_status, other, exchange, Request, Response, Network}

abbrev pub internal_client_header : String
internal_client_header = "X-Internal-Client"

abbrev pub internal_token_header : String
internal_token_header = "X-Internal-Token"

pub record ServiceToken : Type 0 where
  pub client_id : String
  pub exchange_headers : Headers
  pub url : Url
  pub scopes : List String
  pub leeway : ℕ
  pub token : Option String
  pub expires_at : ℕ

-- the constructor of `ServiceTokenInternalAuth`
unfoldable pub service_token :
    (client_id secret : String) (exchange_url : Url) (scopes : List String) (refresh_leeway : ℕ)
    → ServiceToken
service_token client_id secret exchange_url scopes refresh_leeway = record {
  client_id = client_id;
  exchange_headers = (internal_client_header, client_id) ∷ (internal_token_header, secret) ∷ [];
  url = exchange_url;
  scopes = scopes;
  leeway = refresh_leeway;
  token = none;
  expires_at = 0;
}

-- the two classes that implement the protocol `InternalAuthProvider`
pub data InternalAuth : Type 0 where
  static_auth : Headers → InternalAuth
  service_auth : ServiceToken → InternalAuth

module _ {W : Type 0} (net : Network W) where
  open net use {monotonic, post, is_success, read_token}

  -- an object of the program beside the world
  abbrev pub call : {C : Type 0} → Request → Exec Failure (C × W) Response
  call request (c, w) = let (reply, w') = post request w in (reply, (c, w'))

  abbrev pub now : {C : Type 0} → Exec Failure (C × W) ℕ
  now (c, w) = let (t, w') = monotonic w in (ok t, (c, w'))

  -- `response.raise_for_status()`
  abbrev pub raise_for_status : {S : Type 0} → Response → Exec Failure S Response
  raise_for_status response =
      if is_success response.status_code
      then pure response
      else fail (http_status response.status_code)

  abbrev parse_token : {S : Type 0} → Response → Exec Failure S (String × ℕ)
  parse_token response = elim (read_token response.content) [
    | none ↦ fail other
    | some minted ↦ pure minted
  ]

  -- the last lines of `_exchange`; `max(0, expires_in - leeway)` is the subtraction of ℕ
  remember : String → ℕ → Exec Failure (ServiceToken × W) String
  remember token expires_in = do
    t ← now
    modify λ s. (record s.0 { token = some token; expires_at = t + (expires_in - s.0.leeway) }, s.1)
    pure token

  unfoldable pub exchange_token : Exec Failure (ServiceToken × W) String
  unfolding remember
  exchange_token = do
    s ← gets (λ s. s.0)
    reply ← call (record { url = s.url; headers = s.exchange_headers; body = exchange s.scopes })
    response ← raise_for_status reply
    minted ← parse_token response
    remember minted.0 minted.1

  -- the clock is read only if there is a token
  unfoldable pub ensure_token : Exec Failure (ServiceToken × W) String
  ensure_token = do
    s ← gets (λ s. s.0)
    elim s.token [
      | none ↦ exchange_token
      | some token ↦ do t ← now; if ltb t s.expires_at then pure token else exchange_token
    ]

  abbrev bearer : String → Headers
  bearer token = ("Authorization", String.◌++◌ "Bearer " token) ∷ []

  unfoldable pub service_headers : Exec Failure (ServiceToken × W) Headers
  service_headers = do token ← ensure_token; pure (bearer token)

  -- the methods of the protocol, dispatched on the class
  unfoldable pub headers : Exec Failure (InternalAuth × W) Headers
  headers (static_auth fixed, w) = (ok fixed, (static_auth fixed, w))
  headers (service_auth s, w) =
      let (result, (s', w')) = service_headers (s, w) in (result, (service_auth s', w'))

-- `true` where a retry is worthwhile
unfoldable pub invalidate : InternalAuth → Bool × InternalAuth
invalidate (static_auth fixed) = (false, static_auth fixed)
invalidate (service_auth s) = (true, service_auth (record s { token = none; expires_at = 0 }))
