-- ===== src/ApiKey/Client/Uncaught.antt =====
-- An exception of the credentials that is no HTTP error: fastapi_m8/_api_key.py, `_send`.
use fastapi_m.Base.{String, ◌≡◌, ◌∙◌, refl, true, none, arith}
use fastapi_m.Base.Exec.{raise}
use fastapi_m.Http.{other}
use fastapi_m.InternalAuth.{InternalAuth, headers}
use fastapi_m.ApiKey.Client.Validated.{introspect_valid}
use fastapi_m.ApiKey.Client.{
  ApiKeyClient, Issuer, uncaught, failed, transmit, retry, give_up, send, send_in_slot, admit,
  ask_issuer, introspect,
}

module _ {W P : Type 0} (issuer : Issuer W P) where
  transmit_uncaught :
      (key : String) (c : ApiKeyClient) (auth' : InternalAuth) (w w' : W)
      → headers issuer.net (c.auth, w) ≡ (raise other, (auth', w'))
      → transmit issuer key (c, w) ≡ (raise (failed other), (record c { auth = auth' }, w'))
  unfolding transmit
  transmit_uncaught key c auth' w w' failing = ground (arith, failing)

  send_uncaught :
      (key : String) (c : ApiKeyClient) (auth' : InternalAuth) (w w' : W)
      → headers issuer.net (c.auth, w) ≡ (raise other, (auth', w'))
      → send issuer key (c, w) ≡ (raise (uncaught other), (record c { auth = auth' }, w'))
  unfolding send retry give_up
  send_uncaught key c auth' w w' failing = rw (transmit_uncaught key c auth' w w' failing) refl

  -- With a valid request, the circuit closed and a slot granted, an exception of the credentials that is no HTTP error,
  -- such as a malformed reply of the token exchange, leaves `introspect` as it is, not as one of its
  -- own two errors; the slot is given back, and the breaker does not count it.
  pub introspect_uncaught :
      (key : String) (c : ApiKeyClient) (auth' : InternalAuth) (w w' : W)
      → issuer.is_request key c.schema_version ≡ true
      → c.breaker.opened_at ≡ none
      → (issuer.acquire w).0 ≡ true
      → headers issuer.net (c.auth, (issuer.acquire w).1) ≡ (raise other, (auth', w'))
      → introspect issuer key (c, w)
        ≡ (raise (uncaught other), (record c { auth = auth' }, issuer.release w'))
  unfolding ask_issuer admit send_in_slot
  introspect_uncaught key c auth' w w' valid closed granted failing =
      introspect_valid issuer key c w valid
      ∙ ground (arith, closed, granted, send_uncaught key c auth' (issuer.acquire w).1 w' failing)
