-- ===== src/ApiKey/Tasks/Alone.antt =====
-- The requests of one call: fastapi_m8/_api_key.py, `_send`.
use fastapi_m.Base.{String, ◌≡◌, refl}
use fastapi_m.Base.Exec.{Result, ok, raise, handle}
use fastapi_m.Http.{http_status, connect, transport, other}
use fastapi_m.ApiKey.Client.{
  ApiKeyClient, Issuer, TransmitError, too_large, failed, Received, transmit, give_up, retry, send,
}

module _ {W P : Type 0} (issuer : Issuer W P) (key : String) where
  -- how the last request of a call ends: there is a second one only where no connection was made
  abbrev last_request :
      Result TransmitError Received × (ApiKeyClient × W)
      → Result TransmitError Received × (ApiKeyClient × W)
  last_request (raise (failed connect), s) = transmit issuer key s
  last_request r = r

  retry-last_request :
      (r : Result TransmitError Received × (ApiKeyClient × W))
      → handle (retry issuer key) r ≡ handle (give_up issuer) (last_request r)
  unfolding retry
  retry-last_request (ok r, s) = refl
  retry-last_request (raise too_large, s) = refl
  retry-last_request (raise (failed connect), s) = refl
  retry-last_request (raise (failed transport), s) = refl
  retry-last_request (raise (failed other), s) = refl
  retry-last_request (raise (failed (http_status code)), s) = refl

  -- Whatever comes before it, only the end of the last request decides how a call goes on.
  send_lem :
      (s : ApiKeyClient × W)
      → send issuer key s ≡ handle (give_up issuer) (last_request (transmit issuer key s))
  unfolding send
  send_lem s = retry-last_request (transmit issuer key s)
