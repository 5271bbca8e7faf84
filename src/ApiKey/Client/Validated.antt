-- ===== src/ApiKey/Client/Validated.antt =====
-- The request of a call, before anything is asked: fastapi_m8/_api_key.py, `introspect`.
use fastapi_m.Base.{String, ◌≡◌, refl, true, false}
use fastapi_m.Base.Exec.{raise}
use fastapi_m.Http.{other}
use fastapi_m.ApiKey.Client.{ApiKeyClient, Issuer, uncaught, ask_issuer, introspect}

module _ {W P : Type 0} (issuer : Issuer W P) (key : String) (c : ApiKeyClient) (w : W) where
  pub introspect_valid :
      issuer.is_request key c.schema_version ≡ true
      → introspect issuer key (c, w) ≡ ask_issuer issuer key (c, w)
  unfolding introspect
  introspect_valid valid = rw valid refl

  pub introspect_invalid :
      issuer.is_request key c.schema_version ≡ false
      → introspect issuer key (c, w) ≡ (raise (uncaught other), (c, w))
  unfolding introspect
  introspect_invalid bad = rw bad refl
