-- ===== src/Deps/Closing.antt =====
-- fastapi_m8/_deps.py, `AuthDeps.close`, and the `close` methods that it reaches in
-- fastapi_m8/_revocation.py, fastapi_m8/_api_key.py and fastapi_m8/_internal_auth.py.
pub mod Laws
use fastapi_m.Base.{Option, none, some, List, [], ◌∷◌, ◌++◌, ◌≡◌, refl, ap, ◌∙◌, sym}
use fastapi_m.Base.Exec.{Result, ok, raise, Exec, pure, continue, ◌>>=◌, ◌>>◌}
use fastapi_m.InternalAuth.{InternalAuth, static_auth, service_auth}
use fastapi_m.Revocation.Client.{RevocationClient}
use fastapi_m.ApiKey.Client.{ApiKeyClient, Issuer}
use fastapi_m.Deps.Keys.{KeyPolicy}
use fastapi_m.Deps.Build.{ApiKeyDeps, AuthDeps}

-- the HTTP sessions of the process: each client has its own, and so has each exchanging provider
pub data HttpSession : Type 0 where
  revocation_session api_key_session : HttpSession
  exchange_of : HttpSession → HttpSession

-- the sessions that a provider owns, which belongs to the client with the session `s`
abbrev pub owned : HttpSession → InternalAuth → List HttpSession
owned s (static_auth headers) = []
owned s (service_auth token) = exchange_of s ∷ []

module _ {E W : Type 0} (aclose : HttpSession → Exec E W (Unit {0})) where
  -- `close` of the two providers
  unfoldable pub close_provider : HttpSession → InternalAuth → Exec E W (Unit {0})
  close_provider s (static_auth headers) = pure tt
  close_provider s (service_auth token) = aclose (exchange_of s)

  -- `close` of either client: its session, and then its provider
  unfoldable pub close_client : HttpSession → InternalAuth → Exec E W (Unit {0})
  close_client s auth = do aclose s; close_provider s auth

  unfoldable pub close_revocation : Option RevocationClient → Exec E W (Unit {0})
  close_revocation none = pure tt
  close_revocation (some c) = close_client revocation_session c.auth

  module _ {V P R : Type 0} {issuer : Issuer V P} {policy : KeyPolicy P R} where
    unfoldable pub close_api_key : Option (ApiKeyDeps issuer policy) → Exec E W (Unit {0})
    close_api_key none = pure tt
    close_api_key (some deps) = close_client api_key_session deps.client.auth

    -- `AuthDeps.close`
    unfoldable pub close : AuthDeps issuer policy → Exec E W (Unit {0})
    close deps = do close_revocation deps.revocation_client; close_api_key deps.api_key
