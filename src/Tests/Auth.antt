-- ===== src/Tests/Auth.antt =====
-- Runs of fastapi_m8/_internal_auth.py and fastapi_m8/config.py.
use fastapi_m.Base.{◌≡◌, ◌↔◌, refl, some, [], ◌++◌, string_eq}
use fastapi_m.Base.Exec.{ok}
use fastapi_m.Http.{codes}
use fastapi_m.Endpoints.{
  rstrip, same, without_suffix, jti_status_suffix, service_token_suffix, api_key_introspect_suffix,
  derive_service_token_url, derive_api_key_introspection_url,
}
use fastapi_m.Endpoints.Laws.{slashes, derived_endpoints}
use fastapi_m.InternalAuth.{
  ServiceToken, service_token, exchange_token, ensure_token, service_headers, headers,
}
use fastapi_m.Config.{validate_api_key_introspection, validate_consumer_private_auth, construct}
use fastapi_m.Config.Validation.{IsCoherent, construct_iff}
use fastapi_m.Tests.Data.{net, settings, supported}

program : Unit {0}
unfolding exchange_token ensure_token service_headers headers service_token
    validate_api_key_introspection validate_consumer_private_auth construct rstrip same
    without_suffix
program = tt

abbrev fresh : ServiceToken
fresh = service_token "shop" "secret" [] [] 5

abbrev cached : ServiceToken
cached = record fresh { token = some "minted"; expires_at = 61 }

minted : ensure_token net (fresh, 5) ≡ (ok "minted", (cached, 7))
unfolding program
minted = refl

construct_iff_example :
    (construct 1 supported settings ≡ ok settings) ↔ IsCoherent 1 supported settings
construct_iff_example = construct_iff 1 supported settings

derived_endpoints_example :
    (derive_service_token_url (codes "https://auth" ++ (jti_status_suffix ++ slashes 2))
      ≡ rstrip (codes "https://auth") ++ service_token_suffix)
    × (derive_api_key_introspection_url (codes "https://auth" ++ (jti_status_suffix ++ slashes 2))
        ≡ rstrip (codes "https://auth") ++ api_key_introspect_suffix)
derived_endpoints_example = derived_endpoints (codes "https://auth") 2
