-- ===== src/Tests/Services.antt =====
-- Runs of fastapi_m8/_service_client.py, fastapi_m8/_route_audit.py and fastapi_m8/_compat.py.
use fastapi_m.Base.{
  String, ◌≡◌, ◌≢◌, ◌↔◌, refl, true, false, Option, none, some, List, [], ◌∷◌, All, ◌==◌, string_eq,
}
use fastapi_m.Base.Dict.{lookup}
use fastapi_m.Base.Exec.{ok}
use fastapi_m.ServiceClient.{
  Credential, Registry, Guard, RequiredScopes, iterable, checked, normalise_required_scopes,
  service_client, build_service_client_guard,
}
use fastapi_m.ServiceClient.Laws.{Held, service_client-Held}
use fastapi_m.RouteAudit.{Route, api_route, other_route, audit_api_key_routes}
use fastapi_m.RouteAudit.Laws.{Passes, audit_clean}
use fastapi_m.Compat.{
  Requirements, compat_matrix, Installed, CompatState, check_requirements, assert_compat,
}
use fastapi_m.Compat.Laws.{IsMet, assert_compat-IsMet}

program : Unit {0}
unfolding checked normalise_required_scopes service_client build_service_client_guard
    check_requirements assert_compat lookup
program = tt

abbrev worker : Credential
worker = record { client_id = "worker"; has_scope = λ scope. scope == "execute:ocr" }

abbrev registry : Registry
registry = record { verify = λ client_id secret. some worker }

abbrev required : RequiredScopes
required = iterable (some "execute:ocr" ∷ [])

abbrev guard : Guard
guard = service_client registry ("execute:ocr" ∷ [])

built : build_service_client_guard registry required ≡ ok guard
unfolding program
built = refl

entered : guard (some "worker") (some "secret") ≡ ok "worker"
unfolding program
entered = refl

service_client-Held_example :
    (credential : Credential) × (registry.verify (some "worker") (some "secret") ≡ some credential)
    × (credential.client_id ≡ "worker")
    × (names : List (Option String)) × (required ≡ iterable names)
    × (names ≢ [])
    × All (Held credential) names
service_client-Held_example =
    service_client-Held registry required guard (some "worker") (some "secret") "worker" built
      entered

abbrev routes : List Route
routes =
    api_route (record { path = "/verify"; methods = some ("GET" ∷ []); dependencies = 1 ∷ [] })
    ∷ api_route (record { path = "/orders"; methods = none; dependencies = 2 ∷ [] })
    ∷ other_route
    ∷ []

audit_clean_example :
    (audit_api_key_routes routes 1 ("/verify" ∷ []) ≡ []) ↔ All (Passes 1 ("/verify" ∷ [])) routes
audit_clean_example = audit_clean routes 1 ("/verify" ∷ [])

abbrev installed : Installed
installed = record {
  version = λ dist. some "3.2.1";
  contains = λ spec found. spec == ">=3.2.1,<4.0.0";
}

abbrev unchecked : CompatState
unchecked = record { checked = false; auth_version = none }

abbrev done : CompatState
done = record { checked = true; auth_version = some "3.2.1" }

started : assert_compat installed compat_matrix "4.6" unchecked ≡ (ok tt, done)
unfolding program
started = refl

assert_compat-IsMet_example :
    ((reqs : Requirements) × (lookup "4.6" compat_matrix ≡ some reqs) × All (IsMet installed) reqs)
    × (assert_compat installed compat_matrix "4.6" done ≡ (ok tt, done))
assert_compat-IsMet_example =
    assert_compat-IsMet installed installed compat_matrix "4.6" unchecked done refl started
