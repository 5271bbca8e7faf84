-- ===== src/RouteAudit.antt =====
-- fastapi_m8/_route_audit.py. The routes of a built app are data; a callable is its identity.
pub mod Laws
use fastapi_m.Base.{
  ℕ, String, Bool, false, Option, none, some, List, [], ◌∷◌, ◌==◌, nat_eq, string_eq, if◌then◌else◌,
  any, elem,
}

-- `dependencies` are the calls of `route.dependant.dependencies`: the top level only
pub record ApiRoute : Type 0 where
  pub path : String
  pub methods : Option (List String)
  pub dependencies : List ℕ

-- an `APIRoute`, or a route of another class
pub data Route : Type 0 where
  api_route : ApiRoute → Route
  other_route : Route

pub record BareApiKeyDependency : Type 0 where
  pub path : String
  pub methods : List String

-- `route.methods or ()`
abbrev methods_of : Option (List String) → List String
methods_of none = []
methods_of (some methods) = methods

pub is_bare : (bare_dependency : ℕ) → (exempt : List String) → ApiRoute → Bool
is_bare bare_dependency exempt route =
    if elem route.path exempt
    then false
    else any (λ call. call == bare_dependency) route.dependencies

pub audit_api_key_routes :
    List Route → (bare_dependency : ℕ) → (exempt_paths : List String) → List BareApiKeyDependency
audit_api_key_routes [] bare_dependency exempt_paths = []
audit_api_key_routes (other_route ∷ rest) bare_dependency exempt_paths =
    audit_api_key_routes rest bare_dependency exempt_paths
audit_api_key_routes (api_route route ∷ rest) bare_dependency exempt_paths =
    let findings = audit_api_key_routes rest bare_dependency exempt_paths in
    if is_bare bare_dependency exempt_paths route
    then record { path = route.path; methods = methods_of route.methods } ∷ findings
    else findings
