-- ===== src/App/Factory.antt =====
-- fastapi_m8/_app.py: what `create_app` puts together of middleware and
-- routes. A middleware and a route are data: what they do to a request is Starlette's and the SDK's.
pub mod Wiring
pub mod Laws
use fastapi_m.Base.{
  ℕ, String, Bool, true, false, not, ◌&&◌, Option, none, some, List, [], ◌∷◌, ◌++◌, ◌==◌, string_eq,
  elem, if◌then◌else◌,
}
use fastapi_m.Base.Exec.{Result, ok, raise, continue}
use fastapi_m.Base.Dict.{Dict}
use fastapi_m.Http.{Url, codes}
use fastapi_m.Config.{
  ConsumerServiceSettings, ServiceMeta, or_else, is_production, build_service_meta,
}
use fastapi_m.Compat.{Installed, Requirements, CompatState, CompatError, assert_compat}

pub data Middleware : Type 0 where
  cors :
      (allow_origins : List String) (allow_credentials : Bool)
      (allow_methods allow_headers : List String) (max_age : ℕ)
      → Middleware
  trusted_host : (allowed_hosts : List String) → Middleware
  -- what the SDK's `add_security_headers_middleware` adds
  security_headers : Middleware
  metrics : (groups : String) (api_prefix : List ℕ) → Middleware

-- what decides who may see the details of health: the caller's own predicate, or the SDK's comparison
-- with a credential, which lets nobody in where there is none
pub data Authorizer : Type 0 where
  detail_authorizer : Authorizer
  internal_token : Option String → Authorizer

pub data Route : Type 0 where
  metrics_route : (scrape_credential : Option String) → Route
  health_route : (path : Url) (authorize : Authorizer) → Route
  meta_routes : (served : ServiceMeta) (api_prefix : Url) → Route
  router : Route

pub record Api : Type 0 where
  pub title : String
  pub version : String
  pub openapi_url : Option Url
  pub docs_url : Option Url
  pub redoc_url : Option Url
  pub middleware : List Middleware
  pub routes : List Route

-- a `SecretStr` that is set and not empty
abbrev pub credential_of : Option String → Option String
credential_of none = none
credential_of (some credential) = if credential == "" then none else some credential

abbrev under : Url → String → Bool → Option Url
under api_prefix path shown = if shown then some (api_prefix ++ codes path) else none

module _ (s : ConsumerServiceSettings) where
  open s use {inherited}

  -- `FastAPI(**_openapi_config(...))`
  unfoldable pub openapi_config : (service_name service_version : Option String) → Api
  openapi_config service_name service_version = record {
    title = or_else service_name s.project_name;
    version = or_else service_version s.service_version;
    openapi_url = under inherited.api_prefix "/openapi.json" inherited.effective_set_open_api;
    docs_url = under inherited.api_prefix "/docs" inherited.effective_set_docs;
    redoc_url = under inherited.api_prefix "/redoc" inherited.effective_set_redoc;
    middleware = [];
    routes = [];
  }

  abbrev pub add_middleware : Middleware → Api → Api
  add_middleware m app = record app { middleware = app.middleware ++ m ∷ [] }

  abbrev pub add_route : Route → Api → Api
  add_route r app = record app { routes = app.routes ++ r ∷ [] }

  unfoldable pub add_cors_middleware : Api → Api
  add_cors_middleware = add_middleware (
      cors inherited.allowed_origins true
        ("GET" ∷ "POST" ∷ "PUT" ∷ "PATCH" ∷ "DELETE" ∷ "OPTIONS" ∷ [])
        ("Authorization" ∷ "Content-Type" ∷ "X-Requested-With" ∷ []) 3600)

  -- the hosts of `_add_trusted_host_middleware`
  unfoldable pub trusted_hosts : List String → List String
  trusted_hosts hosts =
      if not (is_production s) && not (elem "testserver" hosts)
      then hosts ++ "testserver" ∷ []
      else hosts

  unfoldable pub add_trusted_host_middleware : Api → Api
  unfolding trusted_hosts
  add_trusted_host_middleware app = elim s.allowed_hosts [
    | [] ↦ app
    | host ∷ hosts ↦ add_middleware (trusted_host (trusted_hosts (host ∷ hosts))) app
  ]

  module _ (observability : Bool) where
    -- `observability` says that the SDK's extra of that name is installed
    unfoldable pub add_metrics_middleware : Api → Api
    add_metrics_middleware app =
        if inherited.metrics_enabled && observability
        then add_middleware (metrics inherited.metrics_groups inherited.api_prefix) app
        else app

    unfoldable pub register_metrics_route : Api → Api
    register_metrics_route app =
        if inherited.metrics_enabled && observability
        then add_route (metrics_route (credential_of s.metrics_scrape_credential)) app
        else app

  unfoldable pub build_default_authorizer : Authorizer
  build_default_authorizer = internal_token (credential_of s.health_detail_credential)

  -- `own` says that the caller configured a predicate
  unfoldable pub register_health_route : (own : Bool) → Api → Api
  register_health_route own app =
      let authorize = if own then detail_authorizer else build_default_authorizer in
      add_route (health_route (inherited.api_prefix ++ codes "/health/") authorize) app

-- what `create_app` raises
pub data FactoryError : Type 0 where
  compat : CompatError → FactoryError
  invalid_meta : FactoryError

-- what the environment supplies: the installed versions, the SDK's extra, and the SDK's validation of
-- `ServiceMeta`
pub record Environment : Type 0 where
  pub installed : Installed
  pub matrix : Dict Requirements
  pub minor : String
  pub observability : Bool
  pub is_valid : ServiceMeta → Bool

-- the arguments of `create_app` that the API is made of
pub record Arguments : Type 0 where
  pub service_name : Option String
  pub service_version : Option String
  pub own_authorizer : Bool
  pub configure : Option (Api → Api)

module _ (env : Environment) (s : ConsumerServiceSettings) (args : Arguments) where
  -- from the constructor to the health route
  unfoldable pub wire : Api
  wire = register_health_route s args.own_authorizer (
      register_metrics_route s env.observability (
        add_metrics_middleware s env.observability (
          add_middleware s security_headers (
            add_trusted_host_middleware s
              (add_cors_middleware s (openapi_config s args.service_name args.service_version))))))

  -- `_register_meta_routes`
  unfoldable pub register_meta_routes : Api → Result FactoryError Api
  register_meta_routes app =
      let served = build_service_meta s in
      if env.is_valid served
      then ok (add_route s (meta_routes served s.inherited.api_prefix) app)
      else raise invalid_meta

  abbrev pub configured : Api → Api
  configured app = elim args.configure [ none ↦ app | some configure ↦ configure app ]

  abbrev finish : Result FactoryError Api → Result FactoryError Api
  finish (ok app) = ok (configured (add_route s router app))
  finish (raise e) = raise e

  abbrev pub assemble :
      Result CompatError (Unit {0}) × CompatState → Result FactoryError Api × CompatState
  assemble (raise e, state) = (raise (compat e), state)
  assemble (ok _, state) = (finish (register_meta_routes wire), state)

  -- `create_app` without its lifespan and `app.state`
  unfoldable pub create_api : CompatState → Result FactoryError Api × CompatState
  create_api state = assemble (assert_compat env.installed env.matrix env.minor state)
