-- ===== src/App/Factory/Wiring.antt =====
-- The middleware and the routes that `create_app` of fastapi_m8/_app.py wires.
use fastapi_m.Base.{
  String, ◌≡◌, ◌≢◌, refl, ap, ◌∙◌, Bool, true, not, ◌&&◌, ◌||◌, List, [], ◌∷◌, ◌++◌, ◌==◌,
  string_eq, eq_iff, elem, any, inl, inr, arith, if◌then◌else◌, Bool-cases,
}
use fastapi_m.Http.{codes}
use fastapi_m.Config.{ConsumerServiceSettings, is_production}
use fastapi_m.App.Factory.{
  Middleware, cors, trusted_host, security_headers, metrics, detail_authorizer, internal_token,
  metrics_route, health_route, Api, credential_of, add_middleware, trusted_hosts, Environment,
  Arguments, wire, add_cors_middleware, add_trusted_host_middleware, add_metrics_middleware,
  register_metrics_route, register_health_route, openapi_config, build_default_authorizer,
}

-- The requests that the middleware lets through, by their host. `matches` is what Starlette's
-- `TrustedHostMiddleware` takes a pattern of its list for: a host of that name, or a wildcard.
abbrev pub admits : (matches : String → String → Bool) → (host : String) → List Middleware → Bool
admits matches host [] = true
admits matches host (trusted_host patterns ∷ rest) =
    any (λ pattern. matches pattern host) patterns && admits matches host rest
admits matches host (_ ∷ rest) = admits matches host rest

any-append :
    (p : String → Bool) (y : String) (l : List String) → any p (l ++ y ∷ []) ≡ (any p l || p y)
any-append p y [] = ground arith
any-append p y (z ∷ l) = ground (arith, any-append p y l)

any-elem :
    (p : String → Bool) (x : String) (l : List String)
    → elem x l ≡ true
    → p x ≡ true
    → any p l ≡ true
any-elem p x [] e h = absurd (ground arith)
any-elem p x (y ∷ l) e h = elim (Bool-cases (y == x)) [
  | inl same ↦ let here : p y ≡ true = ap p ((eq_iff y x).0 same) ∙ h in ground (arith, here)
  | inr differs ↦ let later = any-elem p x l (ground arith) h in ground (arith, later)
]

admits-append :
    (matches : String → String → Bool) (host : String) (ms : List Middleware) (m : Middleware)
    → admits matches host (ms ++ m ∷ []) ≡ (admits matches host ms && admits matches host (m ∷ []))
admits-append matches host [] m = refl
admits-append matches host (cors a b c d e ∷ ms) m = admits-append matches host ms m
admits-append matches host (trusted_host patterns ∷ ms) m =
    ground (arith, admits-append matches host ms m)
admits-append matches host (security_headers ∷ ms) m = admits-append matches host ms m
admits-append matches host (metrics a b ∷ ms) m = admits-append matches host ms m

module _ (s : ConsumerServiceSettings) where
  any-trusted_hosts :
      (p : String → Bool) (hosts : List String)
      → any p (trusted_hosts s hosts) ≡ (any p hosts || (not (is_production s) && p "testserver"))
  unfolding trusted_hosts
  any-trusted_hosts p hosts = elim (Bool-cases (elem "testserver" hosts)) [
    | inr absent ↦ ground (arith, any-append p "testserver" hosts, Bool-cases (is_production s))
    | inl there ↦ elim (Bool-cases (p "testserver")) [
      | inl meant ↦ let found = any-elem p "testserver" hosts there meant in ground arith
      | inr other ↦ ground (arith, Bool-cases (is_production s))
    ]
  ]

  middleware-add_trusted_host :
      (app : Api) (hosts : List String)
      → s.allowed_hosts ≡ hosts
      → hosts ≢ []
      → (add_trusted_host_middleware s app).middleware
        ≡ app.middleware ++ trusted_host (trusted_hosts s hosts) ∷ []
  unfolding add_trusted_host_middleware
  middleware-add_trusted_host app [] e ne = absurd (ne refl)
  middleware-add_trusted_host app (host ∷ hosts) e ne = ground arith

  admits-add_metrics :
      (matches : String → String → Bool) (observability : Bool) (app : Api) (host : String)
      → admits matches host (add_metrics_middleware s observability app).middleware
        ≡ admits matches host app.middleware
  unfolding add_metrics_middleware
  admits-add_metrics matches observability app host = ground (
    arith,
    admits-append matches host app.middleware
        (metrics s.inherited.metrics_groups s.inherited.api_prefix),
    Bool-cases (s.inherited.metrics_enabled && observability),
  )

  middleware-register_metrics :
      (observability : Bool) (app : Api)
      → (register_metrics_route s observability app).middleware ≡ app.middleware
  unfolding register_metrics_route
  middleware-register_metrics observability app =
      ground (arith, Bool-cases (s.inherited.metrics_enabled && observability))

  routes-add_metrics :
      (observability : Bool) (app : Api)
      → (add_metrics_middleware s observability app).routes ≡ app.routes
  unfolding add_metrics_middleware
  routes-add_metrics observability app =
      ground (arith, Bool-cases (s.inherited.metrics_enabled && observability))

  routes-add_trusted_host :
      (app : Api) (hosts : List String)
      → s.allowed_hosts ≡ hosts
      → (add_trusted_host_middleware s app).routes ≡ app.routes
  unfolding add_trusted_host_middleware
  routes-add_trusted_host app [] e = ground arith
  routes-add_trusted_host app (host ∷ hosts) e = ground arith

module _ (env : Environment) (s : ConsumerServiceSettings) (args : Arguments) where
  -- the app before its metrics
  abbrev protected : Api
  protected = add_middleware s security_headers (
      add_trusted_host_middleware s
        (add_cors_middleware s (openapi_config s args.service_name args.service_version)))

  abbrev counted : Api
  counted = add_metrics_middleware s env.observability protected

  admits-protected :
      (matches : String → String → Bool) (host : String)
      → s.allowed_hosts ≢ []
      → admits matches host protected.middleware ≡ (
          any (λ pattern. matches pattern host) s.allowed_hosts
          || (not (is_production s) && matches "testserver" host))
  unfolding add_cors_middleware openapi_config
  admits-protected matches host ne =
      let app = add_cors_middleware s (openapi_config s args.service_name args.service_version) in
      ap (λ ms. admits matches host (ms ++ security_headers ∷ []))
        (middleware-add_trusted_host s app s.allowed_hosts refl ne)
      ∙ ground (arith, any-trusted_hosts s (λ pattern. matches pattern host) s.allowed_hosts)

  pub wire-admits :
      (matches : String → String → Bool) (host : String)
      → s.allowed_hosts ≢ []
      → admits matches host (wire env s args).middleware ≡ (
          any (λ pattern. matches pattern host) s.allowed_hosts
          || (not (is_production s) && matches "testserver" host))
  unfolding wire register_health_route
  wire-admits matches host ne =
      ap (admits matches host) (middleware-register_metrics s env.observability counted)
      ∙ admits-add_metrics s matches env.observability protected host
      ∙ admits-protected matches host ne

  routes-counted : counted.routes ≡ []
  unfolding add_cors_middleware openapi_config
  routes-counted =
      routes-add_metrics s env.observability protected
      ∙ routes-add_trusted_host s
          (add_cors_middleware s (openapi_config s args.service_name args.service_version))
          s.allowed_hosts refl

  pub routes-wire :
      (wire env s args).routes
      ≡ (if s.inherited.metrics_enabled && env.observability
          then metrics_route (credential_of s.metrics_scrape_credential) ∷ []
          else [])
        ++ health_route (s.inherited.api_prefix ++ codes "/health/") (
            if args.own_authorizer
            then detail_authorizer
            else internal_token (credential_of s.health_detail_credential))
          ∷ []
  unfolding wire register_health_route register_metrics_route build_default_authorizer
  routes-wire =
      ground (arith, routes-counted, Bool-cases (s.inherited.metrics_enabled && env.observability))
