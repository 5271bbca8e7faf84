-- ===== src/App/Creation/Laws.antt =====
-- What holds of a created app: fastapi_m8/_app.py, `create_app`.
use fastapi_m.Base.{
  Bool, ℕ, String, ◌≡◌, ◌≢◌, ap, ◌∙◌, false, not, ◌&&◌, ◌||◌, none, [], ◌∷◌, ◌++◌, string_eq, any,
  arith, if◌then◌else◌,
}
use fastapi_m.Base.Exec.{Result, ok, raise, Exec}
use fastapi_m.Http.{codes}
use fastapi_m.Config.{ConsumerServiceSettings, is_production, build_service_meta}
use fastapi_m.Compat.{CompatState}
use fastapi_m.App.{AppState, init_app_state}
use fastapi_m.App.Startup.{ReuseError, Served, AppLifecycle, lifespan}
use fastapi_m.App.Startup.Laws.{Independent, lifespan-reused}
use fastapi_m.App.Factory.{
  Api, Environment, Arguments, FactoryError, create_api, credential_of, metrics_route, health_route,
  meta_routes, router, detail_authorizer, internal_token,
}
use fastapi_m.App.Factory.Wiring.{admits}
use fastapi_m.App.Factory.Laws.{create_api-admits, create_api_routes}
use fastapi_m.App.Creation.{Application, managed, with_lifespan, create_app}

module _ {E W X : Type 0} (check_config_health : Exec E W (Unit {0}))
    (configuration_error : ReuseError → E) (env : Environment) (s : ConsumerServiceSettings)
    (args : Arguments) (lc : AppLifecycle E W X) where
  with_lifespan_ok :
      (r : Result FactoryError Api × CompatState) (app : Application E W X) (state : CompatState)
      → with_lifespan check_config_health configuration_error env s args lc r ≡ (ok app, state)
      → (r ≡ (ok app.api, state))
        × (app.state ≡ init_app_state)
        × (app.lifecycle ≡ managed check_config_health configuration_error env s args lc)
  with_lifespan_ok (ok api, state') app state h = (ground arith, ground arith, ground arith)
  with_lifespan_ok (raise e, state') app state h = absurd (ground arith)

  module _ (app : Application E W X) (state state' : CompatState)
      (h : create_app check_config_health configuration_error env s args lc state
        ≡ (ok app, state')) where
    parts :
        (create_api env s args state ≡ (ok app.api, state'))
        × (app.state ≡ init_app_state)
        × (app.lifecycle ≡ managed check_config_health configuration_error env s args lc)
    unfolding create_app
    parts = with_lifespan_ok (create_api env s args state) app state' h

    -- An app that was created with allowed hosts, and without additions of the caller, lets a request
    -- through, whatever a pattern may match, exactly if its host matches one of the allowed hosts, or
    -- matches "testserver" where the configuration is not a production one.
    pub create_app-admits :
        (matches : String → String → Bool) (host : String)
        → args.configure ≡ none
        → s.allowed_hosts ≢ []
        → admits matches host app.api.middleware ≡ (
            any (λ pattern. matches pattern host) s.allowed_hosts
            || (not (is_production s) && matches "testserver" host))
    create_app-admits matches host plain ne =
        create_api-admits env s args app.api state state' matches host parts.0 plain ne

    -- The routes of a created app, in their order, where the caller adds nothing: the metrics, where
    -- they are on and can be had, behind the scrape credential; health, its details behind the caller's
    -- own predicate or else the detail credential; the service's identity; and the caller's router. An
    -- empty credential is none.
    create_app_routes :
        args.configure ≡ none
        → app.api.routes
          ≡ (((if s.inherited.metrics_enabled && env.observability
                  then metrics_route (credential_of s.metrics_scrape_credential) ∷ []
                  else [])
                ++ health_route (s.inherited.api_prefix ++ codes "/health/") (
                    if args.own_authorizer
                    then detail_authorizer
                    else internal_token (credential_of s.health_detail_credential))
                  ∷ [])
              ++ meta_routes (build_service_meta s) s.inherited.api_prefix ∷ [])
            ++ router ∷ []
    create_app_routes plain = create_api_routes env s args app.api state state' parts.0 plain

    -- A service whose private secret is used again, for health details or for metrics, never starts:
    -- the app can be created, but whatever the other validators, the extras and the traffic are, its
    -- lifespan raises before any traffic, and leaves it as it was created, not marked ready.
    pub create_app_reused :
        (monotonic : W → ℕ × W) (serve : Exec E (Served W X) (Unit {0})) (w : W)
        → ¬ Independent s
        → (e : E) × (w' : W) × (lifespan monotonic app.lifecycle serve (app.state, w)
            ≡ (raise e, (app.state, w')))
          × (app.state.service_ready ≡ false)
    unfolding init_app_state
    create_app_reused monotonic serve w bad =
        let (made, fresh, same) = parts in
        let (e, w', raised) =
          lifespan-reused monotonic lc check_config_health configuration_error s serve app.state w
            bad in
        (
          e,
          w',
          ap (λ l. lifespan monotonic l serve (app.state, w)) same ∙ raised,
          ap (λ (a : AppState X). a.service_ready) fresh,
        )
