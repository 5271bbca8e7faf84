-- ===== src/App/Factory/Laws.antt =====
-- The middleware and the routes of a created app: fastapi_m8/_app.py, `create_app`.
use fastapi_m.Base.{
  Bool, String, ◌≡◌, ◌≢◌, ◌↔◌, refl, ap, ◌∙◌, true, not, ◌&&◌, ◌||◌, Option, none, some, [], ◌∷◌,
  ◌++◌, string_eq, any, arith, if◌then◌else◌, Bool-cases, inl, inr,
}
use fastapi_m.Base.Exec.{Result, ok, raise}
use fastapi_m.Http.{codes}
use fastapi_m.Config.{ConsumerServiceSettings, is_production, build_service_meta}
use fastapi_m.Compat.{CompatError, CompatState, assert_compat}
use fastapi_m.App.Factory.{
  detail_authorizer, internal_token, metrics_route, health_route, meta_routes, router, Api,
  credential_of, add_route, Environment, Arguments, wire, register_meta_routes, configured,
  assemble, create_api,
}
use fastapi_m.App.Factory.Wiring.{admits, wire-admits, routes-wire}

module _ (env : Environment) (s : ConsumerServiceSettings) (args : Arguments) where
  -- the app before the caller's own additions
  abbrev pub served : Api
  served =
      add_route s router
        (add_route s (meta_routes (build_service_meta s) s.inherited.api_prefix) (wire env s args))

  assemble_valid :
      (state : CompatState)
      → env.is_valid (build_service_meta s) ≡ true
      → assemble env s args (ok tt, state) ≡ (ok (configured env s args served), state)
  unfolding register_meta_routes
  assemble_valid state valid = rw valid refl

  assemble_ok :
      (r : Result CompatError (Unit {0}) × CompatState) (app : Api) (state : CompatState)
      → assemble env s args r ≡ (ok app, state)
      → (r ≡ (ok tt, state))
        × (env.is_valid (build_service_meta s) ≡ true)
        × (app ≡ configured env s args served)
  unfolding register_meta_routes
  assemble_ok (raise e, state') app state h = absurd (ground arith)
  assemble_ok (ok tt, state') app state h =
      elim (Bool-cases (env.is_valid (build_service_meta s))) [
        | inl valid ↦ (ground arith, valid, ground (arith, assemble_valid state' valid))
        | inr bad ↦ absurd (ground arith)
      ]

  -- `create_api` gives an app exactly if the compatibility guard passes and the settings declare a
  -- valid identity of the service.
  create_api_iff :
      (state : CompatState)
      → ((app : Api) × (state' : CompatState) × (create_api env s args state ≡ (ok app, state')))
        ↔ (((state' : CompatState) × (assert_compat env.installed env.matrix env.minor state
                ≡ (ok tt, state')))
            × (env.is_valid (build_service_meta s) ≡ true))
  unfolding create_api
  create_api_iff state = (
    λ (app, state', h).
        let (passed, valid, same) = assemble_ok _ app state' h in ((state', passed), valid),
    λ ((state', passed), valid).
        (_, state', ap (assemble env s args) passed ∙ assemble_valid state' valid),
  )

  module _ (app : Api) (state state' : CompatState) where
    created : create_api env s args state ≡ (ok app, state') → args.configure ≡ none → app ≡ served
    unfolding create_api
    created h plain =
        let (passed, valid, same) = assemble_ok _ app state' h in
        same ∙ ap (λ (c : Option (Api → Api)). elim c [ none ↦ served | some f ↦ f served ]) plain

    pub create_api-admits :
        (matches : String → String → Bool) (host : String)
        → create_api env s args state ≡ (ok app, state')
        → args.configure ≡ none
        → s.allowed_hosts ≢ []
        → admits matches host app.middleware ≡ (
            any (λ pattern. matches pattern host) s.allowed_hosts
            || (not (is_production s) && matches "testserver" host))
    create_api-admits matches host h plain ne =
        ap (λ a. admits matches host a.middleware) (created h plain)
        ∙ wire-admits env s args matches host ne

    pub create_api_routes :
        create_api env s args state ≡ (ok app, state')
        → args.configure ≡ none
        → app.routes
          ≡ (((if s.inherited.metrics_enabled && env.observability
                  then metrics_route (credential_of s.metrics_scrape_credential) ∷ []
                  else [])
                ++ health_route (s.inherited.api_prefix ++ codes "/health/") (
                    if args.own_authorizer
                    then detail_authorizer
                    else internal_token (credential_of s.health_detail_credential))
                  ∷ [])
              ++ meta_routes (build_service_meta s) s.inherited.api_prefix ∷ [])
            ++ router ∷ []
    create_api_routes h plain =
        ap (λ a. a.routes) (created h plain)
        ∙ ap
            (λ rs.
              (rs ++ meta_routes (build_service_meta s) s.inherited.api_prefix ∷ []) ++ router ∷ [])
            (routes-wire env s args)
