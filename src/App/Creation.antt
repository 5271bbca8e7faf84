-- ===== src/App/Creation.antt =====
-- fastapi_m8/_app.py, `create_app`: the middleware and the routes, with `app.state` and the lifespan.
pub mod Laws
use fastapi_m.Base.{String, Option}
use fastapi_m.Base.Exec.{Result, ok, raise, Exec}
use fastapi_m.Config.{ConsumerServiceSettings}
use fastapi_m.Compat.{CompatState}
use fastapi_m.App.{AppState, init_app_state}
use fastapi_m.App.Startup.{ReuseError, AppLifecycle, validate_config_health, with_config_check}
use fastapi_m.App.Factory.{Api, Environment, Arguments, FactoryError, create_api}

-- the app that is returned; its lifespan is the one of `lifecycle`
pub record Application (E W X : Type 0) : Type 0 where
  pub api : Api
  pub state : AppState X
  pub lifecycle : AppLifecycle E W X

module _ {E W X : Type 0} (check_config_health : Exec E W (Unit {0}))
    (configuration_error : ReuseError → E) (env : Environment) (s : ConsumerServiceSettings)
    (args : Arguments) (lc : AppLifecycle E W X) where
  -- what the lifespan of the app runs
  abbrev pub managed : AppLifecycle E W X
  managed = with_config_check (validate_config_health check_config_health configuration_error s) lc

  abbrev pub with_lifespan :
      Result FactoryError Api × CompatState → Result FactoryError (Application E W X) × CompatState
  with_lifespan (ok api, state) =
      (ok (record { api = api; state = init_app_state; lifecycle = managed }), state)
  with_lifespan (raise e, state) = (raise e, state)

  unfoldable pub create_app : CompatState → Result FactoryError (Application E W X) × CompatState
  create_app state = with_lifespan (create_api env s args state)
