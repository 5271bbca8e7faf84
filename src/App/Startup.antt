-- ===== src/App/Startup.antt =====
-- fastapi_m8/_app.py: the lifespan, and the startup check of the operational credentials. `E` is the
-- type of exceptions, and `W` the world that the caller's callables act on.
pub mod Laws
use fastapi_m.Base.{
  ℕ, String, Bool, true, false, not, ◌&&◌, Option, none, some, List, [], ◌∷◌, ◌==◌, string_eq,
  if◌then◌else◌,
}
use fastapi_m.Base.Exec.{
  Result, ok, raise, Exec, pure, fail, lift, handle, continue, within, ◌>>=◌, ◌>>◌,
}
use fastapi_m.Config.{ConsumerServiceSettings}
use fastapi_m.App.{AppState}

-- the two `ConfigurationError`s
pub data ReuseError : Type 0 where
  health_detail_reused metrics_scrape_reused : ReuseError

-- `cred and cred.get_secret_value() == pri_val`; an empty `SecretStr` is false
abbrev pub reuses : Option String → String → Bool
reuses none secret = false
reuses (some credential) secret = not (credential == "") && credential == secret

unfoldable pub check_credential_no_reuse : ConsumerServiceSettings → Result ReuseError (Unit {0})
check_credential_no_reuse s = elim s.private_api_secret [
  | none ↦ ok tt
  | some secret ↦
      if reuses s.health_detail_credential secret
      then raise health_detail_reused
      else if reuses s.metrics_scrape_credential secret
      then raise metrics_scrape_reused
      else ok tt
]

abbrev Action : Type 0 → Type 0 → Type 0
Action E W = Exec E W (Unit {0})

module _ {E W : Type 0} where
  -- `_build_config_health_validator`; `check_config_health` is the SDK's check of these settings
  unfoldable pub validate_config_health :
      (check_config_health : Action E W)
      → (configuration_error : ReuseError → E) → ConsumerServiceSettings
      → Action E W
  validate_config_health check_config_health configuration_error s = do
    check_config_health
    λ w. handle (λ e. fail (configuration_error e)) (lift (check_credential_no_reuse s) w)

  unfoldable pub run_startup : List (Action E W) → Action E W
  run_startup [] = pure tt
  run_startup (v ∷ rest) = do v; run_startup rest

  -- what is awaited where the object is there
  abbrev optional : Option (Action E W) → Action E W
  optional none = pure tt
  optional (some action) = action

abbrev pub Served : Type 0 → Type 0 → Type 0
Served W X = AppState X × W

module _ (E W X : Type 0) where
  -- an asynchronous context manager: `exit` is told the exception of its block, if there is one, and
  -- `true` is its way to swallow it
  pub record Extras : Type 0 where
    pub enter : Action E (Served W X)
    pub exit : Option E → Exec E (Served W X) Bool

  -- `auth_close` and `engine_dispose` are `auth_deps.close` and `db_engine.dispose`
  pub record AppLifecycle : Type 0 where
    pub auth_close : Option (Action E W)
    pub engine_dispose : Option (Action E W)
    pub startup_validators : List (Action E W)
    pub lifespan_extras : Option Extras

module _ {E W X : Type 0} (monotonic : W → ℕ × W) (lc : AppLifecycle E W X) where
  abbrev pub on_world : Action E W → Action E (Served W X)
  on_world = within (λ s. s.1) (λ w s. (s.0, w))

  abbrev mark_ready : Action E (Served W X)
  mark_ready (app, w) =
      let (t, w') = monotonic w in
      (ok tt, (record app { service_ready = true; ready_since = some t }, w'))

  unfoldable pub teardown : Action E W
  teardown = do optional lc.auth_close; optional lc.engine_dispose

  -- the way out of `async with lifespan_extras(app)`
  abbrev pub leave :
      Extras E W X → Result E (Unit {0}) × Served W X → Result E (Unit {0}) × Served W X
  leave extras (ok _, s) = continue (λ swallowed. pure tt) (extras.exit none s)
  leave extras (raise e, s) =
      continue (λ swallowed. if swallowed then pure tt else fail e) (extras.exit (some e) s)

  module _ (serve : Action E (Served W X)) where
    -- `_mark_ready(app)` and the `yield`, during which the app serves
    abbrev serve_ready : Action E (Served W X)
    serve_ready = do mark_ready; serve

    unfoldable pub serve_within : Option (Extras E W X) → Action E (Served W X)
    serve_within none = serve_ready
    serve_within (some extras) = do extras.enter; λ s. leave extras (serve_ready s)

    unfoldable pub lifespan : Action E (Served W X)
    lifespan = do
      on_world (run_startup lc.startup_validators)
      serve_within lc.lifespan_extras
      on_world teardown

-- the validators of `create_app`: the check of the configuration comes first
abbrev pub with_config_check :
    {E W X : Type 0} → Action E W → AppLifecycle E W X → AppLifecycle E W X
with_config_check validator lc = record lc {
  startup_validators = validator ∷ lc.startup_validators;
}
