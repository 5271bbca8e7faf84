-- ===== src/Tests/App.antt =====
-- Runs of fastapi_m8/_app.py.
use fastapi_m.Base.{
  Bool, ℕ, zero, suc, ◌<◌, String, ◌≡◌, ◌≢◌, refl, true, false, not, ◌&&◌, ◌||◌, none, some, [],
  ◌∷◌, arith, ◌==◌, string_eq, any, length, if◌then◌else◌, eq_iff,
}
use mathlib.Core.List.{Memᴰ}
use mathlib.Core.List.Memᴰ.{head, tail}
use fastapi_m.Base.Dict.{lookup}
use fastapi_m.Base.Exec.{ok, raise, Exec, pure}
use fastapi_m.Http.{codes}
use fastapi_m.Compat.{CompatState, Installed, compat_matrix, check_requirements, assert_compat}
use fastapi_m.Config.{ConsumerServiceSettings, is_production}
use fastapi_m.Health.{
  HealthCheckResult, overall, aggregate, lenient, returned, timed_out, run_check,
}
use fastapi_m.Health as Health
use fastapi_m.App.{HealthCache, AppState, init_app_state}
use fastapi_m.App.Startup.{ReuseError, Served, AppLifecycle, lifespan}
use fastapi_m.App.Startup.Laws.{Independent, Started, lifespan-Started}
use fastapi_m.App.HealthRoute.{
  HealthConfig, Completion, HealthWorld, Identity, unfilled, put_at, run_tasks, filled, remember,
  run_all, consult, gather_health_results, health,
}
use fastapi_m.App.HealthRoute.Laws.{HasConsistent, Told, health-Told}
use fastapi_m.App.HealthRoute.Order.{IsComplete, get_elem?, result_of, run_all_any_order}
use fastapi_m.App.Factory.{
  Environment, Arguments, create_api, wire, openapi_config, add_cors_middleware, trusted_hosts,
  add_trusted_host_middleware, add_metrics_middleware, register_metrics_route,
  register_health_route, build_default_authorizer, register_meta_routes,
}
use fastapi_m.App.Factory.Wiring.{admits}
use fastapi_m.App.Factory.Laws.{served}
use fastapi_m.App.Creation.{Application, managed, create_app}
use fastapi_m.App.Creation.Laws.{create_app-admits, create_app_reused}
use fastapi_m.Tests.Data.{settings}

program : Unit {0}
unfolding init_app_state unfilled put_at run_tasks filled remember run_all consult
    gather_health_results run_check create_app create_api wire openapi_config add_cors_middleware
    trusted_hosts add_trusted_host_middleware add_metrics_middleware register_metrics_route
    register_health_route build_default_authorizer register_meta_routes check_requirements
    assert_compat lookup aggregate overall
program = tt

abbrev clock : ℕ → ℕ × ℕ
clock w = (w, suc w)

-- one validator that passes
abbrev lifecycle : AppLifecycle String ℕ ℕ
lifecycle = record {
  auth_close = none;
  engine_dispose = none;
  startup_validators = pure tt ∷ [];
  lifespan_extras = none;
}

abbrev fresh : AppState ℕ
fresh = record { service_ready = false; ready_since = none; health_cache = none }

-- traffic that fails where the app is not ready, and traffic that does not look
abbrev careful : Exec String (Served ℕ ℕ) (Unit {0})
careful (app, w) = if app.service_ready then (ok tt, (app, suc w)) else (raise "early", (app, w))

abbrev careless : Exec String (Served ℕ ℕ) (Unit {0})
careless (app, w) = (ok tt, (app, suc w))

agree : (s : Served ℕ ℕ) → Started clock lifecycle 3 s → careful s ≡ careless s
agree s h = ground (arith, h.0)

lifespan-Started_example :
    lifespan clock lifecycle careful (fresh, 3) ≡ lifespan clock lifecycle careless (fresh, 3)
lifespan-Started_example = lifespan-Started clock lifecycle careful careless fresh 3 agree

abbrev reusing : ConsumerServiceSettings
reusing = record settings { health_detail_credential = some "secret" }

abbrev secret : String
secret = "secret"

secret_ne : secret ≢ ""
secret_ne e = absurd (ground (arith, eq_iff "secret" ""))

reusing_dependent : ¬ Independent reusing
reusing_dependent h = (h "secret" refl secret_ne).0 refl

abbrev up : HealthCheckResult ℕ
up = record { name = "db"; status = Health.ok; latency_ms = none; error = none; meta = none }

-- two checks, the second of which ends first, by its timeout
abbrev slow : Completion ℕ
slow = record {
  index = 1;
  name = "mail";
  timeout_error = codes "timeout";
  elapsed_ms = 5;
  outcome = timed_out;
}

abbrev quick : Completion ℕ
quick = record {
  index = 0;
  name = "db";
  timeout_error = codes "timeout";
  elapsed_ms = 7;
  outcome = returned up;
}

abbrev world : HealthWorld ℕ String ℕ
world = record {
  monotonic = clock;
  run_checks = λ w. (slow ∷ quick ∷ [], suc w);
  authorize = λ request w. (request == "secret", w);
}

abbrev config : HealthConfig
config = record { checks = 2; policy = lenient; detail_public = false; cache_ttl = 2 }

abbrev identity : Identity
identity = record {
  service_name = some "shop";
  service_version = none;
  own_version = "4.6.0";
  auth_version = some "3.2.1";
  is_space = λ c. false;
  same_letter = λ c d. false;
}

abbrev ready : AppState ℕ
ready = record { service_ready = true; ready_since = some 1; health_cache = none }

ready_consistent : HasConsistent world config ready
ready_consistent cache has = absurd (ground arith)

health-Told_example :
    Told world config identity "secret" ready 3 (health world config identity "secret" (ready, 3))
    × HasConsistent world config (health world config identity "secret" (ready, 3)).1.0
health-Told_example = health-Told world config identity "secret" ready 3 ready_consistent

task : (i : ℕ) → i < 2 → (t : Completion ℕ) × Memᴰ t (slow ∷ quick ∷ []) × (t.index ≡ i)
task zero lt = (quick, tail (head refl), refl)
task (suc zero) lt = (slow, head refl, refl)
task (suc (suc i)) lt = absurd (omega arith)

both : IsComplete config.checks (world.run_checks 3).0
both = record { distinct = ((λ e. absurd (omega (arith, e)), tt), (tt, tt)); every = task }

run_all_any_order_example :
    (cache : HealthCache ℕ) × ((run_all world config (ready, 3)).0 ≡ some cache)
    × (length cache.results ≡ 2)
    × ((t : Completion ℕ)
        → Memᴰ t (slow ∷ quick ∷ [])
        → t.index < 2
        → get_elem? cache.results t.index ≡ some (result_of t))
run_all_any_order_example = run_all_any_order world config ready 3 both

abbrev installed : Installed
installed = record {
  version = λ dist. some "3.2.1";
  contains = λ spec found. spec == ">=3.2.1,<4.0.0";
}

abbrev environment : Environment
environment = record {
  installed = installed;
  matrix = compat_matrix;
  minor = "4.6";
  observability = true;
  is_valid = λ served. true;
}

abbrev arguments : Arguments
arguments = record {
  service_name = none;
  service_version = none;
  own_authorizer = false;
  configure = none;
}

abbrev state : CompatState
state = record { checked = false; auth_version = none }

abbrev checked : CompatState
checked = record { checked = true; auth_version = some "3.2.1" }

abbrev reused_error : ReuseError → String
reused_error e = "reused"

abbrev app_of : ConsumerServiceSettings → Application String ℕ ℕ
app_of s = record {
  api = served environment s arguments;
  state = fresh;
  lifecycle = managed (pure tt) reused_error environment s arguments lifecycle;
}

created :
    create_app (pure tt) reused_error environment settings arguments lifecycle state
    ≡ (ok (app_of settings), checked)
unfolding program
created = refl

some_host : settings.allowed_hosts ≢ []
some_host e = absurd (ground arith)

abbrev testserver : String
testserver = "testserver"

-- a pattern of the middleware, without its wildcards but the one for any host
abbrev matches : String → String → Bool
matches pattern host = pattern == "*" || pattern == host

create_app-admits_example : admits matches testserver (app_of settings).api.middleware ≡ (
    any (λ pattern. matches pattern testserver) settings.allowed_hosts
    || (not (is_production settings) && matches "testserver" testserver))
create_app-admits_example =
    create_app-admits (pure tt) reused_error environment settings arguments lifecycle
      (app_of settings) state checked created matches testserver refl some_host

created_reusing :
    create_app (pure tt) reused_error environment reusing arguments lifecycle state
    ≡ (ok (app_of reusing), checked)
unfolding program
created_reusing = refl

create_app_reused_example :
    (e : String) × (w' : ℕ) × (lifespan clock (app_of reusing).lifecycle careless (fresh, 3)
      ≡ (raise e, (fresh, w')))
    × (fresh.service_ready ≡ false)
create_app_reused_example =
    create_app_reused (pure tt) reused_error environment reusing arguments lifecycle
      (app_of reusing) state checked created_reusing clock careless 3 reusing_dependent
